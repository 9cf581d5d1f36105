-- ===== src/Auth.antt =====
-- internal/auth: the users of the dashboard, their sessions, and the tokens that enroll agents.
pub mod Users
pub mod Sessions
pub mod Enrollment
pub mod AgentTokens
