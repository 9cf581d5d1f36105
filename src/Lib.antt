-- ===== src/Lib.antt =====
-- opensourcebackup: a control plane that dispatches restic backups to agents, written in Go. This
-- library models the core of the control plane, the agent and the scheduler, and proves the theorems
-- listed below of the model.
--
-- The program's parts, and the modules that model them. The catalog (internal/catalog) is a
-- PostgreSQL database of jobs, policies, systems, repositories, snapshots and restore tests. Agents
-- poll the HTTP interface (internal/api) for jobs, start them through the dispatch guard, report
-- progress and the end, validate what retention may remove, and run restore tests. A reaper fails
-- jobs that nobody works on. The health score (internal/health) is computed from the catalog.
--
--   Prelude            Boolean tests, list functions over the native numbers, integers for Go's
--                      int (Prelude.Int), and tables of rows with their laws (Prelude.Table)
--   Catalog.Models     internal/catalog/models.go and errors.go: the records and sentinel errors
--   Catalog.Jobs       internal/catalog/jobs.go: Rows has the SET and WHERE clauses, Statements one
--                      function for each method that writes (applyTransition, StartJob,
--                      CompleteJob, FailJob, CancelJob, Update, UpdateProgress, FinalizeProgress,
--                      RequestCancel, FailStaleJobs, Create, Delete), Queries the methods that
--                      read; Transitions, Lifecycle and Reaper hold the theorems
--   Catalog.Dispatch   internal/catalog/dispatch.go: Limits and Guard (AdmitStart, one function for
--                      each gate); Gates, Slots and Capacity hold the theorems
--   Catalog.OperationState, Systems, Repositories, Snapshots, RestoreTests, Policies
--                      the files of the same names in internal/catalog; Policies.Storage is about
--                      what the table of policies keeps
--   Health             internal/health/score.go (Score, Digits) and alerts.go (Alerts); Rules has the
--                      table of rules that Tallies and Penalties compare the score with, Ordering
--                      the order and the count of the alerts
--   Audit              internal/audit/audit.go: entries, their builder and Append
--   Api                internal/api: Http (handler.go), Server (the state behind the handlers),
--                      AgentJobs (agent_jobs.go) with Ownership, Claims, Isolation, Reports, Retention
--                      (agent_retention.go) with Safety, Removal and Overwriting, RestoreTests
--                      (agent_restore_tests.go), HealthScore (health_score.go) with Freshness
--   Secrets            internal/secrets/resolution.go, with Authorization
--   Agent              internal/agent: Client (client/client.go), Outbox (outbox/outbox.go) with Contents,
--                      Delivery (reportTerminal, tryDeliver, deliver, drainOutbox of agent.go) with
--                      Stored, Kept, and Network with Once, where the handlers of Api.AgentJobs answer
--                      over a network that loses calls; Execution (executeJob, executeVerifyJob,
--                      executeNextRestoreTest, poll) with Progress, Backup, Checks, Poll and Endings;
--                      Restic (restic/runner.go) with Sandbox (validateRestorePath)
--   Scheduler          internal/scheduler/scheduler.go: Window (inBackupWindow), Entries (reload),
--                      Dispatch (systemsForPolicy and the three dispatch functions) with Counts, and
--                      Watch (checkDeadMan, cleanStaleRestoreTests, runStaleJobReaper)
--   Auth               internal/auth: Users (users.go), Sessions (rbac_session.go), Enrollment
--                      (enrollment_store.go) with Once, and AgentTokens (agent_token_store.go)
--   Api.Users          internal/api/users.go and rbac.go, with AdminCount, LastAdmin and Revocation
--   Api.Jobs, Api.Systems, Api.Enrollment
--                      the handlers for operators in the files of the same names in internal/api
--   Security           internal/security: RateLimit (ratelimit.go) with Bound, and Csrf (csrf.go)
--   Scenarios          a small catalog, and the theorems at it
--
-- Conventions. A table is the list of its rows; an UPDATE changes the rows that its WHERE clause
-- selects, and the rows affected are counted. A UUID is a number. An instant is the number of
-- nanoseconds since Go's zero time, and a duration is a number of nanoseconds. A handler takes the
-- request as the middleware, uuid.Parse and encoding/json leave it, and returns the response and the
-- state. A clock is read through an argument. What the program takes from libraries (the text of a
-- UUID, Sprintf, TrimSpace, the hash of an address, the keys that the database makes) is an argument.
-- Statements of one transaction that may fail technically are named by Stage, and a function says
-- which of them do. One operation of a store is one step: AdmitStart decides under an advisory lock,
-- and the other transitions are single conditional statements. A handler is one step too, so what
-- another caller does between two statements of one handler is not modelled.
--
-- Bounds. The decimal printer writes into 20 bytes, which every int from 0 on fits (Digits). The percentage
-- of the failure rate is compared in whole numbers, with which the floating point of the source agrees
-- below 2^50. No function of the model runs on fuel but the printer, whose fuel is its buffer.
--
-- A rate limiter counts parts of a token, which stand for the floats of the source. The passages of a
-- network and the steps of an agent are lists, over which the functions recur.
--
-- Foreign keys are modelled at deletions; an insertion is of a row whose references exist. The text of an
-- error answer is modelled in claimJob only.
--
-- Not modelled: the connection to the database and its failures outside AdmitStart, JSON, HTTP and
-- TLS, the web interface, processes and the files that a restore writes, cron expressions, the legacy
-- single password, the handlers for operators on policies, repositories and reports, metrics and
-- notifications.
pub mod Prelude
pub mod Catalog
pub mod Health
pub mod Audit
pub mod Secrets
pub mod Api
pub mod Agent
pub mod Scheduler
pub mod Auth
pub mod Security
pub mod Scenarios
