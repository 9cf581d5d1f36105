-- ===== src/Catalog/Dispatch/Limits.antt =====
-- internal/catalog/dispatch.go: the three ceilings. They are Go's `int`, and come from the
-- environment of cmd/control-plane/main.go, so they may be negative before `normalized`.
use opensourcebackup.Prelude.{Bool, Option, if◌then◌else◌, none, some, ℕ}
use opensourcebackup.Prelude.Int.{leb_ℤ, ltb_ℤ, pos, ℤ}

pub record DispatchLimits : Type 0 where
  pub global : ℤ
  pub per_repository : ℤ
  pub per_agent : ℤ

unfoldable pub default_dispatch_limits : DispatchLimits
default_dispatch_limits = record { global = pos 20; per_repository = pos 5; per_agent = pos 1 }

abbrev pub coerced : ℤ → ℤ
coerced l = if ltb_ℤ l (pos 1) then pos 1 else l

unfoldable pub normalized : DispatchLimits → DispatchLimits
normalized l = record {
  global = coerced l.global;
  per_repository = coerced l.per_repository;
  per_agent = coerced l.per_agent;
}

-- NewDispatchGuard: the defaults with another limit for the agents.
unfoldable pub new_dispatch_guard : ℤ → DispatchLimits
unfolding default_dispatch_limits normalized
new_dispatch_guard max_per_agent =
    normalized (record default_dispatch_limits { per_agent = max_per_agent })

-- What the environment gives for one limit: `none` is a variable that is unset or does not parse.
abbrev env_int : Option ℤ → ℤ → ℤ
env_int none cur = cur
env_int (some n) cur = n

-- dispatchLimitsFromEnv of cmd/control-plane/main.go.
unfoldable pub dispatch_limits_from_env : Option ℤ → Option ℤ → Option ℤ → DispatchLimits
unfolding default_dispatch_limits
dispatch_limits_from_env global per_repository per_agent = record {
  global = env_int global default_dispatch_limits.global;
  per_repository = env_int per_repository default_dispatch_limits.per_repository;
  per_agent = env_int per_agent default_dispatch_limits.per_agent;
}

-- running >= limit
abbrev pub at_least : ℕ → ℤ → Bool
at_least n limit = leb_ℤ limit (pos n)
