-- ===== src/Catalog/Jobs/Rows.antt =====
-- internal/catalog/jobs.go: the SET and WHERE clauses of each UPDATE, as functions of one row.
use opensourcebackup.Prelude.{
  ℕ, ◌+◌, String, Bool, ◌&&◌, ◌||◌, Option, none, some, ltb, if◌then◌else◌, str_eq,
}
use opensourcebackup.Catalog.Models.{
  BackupJob, JobProgress, JobStatus, running, success, failed, cancelled, is_pending, is_running,
}

-- status IN ('running','pending')
abbrev pub is_open : JobStatus → Bool
is_open s = is_running s || is_pending s

unfoldable pub set_running : ℕ → BackupJob → BackupJob
set_running now j = record j { status = running; started_at = some now }

unfoldable pub set_success : ℕ → ℕ → BackupJob → BackupJob
set_success bytes now j = record j {
  status = success;
  finished_at = some now;
  bytes_uploaded = some bytes;
}

unfoldable pub set_failed : String → ℕ → BackupJob → BackupJob
set_failed summary now j = record j {
  status = failed;
  finished_at = some now;
  error_summary = some summary;
}

-- NULLIF(s, '')
abbrev pub null_if_empty : String → Option String
null_if_empty s = if str_eq s "" then none else some s

unfoldable pub set_cancelled : String → ℕ → BackupJob → BackupJob
set_cancelled reason now j = record j {
  status = cancelled;
  finished_at = some now;
  error_summary = null_if_empty reason;
}

unfoldable pub set_progress : JobProgress → ℕ → BackupJob → BackupJob
set_progress p now j = record j { progress = p; last_progress_at = some now }

-- 100 percent, in thousandths.
abbrev pub full_percent : ℕ
full_percent = 100_000

unfoldable pub set_full : ℕ → BackupJob → BackupJob
set_full now j = record j {
  progress = record j.progress { percent = full_percent };
  last_progress_at = some now;
}

unfoldable pub set_cancel_requested : String → ℕ → BackupJob → BackupJob
set_cancel_requested reason now j = record j {
  cancel_requested_at = some now;
  cancel_reason = reason;
}

-- COALESCE(started_at, created_at)
abbrev pub started_or_created : BackupJob → ℕ
started_or_created j = elim j.started_at [ none ↦ j.created_at | some t ↦ t ]

-- The WHERE clauses of FailStaleJobs. `t < now - grace` is written as `t + grace < now`, which says
-- the same of signed times.
unfoldable pub is_silent : ℕ → ℕ → ℕ → BackupJob → Bool
is_silent progress_grace start_grace now j = is_running j.status && elim j.last_progress_at [
  | some t ↦ ltb (t + progress_grace) now
  | none ↦ ltb (started_or_created j + start_grace) now
]

unfoldable pub is_unclaimed : ℕ → ℕ → BackupJob → Bool
is_unclaimed pending_grace now j = is_pending j.status && ltb (j.created_at + pending_grace) now

abbrev pub running_reason : String
running_reason = "auto-failed: no agent heartbeat — the agent may have crashed or lost connection"

abbrev pub pending_reason : String
pending_reason = "auto-failed: never picked up by an agent — the target agent appears offline"
