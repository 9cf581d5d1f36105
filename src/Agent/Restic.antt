-- ===== src/Agent/Restic.antt =====
-- internal/agent/restic/runner.go: what the agent asks restic for, and what it makes of its output. A
-- process is given by its output and its exit; encoding/json tells what a line is.
pub mod Sandbox
use opensourcebackup.Prelude.{
  Bool, List, Option, String, [], false, if◌then◌else◌, length, ltb, none, some, str_eq, suc, true,
  zero, ℕ, ◌++◌, ◌-◌, ◌==◌, ◌∷◌,
}
use opensourcebackup.Agent.Client.{ClientError}
use opensourcebackup.Agent.Execution.{BackupOptions, BackupResult, BackupRun, RestoreOptions}
use opensourcebackup.Agent.Execution.Progress.{Update}
use opensourcebackup.Catalog.Models.{Result, err, ok}

-- A line of `restic backup --json`: progress, the summary, or anything else.
pub data OutputLine : Type 0 where
  status_line : Update → OutputLine
  summary_line : BackupResult → OutputLine
  other_line : OutputLine

-- How a process ends, with the code of an exec.ExitError.
pub data Exit : Type 0 where
  exit_zero : Exit
  exit_code : ℕ → Exit
  exit_failure : Exit

pub data ResticError : Type 0 where
  not_started : ResticError
  ended_badly : Exit → String → ResticError
  no_summary : String → ResticError
  init_failed : Exit → String → ResticError

-- restic could not read some files, but made a snapshot.
abbrev pub is_exit_3 : Exit → Bool
is_exit_3 (exit_code c) = c == 3
is_exit_3 _ = false

-- The progress in the order of the lines.
unfoldable pub progress_lines : List OutputLine → List Update
progress_lines [] = []
progress_lines (status_line u ∷ lines) = u ∷ progress_lines lines
progress_lines (_ ∷ lines) = progress_lines lines

-- The last summary counts.
unfoldable pub last_summary : Option BackupResult → List OutputLine → Option BackupResult
last_summary r [] = r
last_summary r (summary_line s ∷ lines) = last_summary (some s) lines
last_summary r (_ ∷ lines) = last_summary r lines

abbrev pub conclude : Exit → Option BackupResult → String → Result ResticError BackupResult
conclude exit_zero (some r) message = ok r
conclude exit_zero none message = err (no_summary message)
conclude e (some r) message = if is_exit_3 e then ok r else err (ended_badly e message)
conclude e none message = err (ended_badly e message)

-- A process that started, or not.
pub record Process : Type 0 where
  pub starts : Bool
  pub lines : List OutputLine
  pub exit : Exit
  pub stderr : String

unfoldable pub run_restic_backup : Process → List Update × Result ResticError BackupResult
run_restic_backup p =
    if p.starts
    then (progress_lines p.lines, conclude p.exit (last_summary none p.lines) p.stderr)
    else ([], err not_started)

-- initRepo: an existing repository is no error; `says_already` is strings.Contains on the output.
unfoldable pub init_repo : Exit → Bool → Bool
init_repo exit_zero says_already = true
init_repo _ says_already = says_already

abbrev with_text :
    (ResticError → String) → Result ResticError BackupResult → Result String BackupResult
with_text error_text (ok r) = ok r
with_text error_text (err e) = err (error_text e)

-- Backup: the unlock is best-effort, so only the other two steps decide. `error_text` gives the text of an error.
unfoldable pub restic_backup :
    (ResticError → String)
    → Exit
    → Bool
    → String
    → Process
    → List (Result ClientError Bool)
    → BackupRun
restic_backup error_text init says_already init_output p polls =
    let (shown, ended) = run_restic_backup p in
    if init_repo init says_already
    then record { updates = shown; polls = polls; ended = with_text error_text ended }
    else record {
      updates = [];
      polls = polls;
      ended = err (error_text (init_failed init init_output));
    }

-- The arguments of the commands.
abbrev password_args : String → List String
password_args password = if str_eq password "" then "--insecure-no-password" ∷ [] else []

abbrev with_flag : String → List String → List String
with_flag flag [] = []
with_flag flag (x ∷ xs) = flag ∷ x ∷ with_flag flag xs

unfoldable pub backup_args : (ℕ → String) → (ℕ → String) → BackupOptions → ℕ → List String
backup_args tag_text number_text o limit_kbps =
    "-r" ∷ o.repo ∷ "backup" ∷ "--json" ∷ o.includes
    ++ with_flag "--exclude" o.excludes
    ++ with_flag "--tag" (tag_text o.tag_policy ∷ [])
    ++ (if ltb 0 limit_kbps then "--limit-upload" ∷ number_text limit_kbps ∷ [] else [])
    ++ password_args o.password

unfoldable pub unlock_args : String → String → List String
unlock_args repo password = "-r" ∷ repo ∷ "unlock" ∷ password_args password

unfoldable pub check_args : String → String → Bool → List String
check_args repo password read_data =
    "-r" ∷ repo ∷ "check" ∷ (if read_data then "--read-data" ∷ [] else []) ++ password_args password

unfoldable pub restore_args : RestoreOptions → List String
restore_args o = "-r" ∷ o.repo ∷ "restore" ∷ o.snapshot_id ∷ "--target" ∷ o.target_path ∷ []

-- limitedBuffer, as the bytes that it holds.
abbrev pub max_stderr_bytes : ℕ
max_stderr_bytes = 8_192

abbrev pub take {ℓ} : {A : Type ℓ} → ℕ → List A → List A
take zero xs = []
take (suc n) [] = []
take (suc n) (x ∷ xs) = x ∷ take n xs

unfoldable pub write_limited : List ℕ → List ℕ → List ℕ
write_limited written p = written ++ take (max_stderr_bytes - length written) p
