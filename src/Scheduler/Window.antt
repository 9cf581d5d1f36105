-- ===== src/Scheduler/Window.antt =====
-- internal/scheduler/scheduler.go, inBackupWindow: the hours at which a backup may start.
use opensourcebackup.Prelude.{
  Bool, String, arith, if◌then◌else◌, leb, ltb, str_eq, true, ℕ, ◌%◌, ◌&&◌, ◌*◌, ◌+◌, ◌-◌, ◌<◌,
  ◌||◌, ◌≡◌,
}
use opensourcebackup.Catalog.Models.{ScheduleConfig}

-- The hours and minutes that Sscanf reads with "%d:%d", 0 for what it does not read; a sign is not
-- modelled.
unfoldable pub parse_hhmm : (String → ℕ × ℕ) → String → ℕ
parse_hhmm scan s = (scan s).0 * 60 + (scan s).1

-- The test on minutes of the day.
unfoldable pub window_contains : ℕ → ℕ → ℕ → Bool
window_contains start_min end_min now_min =
    if leb start_min end_min
    then leb start_min now_min && ltb now_min end_min
    else leb start_min now_min || ltb now_min end_min

-- `now_min` is the minute of the day in the policy's time zone.
unfoldable pub in_backup_window : (String → ℕ × ℕ) → ScheduleConfig → ℕ → Bool
in_backup_window scan cfg now_min =
    if str_eq cfg.window_start "" || str_eq cfg.window_end ""
    then true
    else window_contains (parse_hhmm scan cfg.window_start) (parse_hhmm scan cfg.window_end) now_min

abbrev pub minutes_per_day : ℕ
minutes_per_day = 1_440

-- Minutes from one time of the day on to the next time that the clock shows another.
abbrev pub minutes_until : ℕ → ℕ → ℕ
minutes_until a b = (b + (minutes_per_day - a)) % minutes_per_day

-- On times of the day, the test agrees with the clock: a minute is in the window when fewer minutes
-- pass from the window's start to it than to the window's end, past midnight or not. So a window
-- whose start is its end contains no minute.
pub window_contains_lem :
    (start_min end_min now_min : ℕ)
    → start_min < minutes_per_day
    → end_min < minutes_per_day
    → now_min < minutes_per_day
    → window_contains start_min end_min now_min
      ≡ ltb (minutes_until start_min now_min) (minutes_until start_min end_min)
unfolding window_contains
window_contains_lem a b n ha hb hn = ground arith
