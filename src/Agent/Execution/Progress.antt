-- ===== src/Agent/Execution/Progress.antt =====
-- internal/agent/agent.go, onProgress of executeJob: the throttle of live progress.
use opensourcebackup.Prelude.{
  All, Bool, Bool-cases, List, String, [], ap, arith, false, if◌then◌else◌, inl, inr, length, ltb,
  map, not, refl, suc, ℕ, ◌&&◌, ◌*◌, ◌+◌, ◌-◌, ◌/◌, ◌==◌, ◌||◌, ◌∷◌, ◌≡◌, ◌≤◌,
}
use opensourcebackup.Catalog.Models.{JobProgress, second}

-- What restic shows, with the time at which it shows it.
pub record Update : Type 0 where
  pub at : ℕ
  pub phase : String
  pub percent : ℕ
  pub bytes_done : ℕ
  pub total_bytes : ℕ
  pub files_done : ℕ
  pub total_files : ℕ

-- lastReport, where 0 is Go's zero time, and lastBytes.
pub record Throttle : Type 0 where
  pub last_report : ℕ
  pub last_bytes : ℕ

-- Bytes for each second since the last report: int64 of the quotient. Go divides floats, whose
-- rounding is not modelled.
unfoldable pub throughput : Throttle → Update → ℕ
throughput t u =
    if (t.last_report == 0) || (ltb u.bytes_done t.last_bytes)
    then 0
    else (u.bytes_done - t.last_bytes) * second / (u.at - t.last_report)

-- Less than two seconds since the last report.
unfoldable pub too_soon : Throttle → Update → Bool
too_soon t u = not (t.last_report == 0) && ltb (u.at - t.last_report) (2 * second)

abbrev progress_of : Throttle → Update → JobProgress
progress_of t u = record {
  phase = u.phase;
  percent = u.percent;
  bytes_done = u.bytes_done;
  bytes_total = u.total_bytes;
  files_done = u.files_done;
  files_total = u.total_files;
  throughput_bps = throughput t u;
}

-- The reports that the updates lead to, each with its time.
unfoldable pub on_progress : Throttle → List Update → List (ℕ × JobProgress)
on_progress t [] = []
on_progress t (u ∷ us) =
    let later = on_progress (record { last_report = u.at; last_bytes = u.bytes_done }) us in
    if too_soon t u then on_progress t us else (u.at, progress_of t u) ∷ later

abbrev payload : ℕ × JobProgress → JobProgress
payload r = r.1

abbrev pub on_progress_all : List Update → List JobProgress
on_progress_all us = map payload (on_progress (record { last_report = 0; last_bytes = 0 }) us)

-- All updates show between two times.
abbrev pub Within : ℕ → ℕ → List Update → Type 0
Within a b us = All (λ u. (a ≤ u.at) × (u.at ≤ b)) us

two_seconds-apart :
    (t : Throttle) (u : Update)
    → 1 ≤ t.last_report
    → too_soon t u ≡ false
    → t.last_report + 2 * second ≤ u.at
unfolding too_soon
two_seconds-apart t u p h = ground (arith, p, h)

length-map : {A B : Type 0} (f : A → B) (xs : List A) → length (map f xs) ≡ length xs
length-map f [] = refl
length-map f (x ∷ xs) = ap suc (length-map f xs)

-- Each report after the first follows two seconds after the one before.
on_progress-after :
    (us : List Update) (a b : ℕ) (t : Throttle)
    → Within a b us
    → 1 ≤ t.last_report
    → t.last_report ≤ b
    → 2 * second * length (on_progress t us) + t.last_report ≤ b
unfolding on_progress too_soon
on_progress-after [] a b t w p h = omega (arith, h)
on_progress-after (u ∷ us) a b t w p h =
    let rest = on_progress-after us a b t w.1 p h in
    let t' : Throttle = record { last_report = u.at; last_bytes = u.bytes_done } in
    elim (Bool-cases (too_soon t u)) [
      | inl soon ↦ rw soon rest
      | inr due ↦
          let apart = two_seconds-apart t u p due in
          rw due
            (omega (arith, apart, on_progress-after us a b t' w.1 (omega (arith, apart)) w.0.1))
    ]

-- However often restic shows its progress between two times, the reports that are sent number at
-- most one and one for each two seconds between these times.
pub on_progress_bound :
    (us : List Update) (a b : ℕ)
    → 1 ≤ a
    → Within a b us
    → 2 * second * length (on_progress_all us) ≤ (b - a) + 2 * second
unfolding on_progress too_soon
on_progress_bound [] a b p w = omega arith
on_progress_bound (u ∷ us) a b p w =
    let t' : Throttle = record { last_report = u.at; last_bytes = u.bytes_done } in
    omega (
      arith,
      length-map payload (on_progress t' us),
      w.0.0,
      w.0.1,
      on_progress-after us a b t' w.1 (omega (arith, p, w.0.0)) w.0.1,
    )
