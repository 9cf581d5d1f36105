-- ===== src/Health/Penalties.antt =====
-- internal/health/score.go: which deductions the calculator makes, and what they add up to.
use opensourcebackup.Prelude.{
  All, All-append, Bool, List, [], ap, arith, false, if◌then◌else◌, refl, str_eq_iff, subst, sym,
  true, ℕ, ◌++◌, ◌-◌, ◌<◌, ◌==◌, ◌↔◌, ◌∙◌, ◌∷◌, ◌≡◌, ◌≤◌,
}
use opensourcebackup.Health.Rules.{Penalty, only, penalties, priced, total}
use opensourcebackup.Health.Score.{Code, Deduction, Input, calculate, clamp, classify, other_code}
use opensourcebackup.Health.Tallies.{tally-IsTallied}
use opensourcebackup.Prelude.Int.{pos, sub_ℕ, ℤ}

-- The input with the time that the calculator uses.
abbrev pub at_time : ℕ → Input → Input
at_time wall input = if input.now == 0 then record input { now = wall } else input

-- The calculator deducts exactly what the rules say, each once and in their order, and the score is
-- 100 less their points, or 0 where they add up to more.
pub calculate-penalties :
    (wall : ℕ) (input : Input)
    → let r = calculate wall input in
      (priced r.deductions ≡ penalties (at_time wall input))
      × (r.score ≡ pos (100 - total (penalties (at_time wall input))))
unfolding calculate classify
calculate-penalties wall input =
    let t = tally-IsTallied (at_time wall input) in
    (t.priced_as, ap clamp t.scored ∙ clamp-sub (total (penalties (at_time wall input))))
  where
    clamp-sub : (n : ℕ) → clamp (sub_ℕ 100 n) ≡ pos (100 - n)
    clamp-sub n = ground arith

-- The codes that the calculator knows.
abbrev pub is_known : Code → Bool
is_known (other_code _) = false
is_known _ = true

-- Every rule costs something and has a known code.
abbrev pub IsRule : Penalty → Type 0
IsRule p = (0 < p.0) × (is_known p.1 ≡ true)

data Costs (ps : List Penalty) : Type 0 where
  costly : All IsRule ps → Costs ps

only-Costs : (b : Bool) (p : ℕ) (c : Code) → IsRule (p, c) → Costs (only b (p, c))
only-Costs true p c h = costly (h, tt)
only-Costs false p c h = costly tt

append-Costs : (ps qs : List Penalty) → Costs ps → Costs qs → Costs (ps ++ qs)
append-Costs ps qs (costly h) (costly k) = costly (All-append IsRule ps qs h k)

penalties-Costs : (i : Input) → Costs (penalties i)
penalties-Costs i =
    append-Costs _ _
      (append-Costs _ _
        (append-Costs _ _
          (append-Costs _ _
            (append-Costs _ _
              (append-Costs _ _
                (append-Costs _ _
                  (append-Costs _ _
                    (append-Costs _ _ (only-Costs _ 30 _ (omega arith, refl))
                      (only-Costs _ 15 _ (omega arith, refl)))
                    (only-Costs _ 10 _ (omega arith, refl)))
                  (append-Costs _ _ (only-Costs _ 20 _ (omega arith, refl))
                    (only-Costs _ 15 _ (omega arith, refl))))
                (only-Costs _ 20 _ (omega arith, refl)))
              (only-Costs _ 10 _ (omega arith, refl)))
            (append-Costs _ _ (only-Costs _ 10 _ (omega arith, refl))
              (only-Costs _ 5 _ (omega arith, refl))))
          (only-Costs _ 10 _ (omega arith, refl)))
        (only-Costs _ 5 _ (omega arith, refl)))
      (only-Costs _ 5 _ (omega arith, refl))

Costs-free : (ps : List Penalty) → Costs ps → total ps ≡ 0 → ps ≡ []
Costs-free [] h e = refl
Costs-free ((p, c) ∷ ps) (costly h) e = absurd (omega (arith, h.0.0))

priced-nil : (ds : List Deduction) → priced ds ≡ [] → ds ≡ []
priced-nil [] e = refl
priced-nil (d ∷ ds) e = cc

full_score : (s : ℤ) (n : ℕ) → s ≡ pos (100 - n) → s ≡ pos 100 → n ≡ 0
full_score s n h e = ground arith

excellent : (n : ℕ) → ((classify (pos (100 - n))).0 ≡ "Excellent") ↔ (n ≤ 10)
unfolding classify
excellent n = ground (
  arith,
  str_eq_iff "Good" "Excellent",
  str_eq_iff "Fair" "Excellent",
  str_eq_iff "At Risk" "Excellent",
)

at_risk : (n : ℕ) → ((classify (pos (100 - n))).0 ≡ "At Risk") ↔ (46 ≤ n)
unfolding classify
at_risk n = ground (
  arith,
  str_eq_iff "Good" "At Risk",
  str_eq_iff "Fair" "At Risk",
  str_eq_iff "Excellent" "At Risk",
)

label-classify :
    (wall : ℕ) (input : Input)
    → (calculate wall input).label ≡ (classify (calculate wall input).score).0
unfolding calculate
label-classify wall input = refl

-- The score is 100 exactly when nothing is deducted. The label is Excellent exactly when at most 10
-- points are, and At Risk exactly when 46 or more are.
pub calculate-label :
    (wall : ℕ) (input : Input)
    → let r = calculate wall input in
      ((r.score ≡ pos 100) ↔ (r.deductions ≡ []))
      × ((r.label ≡ "Excellent") ↔ (total (penalties (at_time wall input)) ≤ 10))
      × ((r.label ≡ "At Risk") ↔ (46 ≤ total (penalties (at_time wall input))))
calculate-label wall input =
    let i = at_time wall input in
    let (priced_as, scored) = calculate-penalties wall input in
    let named = label-classify wall input ∙ ap (λ s. (classify s).0) scored in
    (
      (
        λ full_. priced-nil _ (
            priced_as ∙ Costs-free (penalties i) (penalties-Costs i) (full_score _ _ scored full_)),
        λ empty. scored ∙ ap (λ n. pos (100 - total n)) (sym priced_as ∙ ap priced empty),
      ),
      rw named (excellent (total (penalties i))),
      rw named (at_risk (total (penalties i))),
    )

open_costly : (ps : List Penalty) → Costs ps → All IsRule ps
open_costly ps (costly h) = h

-- Every deduction of the calculator follows a rule.
pub calculate-IsRule :
    (wall : ℕ) (input : Input) → All IsRule (priced (calculate wall input).deductions)
calculate-IsRule wall input =
    subst (All IsRule) (sym (calculate-penalties wall input).0)
      (open_costly _ (penalties-Costs (at_time wall input)))
