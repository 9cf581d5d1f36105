-- ===== src/Health/Tallies.antt =====
-- internal/health/score.go: the tally of the calculator, section by section, against the rules.
use mathlib.Core.List.{append-nil, map-append}
use opensourcebackup.Prelude.{List, [], ap, arith, refl, ℕ, ◌++◌, ◌+◌, ◌∙◌, ◌∷◌, ◌≡◌}
use opensourcebackup.Health.Digits.{Text}
use opensourcebackup.Health.Rules.{
  Penalty, agent_rules, backup_rules, encryption_rules, failure_rules, freshness_rules, penalties,
  priced, protection_rules, rate_rules, restore_rules, retention_rule, total,
}
use opensourcebackup.Health.Score.{
  Code, Input, Tally, add, backup_freshness, connectivity, encryption, failure_rate, good,
  protection, recent_failures, restore_coverage, restore_freshness, retention_rules, start_tally,
  tally,
}
use opensourcebackup.Prelude.Int.{pos, sub_ℕ, ◌-ℤ◌}

total-append : (ps qs : List Penalty) → total (ps ++ qs) ≡ total ps + total qs
total-append [] qs = omega arith
total-append ((p, c) ∷ ps) qs = omega (arith, total-append ps qs)

-- The tally has made the deductions of these rules, and no other.
pub record IsTallied (t : Tally) (ps : List Penalty) : Type 0 where
  pub priced_as : priced t.deductions ≡ ps
  pub scored : t.score ≡ sub_ℕ 100 (total ps)

sub_ℕ-charge : (n p : ℕ) → sub_ℕ 100 n -ℤ pos p ≡ sub_ℕ 100 (n + p)
sub_ℕ-charge n p = ground arith

charge :
    (p : ℕ) (c : Code) (r : Text) (t : Tally) (ps : List Penalty)
    → IsTallied t ps
    → IsTallied (add p c r t) (ps ++ (p, c) ∷ [])
unfolding add
charge p c r t ps h = record {
  priced_as = map-append _ t.deductions _ ∙ ap (λ l. l ++ (p, c) ∷ []) h.priced_as;
  scored =
      ap (λ s. s -ℤ pos p) h.scored
      ∙ sub_ℕ-charge (total ps) p
      ∙ ap (sub_ℕ 100) (omega (arith, total-append ps ((p, c) ∷ [])));
}

credit :
    (f : Text) (t : Tally) (ps : List Penalty) → IsTallied t ps → IsTallied (good f t) (ps ++ [])
unfolding good
credit f t ps h = rw (append-nil ps) (record { priced_as = h.priced_as; scored = h.scored })

-- The same as one piece, which the tactics carry whole.
data Tallied (t : Tally) (ps : List Penalty) : Type 0 where
  tallied : IsTallied t ps → Tallied t ps

charged :
    (p : ℕ) (c : Code) (r : Text) (t : Tally) (ps : List Penalty)
    → Tallied t ps
    → Tallied (add p c r t) (ps ++ (p, c) ∷ [])
charged p c r t ps (tallied h) = tallied (charge p c r t ps h)

credited : (f : Text) (t : Tally) (ps : List Penalty) → Tallied t ps → Tallied (good f t) (ps ++ [])
credited f t ps (tallied h) = tallied (credit f t ps h)

kept : (t : Tally) (ps : List Penalty) → Tallied t ps → Tallied t (ps ++ [])
kept t ps (tallied h) = rw (append-nil ps) (tallied h)

module _ (i : Input) (t : Tally) (ps : List Penalty) (h : Tallied t ps) where
  restore_coverage-Tallied : Tallied (restore_coverage i t) (ps ++ restore_rules i)
  unfolding restore_coverage
  restore_coverage-Tallied = grind (arith, charged, credited, kept)

  restore_freshness-Tallied : Tallied (restore_freshness i t) (ps ++ freshness_rules i)
  unfolding restore_freshness
  restore_freshness-Tallied = grind (arith, charged, credited, kept)

  backup_freshness-Tallied : Tallied (backup_freshness i t) (ps ++ backup_rules i)
  unfolding backup_freshness
  backup_freshness-Tallied = grind (arith, charged, credited, kept)

  recent_failures-Tallied : Tallied (recent_failures i t) (ps ++ failure_rules i)
  unfolding recent_failures
  recent_failures-Tallied = grind (arith, charged, credited, kept)

  failure_rate-Tallied : Tallied (failure_rate i t) (ps ++ rate_rules i)
  unfolding failure_rate
  failure_rate-Tallied = grind (arith, charged, credited, kept)

  connectivity-Tallied : Tallied (connectivity i t) (ps ++ agent_rules i)
  unfolding connectivity
  connectivity-Tallied = grind (arith, charged, credited, kept)

  protection-Tallied : Tallied (protection i t) (ps ++ protection_rules i)
  unfolding protection
  protection-Tallied = grind (arith, charged, credited, kept)

  encryption-Tallied : Tallied (encryption i t) (ps ++ encryption_rules i)
  unfolding encryption
  encryption-Tallied = grind (arith, charged, credited, kept)

  retention_rules-Tallied : Tallied (retention_rules i t) (ps ++ retention_rule i)
  unfolding retention_rules
  retention_rules-Tallied = grind (arith, charged, credited, kept)

start-Tallied : Tallied start_tally []
start-Tallied = tallied (record { priced_as = refl; scored = refl })

open_tallied : (t : Tally) (ps : List Penalty) → Tallied t ps → IsTallied t ps
open_tallied t ps (tallied h) = h

-- The sections of the calculator make the deductions of the rules, in order, and no other.
pub tally-IsTallied : (i : Input) → IsTallied (tally i) (penalties i)
unfolding tally
tally-IsTallied i = open_tallied _ _ (
    retention_rules-Tallied i _ _ (
      encryption-Tallied i _ _ (
        protection-Tallied i _ _ (
          connectivity-Tallied i _ _ (
            failure_rate-Tallied i _ _ (
              recent_failures-Tallied i _ _ (
                backup_freshness-Tallied i _ _ (
                  restore_freshness-Tallied i _ _
                    (restore_coverage-Tallied i _ _ start-Tallied)))))))))
