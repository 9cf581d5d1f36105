-- ===== src/Api/HealthScore/Freshness.antt =====
-- internal/api/health_score.go with agent_restore_tests.go: the restore test freshness that the score
-- sees of tests that agents run.
use opensourcebackup.Catalog.RestoreTests
use opensourcebackup.Prelude.{
  All, Bool, Bool-cases, List, Option, Option-cases, String, [], any_where, ap, arith, count_where,
  false, if◌then◌else◌, inl, inr, length, none, refl, some, subst, sym, true, ℕ, ◌&&◌, ◌++◌, ◌==◌,
  ◌∷◌, ◌≡◌, ◌≤◌, ◌⊎◌,
}
use opensourcebackup.Api.HealthScore.{
  compute_score, count_verified_snapshots, latest_restore_test, score_input,
}
use opensourcebackup.Api.Http.{Body, error, finish-require_body, go, http_status_for_error, stop}
use opensourcebackup.Api.RestoreTests.{
  TestAnswer, VerifiedBody, claim_reply, claim_test, complete_agent_restore_test,
  fail_agent_restore_test, list_agent_restore_tests, write_updated,
}
use opensourcebackup.Api.Server.{Server, Surroundings}
use opensourcebackup.Catalog.Models.{
  RestoreTest, Result, StoreError, err, is_success, not_found, ok, restore_test_key,
}
use opensourcebackup.Catalog.RestoreTests.{claim_row, on_test, set_claimed, set_test}
use opensourcebackup.Health.Penalties.{at_time, calculate-penalties}
use opensourcebackup.Health.Rules.{Penalty, freshness_rules, penalties, priced, restore_rules}
use opensourcebackup.Health.Score.{Input, ScoreResult, restore_test_stale}
use opensourcebackup.Prelude.Table.{count_where-append, find, update_where}

abbrev pub IsUnfinished : RestoreTest → Type 0
IsUnfinished rt = rt.finished_at ≡ none

-- What an agent does to restore tests.
pub data TestCall : Type 0 where
  call_claim : TestCall
  call_complete_test : Option ℕ → Body VerifiedBody → TestCall
  call_fail_test : Option ℕ → Body String → TestCall

unfoldable pub serve_test : Surroundings → TestCall → Option ℕ → Server → TestAnswer
serve_test env call_claim system s = list_agent_restore_tests env system s
serve_test env (call_complete_test path b) system s =
    complete_agent_restore_test env (record { system = system; path_id = path; body = b }) s
serve_test env (call_fail_test path b) system s =
    fail_agent_restore_test env (record { system = system; path_id = path; body = b }) s

update_where-All :
    (p : RestoreTest → Bool) (f : RestoreTest → RestoreTest) (tests' : List RestoreTest)
    → ((x : RestoreTest) → IsUnfinished x → IsUnfinished (f x))
    → All IsUnfinished tests'
    → All IsUnfinished (update_where p f tests')
unfolding update_where
update_where-All p f [] h a = tt
update_where-All p f (x ∷ xs) h a = elim (Bool-cases (p x)) [
  | inl hit ↦ rw hit (h x a.0, update_where-All p f xs h a.1)
  | inr miss ↦ rw miss (a.0, update_where-All p f xs h a.1)
]

latest_restore_test-none :
    (tests' : List RestoreTest) → All IsUnfinished tests' → latest_restore_test tests' none ≡ none
unfolding latest_restore_test
latest_restore_test-none [] a = refl
latest_restore_test-none (rt ∷ rts) a = elim (Bool-cases (is_success rt.status)) [
  | inl hit ↦ rw (hit, a.0) (latest_restore_test-none rts a.1)
  | inr miss ↦ rw miss (latest_restore_test-none rts a.1)
]

abbrev is_stale : Penalty → Bool
is_stale (_, restore_test_stale) = true
is_stale _ = false

abbrev pub stale_deductions : ScoreResult → ℕ
stale_deductions r = count_where is_stale (priced r.deductions)

in-left : (ps qs : List Penalty) → 1 ≤ count_where is_stale ps → 1 ≤ count_where is_stale (ps ++ qs)
in-left ps qs h = omega (arith, h, count_where-append is_stale ps qs)

in-right :
    (ps qs : List Penalty) → 1 ≤ count_where is_stale qs → 1 ≤ count_where is_stale (ps ++ qs)
in-right ps qs h = omega (arith, h, count_where-append is_stale ps qs)

count_where-length {ℓ} : {A : Type ℓ} (q : A → Bool) (xs : List A) → count_where q xs ≤ length xs
count_where-length q [] = omega arith
count_where-length q (x ∷ xs) = ground (arith, count_where-length q xs)

penalties-stale :
    (i : Input)
    → 1 ≤ i.total_snapshots
    → 1 ≤ i.verified_snapshots
    → i.last_restore_test_at ≡ none
    → 1 ≤ count_where is_stale (penalties i)
penalties-stale i t v l =
    let due : 1 ≤ count_where is_stale (freshness_rules i) = ground (arith, t, v, l) in
    in-left _ _ (
      in-left _ _ (
        in-left _ _ (
          in-left _ _ (
            in-left _ _
              (in-left _ _ (in-left _ _ (in-right (restore_rules i) (freshness_rules i) due)))))))

abbrev from_some : RestoreTest → Option RestoreTest → RestoreTest
from_some d none = d
from_some d (some rt) = rt

find-All :
    (id : ℕ) (tests' : List RestoreTest) (rt : RestoreTest)
    → find restore_test_key id tests' ≡ some rt
    → All IsUnfinished tests'
    → IsUnfinished rt
unfolding find
find-All id [] rt h a = absurd (ground (arith, h))
find-All id (x ∷ xs) rt h a = elim (Bool-cases (restore_test_key x == id)) [
  | inl hit ↦
      let same : some x ≡ some rt = ground (arith, hit, h) in
      subst IsUnfinished (ap (from_some x) same) a.0
  | inr miss ↦ find-All id xs rt (ground (arith, miss, h)) a.1
]

abbrev if_pair :
    Bool
    → Result StoreError (Unit {0}) × List RestoreTest
    → Result StoreError (Unit {0}) × List RestoreTest
    → Result StoreError (Unit {0}) × List RestoreTest
if_pair b x y = if b then x else y

same-table :
    (P : List RestoreTest → Type 0) (b : Bool)
    (x y : Result StoreError (Unit {0}) × List RestoreTest)
    → P x.1
    → P y.1
    → P (if_pair b x y).1
same-table P true x y hx hy = hx
same-table P false x y hx hy = hy

update-All :
    (rt : RestoreTest) (now : ℕ) (tests' : List RestoreTest)
    → IsUnfinished rt
    → All IsUnfinished tests'
    → All IsUnfinished (RestoreTests.update rt now tests').1
unfolding RestoreTests.update
update-All rt now tests' h a =
    let kept = update_where-All (on_test rt.id) (set_test rt now) tests' (λ _ _. h) a in
    same-table (All IsUnfinished) _ (ok tt, _) (err not_found, _) kept kept

claim_row-All :
    (o : Option RestoreTest) (now : ℕ) (tests' : List RestoreTest)
    → All IsUnfinished tests'
    → All IsUnfinished (claim_row o now tests').1
claim_row-All none now tests' a = a
claim_row-All (some rt) now tests' a =
    update_where-All (on_test rt.id) (set_claimed now) tests' (λ _ h. h) a

claim_reply-tests :
    (s : Server) (r : Result StoreError RestoreTest) (t : List RestoreTest)
    → (claim_reply s (r, t)).1.restore_tests ≡ t
claim_reply-tests s (ok rt) t = refl
claim_reply-tests s (err e) t = refl

write_updated-tests :
    (rt : RestoreTest) (now : ℕ) (r : Result StoreError (Unit {0})) (t : List RestoreTest)
    (s : Server)
    → (write_updated rt now (r, t) s).1.restore_tests ≡ t
write_updated-tests rt now (ok _) t s = refl
write_updated-tests rt now (err e) t s = refl

claim_test-cases :
    {B : Type 0} (system path_id : Option ℕ) (b : Body B) (s : Server)
    → All IsUnfinished s.restore_tests
    → let claim = claim_test (record { system = system; path_id = path_id; body = b }) s in
      ((c : ℕ) × (claim ≡ stop (error c, s)))
      ⊎ ((rt : RestoreTest) × IsUnfinished rt × (claim ≡ go rt))
unfolding claim_test RestoreTests.get_by_id
claim_test-cases system none b s a = inl (400, refl)
claim_test-cases none (some id) b s a = inl (401, refl)
claim_test-cases (some system_id) (some id) b s a =
    elim (Option-cases (find restore_test_key id s.restore_tests)) [
      | inl missing ↦ inl (http_status_for_error not_found, rw missing refl)
      | inr (rt, there) ↦ elim (Bool-cases (rt.system_id == system_id)) [
        | inl same ↦ inr (rt, find-All id s.restore_tests rt there a, rw (there, same) refl)
        | inr differs ↦ inl (404, rw (there, differs) refl)
      ]
    ]

abbrev Keeps : TestAnswer → Type 0
Keeps answer = All IsUnfinished answer.1.restore_tests

written-Keeps :
    (rt : RestoreTest) (now : ℕ) (s : Server)
    → IsUnfinished rt
    → All IsUnfinished s.restore_tests
    → Keeps (write_updated rt now (RestoreTests.update rt now s.restore_tests) s)
written-Keeps rt now s h a =
    let r = RestoreTests.update rt now s.restore_tests in
    subst (All IsUnfinished) (sym (write_updated-tests rt now r.0 r.1 s))
      (update-All rt now s.restore_tests h a)

-- Where no restore test has a finishing time, none has one after any call of an agent on restore
-- tests, a report of success included.
pub serve_test-IsUnfinished :
    (env : Surroundings) (call : TestCall) (system : Option ℕ) (s : Server)
    → All IsUnfinished s.restore_tests
    → All IsUnfinished (serve_test env call system s).1.restore_tests
unfolding serve_test list_agent_restore_tests complete_agent_restore_test fail_agent_restore_test
    RestoreTests.claim_next_pending
serve_test-IsUnfinished env call_claim none s a = a
serve_test-IsUnfinished env call_claim (some system_id) s a =
    let r = RestoreTests.claim_next_pending system_id env.now s.restore_tests in
    subst (All IsUnfinished) (sym (claim_reply-tests s r.0 r.1))
      (claim_row-All _ env.now s.restore_tests a)
serve_test-IsUnfinished env (call_complete_test path b) system s a =
    elim (claim_test-cases system path b s a) [
      | inl (c, stopped) ↦ rw stopped a
      | inr (rt, h, goes) ↦
          rw goes
            (finish-require_body Keeps _ b _ (λ _ _. a) (λ v _. written-Keeps _ env.now s h a))
    ]
serve_test-IsUnfinished env (call_fail_test path b) system s a =
    elim (claim_test-cases system path b s a) [
      | inl (c, stopped) ↦ rw stopped a
      | inr (rt, h, goes) ↦
          rw goes
            (finish-require_body Keeps _ b _ (λ _ _. a) (λ v _. written-Keeps _ env.now s h a))
    ]

-- Where no restore test has a finishing time and a snapshot is verified, the score deducts for
-- stale restore tests, at any time of the tests.
pub compute_score-stale :
    (now : ℕ) (s : Server)
    → All IsUnfinished s.restore_tests
    → 1 ≤ count_verified_snapshots s.snapshots s.restore_tests
    → 1 ≤ stale_deductions (compute_score now s)
unfolding compute_score score_input count_verified_snapshots
compute_score-stale now s a v =
    let i = score_input now s in
    let total_ : 1 ≤ length s.snapshots = omega (
      arith,
      v,
      count_where-length
          (λ sn. any_where (λ rt. is_success rt.status && rt.snapshot_id == sn.id) s.restore_tests)
          s.snapshots,
    ) in
    let unseen = latest_restore_test-none s.restore_tests a in
    let due : 1 ≤ count_where is_stale (penalties (at_time now i)) =
      elim (now == 0)
        as (λ b. 1 ≤ count_where is_stale (penalties (if b then record i { now = now } else i))) [
          | true ↦ penalties-stale (record i { now = now }) total_ v unseen
          | false ↦ penalties-stale i total_ v unseen
        ] in
    subst (λ ps. 1 ≤ count_where is_stale ps) (sym (calculate-penalties now i).0) due
