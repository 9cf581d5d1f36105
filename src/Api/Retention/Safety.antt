-- ===== src/Api/Retention/Safety.antt =====
-- internal/api/agent_retention.go: the safety rule of validation.
use opensourcebackup.Prelude.{
  All, Bool, Bool-cases, List, String, [], ap, arith, count_where, count_where-le, false,
  if◌then◌else◌, inl, inr, ltb, not, refl, select_where, str_eq, str_eq_iff, subst, sym, true, ℕ,
  ◌&&◌, ◌+◌, ◌<◌, ◌==◌, ◌∙◌, ◌∷◌, ◌≡◌, ◌≤◌, ◌⊎◌,
}
use opensourcebackup.Api.Retention.{
  Latest, judge, later, latest_verified, listed, protected_id, protects, surviving_verified, unix,
}
use opensourcebackup.Catalog.Models.{Snapshot}
use opensourcebackup.Catalog.Snapshots.{Snapshots}

-- The rows that the rule counts on: a snapshot that agents register has a nonempty engine id and
-- the database's time.
pub record IsDated (sn : Snapshot) : Type 0 where
  pub named : str_eq sn.engine_snapshot_id "" ≡ false
  pub timed : 0 < unix sn.created_at

str_eq_refl : (e : String) → str_eq e e ≡ true
str_eq_refl e = (str_eq_iff e e).1 refl

-- The ids that a filter keeps, read at a key.
listed-select_where :
    (e : String) (p : String → Bool) (ids : List String)
    → listed e (select_where p ids) ≡ (p e && listed e ids)
listed-select_where e p [] = ground arith
listed-select_where e p (id ∷ ids) = elim (Bool-cases (str_eq e id)) [
  | inl same ↦
      let eq = (str_eq_iff e id).0 same in
      ground (arith, same, ap p eq, listed-select_where e p ids)
  | inr differs ↦ ground (arith, differs, listed-select_where e p ids)
]

-- The rest of this section is about one list of candidates and one set of verified snapshots.
module _ (has_test : ℕ → Bool) (ids : List String) where
  -- A verified snapshot whose engine id is a candidate's.
  abbrev is_threatened : Snapshot → Bool
  is_threatened sn = has_test sn.id && listed sn.engine_snapshot_id ids

  -- The engine id is that of a verified snapshot of the list.
  abbrev chosen : String → Snapshot → Bool
  chosen e sn = has_test sn.id && str_eq sn.engine_snapshot_id e

  abbrev IsChosen : Latest → Snapshots → Type 0
  IsChosen best sns =
      (1 ≤ count_where (chosen best.engine_id) sns) × (str_eq best.engine_id "" ≡ false)

  -- The loop ended with a snapshot of the list, or with what it began with, and has then met no
  -- threatened snapshot that is later.
  abbrev Ended : Latest → Snapshots → Latest → Type 0
  Ended best sns r =
      IsChosen r sns ⊎ ((r ≡ best) × ((best.time ≡ 0) → count_where is_threatened sns ≡ 0))

  latest_verified-Ended :
      (sns : Snapshots) (best : Latest)
      → All IsDated sns
      → Ended best sns (latest_verified has_test ids sns best)
  unfolding latest_verified
  latest_verified-Ended [] best d = inr (refl, λ _. refl)
  latest_verified-Ended (sn ∷ sns) best d =
      elim (Bool-cases (is_threatened sn && ltb best.time (unix sn.created_at))) [
        | inl moves ↦
            let now_best : Latest = record {
              time = unix sn.created_at;
              engine_id = sn.engine_snapshot_id;
            } in
            let step_eq : later has_test ids sn best ≡ now_best = ground (arith, moves) in
            subst (λ l. Ended best (sn ∷ sns) (latest_verified has_test ids sns l)) (sym step_eq)
              (inl (elim (latest_verified-Ended sns now_best d.1) [
                | inl c ↦ (omega (arith, c.0), c.1)
                | inr (same, _) ↦
                    subst (λ l. IsChosen l (sn ∷ sns)) (sym same) (first_chosen moves, d.0.named)
              ]))
        | inr stays ↦
            let step_eq : later has_test ids sn best ≡ best = ground (arith, stays) in
            subst (λ l. Ended best (sn ∷ sns) (latest_verified has_test ids sns l)) (sym step_eq)
              (elim (latest_verified-Ended sns best d.1) [
                | inl c ↦ inl (omega (arith, c.0), c.1)
                | inr (same, clear) ↦ inr (same, λ z. ground (arith, stays, clear z, d.0.timed, z))
              ])
      ]
    where
      first_chosen :
          (is_threatened sn && ltb best.time (unix sn.created_at)) ≡ true
          → 1 ≤ count_where (chosen sn.engine_snapshot_id) (sn ∷ sns)
      first_chosen h = ground (arith, h, str_eq_refl sn.engine_snapshot_id)

  abbrev approved : String → List String
  approved kept = select_where (λ id. not (protects kept id)) ids

  untouched-survives :
      (kept : String) (sns : Snapshots)
      → surviving_verified has_test ids sns ≤ surviving_verified has_test (approved kept) sns
  unfolding surviving_verified
  untouched-survives kept sns =
      count_where-le _ _
        (λ sn.
          ground
            (arith, listed-select_where sn.engine_snapshot_id (λ id. not (protects kept id)) ids))
        sns

  chosen-survives :
      (kept : String) (sns : Snapshots)
      → str_eq kept "" ≡ false
      → count_where (chosen kept) sns ≤ surviving_verified has_test (approved kept) sns
  unfolding surviving_verified
  chosen-survives kept sns named =
      count_where-le _ _
        (λ sn. elim (Bool-cases (str_eq sn.engine_snapshot_id kept)) [
          | inl same ↦
              let eq = (str_eq_iff sn.engine_snapshot_id kept).0 same in
              ground (
                arith,
                same,
                named,
                listed-select_where sn.engine_snapshot_id (λ id. not (protects kept id)) ids,
                str_eq_refl kept,
                ap (str_eq kept) eq,
              )
          | inr differs ↦ ground (arith, differs)
        ])
        sns

  verified-split :
      (sns : Snapshots)
      → count_where (λ sn. has_test sn.id) sns
        ≡ surviving_verified has_test ids sns + count_where is_threatened sns
  unfolding surviving_verified
  verified-split [] = refl
  verified-split (sn ∷ sns) = ground (arith, verified-split sns)

  -- If some snapshot of the system is verified, one that is verified is left when the approved
  -- candidates are removed, whatever the candidates are.
  pub judge-survivor :
      (sns : Snapshots)
      → All IsDated sns
      → 1 ≤ count_where (λ sn. has_test sn.id) sns
      → 1 ≤ surviving_verified has_test (judge has_test ids sns).approved_ids sns
  unfolding judge protected_id
  judge-survivor sns d h = elim (Bool-cases (surviving_verified has_test ids sns == 0)) [
    | inl none_left ↦
        let best : Latest = record { time = 0; engine_id = "" } in
        let kept = (latest_verified has_test ids sns best).engine_id in
        subst (λ k. 1 ≤ surviving_verified has_test (approved k) sns)
          (sym (ap (λ b. if b then kept else "") none_left))
          (elim (latest_verified-Ended sns best d) [
            | inl c ↦ omega (arith, chosen-survives kept sns c.1, c.0)
            | inr (_, clear) ↦ ground (arith, none_left, clear refl, verified-split sns, h)
          ])
    | inr some_left ↦
        ground (arith, some_left, untouched-survives (protected_id has_test ids sns) sns)
  ]

  select_where-every :
      (l : List String)
      → (select_where (protects "") l ≡ []) × (select_where (λ id. not (protects "" id)) l ≡ l)
  select_where-every [] = (refl, refl)
  select_where-every (id ∷ l) =
      let (nothing, everything) = select_where-every l in (nothing, ap (id ∷◌) everything)

  no_need :
      (sns : Snapshots)
      → 1 ≤ surviving_verified has_test ids sns
      → protected_id has_test ids sns ≡ ""
  unfolding protected_id
  no_need sns left = ground (arith, left)

  -- If a verified snapshot of the system is no candidate, all candidates are approved in their
  -- order, and none is protected.
  pub judge-all_approved :
      (sns : Snapshots)
      → 1 ≤ surviving_verified has_test ids sns
      → ((judge has_test ids sns).approved_ids ≡ ids)
        × ((judge has_test ids sns).protected_ids ≡ [])
  unfolding judge
  judge-all_approved sns left =
      let kept_none : protected_id has_test ids sns ≡ "" = no_need sns left in
      let (nothing, everything) = select_where-every ids in
      (
        ap (λ k. select_where (λ id. not (protects k id)) ids) kept_none ∙ everything,
        ap (λ k. select_where (protects k) ids) kept_none ∙ nothing,
      )
