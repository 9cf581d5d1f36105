-- ===== src/Prelude/Lists.antt =====
-- Lists measured by native numbers and filtered by Boolean tests.
use Prim.Native.Nat.{ℕ, suc, ◌+◌, ◌≤◌}
use mathlib.Core.Path.{◌≡◌, refl}
use mathlib.Core.Bool.{Bool, true, false}
use mathlib.Core.List.{List, [], ◌∷◌, ◌++◌}
use native.Mathlib.Omega.{arith}
use mathlib.Core.Logic.{inl, inr}
use opensourcebackup.Prelude.Tests.{if◌then◌else◌, bit, Bool-cases}

module _ {ℓ} {A : Type ℓ} where
  abbrev pub length : List A → ℕ
  length [] = 0
  length (_ ∷ xs) = suc (length xs)

  -- Every element satisfies the predicate.
  abbrev pub All {κ} : (A → Type κ) → List A → Type κ
  All P [] = Unit
  All P (x ∷ xs) = P x × All P xs

  -- SELECT … WHERE.
  abbrev pub select_where : (A → Bool) → List A → List A
  select_where p [] = []
  select_where p (x ∷ xs) = if p x then x ∷ select_where p xs else select_where p xs

  -- SELECT count(*) … WHERE.
  abbrev pub count_where : (A → Bool) → List A → ℕ
  count_where p [] = 0
  count_where p (x ∷ xs) = bit (p x) + count_where p xs

  -- Some row satisfies the test.
  abbrev pub any_where : (A → Bool) → List A → Bool
  any_where p [] = false
  any_where p (x ∷ xs) = if p x then true else any_where p xs

  -- ORDER BY: insertion sort, where `before y x` says that y must stand before x. Rows that tie keep
  -- their order; PostgreSQL promises no order for them.
  abbrev pub insert_by : (A → A → Bool) → A → List A → List A
  insert_by before x [] = x ∷ []
  insert_by before x (y ∷ ys) = if before y x then y ∷ insert_by before x ys else x ∷ y ∷ ys

  abbrev pub order_by : (A → A → Bool) → List A → List A
  order_by before [] = []
  order_by before (x ∷ xs) = insert_by before x (order_by before xs)

  pub length-append : (xs ys : List A) → length (xs ++ ys) ≡ length xs + length ys
  length-append [] ys = omega arith
  length-append (x ∷ xs) ys = omega (arith, length-append xs ys)

  pub length-select_where :
      (p : A → Bool) (xs : List A) → length (select_where p xs) ≡ count_where p xs
  length-select_where p [] = refl
  length-select_where p (x ∷ xs) = ground (arith, length-select_where p xs)

  pub All-append {κ} : (P : A → Type κ) (xs ys : List A) → All P xs → All P ys → All P (xs ++ ys)
  All-append P [] ys hx hy = hy
  All-append P (x ∷ xs) ys hx hy = (hx.0, All-append P xs ys hx.1 hy)

  pub count_where-le :
      (q p : A → Bool)
      → ((x : A) → bit (q x) ≤ bit (p x))
      → (xs : List A) → count_where q xs ≤ count_where p xs
  count_where-le q p h [] = omega arith
  count_where-le q p h (x ∷ xs) = omega (arith, h x, count_where-le q p h xs)

  pub All-select_where {κ} :
      (P : A → Type κ) (p : A → Bool) (xs : List A) → All P xs → All P (select_where p xs)
  All-select_where P p [] h = tt
  All-select_where P p (x ∷ xs) h =
      let rest = All-select_where P p xs h.1 in
      elim (p x) as (λ b. All P (if b then x ∷ select_where p xs else select_where p xs)) [
        | true ↦ (h.0, rest)
        | false ↦ rest
      ]

  pub All-insert_by {κ} :
      (P : A → Type κ) (before : A → A → Bool) (x : A) (xs : List A)
      → P x
      → All P xs
      → All P (insert_by before x xs)
  All-insert_by P before x [] hx h = (hx, tt)
  All-insert_by P before x (y ∷ ys) hx h =
      let rest = All-insert_by P before x ys hx h.1 in
      elim (before y x) as (λ b. All P (if b then y ∷ insert_by before x ys else x ∷ y ∷ ys)) [
        | true ↦ (h.0, rest)
        | false ↦ (hx, h)
      ]

  pub All-order_by {κ} :
      (P : A → Type κ) (before : A → A → Bool) (xs : List A) → All P xs → All P (order_by before xs)
  All-order_by P before [] h = tt
  All-order_by P before (x ∷ xs) h =
      All-insert_by P before x (order_by before xs) h.0 (All-order_by P before xs h.1)

  -- An element that a count counts.
  pub count_where-witness {κ} :
      (P : A → Type κ) (q : A → Bool) (xs : List A)
      → 1 ≤ count_where q xs
      → All P xs
      → (x : A) × (q x ≡ true) × P x
  count_where-witness P q [] c h = ground arith
  count_where-witness P q (x ∷ xs) c h = elim (Bool-cases (q x)) [
    | inl hit ↦ (x, hit, h.0)
    | inr miss ↦ count_where-witness P q xs (ground (arith, miss, c)) h.1
  ]
