-- ===== src/Prelude/Table.antt =====
-- A database table as the list of its rows, with a key in each row. UPDATE changes every row that
-- its WHERE clause selects, and the rows affected are counted before the change.
use Prim.Native.Nat.{ℕ, ◌+◌, ◌≤◌}
use mathlib.Core.Path.{◌≡◌, refl, sym, ap, ◌∙◌}
use mathlib.Core.Bool.{Bool, true, false, ◌&&◌}
use mathlib.Core.Option
use mathlib.Core.Option.{Option, none, some}
use mathlib.Core.List.{List, [], ◌∷◌, ◌++◌}
use native.Mathlib.Omega.{arith}
use mathlib.Core.Logic.{◌≢◌, inl, inr}
use opensourcebackup.Prelude.Tests.{◌==◌, if◌then◌else◌, bit, Bool-cases, ==_iff, ==_refl}
use opensourcebackup.Prelude.Lists.{count_where, All}

-- UPDATE … SET f WHERE p.
unfoldable pub update_where {ℓ} : {A : Type ℓ} → (A → Bool) → (A → A) → List A → List A
update_where p f [] = []
update_where p f (x ∷ xs) = (if p x then f x else x) ∷ update_where p f xs

-- DELETE … WHERE p.
unfoldable pub delete_where {ℓ} : {A : Type ℓ} → (A → Bool) → List A → List A
delete_where p [] = []
delete_where p (x ∷ xs) = if p x then delete_where p xs else x ∷ delete_where p xs

-- An update that selects no row changes nothing.
pub update_where-none {ℓ} :
    {A : Type ℓ} (p : A → Bool) (f : A → A) (xs : List A)
    → count_where p xs ≡ 0
    → update_where p f xs ≡ xs
unfolding update_where
update_where-none p f [] h = refl
update_where-none p f (x ∷ xs) h = ground (arith, update_where-none p f xs)

module _ {ℓ} {A : Type ℓ} (key : A → ℕ) where
  -- The row with a primary key.
  unfoldable pub find : ℕ → List A → Option A
  find i [] = none
  find i (x ∷ xs) = if key x == i then some x else find i xs

  -- Primary keys are distinct.
  abbrev pub Unique : List A → Type ℓ
  Unique [] = Unit
  Unique (x ∷ xs) = (find (key x) xs ≡ none) × Unique xs

  pub find-key : (i : ℕ) (xs : List A) {x : A} → find i xs ≡ some x → key x ≡ i
  unfolding find
  find-key i [] h = cc
  find-key i (x ∷ xs) {x = y} h = ground (arith, find-key i xs {x = y})

  pub find-update_where :
      (p : A → Bool) (f : A → A)
      → ((x : A) → key (f x) ≡ key x)
      → (i : ℕ) (xs : List A)
      → find i (update_where p f xs) ≡ Option.map (λ x. if p x then f x else x) (find i xs)
  unfolding find update_where
  find-update_where p f k i [] = refl
  find-update_where p f k i (x ∷ xs) = ground (arith, k x, find-update_where p f k i xs)

  pub update_where-Unique :
      (p : A → Bool) (f : A → A)
      → ((x : A) → key (f x) ≡ key x)
      → (xs : List A) → Unique xs
      → Unique (update_where p f xs)
  unfolding update_where
  update_where-Unique p f k [] u = tt
  update_where-Unique p f k (x ∷ xs) u =
      (ground (arith, k x, find-update_where p f k (key x) xs), update_where-Unique p f k xs u.1)

  -- No row has the key, so an update of that row changes nothing.
  pub update_where-missing :
      (i : ℕ) (c : A → Bool) (f : A → A) (xs : List A)
      → find i xs ≡ none
      → update_where (λ x. (key x == i) && c x) f xs ≡ xs
  unfolding find update_where
  update_where-missing i c f [] h = refl
  update_where-missing i c f (x ∷ xs) h = ground (arith, update_where-missing i c f xs)

  -- How an update of one row moves a count.
  pub count_where-update_where :
      (q c : A → Bool) (f : A → A) (i : ℕ) (xs : List A) {j : A}
      → Unique xs
      → find i xs ≡ some j
      → count_where q (update_where (λ x. (key x == i) && c x) f xs) + bit (q j)
        ≡ count_where q xs + bit (q (if c j then f j else j))
  unfolding find update_where
  count_where-update_where q c f i [] u h = cc
  count_where-update_where q c f i (x ∷ xs) {j} u h =
      ground (arith, update_where-missing i c f xs, count_where-update_where q c f i xs {j = j} u.1)

  abbrev pub hits : (A → Bool) → Option A → ℕ
  hits c none = 0
  hits c (some j) = bit (c j)

  -- The rows that a statement on one key affects.
  pub count_where-missing :
      (i : ℕ) (c : A → Bool) (xs : List A)
      → find i xs ≡ none
      → count_where (λ x. (key x == i) && c x) xs ≡ 0
  unfolding find
  count_where-missing i c [] h = refl
  count_where-missing i c (x ∷ xs) h = ground (arith, count_where-missing i c xs)

  pub count_where-key :
      (i : ℕ) (c : A → Bool) (xs : List A)
      → Unique xs
      → count_where (λ x. (key x == i) && c x) xs ≡ hits c (find i xs)
  unfolding find
  count_where-key i c [] u = refl
  count_where-key i c (x ∷ xs) u =
      ground (arith, count_where-missing i c xs, count_where-key i c xs u.1)

  -- A row is found exactly if some row has its key.
  pub count_where-found :
      (i : ℕ) (xs : List A) {x : A} → find i xs ≡ some x → 1 ≤ count_where (λ y. key y == i) xs
  unfolding find
  count_where-found i [] h = cc
  count_where-found i (y ∷ xs) {x} h = ground (arith, count_where-found i xs {x = x})

  pub found-count_where :
      (i : ℕ) (xs : List A) → 1 ≤ count_where (λ y. key y == i) xs → (x : A) × (find i xs ≡ some x)
  unfolding find
  found-count_where i [] h = absurd (omega (arith, h))
  found-count_where i (y ∷ xs) h = elim (Bool-cases (key y == i)) [
    | inl same ↦ (y, rw same refl)
    | inr differs ↦
        let (x, there) = found-count_where i xs (ground (arith, h, differs)) in
        (x, rw differs there)
  ]

  pub find-append :
      (i : ℕ) (xs ys : List A) {x : A} → find i xs ≡ some x → find i (xs ++ ys) ≡ some x
  unfolding find
  find-append i [] ys h = cc
  find-append i (y ∷ xs) ys {x} h = ground (arith, find-append i xs ys {x = x})

  pub find-append_fresh :
      (i : ℕ) (xs ys : List A) → find i xs ≡ none → find i (xs ++ ys) ≡ find i ys
  unfolding find
  find-append_fresh i [] ys h = refl
  find-append_fresh i (y ∷ xs) ys h = ground (arith, find-append_fresh i xs ys)

  -- A new key keeps the keys distinct.
  pub append-Unique :
      (xs : List A) (y : A) → find (key y) xs ≡ none → Unique xs → Unique (xs ++ y ∷ [])
  unfolding find
  append-Unique [] y h u = (refl, tt)
  append-Unique (x ∷ xs) y h u =
      (ground (arith, find-append_fresh (key x) xs (y ∷ [])), append-Unique xs y (ground arith) u.1)

  -- Where keys are distinct, each row is the one that its key finds.
  pub find-here : (x : A) (xs : List A) → find (key x) (x ∷ xs) ≡ some x
  unfolding find
  find-here x xs = rw (==_refl (key x)) refl

  find-behind :
      (y : A) (xs ys : List A)
      → find (key y) xs ≡ none
      → All (λ x. find (key x) xs ≡ some x) ys
      → All (λ x. find (key x) (y ∷ xs) ≡ some x) ys
  unfolding find
  find-behind y xs [] h a = tt
  find-behind y xs (x ∷ ys) h a = (
    elim (Bool-cases (key y == key x)) [
      | inl same ↦
          let eq : key y ≡ key x = (==_iff (key y) (key x)).0 same in
          (let clash : some x ≡ none = sym (ap (λ k. find k xs) eq ∙ a.0) ∙ h in cc)
      | inr differs ↦ rw differs a.0
    ],
    find-behind y xs ys h a.1,
  )

  pub Unique-find : (xs : List A) → Unique xs → All (λ x. find (key x) xs ≡ some x) xs
  Unique-find [] u = tt
  Unique-find (x ∷ xs) u = (find-here x xs, find-behind x xs xs u.0 (Unique-find xs u.1))

  pub find-delete_where :
      (i k : ℕ) (xs : List A) → k ≢ i → find k (delete_where (λ x. key x == i) xs) ≡ find k xs
  unfolding find delete_where
  find-delete_where i k [] ne = refl
  find-delete_where i k (x ∷ xs) ne = ground (arith, find-delete_where i k xs ne)

-- An update that gives no row the property does not raise the count.
pub count_where-update_where-le {ℓ} :
    {A : Type ℓ} (q p : A → Bool) (f : A → A)
    → ((x : A) → p x ≡ true → bit (q (f x)) ≤ bit (q x))
    → (xs : List A) → count_where q (update_where p f xs) ≤ count_where q xs
unfolding update_where
count_where-update_where-le q p f h [] = omega arith
count_where-update_where-le q p f h (x ∷ xs) =
    ground (arith, h x, count_where-update_where-le q p f h xs)

pub count_where-append {ℓ} :
    {A : Type ℓ} (q : A → Bool) (xs ys : List A)
    → count_where q (xs ++ ys) ≡ count_where q xs + count_where q ys
count_where-append q [] ys = omega arith
count_where-append q (x ∷ xs) ys = omega (arith, count_where-append q xs ys)

-- What a deletion keeps.
module _ {ℓ} {A : Type ℓ} where
  pub All-delete_where {κ} :
      (P : A → Type κ) (p : A → Bool) (xs : List A) → All P xs → All P (delete_where p xs)
  unfolding delete_where
  All-delete_where P p [] h = tt
  All-delete_where P p (x ∷ xs) h =
      let rest = All-delete_where P p xs h.1 in
      elim (p x) as (λ b. All P (if b then delete_where p xs else x ∷ delete_where p xs)) [
        | true ↦ rest
        | false ↦ (h.0, rest)
      ]

  pub find-delete_where-none :
      (key : A → ℕ) (p : A → Bool) (i : ℕ) (xs : List A)
      → find key i xs ≡ none
      → find key i (delete_where p xs) ≡ none
  unfolding find delete_where
  find-delete_where-none key p i [] h = refl
  find-delete_where-none key p i (x ∷ xs) h = ground (arith, find-delete_where-none key p i xs)

  pub delete_where-Unique :
      (key : A → ℕ) (p : A → Bool) (xs : List A) → Unique key xs → Unique key (delete_where p xs)
  unfolding delete_where
  delete_where-Unique key p [] u = tt
  delete_where-Unique key p (x ∷ xs) u =
      let rest = delete_where-Unique key p xs u.1 in
      elim (p x) as (λ b. Unique key (if b then delete_where p xs else x ∷ delete_where p xs)) [
        | true ↦ rest
        | false ↦ (find-delete_where-none key p (key x) xs u.0, rest)
      ]

  pub find-deleted :
      (key : A → ℕ) (i : ℕ) (xs : List A) → find key i (delete_where (λ x. key x == i) xs) ≡ none
  unfolding find delete_where
  find-deleted key i [] = refl
  find-deleted key i (x ∷ xs) = ground (arith, find-deleted key i xs)

  pub delete_where-missing :
      (key : A → ℕ) (i : ℕ) (xs : List A)
      → find key i xs ≡ none
      → delete_where (λ x. key x == i) xs ≡ xs
  unfolding find delete_where
  delete_where-missing key i [] h = refl
  delete_where-missing key i (x ∷ xs) h = ground (arith, delete_where-missing key i xs)

  -- Deleting a row takes it from a count.
  pub count_where-delete_where :
      (key : A → ℕ) (q : A → Bool) (i : ℕ) (xs : List A) {j : A}
      → Unique key xs
      → find key i xs ≡ some j
      → count_where q (delete_where (λ x. key x == i) xs) + bit (q j) ≡ count_where q xs
  unfolding find delete_where
  count_where-delete_where key q i [] u h = cc
  count_where-delete_where key q i (x ∷ xs) {j} u h =
      ground (arith, delete_where-missing key i xs, count_where-delete_where key q i xs {j = j} u.1)
