-- ===== src/Health/Digits.antt =====
-- internal/health/score.go, itoa and formatCount: decimal digits written from the back of a buffer
-- of 20 bytes. A text is the list of its code points.
use Prim.Native.Char.{code}
use Prim.Native.Nat.{◌^◌}
use native.Mathlib.Nat.{pow-suc}
use opensourcebackup.Prelude.Int.{negsuc, pos, ℤ}
use opensourcebackup.Prelude.{
  ==_iff, All, Bool-cases, List, Option, String, [], ap, arith, if◌then◌else◌, inl, inr, none, refl,
  some, suc, sym, zero, ℕ, ◌%◌, ◌*◌, ◌++◌, ◌+◌, ◌-◌, ◌/◌, ◌<◌, ◌==◌, ◌∙◌, ◌∷◌, ◌≡◌, ◌≤◌,
}

abbrev pub Text : Type 0
Text = List ℕ

-- The code points of a literal. `String` has its own `[]` and `∷`.
unfoldable pub text : String → Text
text String.[] = []
text (String.◌∷◌ c s) = code c ∷ text s

-- `for n > 0 { pos--; buf[pos] = '0' + n%10; n /= 10 }`: the rounds left are the bytes of the
-- buffer, and `none` is the panic of a write in front of it.
unfoldable pub digits : ℕ → ℕ → Text → Option Text
digits zero n buf = if n == 0 then some buf else none
digits (suc rounds) n buf =
    let rest = digits rounds (n / 10) ((b'0' + n % 10) ∷ buf) in if n == 0 then some buf else rest

-- The loop of a negative number makes no round, and leaves the empty text.
unfoldable pub itoa : ℤ → Option Text
itoa (pos n) = if n == 0 then some (b'0' ∷ []) else digits 20 n []
itoa (negsuc n) = some []

-- The number that a text of decimal digits stands for.
unfoldable pub value_from : ℕ → Text → ℕ
value_from acc [] = acc
value_from acc (c ∷ cs) = value_from (acc * 10 + (c - b'0')) cs

abbrev pub value : Text → ℕ
value = value_from 0

-- A list of decimal digits.
abbrev pub IsDecimal : Text → Type 0
IsDecimal = All (λ c. (b'0' ≤ c) × (c ≤ b'9'))

-- Reading the digits of n in front of a text is reading the text from n on.
abbrev pub Reads : ℕ → Text → Option Text → Type 0
Reads n buf none = ⊥
Reads n buf (some out) = (value_from 0 out ≡ value_from n buf) × (IsDecimal buf → IsDecimal out)

digits-Reads : (rounds n : ℕ) (buf : Text) → n < 10 ^ rounds → Reads n buf (digits rounds n buf)
unfolding digits
digits-Reads zero n buf h = ground arith
digits-Reads (suc rounds) n buf h =
    let smaller : n / 10 < 10 ^ rounds = omega (arith, pow-suc 10 rounds) in
    let ih = digits-Reads rounds (n / 10) ((b'0' + n % 10) ∷ buf) smaller in
    elim (Bool-cases (n == 0)) [
      | inl done ↦ rw done (ap (λ m. value_from m buf) (sym ((==_iff n 0).0 done)), λ d. d)
      | inr more ↦ rw more (step n buf _ ih)
    ]
  where
    step :
        (n : ℕ) (buf : Text) (o : Option Text)
        → Reads (n / 10) ((b'0' + n % 10) ∷ buf) o
        → Reads n buf o
    step n buf none r = r
    step n buf (some out) r = (
      r.0 ∙ unfold value_from in ap (λ m. value_from m buf) (omega arith),
      λ d. r.1 ((omega arith, omega arith), d),
    )

Reads-some :
    (n : ℕ) (o : Option Text)
    → Reads n [] o
    → (out : Text) × (o ≡ some out) × (value out ≡ n) × IsDecimal out
unfolding value_from
Reads-some n none r = elim r [ ]
Reads-some n (some out) r = (out, refl, r.0, r.1 tt)

itoa-natural :
    (n : ℕ)
    → n < 10 ^ 20
    → (out : Text) × (itoa (pos n) ≡ some out) × (value out ≡ n) × IsDecimal out
unfolding itoa value_from
itoa-natural n h = elim (Bool-cases (n == 0)) [
  | inl zero_ ↦ (b'0' ∷ [], rw zero_, sym ((==_iff n 0).0 zero_), ((omega arith, omega arith), tt))
  | inr more ↦ rw more (Reads-some n (digits 20 n []) (digits-Reads 20 n [] h))
]

-- The digits of every number from 0 to below 10^20, so of every `int` that is not negative, fit the
-- buffer: `itoa` returns them, and they are decimal digits that read back as the number. Of every
-- negative number it returns the empty text.
pub itoa-value :
    (n m : ℕ)
    → n < 10 ^ 20
    → ((out : Text) × (itoa (pos n) ≡ some out) × (value out ≡ n) × IsDecimal out)
      × (itoa (negsuc m) ≡ some [])
unfolding itoa
itoa-value n m h = (itoa-natural n h, refl)

-- The counts are never negative, and a count of an `int` never panics (itoa-value), so the panic's
-- place is taken by the empty text.
abbrev printed : Option Text → Text
printed none = []
printed (some t) = t

unfoldable pub format_count : ℕ → String → Text
format_count n noun =
    if n == 1
    then text "1 " ++ text noun
    else printed (itoa (pos n)) ++ (text " " ++ (text noun ++ text "s"))
