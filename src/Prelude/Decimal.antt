-- ===== src/Prelude/Decimal.antt =====
-- Decimal numbers: `to_string` of the unsigned types, and `str::parse` into them.
use Prim.Native.Nat.{◌≤◌, ℕ, zero, suc, ◌+◌, ◌-◌, ◌*◌, ◌/◌, ◌%◌, ◌<◌}
use mathlib.Core.Path.{refl, ◌≡◌, ap, ◌∙◌}
use mathlib.Core.Logic.{inl, inr}
use mathlib.Core.List.{[], ◌∷◌}
use mathlib.Core.Option.{Option, none, some}
use native.Mathlib.Omega.{arith}
use neals.Prelude.Bools.{◌==◌, ltb, leb, if◌then◌else◌, Bool-cases}
use native.Mathlib.Numerals.{add-one}
use neals.Prelude.Text.{Str, is_ascii_digit}
use neals.Prelude.Lists.{all}
use mathlib.Core.Bool.{true}

digit : ℕ → ℕ
digit n = b'0' + n % 10

digits_from : ℕ → ℕ → Str → Str
digits_from zero n acc = acc
digits_from (suc fuel) n acc =
    let more = digits_from fuel (n / 10) (digit n ∷ acc) in if ltb n 10 then digit n ∷ acc else more

-- Each round divides by ten, so `n + 1` rounds are enough.
unfoldable pub decimal : ℕ → Str
unfolding digits_from digit
decimal n = digits_from (n + 1) n []

unfoldable pub value_from : ℕ → Str → Option ℕ
unfolding is_ascii_digit
value_from acc [] = some acc
value_from acc (c ∷ s) =
    let more = value_from (acc * 10 + (c - b'0')) s in if is_ascii_digit c then more else none

unfoldable pub at_most : ℕ → Option ℕ → Option ℕ
at_most top none = none
at_most top (some n) = if leb n top then some n else none

-- Digits, at least one, of a number up to `top`.
abbrev parse_digits : ℕ → Str → Option ℕ
parse_digits top [] = none
parse_digits top (c ∷ s) = at_most top (value_from 0 (c ∷ s))

-- `s.parse::<uN>()`, for the type whose largest value is `top`: one `+` may stand in front.
unfoldable pub parse_unsigned : ℕ → Str → Option ℕ
unfolding value_from at_most
parse_unsigned top [] = none
parse_unsigned top (c ∷ s) = if c == b'+' then parse_digits top s else parse_digits top (c ∷ s)

at_most_le : (top : ℕ) (o : Option ℕ) (n : ℕ) → at_most top o ≡ some n → n ≤ top
unfolding at_most
at_most_le top none n h = absurd (ground (arith, h))
at_most_le top (some m) n h = ground (arith, h)

parse_digits_le : (top : ℕ) (s : Str) (n : ℕ) → parse_digits top s ≡ some n → n ≤ top
parse_digits_le top [] n h = absurd (ground (arith, h))
parse_digits_le top (c ∷ s) n h = at_most_le top (value_from 0 (c ∷ s)) n h

pub parse_unsigned_le : (top : ℕ) (s : Str) (n : ℕ) → parse_unsigned top s ≡ some n → n ≤ top
unfolding parse_unsigned
parse_unsigned_le top [] n h = absurd (ground (arith, h))
parse_unsigned_le top (c ∷ s) n h = elim (Bool-cases (c == b'+')) [
  | inl e ↦ parse_digits_le top s n (rw e at h)
  | inr e ↦ parse_digits_le top (c ∷ s) n (rw e at h)
]

value_digit :
    (acc n : ℕ) (s : Str) → value_from acc (digit n ∷ s) ≡ value_from (acc * 10 + n % 10) s
unfolding value_from digit
value_digit acc n s = ground arith

value-digits_from :
    (fuel n : ℕ) (acc : Str) → n < fuel → value_from 0 (digits_from fuel n acc) ≡ value_from n acc
unfolding digits_from
value-digits_from zero n acc h = elim h [ ]
value-digits_from (suc fuel) n acc h = elim (Bool-cases (ltb n 10)) [
  | inl small ↦ rw (small, value_digit 0 n acc) (ap (λ m. value_from m acc) (ground arith))
  | inr big ↦
      rw (big, value-digits_from fuel (n / 10) (digit n ∷ acc) (ground arith))
        (value_digit (n / 10) n acc ∙ ap (λ m. value_from m acc) (omega arith))
]

abbrev IsHeaded : Str → Type 0
IsHeaded s = (m : ℕ) × (t : Str) × (s ≡ digit m ∷ t)

digits_from-IsHeaded : (fuel n : ℕ) (acc : Str) → IsHeaded acc → IsHeaded (digits_from fuel n acc)
unfolding digits_from
digits_from-IsHeaded zero n acc h = h
digits_from-IsHeaded (suc fuel) n acc h = elim (Bool-cases (ltb n 10)) [
  | inl small ↦ rw small (n, acc, refl)
  | inr big ↦ rw big (digits_from-IsHeaded fuel (n / 10) (digit n ∷ acc) (n, acc, refl))
]

decimal-IsHeaded : (n : ℕ) → IsHeaded (decimal n)
unfolding decimal digits_from
decimal-IsHeaded n = rw add-one (elim (Bool-cases (ltb n 10)) [
  | inl small ↦ rw small (n, [], refl)
  | inr big ↦ rw big (digits_from-IsHeaded n (n / 10) (digit n ∷ []) (n, [], refl))
])

value-decimal : (n : ℕ) → value_from 0 (decimal n) ≡ some n
unfolding decimal value_from
value-decimal n = value-digits_from (n + 1) n [] (omega arith)

parse-headed :
    (top m : ℕ) (t : Str)
    → parse_unsigned top (digit m ∷ t) ≡ at_most top (value_from 0 (digit m ∷ t))
unfolding parse_unsigned digit
parse-headed top m t = ground arith

-- A number that fits its type is read back from its decimal digits.
pub parse-decimal : (top n : ℕ) → n ≤ top → parse_unsigned top (decimal n) ≡ some n
unfolding at_most
parse-decimal top n fits =
    let (m, t, e) = decimal-IsHeaded n in ground (arith, parse-headed top m t, value-decimal n)

digit_ok : (n : ℕ) → is_ascii_digit (digit n) ≡ true
unfolding digit is_ascii_digit
digit_ok n = ground arith

digits_from_ok :
    (fuel n : ℕ) (acc : Str)
    → all is_ascii_digit acc ≡ true
    → all is_ascii_digit (digits_from fuel n acc) ≡ true
unfolding digits_from all
digits_from_ok zero n acc h = h
digits_from_ok (suc fuel) n acc h =
    ground (arith, digit_ok n, digits_from_ok fuel (n / 10) (digit n ∷ acc))

pub decimal_digits : (n : ℕ) → all is_ascii_digit (decimal n) ≡ true
unfolding decimal all
decimal_digits n = digits_from_ok (n + 1) n [] refl

pub decimal_head : (n : ℕ) → (c : ℕ) × (t : Str) × (decimal n ≡ c ∷ t) × (is_ascii_digit c ≡ true)
decimal_head n = let (m, t, e) = decimal-IsHeaded n in (digit m, t, e, digit_ok m)
