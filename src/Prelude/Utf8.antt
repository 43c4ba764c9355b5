-- ===== src/Prelude/Utf8.antt =====
-- `String::from_utf8_lossy`: each maximal part of a broken sequence becomes one U+FFFD.
pub mod Counts
use neals.Prelude.{
  ◌/◌, ◌%◌, ℕ, zero, suc, ◌+◌, ◌-◌, ◌*◌, ◌≤◌, Bool, true, false, not, ◌&&◌, ◌||◌, [], ◌∷◌, ◌++◌,
  ◌≡◌, refl, sym, append_assoc, arith, inl, inr,
}
use neals.Prelude.Bools.{ltb, leb, ◌==◌, if◌then◌else◌, Bool-cases}
use neals.Prelude.Text.{Str, contains_char, is_empty}

abbrev pub replacement : ℕ
replacement = 65533

-- What is read of a sequence: how many bytes follow the next, the range of the next, and the
-- value so far.
pub data Partial : Type 0 where
  idle : Partial
  more : ℕ → ℕ → ℕ → ℕ → Partial

unfoldable pub start_char : ℕ → Str × Partial
start_char b =
    if ltb b 128
    then (b ∷ [], idle)
    else if leb 194 b && leb b 223
    then ([], more 0 128 191 (b - 192))
    else if b == 224
    then ([], more 1 160 191 0)
    else if b == 237
    then ([], more 1 128 159 13)
    else if leb 225 b && leb b 239
    then ([], more 1 128 191 (b - 224))
    else if b == 240
    then ([], more 2 144 191 0)
    else if b == 244
    then ([], more 2 128 143 4)
    else if leb 241 b && leb b 243
    then ([], more 2 128 191 (b - 240))
    else (replacement ∷ [], idle)

unfoldable pub next_byte : ℕ → ℕ → Str × Partial
next_byte zero value = (value ∷ [], idle)
next_byte (suc left) value = ([], more left 128 191 value)

unfoldable pub byte_step : Partial → ℕ → Str × Partial
unfolding start_char next_byte
byte_step idle b = start_char b
byte_step (more left low high value) b =
    if leb low b && leb b high
    then next_byte left (value * 64 + (b - 128))
    else (replacement ∷ (start_char b).0, (start_char b).1)

abbrev pub flush : Partial → Str
flush idle = []
flush (more left low high value) = replacement ∷ []

unfoldable pub decode_from : Partial → Str → Str
decode_from p [] = flush p
decode_from p (b ∷ s) = (byte_step p b).0 ++ decode_from (byte_step p b).1 s

unfoldable pub from_utf8_lossy : Str → Str
from_utf8_lossy s = decode_from idle s

abbrev pub busy : Partial → Bool
busy idle = false
busy (more left low high value) = true

-- A sequence that is complete denotes 128 or more.
abbrev pub IsPartial : Partial → Type 0
IsPartial idle = Unit
IsPartial (more left low high value) =
    (128 ≤ low) × (2 ≤ value * 64 + (low - 128)) × (left ≡ 0 → 2 ≤ value)

start_char-IsPartial : (b : ℕ) → IsPartial (start_char b).1
unfolding start_char
start_char-IsPartial b = ground arith

next_byte-IsPartial : (left value : ℕ) → 2 ≤ value → IsPartial (next_byte left value).1
unfolding next_byte
next_byte-IsPartial zero value h = tt
next_byte-IsPartial (suc left) value h = (omega arith, omega arith, λ _. h)

pub byte_step-IsPartial : (p : Partial) (b : ℕ) → IsPartial p → IsPartial (byte_step p b).1
unfolding byte_step
byte_step-IsPartial idle b h = start_char-IsPartial b
byte_step-IsPartial (more left low high value) b h = elim (Bool-cases (leb low b && leb b high)) [
  | inl e ↦ rw e (next_byte-IsPartial left (value * 64 + (b - 128)) (ground (arith, h.0, h.1)))
  | inr e ↦ rw e (start_char-IsPartial b)
]

-- A line feed ends the sequence that is open.
pub byte_step_feed : (p : Partial) → IsPartial p → byte_step p 10 ≡ (flush p ++ 10 ∷ [], idle)
unfolding byte_step start_char
byte_step_feed idle h = refl
byte_step_feed (more left low high value) h = rw (inside) refl
  where
    inside : (leb low 10 && leb 10 high) ≡ false
    inside = ground (arith, h.0)

-- Another byte ends no line, and it is shown or waited for.
abbrev Kept : Str × Partial → Type 0
Kept r = (contains_char r.0 10 ≡ false) × ((not (is_empty r.0) || busy r.1) ≡ true)

start_char-Kept : (b : ℕ) → (b == 10) ≡ false → Kept (start_char b)
unfolding start_char contains_char
start_char-Kept b h = ground arith

next_byte-Kept : (left value : ℕ) → (left ≡ 0 → 11 ≤ value) → Kept (next_byte left value)
unfolding next_byte contains_char
next_byte-Kept zero value h = (ground (arith, h refl), refl)
next_byte-Kept (suc left) value h = (refl, refl)

pub byte_step-Kept : (p : Partial) (b : ℕ) → IsPartial p → (b == 10) ≡ false → Kept (byte_step p b)
unfolding byte_step contains_char
byte_step-Kept idle b h k = start_char-Kept b k
byte_step-Kept (more left low high value) b h k = elim (Bool-cases (leb low b && leb b high)) [
  | inl e ↦ rw e (next_byte-Kept left (value * 64 + (b - 128)) λ z. ground (arith, h.2 z))
  | inr e ↦ rw e (ground (arith, start_char-Kept b k), refl)
]

pub decode_from-line :
    (p : Partial) (s t : Str)
    → IsPartial p
    → decode_from p (s ++ 10 ∷ t) ≡ decode_from p s ++ 10 ∷ decode_from idle t
unfolding decode_from
decode_from-line p [] t h =
    rw (byte_step_feed p h) (append_assoc (flush p) (10 ∷ []) (decode_from idle t))
decode_from-line p (b ∷ s) t h =
    rw (decode_from-line (byte_step p b).1 s t (byte_step-IsPartial p b h))
      (sym (append_assoc (byte_step p b).0 (decode_from (byte_step p b).1 s) _))

-- A line feed is never part of a longer sequence, so text may be decoded line by line.
pub from_utf8_lossy-line :
    (s t : Str) → from_utf8_lossy (s ++ 10 ∷ t) ≡ from_utf8_lossy s ++ 10 ∷ from_utf8_lossy t
unfolding from_utf8_lossy
from_utf8_lossy-line s t = decode_from-line idle s t tt

-- The bytes of a character, and of a text.
unfoldable pub encode_char : ℕ → Str
encode_char c =
    if ltb c 128
    then c ∷ []
    else if ltb c 2048
    then (192 + c / 64) ∷ (128 + c % 64) ∷ []
    else if ltb c 65536
    then (224 + c / 4096) ∷ (128 + c / 64 % 64) ∷ (128 + c % 64) ∷ []
    else (240 + c / 262144) ∷ (128 + c / 4096 % 64) ∷ (128 + c / 64 % 64) ∷ (128 + c % 64) ∷ []

unfoldable pub utf8 : Str → Str
unfolding encode_char
utf8 [] = []
utf8 (c ∷ s) = encode_char c ++ utf8 s
