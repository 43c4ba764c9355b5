-- ===== src/Prelude/Text.antt =====
-- Text as the list of its code points, with the operations of `str` that the program uses.
pub mod Trim
pub mod Lines
pub mod Order
use Prim.Native.Char.{code}
use Prim.Native.Nat.{ℕ, ◌+◌, ◌-◌}
use Prim.Native.String.{String}
use mathlib.Core.Path.{◌≡◌, refl}
use mathlib.Core.Logic.{◌↔◌}
use mathlib.Core.Bool.{Bool, true, false, ◌&&◌, ◌||◌}
use mathlib.Core.List.{List, [], ◌∷◌, ◌++◌}
use native.Mathlib.Omega.{arith}
use neals.Prelude.Bools.{◌==◌, ltb, leb, if◌then◌else◌}

abbrev pub Str : Type 0
Str = List ℕ

abbrev pub codes : String → Str
codes String.[] = []
codes (String.◌∷◌ c s) = code c ∷ codes s

-- `==` on strings.
unfoldable pub str_eq : Str → Str → Bool
str_eq [] [] = true
str_eq (a ∷ s) (b ∷ t) = a == b && str_eq s t
str_eq _ _ = false

pub str_eq_sound : (s t : Str) → str_eq s t ≡ true → s ≡ t
unfolding str_eq
str_eq_sound [] [] h = refl
str_eq_sound [] (b ∷ t) h = ground arith
str_eq_sound (a ∷ s) [] h = ground arith
str_eq_sound (a ∷ s) (b ∷ t) h = ground (arith, str_eq_sound s t)

pub str_eq_refl : (s : Str) → str_eq s s ≡ true
unfolding str_eq
str_eq_refl [] = refl
str_eq_refl (a ∷ s) = ground (arith, str_eq_refl s)

pub str_eq_iff : (s t : Str) → (str_eq s t ≡ true) ↔ (s ≡ t)
str_eq_iff s t = (str_eq_sound s t, λ e. rw e (str_eq_refl t))

-- The byte order of `Ord for String`, as "not greater".
unfoldable pub str_leb : Str → Str → Bool
str_leb [] t = true
str_leb (a ∷ s) [] = false
str_leb (a ∷ s) (b ∷ t) = ltb a b || (a == b && str_leb s t)

-- `char::is_whitespace`: the code points that Unicode calls `White_Space`.
unfoldable pub is_space : ℕ → Bool
is_space c =
    c == 32
    || (leb 9 c && leb c 13)
    || c == 133
    || c == 160
    || c == 5760
    || (leb 8192 c && leb c 8202)
    || c == 8232
    || c == 8233
    || c == 8239
    || c == 8287
    || c == 12288

unfoldable pub trim_start : Str → Str
unfolding is_space
trim_start [] = []
trim_start (c ∷ s) = if is_space c then trim_start s else c ∷ s

-- A text is cut after its last character that is no space.
unfoldable pub trim_end : Str → Str
unfolding is_space
trim_end [] = []
trim_end (c ∷ s) = elim (trim_end s) [ [] ↦ if is_space c then [] else c ∷ [] | d ∷ t ↦ c ∷ d ∷ t ]

unfoldable pub trim : Str → Str
unfolding trim_start trim_end
trim s = trim_start (trim_end s)

abbrev pub is_empty {ℓ} : {A : Type ℓ} → List A → Bool
is_empty [] = true
is_empty (c ∷ s) = false

unfoldable pub starts_with : Str → Str → Bool
starts_with s [] = true
starts_with [] (p ∷ ps) = false
starts_with (c ∷ s) (p ∷ ps) = c == p && starts_with s ps

-- `s.contains(p)`.
unfoldable pub contains : Str → Str → Bool
unfolding starts_with
contains [] p = is_empty p
contains (c ∷ s) p = starts_with (c ∷ s) p || contains s p

unfoldable pub contains_char : Str → ℕ → Bool
contains_char [] k = false
contains_char (c ∷ s) k = c == k || contains_char s k

-- A `\r` at the end of a line goes with its `\n`.
unfoldable pub strip_cr : Str → Str
strip_cr [] = []
strip_cr (c ∷ []) = if c == 13 then [] else c ∷ []
strip_cr (c ∷ d ∷ s) = c ∷ strip_cr (d ∷ s)

-- `cur` holds the open line; an empty last line is no line.
unfoldable pub lines_from : Str → Str → List Str
unfolding strip_cr
lines_from [] [] = []
lines_from (k ∷ cur) [] = (k ∷ cur) ∷ []
lines_from cur (c ∷ s) =
    let closed = strip_cr cur ∷ lines_from [] s in
    let open_line = lines_from (cur ++ c ∷ []) s in if c == 10 then closed else open_line

-- `str::lines`.
unfoldable pub lines : Str → List Str
unfolding lines_from
lines s = lines_from [] s

-- `lines.join("\n") + "\n"` and a loop of `push_str(line); push('\n')`.
unfoldable pub unlines : List Str → Str
unlines [] = []
unlines (l ∷ ls) = l ++ 10 ∷ unlines ls

unfoldable pub is_ascii_lower : ℕ → Bool
is_ascii_lower c = leb b'a' c && leb c b'z'

unfoldable pub is_ascii_upper : ℕ → Bool
is_ascii_upper c = leb b'A' c && leb c b'Z'

unfoldable pub is_ascii_digit : ℕ → Bool
is_ascii_digit c = leb b'0' c && leb c b'9'

unfoldable pub is_ascii_alphanumeric : ℕ → Bool
unfolding is_ascii_lower is_ascii_upper is_ascii_digit
is_ascii_alphanumeric c = is_ascii_lower c || is_ascii_upper c || is_ascii_digit c

unfoldable pub to_ascii_upper : ℕ → ℕ
unfolding is_ascii_lower
to_ascii_upper c = if is_ascii_lower c then c - 32 else c

unfoldable pub to_ascii_lower : ℕ → ℕ
unfolding is_ascii_upper
to_ascii_lower c = if is_ascii_upper c then c + 32 else c
