-- ===== src/Common/Devenv/Inject/Woven.antt =====
-- crates/common/src/devenv.rs: where `inject_neals_stanza` puts its text into `devenv.nix`.
use neals.Prelude.{
  ℕ, zero, suc, ◌+◌, ◌≤◌, Bool, true, false, Option, none, some, List, [], ◌∷◌, ◌++◌, ◌≡◌, refl,
  sym, ap, ◌∙◌, append_assoc, arith, inl, inr,
}
use neals.Prelude.Bools.{◌==◌, Bool-cases}
use neals.Prelude.Lists.{take, drop, length, length-drop}
use neals.Prelude.Outcome.{ok, ◌>>=◌, OnOk, then-OnOk}
use neals.Prelude.Text.{Str, codes, contains, starts_with}
use neals.Common.Devenv.Inject.{
  member_path, is_imports, no_semicolon, Member, Value, list, other_value, Imports, context,
  find_char, list_end, find_imports_list, insert_str, insert_option, head_text, neals_option,
  neals_imports_block, need_option, place,
}

-- `r` is `src` with `x` and `y` put in, `x` in front of `y`.
abbrev pub Woven : Str → Str → Str → Str → Type 0
Woven src r x y =
    (a : Str) × (b : Str) × (c : Str) × (src ≡ a ++ (b ++ c)) × (r ≡ a ++ (x ++ (b ++ (y ++ c))))

cut : (n : ℕ) (s : Str) → s ≡ take n s ++ drop n s
cut zero s = refl
cut (suc n) [] = refl
cut (suc n) (c ∷ s) = ap (λ t. c ∷ t) (cut n s)

insert_str-Woven : (src : Str) (n : ℕ) (y : Str) → Woven src (insert_str src n y) [] y
unfolding insert_str
insert_str-Woven src n y =
    ([], take n src, drop n src, cut n src, append_assoc (take n src) y (drop n src))

insert_twice :
    (m n : ℕ) (src x y : Str)
    → m ≤ n
    → n ≤ length src
    → Woven src (insert_str (insert_str src n y) m x) x y
unfolding insert_str
insert_twice zero n src x y h k = (
  [],
  take n src,
  drop n src,
  cut n src,
  ap (λ t. x ++ t) (append_assoc (take n src) y (drop n src)),
)
insert_twice (suc m) zero src x y h k = absurd (omega arith)
insert_twice (suc m) (suc n) [] x y h k = absurd (omega arith)
insert_twice (suc m) (suc n) (d ∷ src) x y h k =
    let (a, b, c, e, f) = insert_twice m n src x y (omega arith) (omega arith) in
    (d ∷ a, b, c, ap (λ t. d ∷ t) e, ap (λ t. d ∷ t) f)

abbrev Below : ℕ → Option ℕ → Type 0
Below n none = Unit
Below n (some k) = suc k ≤ n

Below-suc :
    (n : ℕ) (o : Option ℕ)
    → Below n o
    → Below (suc n) (elim o [ none ↦ none | some k ↦ some (suc k) ])
Below-suc n none h = tt
Below-suc n (some k) h = omega arith

find_char-Below : (k : ℕ) (s : Str) → Below (length s) (find_char k s)
unfolding find_char
find_char-Below k [] = tt
find_char-Below k (c ∷ s) = elim (Bool-cases (c == k)) [
  | inl e ↦ rw e (omega arith)
  | inr e ↦ rw e (Below-suc (length s) (find_char k s) (find_char-Below k s))
]

-- Of a list the `[` stands in front of the `]`, and both in the text.
abbrev pub InOrder : Value → Type 0
InOrder (list (some l) (some r)) = l ≤ r
InOrder (list (some l) none) = Unit
InOrder (list none r) = Unit
InOrder other_value = Unit

abbrev pub Ahead : Str → Option ℕ × ℕ → Type 0
Ahead src (none, end) = end ≤ length src
Ahead src (some l, end) = (l ≤ end) × (end ≤ length src)

semi-Ahead :
    (src : Str) (l : Option ℕ) (r : ℕ) (o : Option ℕ)
    → InOrder (list l (some r))
    → Below (length (drop r src)) o
    → OnOk (Ahead src) (context no_semicolon o >>= λ semi. ok (l, r + semi + 1))
semi-Ahead src l r none h b = tt
semi-Ahead src none r (some k) h b = omega (arith, length-drop r src)
semi-Ahead src (some l) r (some k) h b = (omega arith, omega (arith, length-drop r src))

list_end-Ahead : (src : Str) (v : Value) → InOrder v → OnOk (Ahead src) (list_end src v)
unfolding list_end
list_end-Ahead src other_value h = tt
list_end-Ahead src (list l none) h = tt
list_end-Ahead src (list l (some r)) h =
    semi-Ahead src l r (find_char b';' (drop r src)) h (find_char-Below b';' (drop r src))

abbrev pub FoundAhead : Str → Option Imports → Type 0
FoundAhead src none = Unit
FoundAhead src (some found) = Ahead src found

abbrev pub InOrderAll : List Member → Type 0
InOrderAll [] = Unit
InOrderAll (m ∷ ms) = InOrder m.value × InOrderAll ms

pub find_imports_list-Ahead :
    (src : Str) (ms : List Member)
    → InOrderAll ms
    → OnOk (FoundAhead src) (find_imports_list src ms)
unfolding find_imports_list
find_imports_list-Ahead src [] h = tt
find_imports_list-Ahead src (m ∷ ms) (h, hs) = elim (Bool-cases (is_imports (member_path m))) [
  | inl e ↦ rw e (
      then-OnOk (Ahead src) (FoundAhead src) (list_end src m.value) (λ found. ok (some found))
        (list_end-Ahead src m.value h) (λ found a. a))
  | inr e ↦ rw e (find_imports_list-Ahead src ms hs)
]

-- What is put in: text that brings `options.neals` exactly where the source lacks it, then the
-- stanza.
abbrev pub Added : Str → Str → Str → Type 0
Added src neals r =
    (lead : Str) × (x : Str) × (y : Str) × Woven src r x y
    × (x ++ y ≡ lead ++ neals)
    × (contains lead (codes "options.neals") ≡ need_option src)

head_text-contains : (b : Bool) → contains (head_text b) (codes "options.neals") ≡ b
unfolding head_text neals_imports_block neals_option contains starts_with
head_text-contains true = refl
head_text-contains false = refl

lead_text : Bool → Str
lead_text true = (10 ∷ neals_option) ++ 10 ∷ 10 ∷ []
lead_text false = 10 ∷ 10 ∷ []

lead_text-contains : (b : Bool) → contains (lead_text b) (codes "options.neals") ≡ b
unfolding lead_text neals_option contains starts_with
lead_text-contains true = refl
lead_text-contains false = refl

place-none-Added : (src neals : Str) (n : ℕ) → OnOk (Added src neals) (place src neals n none)
unfolding place
place-none-Added src neals n = (
  head_text (need_option src),
  [],
  head_text (need_option src) ++ neals,
  insert_str-Woven src n (head_text (need_option src) ++ neals),
  refl,
  head_text-contains (need_option src),
)

option-Added :
    (src neals : Str) (l : Option ℕ) (end : ℕ) (b : Bool)
    → need_option src ≡ b
    → Ahead src (l, end)
    → OnOk (Added src neals) (insert_option b l (insert_str src end (10 ∷ 10 ∷ neals)))
unfolding insert_option lead_text
option-Added src neals l end false e a = (
  lead_text false,
  [],
  10 ∷ 10 ∷ neals,
  insert_str-Woven src end (10 ∷ 10 ∷ neals),
  refl,
  lead_text-contains false ∙ sym e,
)
option-Added src neals none end true e a = tt
option-Added src neals (some l) end true e (a, h) = (
  lead_text true,
  10 ∷ neals_option,
  10 ∷ 10 ∷ neals,
  insert_twice l end src (10 ∷ neals_option) (10 ∷ 10 ∷ neals) a h,
  ap (λ t. 10 ∷ t) (sym (append_assoc neals_option (10 ∷ 10 ∷ []) neals)),
  lead_text-contains true ∙ sym e,
)

pub place-Added :
    (src neals : Str) (n : ℕ) (found : Option Imports)
    → FoundAhead src found
    → OnOk (Added src neals) (place src neals n found)
unfolding place
place-Added src neals n none h = place-none-Added src neals n
place-Added src neals n (some (l, end)) h = option-Added src neals l end (need_option src) refl h
