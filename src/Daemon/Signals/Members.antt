-- ===== src/Daemon/Signals/Members.antt =====
-- Lists of pids, each at most once, and the numbers that are not in one.
use neals.Prelude.{
  ℕ, zero, suc, ◌+◌, ◌≤◌, ◌<◌, Bool, true, false, List, [], ◌∷◌, ◌++◌, ◌≡◌, inl, inr, refl, ap,
  subst, arith,
}
use neals.Prelude.Bools.{==_refl, ◌==◌, if◌then◌else◌, Bool-cases, ==_iff}
use neals.Prelude.Lists.{All, any, any-append}

abbrev pub member : ℕ → List ℕ → Bool
member x xs = any (λ p. p == x) xs

-- No number is in the list twice.
abbrev pub AreDistinct : List ℕ → Type 0
AreDistinct [] = Unit
AreDistinct (x ∷ xs) = (member x xs ≡ false) × AreDistinct xs

-- How many numbers below `n` were not seen.
unfoldable pub unseen : ℕ → List ℕ → ℕ
unseen zero seen = 0
unseen (suc n) seen = (if member n seen then 0 else 1) + unseen n seen

pub unseen_le : (n : ℕ) (seen : List ℕ) → unseen n seen ≤ n
unfolding unseen
unseen_le zero seen = omega arith
unseen_le (suc n) seen = ground (arith, unseen_le n seen)

pub unseen_above : (n c : ℕ) (seen : List ℕ) → n ≤ c → unseen n (c ∷ seen) ≡ unseen n seen
unfolding unseen any
unseen_above zero c seen h = refl
unseen_above (suc n) c seen h = ground (arith, unseen_above n c seen)

-- A number that is seen is one less to see.
pub unseen-cons :
    (n c : ℕ) (seen : List ℕ)
    → c < n
    → member c seen ≡ false
    → unseen n seen ≡ suc (unseen n (c ∷ seen))
unfolding unseen any
unseen-cons zero c seen h k = absurd (omega arith)
unseen-cons (suc n) c seen h k = elim (Bool-cases (c == n)) [
  | inl e ↦
      ground (
        arith,
        ap (λ m. member m seen) ((==_iff c n).0 e),
        unseen_above n c seen (ground (arith, e)),
      )
  | inr e ↦ ground (arith, e, unseen-cons n c seen (ground (arith, e, h)) k)
]

pub snoc-AreDistinct :
    (xs : List ℕ) (c : ℕ) → AreDistinct xs → member c xs ≡ false → AreDistinct (xs ++ c ∷ [])
unfolding any
snoc-AreDistinct [] c h k = (refl, tt)
snoc-AreDistinct (x ∷ xs) c h k = (
  ground (arith, any-append (λ p. p == x) xs (c ∷ []), h.0, k),
  snoc-AreDistinct xs c h.1 (ground (arith, k)),
)

pub All_of : (P : ℕ → Type 0) (xs : List ℕ) → ((x : ℕ) → member x xs ≡ true → P x) → All P xs
unfolding any
All_of P [] f = tt
All_of P (x ∷ xs) f = (f x (rw (==_refl x) refl), All_of P xs λ y h. f y (ground (arith, h)))

pub All_at : (P : ℕ → Type 0) (xs : List ℕ) (x : ℕ) → All P xs → member x xs ≡ true → P x
unfolding any
All_at P [] x a h = absurd (ground (arith, h))
All_at P (y ∷ xs) x a h = elim (Bool-cases (y == x)) [
  | inl e ↦ subst P ((==_iff y x).0 e) a.0
  | inr e ↦ All_at P xs x a.1 (ground (arith, h, e))
]
