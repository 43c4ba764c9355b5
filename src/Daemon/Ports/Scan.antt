-- ===== src/Daemon/Ports/Scan.antt =====
-- The two nested loops of `next_ip` of crates/daemon/src/ports.rs over the grid of keys.
use neals.Prelude.{ℕ, zero, suc, ◌+◌, ◌≤◌, ◌<◌, ◌≡◌, Bool, true, false, none, some, arith}
use neals.Daemon.Ports.{Key, scan_row, scan_rows}

-- The keys of the loops: 0 ≤ x ≤ 255 and 1 ≤ y ≤ 255.
abbrev pub InGrid : Key → Type 0
InGrid (x, y) = (x < 256) × (1 ≤ y) × (y < 256)

module _ (free : Key → Bool) where
  scan_row-some :
      (n x y : ℕ) (k : Key)
      → scan_row free n x y ≡ some k
      → (free k ≡ true) × (k.0 ≡ x) × (y ≤ k.1) × (k.1 < y + n)
  unfolding scan_row
  scan_row-some zero x y k h = ground arith
  scan_row-some (suc n) x y k h = ground (arith, scan_row-some n x (y + 1) k)

  scan_row-none :
      (n x y v : ℕ) → scan_row free n x y ≡ none → y ≤ v → v < y + n → free (x, v) ≡ false
  unfolding scan_row
  scan_row-none zero x y v h p q = absurd (omega arith)
  scan_row-none (suc n) x y v h p q = ground (arith, scan_row-none n x (y + 1) v)

  scan_rows-some :
      (n x : ℕ) (k : Key)
      → scan_rows free n x ≡ some k
      → (free k ≡ true) × (x ≤ k.0) × (k.0 < x + n) × (1 ≤ k.1) × (k.1 < 256)
  unfolding scan_rows
  scan_rows-some zero x k h = ground arith
  scan_rows-some (suc n) x k h = ground (arith, scan_row-some 255 x 1 k, scan_rows-some n (x + 1) k)

  scan_rows-none :
      (n x u v : ℕ)
      → scan_rows free n x ≡ none
      → x ≤ u
      → u < x + n
      → 1 ≤ v
      → v < 256
      → free (u, v) ≡ false
  unfolding scan_rows
  scan_rows-none zero x u v h p q r s = absurd (omega arith)
  scan_rows-none (suc n) x u v h p q r s =
      ground (arith, scan_row-none 255 x 1 v, scan_rows-none n (x + 1) u v)

  -- What the scan finds is free and in the grid.
  pub scan_sound : (k : Key) → scan_rows free 256 0 ≡ some k → (free k ≡ true) × InGrid k
  scan_sound k h = grind (arith, scan_rows-some 256 0 k h)

  -- A scan that fails has seen every key of the grid taken.
  pub scan_complete : (k : Key) → scan_rows free 256 0 ≡ none → InGrid k → free k ≡ false
  scan_complete (u, v) h g = scan_rows-none 256 0 u v h (omega arith) (omega arith) g.1 g.2
