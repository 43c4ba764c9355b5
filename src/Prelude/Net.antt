-- ===== src/Prelude/Net.antt =====
-- IPv4 addresses as `std::net` has them, and how they are printed.
use Prim.Native.Nat.{ℕ}
use mathlib.Core.List.{◌∷◌, ◌++◌}
use neals.Prelude.Decimal.{decimal}
use neals.Prelude.Text.{Str}

pub record Ipv4Addr : Type 0 where
  pub a : ℕ
  pub b : ℕ
  pub c : ℕ
  pub d : ℕ

-- `Display` of an address.
unfoldable pub show_ip : Ipv4Addr → Str
show_ip ip = decimal ip.a ++ b'.' ∷ decimal ip.b ++ b'.' ∷ decimal ip.c ++ b'.' ∷ decimal ip.d
