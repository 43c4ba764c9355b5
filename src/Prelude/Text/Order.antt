-- ===== src/Prelude/Text/Order.antt =====
-- The order of texts.
use neals.Prelude.{◌≡◌, refl, ◌∷◌, [], true, false, arith}
use neals.Prelude.Text.{Str, str_leb}

pub str_leb_total : (s t : Str) → str_leb s t ≡ false → str_leb t s ≡ true
unfolding str_leb
str_leb_total [] t h = ground arith
str_leb_total (a ∷ s) [] h = refl
str_leb_total (a ∷ s) (b ∷ t) h = ground (arith, str_leb_total s t)
