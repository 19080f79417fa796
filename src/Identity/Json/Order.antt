-- ===== src/Identity/Json/Order.antt =====
-- The order of Python's texts is total.
use power_market_data_platfo.Base.{◌≡◌, refl, true, false, [], ◌∷◌, arith, Text}
use power_market_data_platfo.Identity.Json.{text_leb}

pub text_leb_total : (s t : Text) → text_leb s t ≡ false → text_leb t s ≡ true
text_leb_total [] t h = cc h
text_leb_total (a ∷ s) [] h = refl
text_leb_total (a ∷ s) (b ∷ t) h = ground (arith, h, text_leb_total s t)
