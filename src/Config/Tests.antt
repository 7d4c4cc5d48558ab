-- ===== src/Config/Tests.antt =====
-- Lists of cabinets for examples.
use chaospay.Prelude.{◌≡◌, refl, [], ◌∷◌}
use chaospay.Prelude.Decimal.{parse_uint}
use chaospay.Config.{parse_merchants}

parsed_sample :
    parse_merchants "554415:a, 587055 : b:c ,,x:y,7" ≡ (554415, "a") ∷ (587055, "b:c") ∷ []
unfolding parse_merchants parse_uint
parsed_sample = refl
