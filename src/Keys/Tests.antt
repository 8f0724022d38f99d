-- ===== src/Keys/Tests.antt =====
-- The key tables at some keys.
use alphix.Base.{◌≡◌, refl}
use alphix.Keys.{switch, get_acsii_low, get_acsii_high}

colon : (get_acsii_low 0x27 ≡ b';') × (get_acsii_high 0x27 ≡ b':')
unfolding get_acsii_low get_acsii_high switch
colon = (refl, refl)
