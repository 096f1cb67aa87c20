-- ===== src/Tests/Announcements.antt =====
-- A fingerprint at a concrete input.
use scamp_go.Base.{◌≡◌, refl, [], ◌∷◌, codes}
use scamp_go.Cert.{sha1_finger_print}

finger_print : sha1_finger_print (λ raw. 171 ∷ 7 ∷ 255 ∷ []) (codes "raw") ≡ codes "AB:07:FF"
unfolding sha1_finger_print
finger_print = refl
