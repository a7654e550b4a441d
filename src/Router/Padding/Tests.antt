-- ===== src/Router/Padding/Tests.antt =====
-- Blocks of four bytes.
use homelink_monitor.Base.{◌≡◌, refl, [], ◌∷◌, ok, arith, ◌↔◌}
use homelink_monitor.Router.Padding.{pkcs7_pad, pkcs7_unpad}
use homelink_monitor.Router.Padding.Laws.{pkcs7_unpad_iff}

-- A whole block is padded by another one.
pad_whole : pkcs7_pad (1 ∷ 2 ∷ 3 ∷ 4 ∷ []) 4 ≡ 1 ∷ 2 ∷ 3 ∷ 4 ∷ 4 ∷ 4 ∷ 4 ∷ 4 ∷ []
unfolding pkcs7_pad
pad_whole = refl

pkcs7_unpad_iff_example :
    (pkcs7_unpad (7 ∷ 3 ∷ 3 ∷ 3 ∷ []) 4 ≡ ok (7 ∷ []))
    ↔ ((7 ∷ 3 ∷ 3 ∷ 3 ∷ []) ≡ pkcs7_pad (7 ∷ []) 4)
pkcs7_unpad_iff_example =
    pkcs7_unpad_iff (7 ∷ 3 ∷ 3 ∷ 3 ∷ []) (7 ∷ []) 4 (omega arith) (omega arith)
