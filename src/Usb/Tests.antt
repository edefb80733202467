-- ===== src/Usb/Tests.antt =====
-- A driver that takes four bytes at a time.
use s3_bme.Base.{ℕ, ◌≡◌, refl, arith, List, [], ◌∷◌, ◌++◌, length, min, take, codes, concat}
use s3_bme.Usb.{Usb, usb_write_all}
use s3_bme.Usb.Sent.{TakesInOrder, IsRead, usb_write_all-sent}

abbrev pub slow_usb : Usb
slow_usb = record {
  Dev = List ℕ;
  write_bytes = λ bytes s. (min 4 (length bytes), s ++ take (min 4 (length bytes)) bytes);
}

slow_usb-TakesInOrder : TakesInOrder slow_usb (λ s. s)
slow_usb-TakesInOrder = record { sent_lem = λ bytes s. refl }

slow_usb-IsRead : IsRead slow_usb
slow_usb-IsRead c bytes s = omega arith

usb_write_all-sent_example :
    usb_write_all slow_usb (codes "{\"ok\":true," ∷ codes "\"n\":1}" ∷ []) []
    ≡ [] ++ concat (codes "{\"ok\":true," ∷ codes "\"n\":1}" ∷ [])
usb_write_all-sent_example =
    usb_write_all-sent slow_usb (λ s. s) slow_usb-TakesInOrder slow_usb-IsRead
      (codes "{\"ok\":true," ∷ codes "\"n\":1}" ∷ []) []
