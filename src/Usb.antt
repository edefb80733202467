-- ===== src/Usb.antt =====
-- firmware/main/app-main.c: `usb_write`, which hands a reply to the USB driver. The driver is not in
-- the repository: it is a parameter.
pub mod Sent
mod Tests
use s3_bme.Base.{ℕ, zero, suc, ◌==◌, if◌then◌else◌, List, [], ◌∷◌, length, drop}

-- `usb_serial_jtag_write_bytes`, which returns how many bytes it took; 0 stands for an error too.
pub record Usb : Type 1 where
  pub Dev : Type 0
  pub write_bytes : List ℕ → Dev → ℕ × Dev

module _ (U : Usb) where
  -- The loop of `usb_write`, with `fuel` rounds at most; the result is what is left of the data.
  pub write_loop : ℕ → List ℕ → U.Dev → List ℕ × U.Dev
  write_loop fuel [] d = ([], d)
  write_loop zero (c ∷ bytes) d = (c ∷ bytes, d)
  write_loop (suc fuel) (c ∷ bytes) d =
      let (n, d') = U.write_bytes (c ∷ bytes) d in
      let rest = write_loop fuel (drop n (c ∷ bytes)) d' in if n == 0 then (c ∷ bytes, d') else rest

  pub usb_write : List ℕ → U.Dev → U.Dev
  usb_write bytes d = (write_loop (length bytes) bytes d).1

  -- The texts of a reply, in their order.
  pub usb_write_all : List (List ℕ) → U.Dev → U.Dev
  unfolding usb_write
  usb_write_all [] d = d
  usb_write_all (text ∷ texts) d = usb_write_all texts (usb_write text d)
