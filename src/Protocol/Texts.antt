-- ===== src/Protocol/Texts.antt =====
-- How long the texts of the protocol are.
use s3_bme.Base.{
  ℕ, suc, ◌≤◌, ◌≡◌, arith, if◌then◌else◌, Bool, true, false, List, [], ◌∷◌, ◌++◌, length,
  length-append, codes,
}
use s3_bme.Base.Int.{ℤ, pos, negsuc, IsI16}
use s3_bme.Base.Length.{length-digits, length-digits_le, take_all}
use s3_bme.LogRecord.{LogRecord, IsRecord}
use s3_bme.Protocol.{Conn, put_d, row, emit, log_head}

put_d-length : (z : ℤ) → IsI16 z → length (put_d z) ≤ 6
unfolding put_d
put_d-length (pos n) h = omega (arith, length-digits 4 10 n (omega arith))
put_d-length (negsuc n) h = omega (arith, length-digits 4 10 (suc n) (omega arith))

-- A row has 45 characters at most, its comma included.
pub row-length : (first : Bool) (r : LogRecord) → IsRecord r → length (row first r) ≤ 45
unfolding row
row-length first r h = omega (
  arith,
  length-append {0},
  comma first,
  length-digits 9 10 r.timestamp (omega (arith, h.timestamp_u32)),
  put_d-length r.temp_centi h.temp_i16,
  length-digits 4 10 r.hum_centi (omega (arith, h.hum_u16)),
  length-digits 9 10 r.pressure_pa (omega (arith, h.pressure_u32)),
  length-digits 2 10 r.flags (omega (arith, h.flags_u8)),
  length-digits 2 10 r.boot_id (omega (arith, h.boot_id_u8)),
)
  where
    comma : (b : Bool) → length (if b then [] else codes ",") ≤ 1
    comma true = omega arith
    comma false = omega arith

-- `emit` cuts nothing off a text that fits its buffer.
pub emit-eq :
    {Ctx : Type 0} (text : List ℕ) (c : Conn Ctx)
    → length text ≤ 191
    → emit text c ≡ record c { out = c.out ++ (text ∷ []) }
unfolding emit
emit-eq text c h = rw (take_all 191 text h)

pub log_head-length : (total offset : ℕ) → length (log_head total offset) ≤ 68
unfolding log_head
log_head-length total offset =
    omega (arith, length-append {0}, length-digits_le 10 total, length-digits_le 10 offset)
