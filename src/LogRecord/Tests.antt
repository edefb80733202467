-- ===== src/LogRecord/Tests.antt =====
-- The record codec at concrete inputs.
use s3_bme.Base.{◌≡◌, ◌↔◌, refl, some, false, [], ◌∷◌, arith}
use s3_bme.Base.Int.{negsuc}
use s3_bme.LogRecord.{LogRecord, IsRecord, crc16_ccitt, encode, decode, is_empty}
use s3_bme.LogRecord.Codec.{decode_iff, encode-not_empty, length-encode, encode-IsBytes}

abbrev sample : LogRecord
sample = record {
  timestamp = 1_700_000_000;
  temp_centi = negsuc 499;
  hum_centi = 5012;
  pressure_pa = 101325;
  flags = 1;
  boot_id = 7;
}

sample-IsRecord : IsRecord sample
sample-IsRecord = omega arith

-- The check value of CRC-16/CCITT-FALSE.
crc_check : crc16_ccitt (0x31 ∷ 0x32 ∷ 0x33 ∷ 0x34 ∷ 0x35 ∷ 0x36 ∷ 0x37 ∷ 0x38 ∷ 0x39 ∷ []) ≡ 0x29B1
unfolding crc16_ccitt
crc_check = refl

decode_iff_example :
    (decode (encode sample) ≡ some sample) ↔ (IsRecord sample × (encode sample ≡ encode sample))
decode_iff_example =
    decode_iff (encode sample) sample (length-encode sample) (encode-IsBytes sample sample-IsRecord)

encode-not_empty_example : is_empty (encode sample) ≡ false
encode-not_empty_example = encode-not_empty sample
