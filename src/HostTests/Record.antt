-- ===== src/HostTests/Record.antt =====
-- firmware/test_host/test-log-record.c
use s3_bme.Base.{
  ℕ, ◌+◌, ◌≡◌, refl, Bool, true, false, not, Option, none, some, List, [], ◌∷◌, ◌++◌, ◌==◌, get_or,
  take, drop, replicate, bit_xor, codes,
}
use s3_bme.Base.Int.{negsuc, eqb_ℤ}
use s3_bme.LogRecord.{LogRecord, crc16_ccitt, encode, decode, is_empty, get_u16, get_u32, fields}
use s3_bme.HostTests.{all_of, refuses}

-- -520 is stored as 0xFDF8.
abbrev sample : LogRecord
sample = record {
  timestamp = 1_789_000_000;
  temp_centi = negsuc 519;
  hum_centi = 4120;
  pressure_pa = 101325;
  flags = 1;
  boot_id = 7;
}

-- `buf[i] = v`
abbrev set_byte : ℕ → ℕ → List ℕ → List ℕ
set_byte i v buf = take i buf ++ (v ∷ drop (i + 1) buf)

abbrev test_crc16_ccitt_known_vector : Bool
test_crc16_ccitt_known_vector = crc16_ccitt (codes "123456789") == 0x29B1

abbrev test_encode_layout_is_little_endian : Bool
test_encode_layout_is_little_endian =
    let buf = encode sample in
    all_of (
      (get_or buf 0 0 == 0x40)
      ∷ (get_or buf 1 0 == 0xF9)
      ∷ (get_or buf 2 0 == 0xA1)
      ∷ (get_or buf 3 0 == 0x6A)
      ∷ (get_or buf 4 0 == 0xF8)
      ∷ (get_or buf 5 0 == 0xFD)
      ∷ (get_or buf 12 0 == 0x01)
      ∷ (get_or buf 13 0 == 0x07)
      ∷ [])

abbrev same_record : LogRecord → LogRecord → Bool
same_record r out = all_of (
    (r.timestamp == out.timestamp)
    ∷ eqb_ℤ r.temp_centi out.temp_centi
    ∷ (r.hum_centi == out.hum_centi)
    ∷ (r.pressure_pa == out.pressure_pa)
    ∷ (r.flags == out.flags)
    ∷ (r.boot_id == out.boot_id)
    ∷ [])

abbrev gives_record : Option LogRecord → LogRecord → Bool
gives_record none r = false
gives_record (some out) r = same_record r out

abbrev test_encode_decode_roundtrip : Bool
test_encode_decode_roundtrip = gives_record (decode (encode sample)) sample

abbrev test_decode_rejects_crc_mismatch : Bool
test_decode_rejects_crc_mismatch =
    let buf = encode sample in refuses (decode (set_byte 8 (bit_xor (get_or buf 8 0) 0x01) buf))

abbrev test_empty_slot_detection : Bool
test_empty_slot_detection =
    let buf = replicate 16 0xFF in
    all_of (is_empty buf ∷ refuses (decode buf) ∷ not (is_empty (set_byte 15 0x00 buf)) ∷ [])

abbrev main : List Bool
main =
    test_crc16_ccitt_known_vector ∷ test_encode_layout_is_little_endian
    ∷ test_encode_decode_roundtrip ∷ test_decode_rejects_crc_mismatch ∷ test_empty_slot_detection
    ∷ []

-- The suite passes.
record_suite : all_of main ≡ true
unfolding crc16_ccitt encode decode is_empty get_u16 fields get_u32
record_suite = refl
