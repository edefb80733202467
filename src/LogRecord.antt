-- ===== src/LogRecord.antt =====
-- firmware/components/log_store/log-record.c: the 16-byte record and its checksum.
pub mod Codec
mod Tests
use s3_bme.Base.{
  ℕ, zero, suc, ◌+◌, ◌*◌, ◌/◌, ◌%◌, ◌^◌, ◌<◌, bit_and, bit_or, bit_xor, ◌==◌, if◌then◌else◌, Bool,
  true, false, Option, none, some, List, [], ◌∷◌, ◌++◌, get_or, take, drop, u8, u16, ◌<<◌, ◌>>◌,
}
use s3_bme.Base.Int.{ℤ, to_u16, to_i16, IsI16}

-- `log_record_t`
pub record LogRecord : Type 0 where
  pub timestamp : ℕ
  pub temp_centi : ℤ
  pub hum_centi : ℕ
  pub pressure_pa : ℕ
  pub flags : ℕ
  pub boot_id : ℕ

-- Every field has a value of its C type.
pub record IsRecord (r : LogRecord) : Type 0 where
  pub timestamp_u32 : r.timestamp < 2 ^ 32
  pub temp_i16 : IsI16 r.temp_centi
  pub hum_u16 : r.hum_centi < 2 ^ 16
  pub pressure_u32 : r.pressure_pa < 2 ^ 32
  pub flags_u8 : r.flags < 2 ^ 8
  pub boot_id_u8 : r.boot_id < 2 ^ 8

-- One round of the inner loop of `crc16_ccitt`.
pub crc_bit : ℕ → ℕ
crc_bit crc = if bit_and crc 0x8000 == 0 then u16 (crc << 1) else u16 (bit_xor (crc << 1) 0x1021)

pub crc_bits : ℕ → ℕ → ℕ
crc_bits zero crc = crc
crc_bits (suc left) crc = crc_bits left (crc_bit crc)

pub crc_loop : ℕ → List ℕ → ℕ
crc_loop crc [] = crc
crc_loop crc (x ∷ xs) = crc_loop (crc_bits 8 (u16 (bit_xor crc (x << 8)))) xs

-- `crc16_ccitt` over the bytes of a list.
unfoldable pub crc16_ccitt : List ℕ → ℕ
unfolding crc_loop crc_bits crc_bit
crc16_ccitt bytes = crc_loop 0xFFFF bytes

pub put_u16 : ℕ → List ℕ
put_u16 v = u8 v ∷ u8 (v >> 8) ∷ []

pub put_u32 : ℕ → List ℕ
put_u32 v = u8 v ∷ u8 (v >> 8) ∷ u8 (v >> 16) ∷ u8 (v >> 24) ∷ []

-- `in[i]`, within the bytes given.
abbrev pub byte_at : List ℕ → ℕ → ℕ
byte_at bytes i = get_or bytes i 0

unfoldable pub get_u16 : List ℕ → ℕ
get_u16 p = u16 (bit_or (byte_at p 0) (byte_at p 1 << 8))

unfoldable pub get_u32 : List ℕ → ℕ
get_u32 p =
    bit_or (bit_or (bit_or (byte_at p 0) (byte_at p 1 << 8)) (byte_at p 2 << 16))
      (byte_at p 3 << 24)

-- The first fourteen bytes that `log_record_encode` writes.
pub payload : LogRecord → List ℕ
payload r =
    put_u32 r.timestamp
    ++ (put_u16 (to_u16 r.temp_centi)
        ++ (put_u16 r.hum_centi ++ (put_u32 r.pressure_pa ++ (r.flags ∷ r.boot_id ∷ []))))

unfoldable pub encode : LogRecord → List ℕ
unfolding payload put_u16 put_u32
encode r = payload r ++ put_u16 (crc16_ccitt (payload r))

-- `log_record_is_empty`, on all the bytes of the buffer.
unfoldable pub is_empty : List ℕ → Bool
is_empty [] = true
is_empty (x ∷ xs) = if x == 0xFF then is_empty xs else false

-- The fields that `log_record_decode` fills in.
unfoldable pub fields : List ℕ → LogRecord
fields bytes = record {
  timestamp = get_u32 bytes;
  temp_centi = to_i16 (get_u16 (drop 4 bytes));
  hum_centi = get_u16 (drop 6 bytes);
  pressure_pa = get_u32 (drop 8 bytes);
  flags = byte_at bytes 12;
  boot_id = byte_at bytes 13;
}

unfoldable pub decode : List ℕ → Option LogRecord
decode bytes =
    if is_empty bytes
    then none
    else if get_u16 (drop 14 bytes) == crc16_ccitt (take 14 bytes)
    then some (fields bytes)
    else none
