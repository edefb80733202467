-- ===== src/LogRecord/Codec.antt =====
-- Laws of the record codec.
use s3_bme.Base.{
  ℕ, suc, ◌+◌, ◌*◌, ◌^◌, ◌<◌, ◌==◌, ◌≡◌, ◌↔◌, refl, ap, arith, true, false, some, List, [], ◌∷◌,
  drop, length, u8, ◌>>◌, bit_or-shifted_right, Bool-cases, inl, inr, take, ==_refl, ◌++◌,
  replicate, ap₂,
}
use s3_bme.Base.Int.{to_u16, to_i16, to_i16-to_u16, to_u16-lt, to_u16-to_i16, to_i16-IsI16}
use s3_bme.LogRecord.{
  LogRecord, IsRecord, crc_bit, crc_bits, crc_loop, crc16_ccitt, put_u16, put_u32, get_u16, get_u32,
  payload, encode, decode, is_empty, fields,
}

crc_bits-lt : (n crc : ℕ) → crc < 2 ^ 16 → crc_bits n crc < 2 ^ 16
unfolding crc_bits crc_bit
crc_bits-lt ℕ.zero crc h = h
crc_bits-lt (suc n) crc h = crc_bits-lt n (crc_bit crc) (ground arith)

crc_loop-lt : (bytes : List ℕ) (crc : ℕ) → crc < 2 ^ 16 → crc_loop crc bytes < 2 ^ 16
unfolding crc_loop
crc_loop-lt [] crc h = h
crc_loop-lt (x ∷ xs) crc h = crc_loop-lt xs _ (crc_bits-lt 8 _ (omega arith))

pub crc16_ccitt-lt : (bytes : List ℕ) → crc16_ccitt bytes < 2 ^ 16
unfolding crc16_ccitt
crc16_ccitt-lt bytes = crc_loop-lt bytes 0xFFFF (omega arith)

-- The little-endian fields read back.
get_u16-bytes : (v : ℕ) (rest : List ℕ) → v < 2 ^ 16 → get_u16 (u8 v ∷ u8 (v >> 8) ∷ rest) ≡ v
unfolding get_u16
get_u16-bytes v rest h = omega (arith, bit_or-shifted_right 8 (u8 (v >> 8)) (u8 v) (omega arith))

get_u32-bytes :
    (v : ℕ) (rest : List ℕ)
    → v < 2 ^ 32
    → get_u32 (u8 v ∷ u8 (v >> 8) ∷ u8 (v >> 16) ∷ u8 (v >> 24) ∷ rest) ≡ v
unfolding get_u32
get_u32-bytes v rest h =
    rw
      (
        bit_or-shifted_right 8 (u8 (v >> 8)) (u8 v) (omega arith),
        bit_or-shifted_right 16 (u8 (v >> 16)) (u8 v + u8 (v >> 8) * 2 ^ 8) (omega arith),
        bit_or-shifted_right 24 (u8 (v >> 24)) (u8 v + u8 (v >> 8) * 2 ^ 8 + u8 (v >> 16) * 2 ^ 16)
            (omega arith),
      )
      (omega arith)

fields-encode : (r : LogRecord) → IsRecord r → fields (encode r) ≡ r
unfolding fields encode put_u16 put_u32
fields-encode r h = λ i. record {
  timestamp = get_u32-bytes r.timestamp (drop 4 (encode r)) h.timestamp_u32 i;
  temp_centi = temp i;
  hum_centi = get_u16-bytes r.hum_centi (drop 8 (encode r)) h.hum_u16 i;
  pressure_pa = get_u32-bytes r.pressure_pa (drop 12 (encode r)) h.pressure_u32 i;
  flags = r.flags;
  boot_id = r.boot_id;
}
  where
    temp : to_i16 (get_u16 (drop 4 (encode r))) ≡ r.temp_centi
    temp =
        rw (get_u16-bytes (to_u16 r.temp_centi) (drop 6 (encode r)) (to_u16-lt r.temp_centi))
          (to_i16-to_u16 r.temp_centi h.temp_i16)

abbrev blank : List ℕ
blank = 255 ∷ 255 ∷ 255 ∷ 255 ∷ 255 ∷ 255 ∷ 255 ∷ 255 ∷ 255 ∷ 255 ∷ 255 ∷ 255 ∷ 255 ∷ 255 ∷ []

-- The checksum of fourteen erased bytes is not 0xFFFF.
crc_blank : (crc16_ccitt blank == 0xFFFF) ≡ false
unfolding crc16_ccitt
crc_blank = refl

pub is_empty-cons :
    (x : ℕ) (xs : List ℕ) → is_empty (x ∷ xs) ≡ true → (x ≡ 0xFF) × (is_empty xs ≡ true)
unfolding is_empty
is_empty-cons x xs h = ground arith

is_empty-append :
    (xs ys : List ℕ)
    → is_empty (xs ++ ys) ≡ true
    → (xs ≡ replicate (length xs) 0xFF) × (is_empty ys ≡ true)
is_empty-append [] ys h = (refl, h)
is_empty-append (x ∷ xs) ys h =
    let (e, rest) = is_empty-cons x (xs ++ ys) h in
    let (es, last) = is_empty-append xs ys rest in (ap₂ ◌∷◌ e es, last)

length-payload : (r : LogRecord) → length (payload r) ≡ 14
unfolding payload put_u16 put_u32
length-payload r = refl

ones_of_empty : (v : ℕ) → v < 2 ^ 16 → is_empty (put_u16 v) ≡ true → v ≡ 0xFFFF
unfolding put_u16 is_empty
ones_of_empty v h e = ground arith

encode_split : (r : LogRecord) → encode r ≡ payload r ++ put_u16 (crc16_ccitt (payload r))
unfolding encode
encode_split r = refl

-- No record encodes to an erased slot.
pub encode-not_empty : (r : LogRecord) → is_empty (encode r) ≡ false
encode-not_empty r = elim (Bool-cases (is_empty (encode r))) [
  | inr e ↦ e
  | inl e ↦ absurd (clash (is_empty-append (payload r) _ (rw encode_split at e)))
]
  where
    clash :
        (payload r ≡ replicate (length (payload r)) 0xFF)
          × (is_empty (put_u16 (crc16_ccitt (payload r))) ≡ true)
        → ⊥
    clash (p, q) =
        let blank_payload : payload r ≡ blank = rw length-payload at p in
        let all_ones : crc16_ccitt (payload r) ≡ 0xFFFF =
          ones_of_empty _ (crc16_ccitt-lt (payload r)) q in
        ground (arith, ap crc16_ccitt blank_payload, all_ones, crc_blank)

-- What is encoded from a record with values in the range of their types decodes to it.
pub decode-encode : (r : LogRecord) → IsRecord r → decode (encode r) ≡ some r
unfolding decode
decode-encode r h = rw (encode-not_empty r, checksum, fields-encode r h, ==_refl)
  where
    checksum : get_u16 (drop 14 (encode r)) ≡ crc16_ccitt (take 14 (encode r))
    checksum = unfold encode put_u16 put_u32 in get_u16-bytes _ [] (crc16_ccitt-lt (payload r))

-- Every byte of a list is an uint8_t.
abbrev pub IsBytes : List ℕ → Type 0
IsBytes [] = Unit {0}
IsBytes (x ∷ xs) = (x < 256) × IsBytes xs

pub length-encode : (r : LogRecord) → length (encode r) ≡ 16
unfolding encode put_u16 put_u32
length-encode r = refl

pub encode-IsBytes : (r : LogRecord) → IsRecord r → IsBytes (encode r)
unfolding encode put_u16 put_u32
encode-IsBytes r v = omega arith

get_u16_sum : (a b : ℕ) (p : List ℕ) → a < 256 → b < 256 → get_u16 (a ∷ b ∷ p) ≡ a + b * 256
unfolding get_u16
get_u16_sum a b p ha hb = omega (arith, bit_or-shifted_right 8 b a (omega arith))

put_u16-get_u16 :
    (a b : ℕ) (p : List ℕ) → a < 256 → b < 256 → put_u16 (get_u16 (a ∷ b ∷ p)) ≡ a ∷ b ∷ []
unfolding put_u16
put_u16-get_u16 a b p ha hb =
    rw (get_u16_sum a b p ha hb) (ap₂ (λ x y. x ∷ y ∷ []) (omega arith) (omega arith))

get_u32_sum :
    (a b c d : ℕ) (p : List ℕ)
    → a < 256
    → b < 256
    → c < 256
    → d < 256
    → get_u32 (a ∷ b ∷ c ∷ d ∷ p) ≡ a + b * 2 ^ 8 + c * 2 ^ 16 + d * 2 ^ 24
unfolding get_u32
get_u32_sum a b c d p ha hb hc hd = rw (
  bit_or-shifted_right 8 b a ha,
  bit_or-shifted_right 16 c (a + b * 2 ^ 8) (omega arith),
  bit_or-shifted_right 24 d (a + b * 2 ^ 8 + c * 2 ^ 16) (omega arith),
)

put_u32-get_u32 :
    (a b c d : ℕ) (p : List ℕ)
    → a < 256
    → b < 256
    → c < 256
    → d < 256
    → put_u32 (get_u32 (a ∷ b ∷ c ∷ d ∷ p)) ≡ a ∷ b ∷ c ∷ d ∷ []
unfolding put_u32
put_u32-get_u32 a b c d p ha hb hc hd =
    rw (get_u32_sum a b c d p ha hb hc hd) (λ i. low i ∷ second i ∷ third i ∷ fourth i ∷ [])
  where
    sum : ℕ
    sum = a + b * 2 ^ 8 + c * 2 ^ 16 + d * 2 ^ 24

    low : u8 sum ≡ a
    low = omega arith

    second : u8 (sum >> 8) ≡ b
    second = omega arith

    third : u8 (sum >> 16) ≡ c
    third = omega arith

    fourth : u8 (sum >> 24) ≡ d
    fourth = omega arith

decode-some :
    (bytes : List ℕ) (r : LogRecord)
    → decode bytes ≡ some r
    → (get_u16 (drop 14 bytes) ≡ crc16_ccitt (take 14 bytes)) × (fields bytes ≡ r)
unfolding decode
decode-some bytes r e = ground arith

-- The fields of sixteen bytes are in range, and encode to the same payload.
record FieldsFit (bytes : List ℕ) : Type 0 where
  in_range : IsRecord (fields bytes)
  same_payload : payload (fields bytes) ≡ take 14 bytes
  same_sum : put_u16 (get_u16 (drop 14 bytes)) ≡ drop 14 bytes
  whole : take 14 bytes ++ drop 14 bytes ≡ bytes

fields_fit : (bytes : List ℕ) → length bytes ≡ 16 → IsBytes bytes → FieldsFit bytes
unfolding fields payload
fields_fit
      (b0 ∷ b1 ∷ b2 ∷ b3 ∷ b4 ∷ b5 ∷ b6 ∷ b7 ∷ b8 ∷ b9 ∷ b10 ∷ b11 ∷ b12 ∷ b13 ∷ b14 ∷ b15 ∷ []) l
      h =
    record {
      in_range = record {
        timestamp_u32 = omega (arith, word0);
        temp_i16 = to_i16-IsI16 _;
        hum_u16 = omega (arith, word6);
        pressure_u32 = omega (arith, word8);
        flags_u8 = omega arith;
        boot_id_u8 = omega arith;
      };
      same_payload = rw (
        put_u32-get_u32 b0 b1 b2 b3 _ (omega arith) (omega arith) (omega arith) (omega arith),
        to_u16-to_i16 (get_u16 (b4 ∷ b5 ∷ tail6)) (omega (arith, word4)),
        put_u16-get_u16 b4 b5 tail6 (omega arith) (omega arith),
        put_u16-get_u16 b6 b7 tail8 (omega arith) (omega arith),
        put_u32-get_u32 b8 b9 b10 b11 tail12 (omega arith) (omega arith) (omega arith)
            (omega arith),
      );
      same_sum = put_u16-get_u16 b14 b15 [] (omega arith) (omega arith);
      whole = refl;
    }
  where
    tail12 : List ℕ
    tail12 = b12 ∷ b13 ∷ b14 ∷ b15 ∷ []

    tail8 : List ℕ
    tail8 = b8 ∷ b9 ∷ b10 ∷ b11 ∷ tail12

    tail6 : List ℕ
    tail6 = b6 ∷ b7 ∷ tail8

    tail4 : List ℕ
    tail4 = b4 ∷ b5 ∷ tail6

    word0 : get_u32 (b0 ∷ b1 ∷ b2 ∷ b3 ∷ tail4) ≡ b0 + b1 * 2 ^ 8 + b2 * 2 ^ 16 + b3 * 2 ^ 24
    word0 = get_u32_sum b0 b1 b2 b3 tail4 (omega arith) (omega arith) (omega arith) (omega arith)

    word4 : get_u16 tail4 ≡ b4 + b5 * 256
    word4 = get_u16_sum b4 b5 tail6 (omega arith) (omega arith)

    word6 : get_u16 tail6 ≡ b6 + b7 * 256
    word6 = get_u16_sum b6 b7 tail8 (omega arith) (omega arith)

    word8 : get_u32 tail8 ≡ b8 + b9 * 2 ^ 8 + b10 * 2 ^ 16 + b11 * 2 ^ 24
    word8 = get_u32_sum b8 b9 b10 b11 tail12 (omega arith) (omega arith) (omega arith) (omega arith)
fields_fit _ l h = absurd (omega arith)

-- A slot of sixteen bytes decodes to a record exactly when that record has values in range and
-- its encoding is the slot.
pub decode_iff :
    (bytes : List ℕ) (r : LogRecord)
    → length bytes ≡ 16
    → IsBytes bytes
    → (decode bytes ≡ some r) ↔ (IsRecord r × (encode r ≡ bytes))
decode_iff bytes r l h = (there, λ (v, e). rw (← e) (decode-encode r v))
  where
    fit : FieldsFit bytes
    fit = fields_fit bytes l h

    there : decode bytes ≡ some r → IsRecord r × (encode r ≡ bytes)
    there e =
        let (sum, same) = decode-some bytes r e in
        rw (← same)
          (fit.in_range, rw (encode_split, fit.same_payload, ← sum, fit.same_sum) fit.whole)
