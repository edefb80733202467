-- ===== src/Bme280/Driver/Data.antt =====
-- The numbers in the bytes that the sensor measured, and the pressure that is made of them.
use s3_bme.Base.{
  ◌+◌, ◌*◌, ◌/◌, ◌<<◌, bit_or, bit_or-shifted, ◌%◌, ltb, true, ℕ, ◌^◌, ◌<◌, ap, ◌≡◌, refl, ◌∙◌,
  List, get_or, arith,
}
use s3_bme.Base.Int.{pos, to_i32}
use s3_bme.Base.Result.{Result, ok, err, hang, continue}
use s3_bme.Bme280.{Reading}
use s3_bme.Bme280.Compensate.Humidity.{compensate-pressure_pa}
use s3_bme.Bme280.Compensate.{compensate}
use s3_bme.Bme280.Driver.{Bus, Sensor, adc_20, adc_16, measure, read}

-- The numbers of 20 and of 16 bits in the data, the first byte the highest.
abbrev pub raw_20 : List ℕ → ℕ → ℕ
raw_20 d i = get_or d i 0 * 2 ^ 12 + get_or d (i + 1) 0 * 2 ^ 4 + get_or d (i + 2) 0 / 2 ^ 4

abbrev pub raw_16 : List ℕ → ℕ
raw_16 d = get_or d 6 0 * 2 ^ 8 + get_or d 7 0

to_i32-small : (w : ℕ) → w < 2 ^ 31 → to_i32 w ≡ pos w
to_i32-small w h =
    let whole : w % 2 ^ 32 ≡ w = omega arith in
    let positive : ltb w (2 ^ 31) ≡ true = ground arith in rw (whole, positive) refl

pub adc_20-raw_20 :
    (B : Bus) (d : List ℕ) (i : ℕ)
    → ((j : ℕ) → get_or d j 0 < 2 ^ 8)
    → adc_20 B d i ≡ pos (raw_20 d i)
unfolding adc_20
adc_20-raw_20 B d i byte =
    shifted (get_or d i 0) (get_or d (i + 1) 0) (get_or d (i + 2) 0) (byte i) (byte (i + 1))
      (byte (i + 2))
  where
    shifted :
        (a b c : ℕ)
        → a < 2 ^ 8
        → b < 2 ^ 8
        → c < 2 ^ 8
        → to_i32 (bit_or (bit_or (a << 12) (b << 4)) (c / 2 ^ 4))
          ≡ pos (a * 2 ^ 12 + b * 2 ^ 4 + c / 2 ^ 4)
    shifted a b c ha hb hc =
        let high : bit_or (a * 2 ^ 12) (b * 2 ^ 4) ≡ a * 2 ^ 12 + b * 2 ^ 4 =
          bit_or-shifted 12 a (b * 2 ^ 4) (omega arith) in
        let both : a * 2 ^ 12 + b * 2 ^ 4 ≡ (a * 2 ^ 8 + b) * 2 ^ 4 = omega arith in
        let low : bit_or ((a * 2 ^ 8 + b) * 2 ^ 4) (c / 2 ^ 4)
            ≡ (a * 2 ^ 8 + b) * 2 ^ 4 + c / 2 ^ 4 =
          bit_or-shifted 4 (a * 2 ^ 8 + b) (c / 2 ^ 4) (omega arith) in
        let place : (a * 2 ^ 8 + b) * 2 ^ 4 + c / 2 ^ 4 ≡ a * 2 ^ 12 + b * 2 ^ 4 + c / 2 ^ 4 =
          omega arith in
        ap (λ x. to_i32 (bit_or x (c / 2 ^ 4))) (high ∙ both)
        ∙ (ap to_i32 low ∙ (to_i32-small _ (omega arith) ∙ ap pos place))

pub adc_16-raw_16 :
    (B : Bus) (d : List ℕ) → ((j : ℕ) → get_or d j 0 < 2 ^ 8) → adc_16 B d ≡ pos (raw_16 d)
unfolding adc_16
adc_16-raw_16 B d byte =
    let (high, small) : (get_or d 6 0 < 2 ^ 8) × (get_or d 7 0 < 2 ^ 8) = (byte 6, byte 7) in
    ap to_i32 (bit_or-shifted 8 (get_or d 6 0) (get_or d 7 0) small)
    ∙ to_i32-small (raw_16 d) (omega arith)

computed-lt :
    (B : Bus) (found : Result (List ℕ)) (u : Sensor B.Dev) (r : Reading) (t : Sensor B.Dev)
    → continue found
        (λ d s. (ok (compensate s.calib (adc_20 B d 3) (adc_20 B d 0) (adc_16 B d)), s))
        u
      ≡ (ok r, t)
    → r.pressure_pa < 2 ^ 32
computed-lt B (ok d) u r t e =
    let same : compensate u.calib (adc_20 B d 3) (adc_20 B d 0) (adc_16 B d) ≡ r =
      cc (ap (λ p. p.0) e) in
    rw (← same) (compensate-pressure_pa u.calib _ _ _)
computed-lt B (err c) u r t e = cc (ap (λ p. p.0) e)
computed-lt B hang u r t e = cc (ap (λ p. p.0) e)

-- The pressure of a reading is a value of its type.
pub read-pressure_pa :
    (B : Bus) (s : Sensor B.Dev) (r : Reading) (t : Sensor B.Dev)
    → read B s ≡ (ok r, t)
    → r.pressure_pa < 2 ^ 32
unfolding read
read-pressure_pa B s r t e = computed-lt B (measure B s).0 (measure B s).1 r t e
