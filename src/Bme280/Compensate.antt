-- ===== src/Bme280/Compensate.antt =====
-- firmware/components/bme280/bme280-compensate.c: the calibration data and the compensation
-- formulas. `int32_t` operations wrap, `>>` of a negative number rounds down.
pub mod Humidity
pub mod Tests
use s3_bme.Base.{
  ℕ, ◌+◌, ◌-◌, ◌*◌, ◌/◌, ◌%◌, ◌^◌, ltb, ◌==◌, if◌then◌else◌, Bool, true, false, List, get_or, drop,
  bit_and, bit_or, u16, u32, ◌<<◌, ◌>>◌,
}
use s3_bme.Base.Int.{ℤ, pos, negsuc, ltb_ℤ, to_u16, to_u32, to_i8, to_i16, to_i32}
use s3_bme.Base.Int32.{◌⊕◌, ◌⊖◌, ◌⊗◌, shl, shr, or_int}
use s3_bme.Bme280.{Calib, Reading}

unfoldable pub le16 : List ℕ → ℕ
le16 p = u16 (bit_or (get_or p 0 0) (get_or p 1 0 << 8))

-- `(int16_t)le16(p)`
unfoldable pub signed16 : List ℕ → ℤ
unfolding le16
signed16 p = to_i16 (le16 p)

unfoldable pub parse_calib : List ℕ → List ℕ → Calib
unfolding le16 signed16 or_int ◌⊗◌
parse_calib calib1 calib2 = record {
  dig_t1 = le16 calib1;
  dig_t2 = signed16 (drop 2 calib1);
  dig_t3 = signed16 (drop 4 calib1);
  dig_p1 = le16 (drop 6 calib1);
  dig_p2 = signed16 (drop 8 calib1);
  dig_p3 = signed16 (drop 10 calib1);
  dig_p4 = signed16 (drop 12 calib1);
  dig_p5 = signed16 (drop 14 calib1);
  dig_p6 = signed16 (drop 16 calib1);
  dig_p7 = signed16 (drop 18 calib1);
  dig_p8 = signed16 (drop 20 calib1);
  dig_p9 = signed16 (drop 22 calib1);
  dig_h1 = get_or calib1 25 0;
  dig_h2 = signed16 calib2;
  dig_h3 = get_or calib2 2 0;
  dig_h4 = to_i16 (
      to_u16
        (or_int (to_i8 (get_or calib2 3 0) ⊗ pos 16) (pos (bit_and (get_or calib2 4 0) 0x0F))));
  dig_h5 =
      to_i16 (to_u16 (or_int (to_i8 (get_or calib2 5 0) ⊗ pos 16) (pos (get_or calib2 4 0 >> 4))));
  dig_h6 = to_i8 (get_or calib2 6 0);
}

module _ (c : Calib) where
  open c use {
    dig_t1, dig_t2, dig_t3, dig_p1, dig_p2, dig_p3, dig_p4, dig_p5, dig_p6, dig_p7, dig_p8, dig_p9,
    dig_h1, dig_h2, dig_h3, dig_h4, dig_h5, dig_h6,
  }

  unfoldable pub t_fine_of : ℤ → ℤ
  t_fine_of adc_t =
      let var1 : ℤ = shr ((shr adc_t 3 ⊖ shl (pos dig_t1) 1) ⊗ dig_t2) 11 in
      let diff : ℤ = shr adc_t 4 ⊖ pos dig_t1 in
      let var2 : ℤ = shr (shr (diff ⊗ diff) 12 ⊗ dig_t3) 14 in var1 ⊕ var2

  unfoldable pub temperature : ℤ → ℤ
  temperature t_fine = shr (t_fine ⊗ pos 5 ⊕ pos 128) 8

  -- The pressure once `var1`, which is not zero, and `var2` are computed.
  unfoldable pub pressure_from : ℤ → ℤ → ℤ → ℕ
  pressure_from var1 var2 adc_p =
      let raw : ℕ =
        u32 (u32 (to_u32 (pos 1048576 ⊖ adc_p) + 2 ^ 32 - to_u32 (shr var2 12)) * 3125) in
      let p : ℕ =
        if ltb raw 0x80000000 then u32 (raw << 1) / to_u32 var1 else u32 (raw / to_u32 var1 * 2) in
      let v1 : ℤ = shr (dig_p9 ⊗ to_i32 (u32 ((p >> 3) * (p >> 3)) >> 13)) 12 in
      let v2 : ℤ = shr (to_i32 (p >> 2) ⊗ dig_p8) 13 in to_u32 (to_i32 p ⊕ shr (v1 ⊕ v2 ⊕ dig_p7) 4)

  unfoldable pub pressure : ℤ → ℤ → ℕ
  pressure t_fine adc_p =
      let start : ℤ = shr t_fine 1 ⊖ pos 64000 in
      let square : ℤ = shr start 2 ⊗ shr start 2 in
      let sum : ℤ = shr square 11 ⊗ dig_p6 ⊕ shl (start ⊗ dig_p5) 1 in
      let var2 : ℤ = shr sum 2 ⊕ shl dig_p4 16 in
      let scaled : ℤ = shr (shr (dig_p3 ⊗ shr square 13) 3 ⊕ shr (dig_p2 ⊗ start) 1) 18 in
      let var1 : ℤ = shr ((pos 32768 ⊕ scaled) ⊗ pos dig_p1) 15 in
      if to_u32 var1 == 0 then 0 else pressure_from var1 var2 adc_p

  -- `v` after both long assignments, before it is clamped.
  unfoldable pub humidity_raw : ℤ → ℤ → ℤ
  humidity_raw t_fine adc_h =
      let v : ℤ = t_fine ⊖ pos 76800 in
      let left : ℤ = shr ((shl adc_h 14 ⊖ shl dig_h4 20 ⊖ dig_h5 ⊗ v) ⊕ pos 16384) 15 in
      let inner : ℤ = shr (shr (v ⊗ dig_h6) 10 ⊗ (shr (v ⊗ pos dig_h3) 11 ⊕ pos 32768)) 10 in
      let right : ℤ = shr ((inner ⊕ pos 2097152) ⊗ dig_h2 ⊕ pos 8192) 14 in
      let w : ℤ = left ⊗ right in w ⊖ shr (shr (shr w 15 ⊗ shr w 15) 7 ⊗ pos dig_h1) 4

  unfoldable pub humidity_centi : ℤ → ℕ
  humidity_centi raw =
      let low : ℤ = if ltb_ℤ raw (pos 0) then pos 0 else raw in
      let v : ℤ = if ltb_ℤ (pos 419430400) low then pos 419430400 else low in
      let h : ℕ = to_u32 (shr v 12) in u32 (u32 (h * 100) + 512) / 1024

  unfoldable pub compensate : ℤ → ℤ → ℤ → Reading
  compensate adc_t adc_p adc_h =
      let t_fine = t_fine_of adc_t in
      record {
        temp_centi = temperature t_fine;
        pressure_pa = pressure t_fine adc_p;
        hum_centi = humidity_centi (humidity_raw t_fine adc_h);
      }
