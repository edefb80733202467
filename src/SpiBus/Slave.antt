-- ===== src/SpiBus/Slave.antt =====
-- A sensor on the SPI bus: what its data sheet says of the frames, and its registers over the bus.
use s3_bme.Base.{
  ℕ, zero, suc, ◌+◌, ◌-◌, ◌*◌, ◌≤◌, ◌<◌, ◌≡◌, ◌≢◌, ap, refl, arith, ltb, false, List, [], ◌∷◌,
  length, take, replicate, bit_and, bit_or, bit_and-ones, bit_or-top_digit,
}
use s3_bme.Base.Result.{with_code, with_code-Ensures, bind-Ensures, weaken, Ensures}
use s3_bme.Base.Int.{negsuc}
use s3_bme.Flash.{bytes_from}
use s3_bme.Bme280.Registers.{SameFixed, IsControl, IsRegisters}
use s3_bme.SpiBus.{SpiMaster, max_transfer, spi_read_regs, spi_write_reg, spi_delay_ms, spi_bus}

-- A frame whose first bit is set reads the registers from the control byte on, behind one byte of
-- no meaning. Otherwise the second byte is written to the register, whose number has its first bit
-- set, if it is one that the register takes. 0xB6 in register 0xE0 is a reset.
pub record IsSlave (P : SpiMaster) (reg : P.Dev → ℕ → ℕ) (Fails : Type 0) : Type 0 where
  pub read_frame :
      (c n : ℕ) (tail : List ℕ) (d : P.Dev)
      → 0x80 ≤ c
      → c + n ≤ 0x100
      → n ≤ length tail
      → Ensures
          (λ rx e. ((x : ℕ) × (rx ≡ x ∷ bytes_from (reg d) c n)) × (reg e ≡ reg d))
          (λ c e. Fails)
          (P.transmit (8 * (n + 1)) (c ∷ tail) d)
  pub write_frame :
      (c v : ℕ) (d : P.Dev)
      → IsControl (c + 0x80) v
      → Ensures
          (λ rx e. (reg e (c + 0x80) ≡ v) × ((q : ℕ) → q ≢ c + 0x80 → reg e q ≡ reg d q))
          (λ c e. Fails)
          (P.transmit 16 (c ∷ v ∷ []) d)
  pub reset_frame :
      (d : P.Dev)
      → Ensures
          (λ rx e. SameFixed (reg d) (reg e))
          (λ c e. Fails)
          (P.transmit 16 (0x60 ∷ 0xB6 ∷ []) d)
  pub time_lem : (n : ℕ) (d : P.Dev) → SameFixed (reg d) (reg (P.task_delay n d))

-- The first bit of a register's number in the upper half is set already.
or_128 : (r : ℕ) → 0x80 ≤ r → r < 0x100 → bit_or r 0x80 ≡ r
or_128 r lo hi = bit_or-top_digit 7 r lo hi

and_127 : (r : ℕ) → 0x80 ≤ r → r < 0x100 → bit_and r 0x7F ≡ r - 0x80
and_127 r lo hi = omega (arith, bit_and-ones 7 r)

length-bytes_from : (f : ℕ → ℕ) (r n : ℕ) → length (bytes_from f r n) ≡ n
length-bytes_from f r zero = refl
length-bytes_from f r (suc n) = ap suc (length-bytes_from f (r + 1) n)

take-bytes_from : (f : ℕ → ℕ) (r n : ℕ) → take n (bytes_from f r n) ≡ bytes_from f r n
take-bytes_from f r zero = refl
take-bytes_from f r (suc n) = ap (λ bs. f r ∷ bs) (take-bytes_from f (r + 1) n)

length-replicate : (n : ℕ) → length {A = ℕ} (replicate n 0) ≡ n
length-replicate zero = refl
length-replicate (suc n) = ap suc (length-replicate n)

module _ (P : SpiMaster) (reg : P.Dev → ℕ → ℕ) {Fails : Type 0} (S : IsSlave P reg Fails) where
  read-Ensures :
      (r n : ℕ) (d : P.Dev)
      → 0x80 ≤ r
      → r < 0x100
      → r + n ≤ 0x100
      → n ≤ 26
      → Ensures
          (λ bs e. (bs ≡ bytes_from (reg d) r n) × (reg e ≡ reg d))
          (λ c e. Fails)
          (spi_read_regs P r n d)
  unfolding spi_read_regs
  read-Ensures r n d lo hi fits few =
      let short : ltb max_transfer n ≡ false = ground arith in
      let room : n ≤ length {A = ℕ} (replicate max_transfer 0) = omega (arith, few) in
      rw (short, or_128 r lo hi)
        (bind-Ensures (λ rx e. ((x : ℕ) × (rx ≡ x ∷ bytes_from (reg d) r n)) × (reg e ≡ reg d))
          (λ bs e. (bs ≡ bytes_from (reg d) r n) × (reg e ≡ reg d)) (λ c e. Fails)
          (with_code (negsuc 0) (P.transmit (8 * (n + 1)) (r ∷ replicate max_transfer 0))) _ d
          (weaken _ _ _ _
            (with_code (negsuc 0) (P.transmit (8 * (n + 1)) (r ∷ replicate max_transfer 0))) d
            (with_code-Ensures _ _ (negsuc 0)
              (P.transmit (8 * (n + 1)) (r ∷ replicate max_transfer 0)) d
              (S.read_frame r n (replicate max_transfer 0) d lo fits room))
            (λ rx e p. p) (λ c e (_, (_, f)). f))
          (λ rx e ((x, p), same). (rw p (take-bytes_from (reg d) r n), same)))

  write-Ensures :
      (r v : ℕ) (d : P.Dev)
      → IsControl r v
      → Ensures
          (λ u e. (reg e r ≡ v) × ((q : ℕ) → q ≢ r → reg e q ≡ reg d q))
          (λ c e. Fails)
          (spi_write_reg P r v d)
  unfolding spi_write_reg
  write-Ensures r v d ctl =
      let low : r - 0x80 + 0x80 ≡ r = omega arith in
      rw (and_127 r (omega arith) (omega arith)) (
        bind-Ensures (λ rx e. (reg e r ≡ v) × ((q : ℕ) → q ≢ r → reg e q ≡ reg d q)) _
          (λ c e. Fails) (with_code (negsuc 0) (P.transmit 16 ((r - 0x80) ∷ v ∷ []))) _ d
          (weaken _ _ _ _ (with_code (negsuc 0) (P.transmit 16 ((r - 0x80) ∷ v ∷ []))) d
            (with_code-Ensures _ _ (negsuc 0) (P.transmit 16 ((r - 0x80) ∷ v ∷ [])) d
              (S.write_frame (r - 0x80) v d (rw low ctl)))
            (λ rx e p. rw low at p) (λ c e (_, (_, f)). f))
          (λ rx e p. p))

  delay-SameFixed : (ms : ℕ) (d : P.Dev) → SameFixed (reg d) (reg (spi_delay_ms P ms d))
  unfolding spi_delay_ms
  delay-SameFixed ms d = S.time_lem _ d

  reset-Ensures :
      (d : P.Dev)
      → Ensures (λ u e. SameFixed (reg d) (reg e)) (λ c e. Fails) (spi_write_reg P 0xE0 0xB6 d)
  unfolding spi_write_reg
  reset-Ensures d =
      bind-Ensures (λ rx e. SameFixed (reg d) (reg e)) _ (λ c e. Fails)
        (with_code (negsuc 0) (P.transmit 16 (0x60 ∷ 0xB6 ∷ []))) _ d
        (weaken _ _ _ _ (with_code (negsuc 0) (P.transmit 16 (0x60 ∷ 0xB6 ∷ []))) d
          (with_code-Ensures _ _ (negsuc 0) (P.transmit 16 (0x60 ∷ 0xB6 ∷ [])) d (S.reset_frame d))
          (λ rx e p. p) (λ c e (_, (_, f)). f))
        (λ rx e p. p)

  -- Over the SPI bus of a sensor that keeps to its data sheet, the bus of the driver transfers the
  -- registers that the driver names: reads of at most 26 bytes return them, a write sets one, a reset
  -- and the time leave the chip id and the calibration data; an error shows an error of the SPI.
  pub spi_bus-IsRegisters : IsRegisters (spi_bus P) reg Fails
  spi_bus-IsRegisters = record {
    read_lem = read-Ensures;
    write_lem = write-Ensures;
    reset_lem = reset-Ensures;
    delay_lem = delay-SameFixed;
  }
