-- ===== src/Bme280/Driver.antt =====
-- firmware/components/bme280/bme280.c: start-up of the sensor and one forced measurement.
pub mod Data
pub mod Laws
pub mod Start
pub mod Tests
use s3_bme.Base.{
  ℕ, zero, suc, ◌+◌, ◌*◌, ◌/◌, ◌^◌, ◌==◌, if◌then◌else◌, not, List, get_or, bit_and, bit_or, ◌<<◌,
}
use s3_bme.Base.Int.{ℤ, pos, negsuc, to_i32}
use s3_bme.Base.Result.{Result, ok, err, hang, M, pure, fail, ◌>>=◌, ◌>>◌}
use s3_bme.Bme280.{Calib, Reading}
use s3_bme.Bme280.Compensate.{parse_calib, compensate}

-- `bme280_bus_t`, over the state `Dev` behind `ctx`. The bus is handed to the driver.
pub record Bus : Type 1 where
  pub Dev : Type 0
  pub read_regs : ℕ → ℕ → M Dev (List ℕ)
  pub write_reg : ℕ → ℕ → M Dev (Unit {0})
  pub delay_ms : ℕ → Dev → Dev

-- BME280_ERR_BUS, BME280_ERR_CHIP_ID and BME280_ERR_TIMEOUT.
abbrev pub err_bus : ℤ
err_bus = negsuc 0

abbrev pub err_chip_id : ℤ
err_chip_id = negsuc 1

abbrev pub err_timeout : ℤ
err_timeout = negsuc 2

-- `bme280_t`
pub record Sensor (Dev : Type 0) : Type 0 where
  pub dev : Dev
  pub calib : Calib

-- `if (...) return BME280_ERR_BUS;` turns every code of the bus into one.
unfoldable pub to_err_bus : {A : Type 0} → Result A → Result A
to_err_bus (ok a) = ok a
to_err_bus (err c) = err err_bus
to_err_bus hang = hang

module _ (B : Bus) where
  open B use {Dev}

  unfoldable pub on_bus : {A : Type 0} → M Dev A → M (Sensor Dev) A
  on_bus m s = let (r, d) = m s.dev in (to_err_bus r, record s { dev = d })

  unfoldable pub read_regs : ℕ → ℕ → M (Sensor Dev) (List ℕ)
  read_regs reg len = on_bus (B.read_regs reg len)

  unfoldable pub write_reg : ℕ → ℕ → M (Sensor Dev) (Unit {0})
  write_reg reg val = on_bus (B.write_reg reg val)

  unfoldable pub delay_ms : ℕ → M (Sensor Dev) (Unit {0})
  delay_ms ms s = (ok tt, record s { dev = B.delay_ms ms s.dev })

  -- The chip id is read and compared, in both functions.
  unfoldable pub check_id : M (Sensor Dev) (Unit {0})
  check_id = do id ← read_regs 0xD0 1; if get_or id 0 0 == 0x60 then pure tt else fail err_chip_id

  unfoldable pub init : M (Sensor Dev) (Unit {0})
  init = do
    write_reg 0xE0 0xB6
    delay_ms 5
    check_id
    calib1 ← read_regs 0x88 26
    calib2 ← read_regs 0xE1 7
    λ s. (ok tt, record s { calib = parse_calib calib1 calib2 })
    write_reg 0xF2 0x01
    write_reg 0xF5 0x00
    write_reg 0xF4 0x24

  -- The polling loop; `left` is MEASURE_POLL_MAX less the polls that found a measurement running.
  unfoldable pub poll : ℕ → M (Sensor Dev) (Unit {0})
  poll zero = do
    status ← read_regs 0xF3 1
    if bit_and (get_or status 0 0) 0x08 == 0 then pure tt else fail err_timeout
  poll (suc left) = do
    status ← read_regs 0xF3 1
    let again = delay_ms 10 >> poll left
    if bit_and (get_or status 0 0) 0x08 == 0 then pure tt else again

  -- The three 20- and 16-bit values in the data registers.
  unfoldable pub adc_20 : List ℕ → ℕ → ℤ
  adc_20 d i =
      to_i32 (
        bit_or (bit_or (get_or d i 0 << 12) (get_or d (i + 1) 0 << 4)) (get_or d (i + 2) 0 / 2 ^ 4))

  unfoldable pub adc_16 : List ℕ → ℤ
  adc_16 d = to_i32 (bit_or (get_or d 6 0 << 8) (get_or d 7 0))

  -- `bme280_read` up to the transfer of the data registers.
  unfoldable pub measure : M (Sensor Dev) (List ℕ)
  measure = do check_id; write_reg 0xF4 0x25; delay_ms 10; poll 10; read_regs 0xF7 8

  unfoldable pub read : M (Sensor Dev) Reading
  read = do d ← measure; λ s. (ok (compensate s.calib (adc_20 d 3) (adc_20 d 0) (adc_16 d)), s)
