-- ===== src/SpiBus.antt =====
-- firmware/main/spi-bus.c: the register transfers of the BME280 as SPI transactions. The SPI driver
-- and the scheduler are not in the repository: their calls are a parameter.
pub mod Slave
pub mod Sim
pub mod Tests
use s3_bme.Base.{
  ℕ, ◌+◌, ◌*◌, ltb, if◌then◌else◌, List, [], ◌∷◌, take, drop, replicate, bit_and, bit_or,
}
use s3_bme.Base.Int.{negsuc}
use s3_bme.Base.Result.{M, with_code, fail, ◌>>=◌, ◌>>◌, pure}
use s3_bme.Bme280.Driver.{Bus}

-- The fields of `spi_bus_config_t` and `spi_device_interface_config_t` that are set; `none` of the
-- pins is -1.
pub record BusConfig : Type 0 where
  pub mosi_io_num : ℕ
  pub miso_io_num : ℕ
  pub sclk_io_num : ℕ
  pub max_transfer_sz : ℕ

pub record DeviceConfig : Type 0 where
  pub clock_speed_hz : ℕ
  pub mode : ℕ
  pub spics_io_num : ℕ
  pub queue_size : ℕ

-- The calls of the driver, over the state `Dev` of the bus and its device. `transmit bits tx` sends
-- the first `bits` bits of `tx` and returns the bytes received meanwhile. `ticks` is pdMS_TO_TICKS.
pub record SpiMaster : Type 1 where
  pub Dev : Type 0
  pub bus_initialize : BusConfig → M Dev (Unit {0})
  pub bus_add_device : DeviceConfig → M Dev (Unit {0})
  pub transmit : ℕ → List ℕ → M Dev (List ℕ)
  pub task_delay : ℕ → Dev → Dev
  pub ticks : ℕ → ℕ

-- SPI_PIN_SCK, SPI_PIN_MOSI, SPI_PIN_CS, SPI_PIN_MISO and SPI_CLOCK_HZ.
abbrev pub pins : BusConfig
pins = record { mosi_io_num = 11; miso_io_num = 13; sclk_io_num = 12; max_transfer_sz = 64 }

abbrev pub sensor_config : DeviceConfig
sensor_config = record { clock_speed_hz = 10000000; mode = 0; spics_io_num = 10; queue_size = 1 }

-- BME280_MAX_TRANSFER
abbrev pub max_transfer : ℕ
max_transfer = 26

module _ (P : SpiMaster) where
  open P use {Dev}

  pub spi_read_regs : ℕ → ℕ → M Dev (List ℕ)
  spi_read_regs reg len = if ltb max_transfer len then fail (negsuc 0) else (do
    rx ←
        with_code (negsuc 0)
          (P.transmit (8 * (len + 1)) (bit_or reg 0x80 ∷ replicate max_transfer 0))
    pure (take len (drop 1 rx)))

  pub spi_write_reg : ℕ → ℕ → M Dev (Unit {0})
  spi_write_reg reg val = do
    rx ← with_code (negsuc 0) (P.transmit 16 (bit_and reg 0x7F ∷ val ∷ []))
    pure tt

  -- At least one tick.
  pub spi_delay_ms : ℕ → Dev → Dev
  spi_delay_ms ms d = P.task_delay (if ltb 0 (P.ticks ms) then P.ticks ms else 1) d

  -- The bus that `spi_bus_bme280_init` hands out, if it returns ESP_OK.
  abbrev pub spi_bus : Bus
  spi_bus = record {
    Dev = Dev;
    read_regs = spi_read_regs;
    write_reg = spi_write_reg;
    delay_ms = spi_delay_ms;
  }

  pub spi_bus_init : M Dev (Unit {0})
  spi_bus_init = do P.bus_initialize pins; P.bus_add_device sensor_config
