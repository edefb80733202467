-- ===== src/SpiBus/Tests.antt =====
-- The driver over the SPI bus of a sensor in memory.
use s3_bme.Base.{ℕ, ◌==◌, if◌then◌else◌}
use s3_bme.Base.Result.{Ensures}
use s3_bme.Bme280.Compensate.Tests.{calib}
use s3_bme.Bme280.Driver.{Sensor, init}
use s3_bme.Bme280.Driver.Start.{IsSetUp, StartFails, init-IsSetUp}
use s3_bme.Bme280.Registers.{IsRegisters}
use s3_bme.SpiBus.{spi_bus}
use s3_bme.SpiBus.Slave.{spi_bus-IsRegisters}
use s3_bme.SpiBus.Sim.{spi, spi-IsSlave}

spi_bus-IsRegisters_example : IsRegisters (spi_bus spi) (λ f. f) ⊥
spi_bus-IsRegisters_example = spi_bus-IsRegisters spi (λ f. f) spi-IsSlave

-- The chip id, and 7 in every other register.
abbrev pub registers : ℕ → ℕ
registers r = if r == 0xD0 then 0x60 else 7

abbrev pub sensor : Sensor (ℕ → ℕ)
sensor = record { dev = registers; calib = calib }

init-IsSetUp_example :
    Ensures
      (λ u t.
        IsSetUp (spi_bus spi) (λ f. f) (spi_bus-IsRegisters spi (λ f. f) spi-IsSlave) registers t)
      (λ c t.
        StartFails
          (spi_bus spi)
          (λ f. f)
          (spi_bus-IsRegisters spi (λ f. f) spi-IsSlave)
          registers
          c)
      (init (spi_bus spi) sensor)
init-IsSetUp_example =
    init-IsSetUp (spi_bus spi) (λ f. f) (spi_bus-IsRegisters spi (λ f. f) spi-IsSlave) sensor
