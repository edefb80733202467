-- ===== src/Lib.antt =====
-- Verification of the firmware of a BME280 logger: an ESP32-S3 that samples temperature, humidity
-- and pressure, keeps the samples in a circular log on NOR flash, and joins a network.
--
-- The parts of the program, from the bottom up, with the files that model them:
-- - firmware/components/log_store/log-record.c: the record of a sample as 16 bytes with a
--   CRC-16/CCITT checksum. `LogRecord` has `log_record_encode`, `log_record_decode` and
--   `log_record_is_empty` on lists of bytes, `LogRecord/Codec` the round trip.
-- - `log_store_flash_t`, the flash callbacks of log-store.h: `Flash` takes them as a record, with
--   the documented behaviour of NOR flash as the hypothesis `IsNor`: a write clears bits, an
--   erase sets the bytes of its sector, a read changes nothing, and each may report an error
--   instead. `Flash/Sim` is a flash in memory that has this behaviour, `Flash/Slots` views the
--   flash as slots of 16 bytes.
-- - firmware/components/log_store/log-store.c: 128 sectors of 256 slots, used as a ring.
--   `LogStore` has every function as a call on the store `log_store_t`. `LogStore/Layout` says
--   which list of records a store stands for; `Prims`, `Room`, `Prepare`, `Append`, `Read` and
--   `Clear` are about the functions, `ReadSlots` and `ReadLog` about reading slots whatever they hold.
--   `Search`, `Scan`, `Image` and `Restart` are about `log_store_init` on a ring of used slots,
--   `Recovery` about it on a log, `PowerLoss` on a log with a slot that was written in part,
--   `EraseLoss` and `EraseRestart` on one with a sector that was erased in part, `Runs` and
--   `Startup` on any flash.
-- - firmware/components/bme280/bme280-compensate.c: the calibration data and the compensation
--   formulas, `Bme280/Compensate`. Every int32_t operation wraps, also where C leaves an overflow
--   undefined, and a shift right rounds down, as the compilers for the target do.
-- - firmware/components/bme280/bme280.c: `bme280_init` and `bme280_read` over the bus callbacks
--   of bme280.h, `Bme280/Driver`.
-- - firmware/main/sampler.c: `Sampler` calls `bme280_read` and `log_store_append` once in every
--   interval; its laws use those of the log store and of the driver.
-- - firmware/main/wifi.c: `Wifi` is the connection state machine, one function for each handler
--   and call. What ESP-IDF answers is an input of a step, and the calls made are part of the
--   state. `Start` is `wifi_init`, `Invariant` is about the states, `Retry` and `Progress` are
--   about the attempts to connect.
-- - firmware/main/status-led-color.c, status-led.c and the choice of the state in
--   app-main.c: `StatusLed`.
-- - firmware/main/clock.c: `Clock`, the source of the time and its priority.
-- - firmware/main/json-mini.c: `JsonMini` finds a key in a text and reads a string or a number.
--   `JsonMini/Objects` says what flat objects are and how they are written; `Search`, `Fields`
--   and `RoundTrip` are about reading them back.
-- - firmware/main/web-bridge.c: `WebBridge` makes a line of the protocol of an HTTP query.
-- - firmware/main/protocol.c: `Protocol` has a function for each command, over the record `Ops`
--   of the operations of protocol.h. `Texts` and `Rows` are about what is printed, `Log` about
--   `get_log` and the log store, `Replies` about the commands that come from the network,
--   `SetWifi` about `set_wifi`, `Keeps` about what every command keeps.
-- - firmware/main/web.c: `Web` has the two handlers, the response buffer and the routes.
-- - firmware/main/settings.c: `Settings`, over the calls of NVS; `Settings/Contents` is what NVS
--   documents of them, `Settings/Stored` and `Settings/Credentials` are about the credentials,
--   `Settings/Boot`, `Settings/Opening` and
--   `Settings/Counter` about the start and the boot id, and `Settings/Sim` is an NVS in memory.
-- - firmware/main/app-main.c: `Device` puts the parts together: the state of all of them, the
--   operations that the protocol is given, the line reader, a round of the main loop and the
--   start of the log store. `Device/Start` is `app_main` up to its loop, `Flash/Partition` has the
--   callbacks of the log store on a partition, and `Usb` the writes of the replies. The lock makes
--   commands and ticks steps one after another; `Device/Rounds` has the sequences of such steps.
-- - firmware/test_host: `HostTests` has the emulated sensor, the emulated flash and the operations
--   of the tests in `FakeBus`, `FakeFlash` and `FakeOps`, and a module for each test program, whose
--   tests are Boolean functions that are run here on the model: `Json`, `Query`, `Led`, `Record`,
--   `Calibration`, `Driver`, `Ticks`, `Log` and `Commands`. The tests that fill sectors of the
--   flash are in `Filling`; `Rolling` treats them with the theorems about the log store instead.
-- `Base` holds the shared names, the error results, the bit operations, the signed integers, and
-- C strings as lists of codes.
--
-- Bounds and fuel: bytes are numbers below 256, sizes and indices are numbers that wrap at 2 ^ 32
-- where the source has uint32_t. The search for the end of the run of erased sectors has as much
-- fuel as there are sectors, one for each step around the ring. `get_log` has sixteen rounds of
-- 32 records, which cover its largest limit of 500. All other loops run over a text, or for a
-- number of rounds that the source fixes: `poll` has MEASURE_POLL_MAX, which is 10.
-- `g_retries` has no bound here; as an int it overflows after 2 ^ 31 retries in a row.
--
-- Not modelled: log messages, the mutex behind the lock, the page of the web server, the tool
-- under pc/ and the host test that compares with formulas on doubles. ESP-IDF, FreeRTOS, NVS, the
-- drivers and the sensor are not in the repository: their calls are parameters. In wifi.c the
-- values of the error codes are left out. Of losses of power, one in the course of the write of a
-- record is covered, and one in the course of the erase of the sector ahead; one in the course of
-- `log_store_clear` is not. Of the host tests on the protocol, the one with 600 records is left out.
-- Where `app_main` and the callbacks look at the result of a call, one that never returns is taken
-- for one that failed.

pub mod Base
pub mod LogRecord
pub mod Flash
pub mod HostTests
pub mod LogStore
pub mod Bme280
pub mod Wifi
pub mod Sampler
pub mod SpiBus
pub mod StatusLed
pub mod Clock
pub mod JsonMini
pub mod WebBridge
pub mod Protocol
pub mod Settings
pub mod Usb
pub mod Web
pub mod Device
