-- ===== src/HostTests/Commands.antt =====
-- firmware/test_host/test-protocol.c, without the test that fills two sectors.
use s3_bme.Base.{
  ℕ, ◌+◌, ◌≡◌, refl, Bool, true, false, ◌&&◌, ◌||◌, ◌==◌, List, [], ◌∷◌, ◌++◌, replicate, codes,
  text_eq, digits,
}
use s3_bme.Base.Int.{pos, negsuc}
use s3_bme.LogRecord.{LogRecord, crc16_ccitt, encode, decode, is_empty, get_u16, get_u32, fields}
use s3_bme.LogStore.{
  count, push_decoded, read_slot, sector_is_erased, move_tail, erase_sector, scan_sectors, init,
  prepare_sector, write_head, append, read_one, read_loop, read, clear_loop, clear,
}
use s3_bme.JsonMini.{get_string, get_uint, has_key}
use s3_bme.Protocol.{
  put_d, emit, reply_error, reading_text, row, emit_records, log_head, handle_line, dispatch,
  cmd_ping, cmd_set_time, cmd_read_now, cmd_get_status, cmd_get_log, cmd_clear_log,
  cmd_set_interval, cmd_set_wifi,
}
use s3_bme.HostTests.{all_of}
use s3_bme.HostTests.FakeFlash.{fake_flash}
use s3_bme.HostTests.FakeOps.{Fake, fake, run, handle}
use s3_bme.HostTests.Json.{korean}

abbrev replies : List ℕ → List ℕ → Fake → Bool
replies line reply x = text_eq reply (handle line x)

abbrev error_reply : List ℕ → List ℕ
error_reply code = codes "{\"ok\":false,\"error\":\"" ++ (code ++ codes "\"}\n")

abbrev fails_with : List ℕ → List ℕ → Fake → Bool
fails_with line code x = replies line (error_reply code) x

abbrev done : List ℕ
done = codes "{\"ok\":true}\n"

abbrev test_ping : Bool
test_ping =
    replies (codes "{\"cmd\":\"ping\"}")
      (codes
        "{\"ok\":true,\"firmware\":\"0.1.0\",\"boot_id\":3,\"uptime_s\":120,\"time_valid\":false}\n")
      fake

abbrev test_unknown_and_bad_request : Bool
test_unknown_and_bad_request = all_of (
    fails_with (codes "{\"cmd\":\"nope\"}") (codes "unknown_cmd") fake
    ∷ fails_with (codes "hello") (codes "bad_request") fake
    ∷ fails_with (codes "{\"cmd\":\"set_time\"}") (codes "bad_request") fake
    ∷ [])

abbrev set_time_line : List ℕ
set_time_line = codes "{\"cmd\":\"set_time\",\"epoch\":1789000000}"

abbrev test_set_time : Bool
test_set_time =
    replies set_time_line (codes "{\"ok\":true,\"boot_id\":3,\"uptime_s\":120}\n") fake
    && ((run set_time_line fake).set_epoch == 1_789_000_000)

abbrev test_read_now_formats_decimals : Bool
test_read_now_formats_decimals =
    let line = codes "{\"cmd\":\"read_now\"}" in
    let cold = record fake {
      reading = record fake.reading { temp_centi = negsuc 519; hum_centi = 5 };
    } in
    all_of (
      replies line
        (codes "{\"ok\":true,\"temp_c\":23.45,\"hum_pct\":41.20,\"pressure_pa\":101325}\n") fake
      ∷ replies line
          (codes "{\"ok\":true,\"temp_c\":-5.20,\"hum_pct\":0.05,\"pressure_pa\":101325}\n") cold
      ∷ fails_with line (codes "sensor_error") (record cold { read_rc = negsuc 0 })
      ∷ [])

-- A record with the fields that the tests name, the others being 0.
abbrev bare : ℕ → LogRecord
bare t = record {
  timestamp = t;
  temp_centi = pos 0;
  hum_centi = 0;
  pressure_pa = 0;
  flags = 0;
  boot_id = 3;
}

abbrev logged : LogRecord → Fake → Fake
logged r x = record x { store = (append fake_flash r x.store).1 }

abbrev test_get_status : Bool
test_get_status =
    replies (codes "{\"cmd\":\"get_status\"}")
      (codes
        "{\"ok\":true,\"count\":1,\"capacity\":32512,\"interval_s\":60,\"sensor_ok\":true,\"store_ok\":true,\"time_valid\":false,\"boot_id\":3,\"uptime_s\":120,\"wifi_state\":\"off\",\"ip\":\"\",\"time_source\":\"none\"}\n")
      (logged (bare 1) fake)

-- `strstr(s, t) != NULL`
abbrev starts : List ℕ → List ℕ → Bool
starts [] s = true
starts (c ∷ t) [] = false
starts (c ∷ t) (d ∷ s) = (c == d) && starts t s

abbrev contains : List ℕ → List ℕ → Bool
contains t [] = starts t []
contains t (d ∷ s) = starts t (d ∷ s) || contains t s

abbrev test_get_status_reports_wifi_and_time_source : Bool
test_get_status_reports_wifi_and_time_source =
    contains
      (codes "\"wifi_state\":\"connected\",\"ip\":\"192.168.0.23\",\"time_source\":\"ntp\"}\n")
      (handle (codes "{\"cmd\":\"get_status\"}") (record fake {
        wifi_state = codes "connected";
        wifi_ip = codes "192.168.0.23";
        time_source = codes "ntp";
      }))

abbrev set_wifi_line : List ℕ
set_wifi_line =
    codes "{\"cmd\":\"set_wifi\",\"ssid\":\"" ++ (korean ++ codes "\",\"password\":\"pw12345678\"}")

abbrev test_set_wifi_saves_credentials : Bool
test_set_wifi_saves_credentials = all_of (
    replies set_wifi_line done fake
    ∷ text_eq korean (run set_wifi_line fake).wifi_ssid
    ∷ text_eq (codes "pw12345678") (run set_wifi_line fake).wifi_pass
    ∷ [])

abbrev test_set_wifi_clear_with_empty_ssid : Bool
test_set_wifi_clear_with_empty_ssid =
    let line = codes "{\"cmd\":\"set_wifi\",\"ssid\":\"\"}" in
    let x = record fake { wifi_ssid = codes "x" } in
    replies line done x && text_eq [] (run line x).wifi_ssid

-- A `set_wifi` line with this name and this password.
abbrev wifi_line : List ℕ → List ℕ → List ℕ
wifi_line ssid password =
    codes "{\"cmd\":\"set_wifi\",\"ssid\":\""
    ++ (ssid ++ (codes "\",\"password\":\"" ++ (password ++ codes "\"}")))

abbrev test_set_wifi_validates_lengths : Bool
test_set_wifi_validates_lengths = all_of (
    fails_with (codes "{\"cmd\":\"set_wifi\",\"password\":\"pw12345678\"}") (codes "bad_request")
      fake
    ∷ fails_with (wifi_line (codes "abcdefghijklmnopqrstuvwxyz0123456789") (codes "pw12345678"))
        (codes "out_of_range") fake
    ∷ fails_with (wifi_line (codes "home") (codes "short")) (codes "out_of_range") fake
    ∷ replies (wifi_line (codes "home") []) done fake
    ∷ fails_with (wifi_line (codes "home") (codes "pw12345678")) (codes "store_error")
        (record (run (wifi_line (codes "home") []) fake) { set_wifi_rc = negsuc 1 })
    ∷ [])

abbrev test_set_wifi_rejects_oversized_values : Bool
test_set_wifi_rejects_oversized_values = all_of (
    fails_with (wifi_line (replicate 150 b'a') (codes "pw12345678")) (codes "out_of_range") fake
    ∷ fails_with (wifi_line (codes "home") (replicate 130 b'p')) (codes "out_of_range") fake
    ∷ [])

abbrev test_set_wifi_rejects_malformed_password : Bool
test_set_wifi_rejects_malformed_password =
    fails_with (wifi_line (codes "home") (codes "a\\nb")) (codes "bad_request") fake
    && text_eq [] (run (wifi_line (codes "home") (codes "a\\nb")) fake).wifi_ssid

abbrev paged : ℕ → LogRecord
paged i = record {
  timestamp = 1000 + i;
  temp_centi = negsuc 99;
  hum_centi = 4000;
  pressure_pa = 100000 + i;
  flags = 1;
  boot_id = 3;
}

abbrev test_get_log_pages : Bool
test_get_log_pages =
    let x = logged (paged 2) (logged (paged 1) (logged (paged 0) fake)) in
    all_of (
      replies (codes "{\"cmd\":\"get_log\",\"offset\":1,\"limit\":2}")
        (codes
          "{\"ok\":true,\"total\":3,\"offset\":1,\"records\":[[1001,-100,4000,100001,1,3],[1002,-100,4000,100002,1,3]]}\n")
        x
      ∷ replies (codes "{\"cmd\":\"get_log\",\"offset\":5,\"limit\":2}")
          (codes "{\"ok\":true,\"total\":3,\"offset\":5,\"records\":[]}\n") x
      ∷ [])

abbrev test_clear_log : Bool
test_clear_log =
    let x = logged (bare 1) fake in
    let line = codes "{\"cmd\":\"clear_log\"}" in
    replies line done x && (count (run line x).store == 0)

abbrev test_set_interval : Bool
test_set_interval =
    let line = codes "{\"cmd\":\"set_interval\",\"interval_s\":120}" in
    all_of (
      replies line done fake
      ∷ ((run line fake).interval_s == 120)
      ∷ fails_with (codes "{\"cmd\":\"set_interval\",\"interval_s\":5}") (codes "out_of_range")
          (run line fake)
      ∷ fails_with (codes "{\"cmd\":\"set_interval\"}") (codes "bad_request") (run line fake)
      ∷ [])

abbrev wifi_tests : List Bool
wifi_tests =
    test_set_wifi_saves_credentials ∷ test_set_wifi_clear_with_empty_ssid
    ∷ test_set_wifi_validates_lengths ∷ test_set_wifi_rejects_oversized_values
    ∷ test_set_wifi_rejects_malformed_password ∷ []

abbrev other_tests : List Bool
other_tests =
    test_ping ∷ test_unknown_and_bad_request ∷ test_set_time ∷ test_read_now_formats_decimals
    ∷ test_get_status ∷ test_get_status_reports_wifi_and_time_source ∷ test_set_interval ∷ []

abbrev log_tests : List Bool
log_tests = test_get_log_pages ∷ test_clear_log ∷ []

-- The suite passes, in three parts.
wifi_suite : all_of wifi_tests ≡ true
unfolding run handle handle_line dispatch cmd_set_wifi emit reply_error text_eq get_string has_key
wifi_suite = refl

other_suite : all_of other_tests ≡ true
unfolding run handle handle_line dispatch cmd_ping cmd_set_time cmd_read_now cmd_get_status
    cmd_set_interval emit reply_error reading_text text_eq get_string get_uint digits count init
    scan_sectors append write_head prepare_sector erase_sector move_tail sector_is_erased read_slot
    encode is_empty
other_suite = refl

pages_suite : all_of log_tests ≡ true
unfolding run handle handle_line dispatch cmd_get_log cmd_clear_log clear clear_loop emit
    reply_error emit_records log_head row put_d text_eq get_string get_uint digits count init
    scan_sectors append write_head prepare_sector erase_sector move_tail sector_is_erased read_slot
    encode is_empty read read_loop read_one push_decoded decode crc16_ccitt get_u16 get_u32 fields
pages_suite = refl
