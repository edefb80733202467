-- ===== src/HostTests/FakeOps.antt =====
-- The operations of firmware/test_host/test-protocol.c that the commands call.
use s3_bme.Base.{ℕ, ◌-◌, ltb, ◌||◌, if◌then◌else◌, Bool, true, false, List, [], take, codes, concat}
use s3_bme.Base.Int.{ℤ, pos, negsuc, eqb_ℤ}
use s3_bme.Base.Result.{Result, ok, err, M}
use s3_bme.Bme280.{Reading}
use s3_bme.LogStore.{Store}
use s3_bme.Protocol.{Ops, handle_line}
use s3_bme.HostTests.FakeFlash.{FakeFlash, fake_flash}
use s3_bme.HostTests.Log.{set_up_store}

-- The static variables `fake` and `store`.
pub record Fake : Type 0 where
  pub boot_id : ℕ
  pub uptime_s : ℕ
  pub time_valid : Bool
  pub set_epoch : ℕ
  pub read_rc : ℤ
  pub reading : Reading
  pub sensor_ok : Bool
  pub store_ok : Bool
  pub interval_s : ℕ
  pub wifi_ssid : List ℕ
  pub wifi_pass : List ℕ
  pub set_wifi_rc : ℤ
  pub wifi_state : List ℕ
  pub wifi_ip : List ℕ
  pub time_source : List ℕ
  pub store : Store FakeFlash

-- What a call that returns the code gives, 0 being success.
abbrev with_rc : {A : Type 0} → ℤ → A → Result A
with_rc rc a = if eqb_ℤ rc (pos 0) then ok a else err rc

abbrev pub f_set_time : ℕ → Fake → Fake
f_set_time e x = record x { set_epoch = e; time_valid = true }

abbrev pub f_read_now : M Fake Reading
f_read_now x = (with_rc x.read_rc x.reading, x)

abbrev pub f_set_interval_s : ℕ → M Fake (Unit {0})
f_set_interval_s s x =
    if ltb s 10 || ltb 3600 s then (err (negsuc 0), x) else (ok tt, record x { interval_s = s })

abbrev pub f_set_wifi : List ℕ → List ℕ → M Fake (Unit {0})
f_set_wifi ssid password x = (
  with_rc x.set_wifi_rc tt,
  if eqb_ℤ x.set_wifi_rc (pos 0)
      then record x { wifi_ssid = take 32 ssid; wifi_pass = take 63 password }
      else x,
)

abbrev pub ops : Ops fake_flash
ops = record {
  Ctx = Fake;
  store = λ x. x.store;
  put_store = λ s x. record x { store = s };
  boot_id = λ x. x.boot_id;
  uptime_s = λ x. x.uptime_s;
  time_valid = λ x. x.time_valid;
  set_time = f_set_time;
  read_now = f_read_now;
  sensor_ok = λ x. x.sensor_ok;
  store_ok = λ x. x.store_ok;
  interval_s = λ x. x.interval_s;
  set_interval_s = f_set_interval_s;
  set_wifi = f_set_wifi;
  wifi_state = λ x. x.wifi_state;
  wifi_ip = λ len x. take (len - 1) x.wifi_ip;
  time_source = λ x. x.time_source;
}

-- The state as `setUp` leaves it.
abbrev pub fake : Fake
fake = record {
  boot_id = 3;
  uptime_s = 120;
  time_valid = false;
  set_epoch = 0;
  read_rc = pos 0;
  reading = record { temp_centi = pos 2345; pressure_pa = 101325; hum_centi = 4120 };
  sensor_ok = true;
  store_ok = true;
  interval_s = 60;
  wifi_ssid = [];
  wifi_pass = [];
  set_wifi_rc = pos 0;
  wifi_state = codes "off";
  wifi_ip = [];
  time_source = codes "none";
  store = set_up_store;
}

-- The state after a line, and the text that `capture` collected.
unfoldable pub run : List ℕ → Fake → Fake
run line x = (handle_line fake_flash ops line (record { ctx = x; out = [] })).ctx

unfoldable pub handle : List ℕ → Fake → List ℕ
handle line x = concat (handle_line fake_flash ops line (record { ctx = x; out = [] })).out
