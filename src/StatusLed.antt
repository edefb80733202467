-- ===== src/StatusLed.antt =====
-- firmware/main/status-led-color.c, the update of firmware/main/status-led.c and the choice of the
-- state in the main loop of firmware/main/app-main.c. The RMT driver is not in the repository: an
-- update returns the bytes that it transmits, if it does.
pub mod Laws
mod Tests
use s3_bme.Base.{
  ℕ, ◌/◌, ◌%◌, ◌==◌, if◌then◌else◌, ◌&&◌, Bool, true, false, Option, none, some, List, [], ◌∷◌,
}
use s3_bme.Base.Result.{Result, ok, err, hang, M, is_done, ◌>>◌}
use s3_bme.Wifi
use s3_bme.Wifi.{WifiState}

-- `status_led_state_t`
pub data LedState : Type 0 where
  led_off led_ok led_ok_no_time led_error led_wifi_connecting : LedState

-- `status_led_rgb_t`
pub record Rgb : Type 0 where
  pub r : ℕ
  pub g : ℕ
  pub b : ℕ

abbrev pub black : Rgb
black = record { r = 0; g = 0; b = 0 }

abbrev pub green : Rgb
green = record { r = 0; g = 255; b = 0 }

abbrev pub red : Rgb
red = record { r = 255; g = 0; b = 0 }

abbrev pub blue : Rgb
blue = record { r = 0; g = 0; b = 255 }

-- A colour in the first half of every second, nothing in the other one.
unfoldable pub blink : Rgb → ℕ → Rgb
blink c now_ms = if now_ms / 500 % 2 == 0 then c else black

-- `status_led_color`
unfoldable pub color : LedState → ℕ → Rgb
color led_off now_ms = black
color led_ok now_ms = green
color led_ok_no_time now_ms = blink green now_ms
color led_error now_ms = red
color led_wifi_connecting now_ms = blink blue now_ms

-- `memcmp(&c, &g_last, sizeof c) == 0`
pub same_color : Rgb → Rgb → Bool
same_color c d = c.r == d.r && (c.g == d.g && c.b == d.b)

-- WS2812 expects GRB order.
abbrev pub grb : Rgb → List ℕ
grb c = c.g ∷ c.r ∷ c.b ∷ []

-- The static variables: whether there is a channel, and the colour sent last.
pub record Led : Type 0 where
  pub has_channel : Bool
  pub last : Rgb

abbrev pub fresh : Led
fresh = record { has_channel = true; last = record { r = 255; g = 255; b = 255 } }

-- `status_led_update`, with the bytes handed to the RMT driver in GRB order.
pub update : LedState → ℕ → Led → Option (List ℕ) × Led
update state now_ms l =
    let c = color state now_ms in
    if l.has_channel
    then (if same_color c l.last then (none, l) else (some (grb c), record l { last = c }))
    else (none, l)

-- The network is being joined, or could not be.
abbrev pub is_joining : WifiState → Bool
is_joining Wifi.connecting = true
is_joining Wifi.failed = true
is_joining Wifi.off = false
is_joining Wifi.connected = false

-- The state that the main loop shows.
pub led_state : Bool → Bool → WifiState → Bool → LedState
led_state sensor_ok store_ok ws time_valid =
    if sensor_ok && store_ok
    then (if is_joining ws
        then led_wifi_connecting
        else if time_valid
        then led_ok
        else led_ok_no_time)
    else led_error

-- The fields of the RMT configurations that are set, times in ticks of 0.1 us.
pub record ChannelConfig : Type 0 where
  pub gpio_num : ℕ
  pub resolution_hz : ℕ
  pub mem_block_symbols : ℕ
  pub trans_queue_depth : ℕ

pub record BitConfig : Type 0 where
  pub high_ticks : ℕ
  pub low_ticks : ℕ

pub record EncoderConfig : Type 0 where
  pub bit0 : BitConfig
  pub bit1 : BitConfig
  pub msb_first : Bool

-- The calls of the RMT driver that set it up, over its state.
pub record Rmt : Type 1 where
  pub Dev : Type 0
  pub new_tx_channel : ChannelConfig → M Dev (Unit {0})
  pub new_bytes_encoder : EncoderConfig → M Dev (Unit {0})
  pub enable : M Dev (Unit {0})

-- LED_GPIO and RMT_RESOLUTION_HZ; T0H_TICKS, T0L_TICKS, T1H_TICKS and T1L_TICKS.
abbrev pub channel_config : ChannelConfig
channel_config = record {
  gpio_num = 21;
  resolution_hz = 10000000;
  mem_block_symbols = 64;
  trans_queue_depth = 1;
}

abbrev pub encoder_config : EncoderConfig
encoder_config = record {
  bit0 = record { high_ticks = 3; low_ticks = 9 };
  bit1 = record { high_ticks = 9; low_ticks = 3 };
  msb_first = true;
}

-- The static variables before `status_led_init`.
abbrev pub no_led : Led
no_led = record { has_channel = false; last = record { r = 255; g = 255; b = 255 } }

-- `status_led_init`: the channel stays when a later call fails.
pub init : (R : Rmt) → M (R.Dev × Led) (Unit {0})
init R = do
  λ (d, l).
      let (r, d') = R.new_tx_channel channel_config d in
      (r, (d', record l { has_channel = is_done r }))
  λ (d, l). let (r, d') = R.new_bytes_encoder encoder_config d in (r, (d', l))
  λ (d, l). let (r, d') = R.enable d in (r, (d', l))
