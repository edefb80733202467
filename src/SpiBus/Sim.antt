-- ===== src/SpiBus/Sim.antt =====
-- A sensor on the SPI bus, held in memory: its registers are the state, and no call fails.
use s3_bme.Base.{
  get_or, ℕ, ◌+◌, ◌-◌, ◌*◌, ◌/◌, ◌≤◌, ◌≡◌, ◌≢◌, refl, arith, leb, ◌==◌, if◌then◌else◌, true, List,
  [], ◌∷◌,
}
use s3_bme.Base.Result.{ok}
use s3_bme.Flash.{bytes_from}
use s3_bme.Bme280.Registers.{SameFixed, IsControl}
use s3_bme.SpiBus.{SpiMaster}
use s3_bme.SpiBus.Slave.{IsSlave}

-- What a frame returns, and the registers after it. A reset does not touch them here.
pub exchange : ℕ → List ℕ → (ℕ → ℕ) → List ℕ × (ℕ → ℕ)
exchange bits [] f = ([], f)
exchange bits (c ∷ tail) f =
    if leb 0x80 c
    then (0 ∷ bytes_from f c (bits / 8 - 1), f)
    else ([], λ q. if q == c + 0x80 then (if c == 0x60 then f q else get_or tail 0 0) else f q)

abbrev pub spi : SpiMaster
spi = record {
  Dev = ℕ → ℕ;
  bus_initialize = λ c f. (ok tt, f);
  bus_add_device = λ c f. (ok tt, f);
  transmit = λ bits tx f. (ok (exchange bits tx f).0, (exchange bits tx f).1);
  task_delay = λ n f. f;
  ticks = λ ms. ms / 10;
}

read_frame_lem :
    (c n : ℕ) (tail : List ℕ) (f : ℕ → ℕ)
    → 0x80 ≤ c
    → ((x : ℕ) × ((exchange (8 * (n + 1)) (c ∷ tail) f).0 ≡ x ∷ bytes_from f c n))
      × ((exchange (8 * (n + 1)) (c ∷ tail) f).1 ≡ f)
unfolding exchange
read_frame_lem c n tail f lo =
    let upper : leb 0x80 c ≡ true = ground arith in
    let count : 8 * (n + 1) / 8 - 1 ≡ n = omega arith in rw (upper, count) ((0, refl), refl)

write_frame_lem :
    (c v : ℕ) (f : ℕ → ℕ)
    → IsControl (c + 0x80) v
    → ((exchange 16 (c ∷ v ∷ []) f).1 (c + 0x80) ≡ v)
      × ((q : ℕ) → q ≢ c + 0x80 → (exchange 16 (c ∷ v ∷ []) f).1 q ≡ f q)
unfolding exchange
write_frame_lem c v f ctl = (ground arith, λ q ne. ground arith)

reset_frame_lem : (f : ℕ → ℕ) → SameFixed f (exchange 16 (0x60 ∷ 0xB6 ∷ []) f).1
unfolding exchange
reset_frame_lem f q fixed = ground arith

pub spi-IsSlave : IsSlave spi (λ f. f) ⊥
spi-IsSlave = record {
  read_frame = λ c n tail f lo fits some. read_frame_lem c n tail f lo;
  write_frame = λ c v f ctl. write_frame_lem c v f ctl;
  reset_frame = λ f. reset_frame_lem f;
  time_lem = λ n f q fixed. refl;
}
