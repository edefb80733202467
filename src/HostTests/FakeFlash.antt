-- ===== src/HostTests/FakeFlash.antt =====
-- firmware/test_host/fake-flash.h: a NOR flash emulated in memory, with a count of the times that
-- each sector was erased and a switch that makes writes fail.
use s3_bme.Base.{ℕ, ◌+◌, refl, if◌then◌else◌, ◌==◌, Bool, true, false, List, length}
use s3_bme.Base.Int.{negsuc}
use s3_bme.Base.Result.{ok, err, M, Ensures}
use s3_bme.Flash.{Flash, IsNor, Programmed, SameOutside, bytes_from}
use s3_bme.Flash.Sim.{
  sim_write, sim_erase, sim_write_inside, sim_write_outside, sim_erase_inside, sim_erase_outside,
}

-- The static variables.
pub record FakeFlash : Type 0 where
  pub mem : ℕ → ℕ
  pub erase_count : ℕ → ℕ
  pub fail_write : Bool

abbrev pub fake_flash_read : ℕ → ℕ → M FakeFlash (List ℕ)
fake_flash_read off n d = (ok (bytes_from d.mem off n), d)

abbrev pub fake_flash_write : ℕ → List ℕ → M FakeFlash (Unit {0})
fake_flash_write off bs d =
    if d.fail_write then (err (negsuc 0), d) else (ok tt, record d { mem = sim_write off bs d.mem })

abbrev pub fake_flash_erase_sector : ℕ → M FakeFlash (Unit {0})
fake_flash_erase_sector sector d = (
  ok tt,
  record d {
    mem = sim_erase sector d.mem;
    erase_count = λ s. if s == sector then d.erase_count s + 1 else d.erase_count s;
  },
)

abbrev pub fake_flash : Flash
fake_flash = record {
  Dev = FakeFlash;
  read = fake_flash_read;
  write = fake_flash_write;
  erase_sector = fake_flash_erase_sector;
}

-- The state after `fake_flash_reset`.
abbrev pub fake_flash_reset : FakeFlash
fake_flash_reset = record { mem = λ i. 0xFF; erase_count = λ s. 0; fail_write = false }

fake_flash_write-Ensures :
    (off : ℕ) (bs : List ℕ) (d : FakeFlash)
    → Ensures
        (λ u e. Programmed d.mem e.mem off bs × SameOutside d.mem e.mem off (length bs))
        (λ c e. Unit {0} × SameOutside d.mem e.mem off (length bs))
        (fake_flash_write off bs d)
fake_flash_write-Ensures off bs d =
    elim d.fail_write
      as (λ b.
        Ensures
          (λ u (e : FakeFlash).
            Programmed d.mem e.mem off bs × SameOutside d.mem e.mem off (length bs))
          (λ c e. Unit {0} × SameOutside d.mem e.mem off (length bs))
          (if b then (err (negsuc 0), d) else (ok tt, record d { mem = sim_write off bs d.mem }))) [
            | true ↦ (tt, λ i p. refl)
            | false ↦ (sim_write_inside off bs d.mem, sim_write_outside off bs d.mem)
          ]

-- The emulated flash is a NOR flash in every state, within its size: a read returns the bytes, a
-- write clears bits, an erase sets its sector to 0xFF, and no byte elsewhere changes, also by a
-- write that fails.
pub fake_flash-IsNor : IsNor fake_flash (Unit {0})
fake_flash-IsNor = record {
  byte = λ d. d.mem;
  read_lem = λ off n d h. (refl, refl);
  write_lem = λ off bs d h. fake_flash_write-Ensures off bs d;
  erase_lem = λ sector d h. (sim_erase_inside sector d.mem, sim_erase_outside sector d.mem);
}
