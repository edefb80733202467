-- ===== src/Flash/Sim.antt =====
-- A flash held in memory on which no operation fails, as firmware/test_host/fake-flash.h is one:
-- the assumptions about a NOR flash can be met.
use s3_bme.Base.{
  ℕ, ◌+◌, ◌-◌, ◌*◌, refl, arith, List, length, get_or, bit_and, ltb, leb, ◌&&◌, if◌then◌else◌,
}
use s3_bme.Base.Result.{ok}
use s3_bme.Flash.{Flash, IsNor, Programmed, Erased, SameOutside, bytes_from, sector_size}

abbrev pub sim_write : ℕ → List ℕ → (ℕ → ℕ) → ℕ → ℕ
sim_write off bs f i =
    if leb off i && ltb i (off + length bs) then bit_and (get_or bs (i - off) 0) (f i) else f i

abbrev pub sim_erase : ℕ → (ℕ → ℕ) → ℕ → ℕ
sim_erase sector f i =
    if leb (sector * sector_size) i && ltb i (sector * sector_size + sector_size) then 0xFF else f i

abbrev pub sim : Flash
sim = record {
  Dev = ℕ → ℕ;
  read = λ off n f. (ok (bytes_from f off n), f);
  write = λ off bs f. (ok tt, sim_write off bs f);
  erase_sector = λ sector f. (ok tt, sim_erase sector f);
}

pub sim_write_inside :
    (off : ℕ) (bs : List ℕ) (f : ℕ → ℕ) → Programmed f (sim_write off bs f) off bs
sim_write_inside off bs f i p q = ground arith

pub sim_write_outside :
    (off : ℕ) (bs : List ℕ) (f : ℕ → ℕ) → SameOutside f (sim_write off bs f) off (length bs)
sim_write_outside off bs f i p = ground arith

pub sim_erase_inside :
    (sector : ℕ) (f : ℕ → ℕ) → Erased (sim_erase sector f) (sector * sector_size) sector_size
sim_erase_inside sector f i p q = ground arith

pub sim_erase_outside :
    (sector : ℕ) (f : ℕ → ℕ) → SameOutside f (sim_erase sector f) (sector * sector_size) sector_size
sim_erase_outside sector f i p = ground arith

abbrev pub sim_nor : IsNor sim ⊥
sim_nor = record {
  byte = λ f. f;
  read_lem = λ off n f h. (refl, refl);
  write_lem = λ off bs f h. (sim_write_inside off bs f, sim_write_outside off bs f);
  erase_lem = λ sector f h. (sim_erase_inside sector f, sim_erase_outside sector f);
}
