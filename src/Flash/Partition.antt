-- ===== src/Flash/Partition.antt =====
-- firmware/main/app-main.c: `flash_read`, `flash_write` and `flash_erase_sector`, the callbacks of
-- the log store on a partition. The partition API of ESP-IDF is not in the repository: its calls are
-- a parameter, and `IsPartition` is what it documents of them.
use s3_bme.Base.{ℕ, ◌+◌, ◌*◌, ◌%◌, ◌≤◌, ◌<◌, ◌≡◌, arith, u32, List, length}
use s3_bme.Base.Int.{negsuc}
use s3_bme.Base.Result.{M, with_code, with_code-Ensures, weaken, Ensures}
use s3_bme.Flash.{
  Flash, IsNor, sector_size, sectors, flash_size, bytes_from, Programmed, SameOutside, Erased,
}

pub record Partition : Type 1 where
  pub Dev : Type 0
  pub read : ℕ → ℕ → M Dev (List ℕ)
  pub write : ℕ → List ℕ → M Dev (Unit {0})
  pub erase_range : ℕ → ℕ → M Dev (Unit {0})

-- The flash that `app_main` hands to the log store.
abbrev pub flash : Partition → Flash
flash Q = record {
  Dev = Q.Dev;
  read = λ off n. with_code (negsuc 0) (Q.read off n);
  write = λ off bs. with_code (negsuc 0) (Q.write off bs);
  erase_sector =
      λ sector. with_code (negsuc 0) (Q.erase_range (u32 (sector * sector_size)) sector_size);
}

-- A partition of `flash_size` bytes on NOR flash: `byte d` is what it holds. A range that is erased
-- consists of whole sectors.
pub record IsPartition (Q : Partition) (Fails : Type 0) : Type 0 where
  pub byte : Q.Dev → ℕ → ℕ
  pub read_lem :
      (off n : ℕ) (d : Q.Dev)
      → off + n ≤ flash_size
      → Ensures
          (λ bs e. (bs ≡ bytes_from (byte d) off n) × (byte e ≡ byte d))
          (λ c e. Fails × (byte e ≡ byte d))
          (Q.read off n d)
  pub write_lem :
      (off : ℕ) (bs : List ℕ) (d : Q.Dev)
      → off + length bs ≤ flash_size
      → Ensures
          (λ u e.
            Programmed (byte d) (byte e) off bs × SameOutside (byte d) (byte e) off (length bs))
          (λ c e. Fails × SameOutside (byte d) (byte e) off (length bs))
          (Q.write off bs d)
  pub erase_lem :
      (off n : ℕ) (d : Q.Dev)
      → off % sector_size ≡ 0
      → n % sector_size ≡ 0
      → off + n ≤ flash_size
      → Ensures
          (λ u e. Erased (byte e) off n × SameOutside (byte d) (byte e) off n)
          (λ c e. Fails × SameOutside (byte d) (byte e) off n)
          (Q.erase_range off n d)

module _ (Q : Partition) {Fails : Type 0} (I : IsPartition Q Fails) where
  pub read-lem :
      (off n : ℕ) (d : Q.Dev)
      → off + n ≤ flash_size
      → Ensures
          (λ bs e. (bs ≡ bytes_from (I.byte d) off n) × (I.byte e ≡ I.byte d))
          (λ c e. Fails × (I.byte e ≡ I.byte d))
          ((flash Q).read off n d)
  read-lem off n d h =
      weaken _ _ _ _ ((flash Q).read off n) d
        (with_code-Ensures _ _ (negsuc 0) (Q.read off n) d (I.read_lem off n d h)) (λ bs e p. p)
        (λ c e (_, (_, p)). p)

  pub write-lem :
      (off : ℕ) (bs : List ℕ) (d : Q.Dev)
      → off + length bs ≤ flash_size
      → Ensures
          (λ u e.
            Programmed (I.byte d) (I.byte e) off bs
            × SameOutside (I.byte d) (I.byte e) off (length bs))
          (λ c e. Fails × SameOutside (I.byte d) (I.byte e) off (length bs))
          ((flash Q).write off bs d)
  write-lem off bs d h =
      weaken _ _ _ _ ((flash Q).write off bs) d
        (with_code-Ensures _ _ (negsuc 0) (Q.write off bs) d (I.write_lem off bs d h)) (λ u e p. p)
        (λ c e (_, (_, p)). p)

  pub erase-lem :
      (sector : ℕ) (d : Q.Dev)
      → sector < sectors
      → Ensures
          (λ u e.
            Erased (I.byte e) (sector * sector_size) sector_size
            × SameOutside (I.byte d) (I.byte e) (sector * sector_size) sector_size)
          (λ c e. Fails × SameOutside (I.byte d) (I.byte e) (sector * sector_size) sector_size)
          ((flash Q).erase_sector sector d)
  erase-lem sector d h =
      let small : u32 (sector * sector_size) ≡ sector * sector_size = omega arith in
      rw small (
        weaken _ _ _ _ (with_code (negsuc 0) (Q.erase_range (sector * sector_size) sector_size)) d
          (with_code-Ensures _ _ (negsuc 0) (Q.erase_range (sector * sector_size) sector_size) d (
            I.erase_lem (sector * sector_size) sector_size d (omega arith) (omega arith)
              (omega arith)))
          (λ u e p. p) (λ c e (_, (_, p)). p))

  -- The callbacks keep what a NOR flash promises.
  abbrev pub flash_nor : IsNor (flash Q) Fails
  flash_nor = record {
    byte = I.byte;
    read_lem = read-lem;
    write_lem = write-lem;
    erase_lem = erase-lem;
  }
