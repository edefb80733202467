-- ===== src/Flash.antt =====
-- `log_store_flash_t` of firmware/components/log_store/include/log-store.h: the flash that the log
-- store is handed, and what a NOR flash promises of it. The flash itself is not in the repository.
pub mod Slots
pub mod Partition
pub mod Sim
use s3_bme.Base.{
  ℕ, zero, suc, ◌+◌, ◌-◌, ◌*◌, ◌≤◌, ◌<◌, ◌≡◌, ◌⊎◌, List, [], ◌∷◌, get_or, length, bit_and,
}
use s3_bme.Base.Int.{ℤ}
use s3_bme.Base.Result.{M, Ensures}

-- The three callbacks, over the state `Dev` behind `ctx`.
pub record Flash : Type 1 where
  pub Dev : Type 0
  pub read : ℕ → ℕ → M Dev (List ℕ)
  pub write : ℕ → List ℕ → M Dev (Unit {0})
  pub erase_sector : ℕ → M Dev (Unit {0})

abbrev pub sector_size : ℕ
sector_size = 4096

abbrev pub sectors : ℕ
sectors = 128

abbrev pub flash_size : ℕ
flash_size = sectors * sector_size

-- The `n` bytes from offset `off` on.
abbrev pub bytes_from : (ℕ → ℕ) → ℕ → ℕ → List ℕ
bytes_from f off zero = []
bytes_from f off (suc n) = f off ∷ bytes_from f (off + 1) n

-- Nothing outside `[off, off + n)` has changed.
abbrev pub SameOutside : (ℕ → ℕ) → (ℕ → ℕ) → ℕ → ℕ → Type 0
SameOutside f g off n = (i : ℕ) → (i < off) ⊎ (off + n ≤ i) → g i ≡ f i

-- Programming clears bits and sets none.
abbrev pub Programmed : (ℕ → ℕ) → (ℕ → ℕ) → ℕ → List ℕ → Type 0
Programmed f g off bs =
    (i : ℕ) → off ≤ i → i < off + length bs → g i ≡ bit_and (get_or bs (i - off) 0) (f i)

abbrev pub Erased : (ℕ → ℕ) → ℕ → ℕ → Type 0
Erased g off n = (i : ℕ) → off ≤ i → i < off + n → g i ≡ 0xFF

-- A NOR flash, `byte d` being what it holds. `Fails` is what an error shows: `⊥` for a flash on
-- which no operation within its size fails, and `Unit` for one of which nothing is known.
pub record IsNor (F : Flash) (Fails : Type 0) : Type 0 where
  pub byte : F.Dev → ℕ → ℕ
  pub read_lem :
      (off n : ℕ) (d : F.Dev)
      → off + n ≤ flash_size
      → Ensures
          (λ bs d'. (bs ≡ bytes_from (byte d) off n) × (byte d' ≡ byte d))
          (λ c d'. Fails × (byte d' ≡ byte d))
          (F.read off n d)
  pub write_lem :
      (off : ℕ) (bs : List ℕ) (d : F.Dev)
      → off + length bs ≤ flash_size
      → Ensures
          (λ u d'.
            Programmed (byte d) (byte d') off bs × SameOutside (byte d) (byte d') off (length bs))
          (λ c d'. Fails × SameOutside (byte d) (byte d') off (length bs))
          (F.write off bs d)
  pub erase_lem :
      (sector : ℕ) (d : F.Dev)
      → sector < sectors
      → Ensures
          (λ u d'.
            Erased (byte d') (sector * sector_size) sector_size
            × SameOutside (byte d) (byte d') (sector * sector_size) sector_size)
          (λ c d'. Fails × SameOutside (byte d) (byte d') (sector * sector_size) sector_size)
          (F.erase_sector sector d)
