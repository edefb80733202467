-- ===== src/Flash/Slots.antt =====
-- The sixteen-byte slots of a flash, and what programming and erasing does to them.
use s3_bme.Base.{
  ℕ, zero, suc, ◌+◌, ◌-◌, ◌*◌, ◌/◌, ◌≤◌, ◌<◌, ◌≡◌, ◌≢◌, refl, ap₂, arith, List, [], ◌∷◌, length,
  bit_and-ones, true,
}
use s3_bme.LogRecord.{is_empty}
use s3_bme.LogRecord.Codec.{IsBytes, is_empty-cons}
use s3_bme.Flash.{bytes_from, Programmed, Erased, SameOutside, sector_size}

unfoldable pub slot : (ℕ → ℕ) → ℕ → List ℕ
slot f i = bytes_from f (i * 16) 16

abbrev pub IsFree : (ℕ → ℕ) → ℕ → Type 0
IsFree f i = is_empty (slot f i) ≡ true

pub bytes_from-ext :
    (f g : ℕ → ℕ) (n off : ℕ)
    → ((i : ℕ) → off ≤ i → i < off + n → g i ≡ f i)
    → bytes_from g off n ≡ bytes_from f off n
bytes_from-ext f g zero off h = refl
bytes_from-ext f g (suc n) off h =
    ap₂ ◌∷◌ (h off (omega arith) (omega arith))
      (bytes_from-ext f g n (off + 1) (λ i p q. h i (omega arith) (omega arith)))

bytes_from-Erased :
    (g : ℕ → ℕ) (n off : ℕ)
    → ((i : ℕ) → off ≤ i → i < off + n → g i ≡ 0xFF)
    → is_empty (bytes_from g off n) ≡ true
unfolding is_empty
bytes_from-Erased g zero off h = refl
bytes_from-Erased g (suc n) off h =
    rw (h off (omega arith) (omega arith))
      (bytes_from-Erased g n (off + 1) (λ i p q. h i (omega arith) (omega arith)))

-- Programming erased bytes stores them as they are.
bytes_from-Programmed :
    (f g : ℕ → ℕ) (bs : List ℕ) (off : ℕ)
    → IsBytes bs
    → is_empty (bytes_from f off (length bs)) ≡ true
    → Programmed f g off bs
    → bytes_from g off (length bs) ≡ bs
bytes_from-Programmed f g [] off b e h = refl
bytes_from-Programmed f g (x ∷ xs) off b e h =
    let (first, rest) = is_empty-cons _ _ e in
    ap₂ ◌∷◌ (head first) (bytes_from-Programmed f g xs (off + 1) b.1 rest tail)
  where
    head : f off ≡ 0xFF → g off ≡ x
    head first =
        let start : off - off ≡ 0 = omega arith in
        rw (h off (omega arith) (omega arith), start, first, bit_and-ones 8 x) (omega arith)

    tail : Programmed f g (off + 1) xs
    tail i p q =
        let index : i - off ≡ suc (i - (off + 1)) = omega arith in
        rw index at (h i (omega arith) (omega arith))

-- A slot of erased bytes is free.
pub slot-IsFree :
    (g : ℕ → ℕ) (i : ℕ) → ((j : ℕ) → i * 16 ≤ j → j < i * 16 + 16 → g j ≡ 0xFF) → IsFree g i
unfolding slot
slot-IsFree g i h = bytes_from-Erased g 16 (i * 16) h

module _ (f g : ℕ → ℕ) where
  pub slot-Programmed :
      (i : ℕ) (bs : List ℕ)
      → IsBytes bs
      → length bs ≡ 16
      → IsFree f i
      → Programmed f g (i * 16) bs
      → slot g i ≡ bs
  unfolding slot
  slot-Programmed i bs b l e h = rw l at (bytes_from-Programmed f g bs (i * 16) b (rw l e) h)

  pub slot-beside : (i j : ℕ) → SameOutside f g (i * 16) 16 → i ≢ j → slot g j ≡ slot f j
  unfolding slot
  slot-beside i j h ne = bytes_from-ext f g 16 (j * 16) (λ k p q. h k (omega arith))

  pub slot-other_sector :
      (sector j : ℕ)
      → SameOutside f g (sector * sector_size) sector_size
      → j / 256 ≢ sector
      → slot g j ≡ slot f j
  unfolding slot
  slot-other_sector sector j h ne = bytes_from-ext f g 16 (j * 16) (λ k p q. h k (omega arith))

  pub slot-Erased :
      (sector j : ℕ) → Erased g (sector * sector_size) sector_size → j / 256 ≡ sector → IsFree g j
  unfolding slot
  slot-Erased sector j h e =
      bytes_from-Erased g 16 (j * 16) (λ k p q. h k (omega arith) (omega arith))
