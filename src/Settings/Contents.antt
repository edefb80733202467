-- ===== src/Settings/Contents.antt =====
-- What NVS documents of its calls: it keeps a value for each key until another one is set or the key
-- is erased, also over a restart, and a call may report an error instead.
use s3_bme.Base.{ℕ, ◌<◌, ◌≡◌, ◌≢◌, ◌⊎◌, Option, none, some, List, length}
use s3_bme.Base.Result.{Ensures}
use s3_bme.Settings.{Key, Nvs}

-- `Fails` is what an error shows that no missing key explains: `⊥` for a partition on which no call
-- fails, and `Unit` for one of which nothing is known.
pub record IsNvs (N : Nvs) (Fails : Type 0) : Type 0 where
  pub num : N.Dev → Key → Option ℕ
  pub text : N.Dev → Key → Option (List ℕ)
  pub flash_init_lem :
      (d : N.Dev)
      → Ensures (λ u e. (num e ≡ num d) × (text e ≡ text d)) (λ c e. Fails) (N.flash_init d)
  pub open_ns_lem :
      (d : N.Dev)
      → Ensures (λ u e. (num e ≡ num d) × (text e ≡ text d)) (λ c e. Fails) (N.open_ns d)
  pub get_u32_missing :
      (k : Key) (d : N.Dev)
      → num d k ≡ none
      → Ensures (λ m e. ⊥) (λ c e. (num e ≡ num d) × (text e ≡ text d)) (N.get_u32 k d)
  pub get_u8_missing :
      (k : Key) (d : N.Dev)
      → num d k ≡ none
      → Ensures (λ m e. ⊥) (λ c e. (num e ≡ num d) × (text e ≡ text d)) (N.get_u8 k d)
  pub get_u32_lem :
      (k : Key) (d : N.Dev) (n : ℕ)
      → num d k ≡ some n
      → Ensures
          (λ m e. (m ≡ n) × (num e ≡ num d) × (text e ≡ text d))
          (λ c e. Fails × (num e ≡ num d) × (text e ≡ text d))
          (N.get_u32 k d)
  pub get_u8_lem :
      (k : Key) (d : N.Dev) (n : ℕ)
      → num d k ≡ some n
      → Ensures
          (λ m e. (m ≡ n) × (num e ≡ num d) × (text e ≡ text d))
          (λ c e. Fails × (num e ≡ num d) × (text e ≡ text d))
          (N.get_u8 k d)
  pub set_u32_lem :
      (k : Key) (n : ℕ) (d : N.Dev)
      → Ensures
          (λ u e. (num e k ≡ some n) × ((j : Key) → j ≢ k → num e j ≡ num d j) × (text e ≡ text d))
          (λ c e. Fails)
          (N.set_u32 k n d)
  pub set_u8_lem :
      (k : Key) (n : ℕ) (d : N.Dev)
      → Ensures
          (λ u e. (num e k ≡ some n) × ((j : Key) → j ≢ k → num e j ≡ num d j) × (text e ≡ text d))
          (λ c e. Fails)
          (N.set_u8 k n d)
  pub get_str_lem :
      (k : Key) (len : ℕ) (d : N.Dev) (v : List ℕ)
      → text d k ≡ some v
      → length v < len
      → Ensures
          (λ s e. (s ≡ v) × (num e ≡ num d) × (text e ≡ text d))
          (λ c e. Fails × (num e ≡ num d) × (text e ≡ text d))
          (N.get_str k len d)
  pub get_str_missing :
      (k : Key) (len : ℕ) (d : N.Dev)
      → text d k ≡ none
      → Ensures (λ s e. ⊥) (λ c e. (num e ≡ num d) × (text e ≡ text d)) (N.get_str k len d)
  pub set_str_lem :
      (k : Key) (v : List ℕ) (d : N.Dev)
      → Ensures
          (λ u e. (text e k ≡ some v) × ((j : Key) → j ≢ k → text e j ≡ text d j) × (num e ≡ num d))
          (λ c e. Fails)
          (N.set_str k v d)
  pub erase_key_lem :
      (k : Key) (d : N.Dev)
      → Ensures
          (λ u e. (text e k ≡ none) × ((j : Key) → j ≢ k → text e j ≡ text d j) × (num e ≡ num d))
          (λ c e.
            ((c ≡ N.not_found) × (text d k ≡ none) × (text e ≡ text d) × (num e ≡ num d))
            ⊎ ((c ≢ N.not_found) × Fails))
          (N.erase_key k d)
  pub commit_lem :
      (d : N.Dev) → Ensures (λ u e. (num e ≡ num d) × (text e ≡ text d)) (λ c e. Fails) (N.commit d)
