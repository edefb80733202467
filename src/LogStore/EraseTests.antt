-- ===== src/LogStore/EraseTests.antt =====
-- The log store at a full log whose oldest sector was being erased when the power failed.
use s3_bme.Base.{
  ◌≢◌, ◌⊎◌, ◌++◌, ℕ, zero, suc, ◌+◌, ◌*◌, ◌/◌, ◌%◌, ◌≤◌, ◌≡◌, ◌<◌, ltb, leb, if◌then◌else◌, refl,
  ap₂, ◌∙◌, arith, List, [], ◌∷◌, length, true, get_elem?, some,
}
use s3_bme.Base.Result.{Ensures, ◌>>=◌}
use s3_bme.LogRecord.{LogRecord, encode}
use s3_bme.Flash.{bytes_from}
use s3_bme.Flash.Slots.{slot, IsFree, slot-IsFree, bytes_from-ext}
use s3_bme.Flash.Sim.{sim, sim_nor}
use s3_bme.LogStore.{init, read, append, capacity, slots_per_sector}
use s3_bme.LogStore.Layout.{behind, Represents, make_room, push}
use s3_bme.LogStore.Prims.{Same}
use s3_bme.LogStore.Room.{next_sector}
use s3_bme.LogStore.Prepare.{Holds}
use s3_bme.LogStore.ReadSlots.{decoded}
use s3_bme.LogStore.EraseRestart.{restart-pushes}
use s3_bme.LogStore.Tests.{sample, sample-IsRecord, flash, sample_stored}

unfoldable samples : ℕ → List LogRecord
samples zero = []
samples (suc n) = sample ∷ samples n

length-samples : (n : ℕ) → length (samples n) ≡ n
unfolding samples
length-samples zero = refl
length-samples (suc n) = omega (arith, length-samples n)

samples_are : (n k : ℕ) (r : LogRecord) → get_elem? (samples n) k ≡ some r → (k < n) × (r ≡ sample)
unfolding samples
samples_are zero k r e = cc
samples_are (suc n) zero r e = (omega arith, cc e)
samples_are (suc n) (suc k) r e = let (inside, same) = samples_are n k r e in (omega arith, same)

-- The record in each of the first `n` slots.
abbrev filled : ℕ → ℕ → ℕ
filled n i = if ltb i (n * 16) then flash (i % 16) else 0xFF

bytes_from-shift :
    (f g : ℕ → ℕ) (n a b : ℕ)
    → ((j : ℕ) → j < n → f (a + j) ≡ g (b + j))
    → bytes_from f a n ≡ bytes_from g b n
bytes_from-shift f g zero a b h = refl
bytes_from-shift f g (suc n) a b h =
    let (x, y) : (a + 0 ≡ a) × (b + 0 ≡ b) = omega arith in
    ap₂ ◌∷◌ (rw (x, y) at (h 0 (omega arith))) (
      bytes_from-shift f g n (a + 1) (b + 1) (λ j p.
        let (x', y') : (a + 1 + j ≡ a + suc j) × (b + 1 + j ≡ b + suc j) = omega arith in
        rw (x', y') (h (suc j) (omega arith))))

filled_inside : (n k : ℕ) → k < n → slot (filled n) k ≡ encode sample
unfolding slot
filled_inside n k h =
    bytes_from-shift (filled n) flash 16 (k * 16) (0 * 16) (λ j p.
      let low : ltb (k * 16 + j) (n * 16) ≡ true = ground arith in
      let at : (k * 16 + j) % 16 ≡ 0 * 16 + j = omega arith in rw (low, at) refl)
    ∙ sample_stored

filled_outside : (n k : ℕ) → n ≤ k → IsFree (filled n) k
filled_outside n k h = slot-IsFree (filled n) k (λ j p q. ground arith)

filled-Represents : (n : ℕ) → n ≤ capacity → Represents (filled n) n 0 (samples n)
filled-Represents n h = record {
  tail_in = omega arith;
  aligned = refl;
  head_at = omega (arith, length-samples n);
  fits = omega (arith, length-samples n);
  live = λ k r e.
      let (inside, same) = samples_are n k r e in
      let place : behind 0 k ≡ k = omega arith in
      rw (place, same) (filled_inside n k inside, sample-IsRecord);
  free = λ k p q.
      let len = length-samples n in
      let place : behind 0 k ≡ k = omega arith in rw place (filled_outside n k (omega arith));
}

-- The erase has reached the second slot of the oldest sector, and the fourth byte of the first.
abbrev torn : ℕ → ℕ
torn i = if leb 32 i then filled capacity i else if ltb i 3 then 0 else 0xFF

torn_outside :
    (i : ℕ) → i / slots_per_sector ≢ next_sector capacity → slot torn i ≡ slot (filled capacity) i
unfolding slot
torn_outside i ne =
    bytes_from-ext (filled capacity) torn 16 (i * 16)
      (λ j p q. let high : leb 32 j ≡ true = ground arith in rw high refl)

full_log : length (samples capacity) ≡ 32512
full_log = length-samples capacity

restart-pushes_example :
    Ensures
      (λ u t.
        Ensures
          (λ _ r.
            Same sim sim_nor t r.store
            × ((r.out ≡ make_room (samples capacity))
                ⊎ (r.out ≡ decoded torn 0 0 slots_per_sector ++ make_room (samples capacity))))
          (λ c r. ⊥)
          (read sim 0 40000 t))
      (λ c t. ⊥)
      (init sim (record { dev = torn; head = 0; tail = 5 }))
    × Ensures
        (λ u t. Holds sim sim_nor t (push sample (samples capacity)))
        (λ c t. ⊥)
        ((init sim >>= λ _. append sim sample) (record { dev = torn; head = 0; tail = 5 }))
restart-pushes_example =
    restart-pushes sim sim_nor (record { dev = torn; head = 0; tail = 5 }) (filled capacity)
      capacity 0 (samples capacity) 40000 sample (filled-Represents capacity (omega arith)) refl
      (λ e. absurd (omega (arith, full_log))) torn_outside
      (λ short. absurd (omega (arith, full_log))) (omega arith) sample-IsRecord
