-- ===== src/LogStore/Tests.antt =====
-- The log store at concrete inputs.
use s3_bme.Base.{
  ◌≢◌, ◌++◌, ℕ, zero, suc, ◌≤◌, ◌≡◌, ◌<◌, ◌⊎◌, false, ltb, if◌then◌else◌, refl, arith, List, [],
  ◌∷◌, length, get_elem?, some, get_or, take, drop,
}
use s3_bme.Base.Int.{pos}
use s3_bme.Base.Result.{Ensures}
use s3_bme.LogRecord.{LogRecord, IsRecord, encode}
use s3_bme.LogRecord.Codec.{length-encode}
use s3_bme.Flash.{sectors}
use s3_bme.Flash.Slots.{slot, IsFree, slot-IsFree, slot-beside}
use s3_bme.Flash.Sim.{sim, sim_nor, sim_write, sim_write_outside}
use s3_bme.LogStore.{err_corrupt, Store, append, init, read, clear}
use s3_bme.LogStore.Layout.{behind, Represents, push}
use s3_bme.LogStore.Prims.{mem, Same}
use s3_bme.LogStore.PowerLoss.{Shows, init-Shows}
use s3_bme.LogStore.ReadSlots.{record_in}
use s3_bme.LogStore.Prepare.{Holds, AppendFailed}
use s3_bme.LogStore.Append.{append-refines}
use s3_bme.LogStore.Read.{read-records}
use s3_bme.LogStore.Clear.{clear-empty}
use s3_bme.LogStore.Recovery.{init-recovers}
use s3_bme.LogStore.Scan.{blank_at}
use s3_bme.LogStore.Startup.{IsStarted, init-IsStarted}

abbrev pub sample : LogRecord
sample = record {
  timestamp = 1_700_000_000;
  temp_centi = pos 2345;
  hum_centi = 5012;
  pressure_pa = 101325;
  flags = 1;
  boot_id = 7;
}

pub sample-IsRecord : IsRecord sample
sample-IsRecord = omega arith

-- A flash with one record in its first slot.
abbrev pub flash : ℕ → ℕ
flash i = get_or (encode sample) i 0xFF

abbrev pub one : List LogRecord
one = sample ∷ []

abbrev pub store : Store (ℕ → ℕ)
store = record { dev = flash; head = 1; tail = 0 }

get_or-beyond : (xs : List ℕ) (i : ℕ) → length xs ≤ i → get_or xs i 0xFF ≡ 0xFF
get_or-beyond [] i h = refl
get_or-beyond (x ∷ xs) zero h = absurd (omega arith)
get_or-beyond (x ∷ xs) (suc i) h = get_or-beyond xs i (omega arith)

pub sample_stored : slot flash 0 ≡ encode sample
unfolding slot encode
sample_stored = refl

one_live :
    (k : ℕ) (r : LogRecord)
    → get_elem? one k ≡ some r
    → (slot flash (behind 0 k) ≡ encode r) × IsRecord r
one_live zero r e = let same : sample ≡ r = cc e in rw (← same) (sample_stored, sample-IsRecord)
one_live (suc k) r e = cc

rest-IsFree : (i : ℕ) → 1 ≤ i → IsFree flash i
rest-IsFree i h =
    slot-IsFree flash i
      (λ j p q. get_or-beyond (encode sample) j (omega (arith, length-encode sample)))

pub store-Represents : Represents flash 1 0 one
store-Represents = record {
  tail_in = omega arith;
  aligned = refl;
  head_at = refl;
  fits = omega arith;
  live = one_live;
  free = λ k p q. rest-IsFree (behind 0 k) (omega arith);
}

append-refines_example :
    Ensures
      (λ u t. Holds sim sim_nor t (push sample one))
      (λ c t. AppendFailed sim sim_nor store t one)
      (append sim sample store)
append-refines_example =
    append-refines sim sim_nor store one sample store-Represents sample-IsRecord

read-records_example :
    Ensures
      (λ u r. Same sim sim_nor store r.store × (r.out ≡ take 500 (drop 0 one)))
      (λ c r. ⊥ × Same sim sim_nor store r.store × ((n : ℕ) × (r.out ≡ take n (drop 0 one))))
      (read sim 0 500 store)
read-records_example = read-records sim sim_nor one 0 500 store store-Represents (omega arith)

init-recovers_example :
    Ensures
      (λ u t. Holds sim sim_nor t one)
      (λ c t. ⊥)
      (init sim (record { dev = flash; head = 77; tail = 3 }))
init-recovers_example =
    init-recovers sim sim_nor (record { dev = flash; head = 77; tail = 3 }) 1 0 one store-Represents

clear-empty_example :
    Ensures
      (λ u t. Holds sim sim_nor t [])
      (λ c t. ⊥ × (t.head ≡ 1) × (t.tail ≡ 0))
      (clear sim store)
clear-empty_example = clear-empty sim sim_nor store

-- A flash whose first three sectors hold zeros.
abbrev garbled : Store (ℕ → ℕ)
garbled = record { dev = λ i. if ltb i 12288 then 0 else 0xFF; head = 0; tail = 0 }

init-IsStarted_example :
    Ensures
      (λ u t. IsStarted sim sim_nor garbled.dev t)
      (λ c t. ⊥ ⊎ ((c ≡ err_corrupt) × ((i : ℕ) → i < sectors → blank_at garbled.dev i ≡ false)))
      (init sim garbled)
init-IsStarted_example = init-IsStarted sim sim_nor garbled

-- The power failed when four bytes of the second slot were written.
abbrev cut : Store (ℕ → ℕ)
cut = record { dev = sim_write 16 (0 ∷ 0 ∷ 0 ∷ 0 ∷ []) flash; head = 5; tail = 9 }

cut_elsewhere : (i : ℕ) → i ≢ 1 → slot (mem sim sim_nor cut) i ≡ slot flash i
cut_elsewhere i ne =
    slot-beside flash cut.dev 1 i
      (λ j out. sim_write_outside 16 (0 ∷ 0 ∷ 0 ∷ 0 ∷ []) flash j (omega arith)) (omega arith)

init-Shows_example :
    Ensures
      (λ u t.
        (mem sim sim_nor t ≡ mem sim sim_nor cut)
        × Shows sim sim_nor t (one ++ record_in (slot (mem sim sim_nor cut) 1)))
      (λ c t. ⊥)
      (init sim cut)
init-Shows_example =
    init-Shows sim sim_nor cut flash 1 0 one store-Represents (omega arith) cut_elsewhere
