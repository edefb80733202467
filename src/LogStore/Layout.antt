-- ===== src/LogStore/Layout.antt =====
-- What the flash and the positions of a store stand for: a list of records, oldest first.
use s3_bme.Base.{
  ℕ, ◌+◌, ◌%◌, ◌≤◌, ◌<◌, ◌≡◌, ◌⊎◌, some, false, List, [], ◌∷◌, ◌++◌, length, get_elem?,
  get_elem?-some, drop, leb, if◌then◌else◌,
}
use s3_bme.LogRecord.{LogRecord, IsRecord, encode, is_empty}
use s3_bme.LogRecord.Codec.{encode-not_empty}
use s3_bme.Flash.Slots.{slot, IsFree}
use s3_bme.LogStore.{total_slots, slots_per_sector, capacity}

-- The slot that lies `k` slots behind the tail.
abbrev pub behind : ℕ → ℕ → ℕ
behind tail k = (tail + k) % total_slots

-- With the positions `head` and `tail`, `size` slots from the tail on are in use and the others are
-- erased, as far as a start looks at them: at the first slot of each sector, at the last slots in
-- use and at the head. What the slots in use hold does not matter.
pub record Occupies (mem : ℕ → ℕ) (head tail size : ℕ) : Type 0 where
  pub tail_in : tail < total_slots
  pub aligned : tail % slots_per_sector ≡ 0
  pub head_at : head ≡ behind tail size
  pub fits : size ≤ capacity
  pub taken :
      (k : ℕ)
      → k < size
      → (k % slots_per_sector ≡ 0) ⊎ (size ≤ k + slots_per_sector)
      → is_empty (slot mem (behind tail k)) ≡ false
  pub free :
      (k : ℕ)
      → size ≤ k
      → k < total_slots
      → (k % slots_per_sector ≡ 0) ⊎ (k ≡ size)
      → IsFree mem (behind tail k)

-- The flash content `mem` with the positions `head` and `tail` holds exactly the records of `log`:
-- their encodings lie in order from the tail on, and every other slot is erased.
pub record Represents (mem : ℕ → ℕ) (head tail : ℕ) (log : List LogRecord) : Type 0 where
  pub tail_in : tail < total_slots
  pub aligned : tail % slots_per_sector ≡ 0
  pub head_at : head ≡ behind tail (length log)
  pub fits : length log ≤ capacity
  pub live :
      (k : ℕ) (r : LogRecord)
      → get_elem? log k ≡ some r
      → (slot mem (behind tail k) ≡ encode r) × IsRecord r
  pub free : (k : ℕ) → length log ≤ k → k < total_slots → IsFree mem (behind tail k)

-- A flash that stands for a log has as many slots in use as there are records.
pub Represents-Occupies :
    {mem : ℕ → ℕ} {head tail : ℕ} (log : List LogRecord)
    → Represents mem head tail log
    → Occupies mem head tail (length log)
Represents-Occupies log rep = record {
  tail_in = rep.tail_in;
  aligned = rep.aligned;
  head_at = rep.head_at;
  fits = rep.fits;
  taken =
      λ k h seen. let (r, e) = get_elem?-some log k h in rw (rep.live k r e).0 (encode-not_empty r);
  free = λ k p q seen. rep.free k p q;
}

-- The abstract log: at its capacity it drops the records of the oldest sector to make room.
unfoldable pub make_room : List LogRecord → List LogRecord
make_room log = if leb capacity (length log) then drop slots_per_sector log else log

unfoldable pub push : LogRecord → List LogRecord → List LogRecord
unfolding make_room
push rec log = make_room log ++ (rec ∷ [])
