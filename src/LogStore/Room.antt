-- ===== src/LogStore/Room.antt =====
-- What erasing the sector ahead of the head does to the records that a flash stands for.
use s3_bme.Base.{
  ℕ, ◌+◌, ◌/◌, ◌%◌, ◌≤◌, ◌<◌, ◌≡◌, ◌≢◌, sym, arith, some, List, length, get_elem?, drop,
  length-drop, get_elem?-drop, get_elem?-lt, leb, inl, inr, ◌⊎◌, ◌∙◌, ℕ_discrete, dec_lt, true,
  false,
}
use s3_bme.LogRecord.{LogRecord, IsRecord, encode}
use s3_bme.Flash.Slots.{slot, IsFree}
use s3_bme.LogStore.{total_slots, slots_per_sector, capacity}
use s3_bme.LogStore.Layout.{behind, Represents, make_room}

abbrev pub next_sector : ℕ → ℕ
next_sector head = (head / slots_per_sector + 1) % 128

-- Some slot of the flash holds each record of the list.
abbrev pub Kept : (ℕ → ℕ) → List LogRecord → Type 0
Kept mem log =
    (k : ℕ) (r : LogRecord) → get_elem? log k ≡ some r → (i : ℕ) × (slot mem i ≡ encode r)

module _ (mem : ℕ → ℕ) (head tail : ℕ) (log : List LogRecord)
    (rep : Represents mem head tail log) where
  not_full : length log < capacity → leb capacity (length log) ≡ false
  not_full short = ground arith

  is_full : length log ≡ capacity → leb capacity (length log) ≡ true
  is_full full = rw full

  full_len : ¬ (length log < capacity) → length log ≡ capacity
  full_len full = omega (arith, rep.fits)

  -- `k` slots behind a tail that moved on by one sector.
  behind-behind :
      (k : ℕ) → behind (behind tail slots_per_sector) k ≡ behind tail (slots_per_sector + k)
  behind-behind k = omega arith

  pub length-room :
      head % slots_per_sector ≡ 0 → length (make_room log) + slots_per_sector ≤ capacity
  unfolding make_room
  length-room start = elim (dec_lt (length log) capacity) [
    | yes short ↦ rw (not_full short) (omega (arith, rep.head_at, rep.aligned))
    | no long ↦
        rw (is_full (full_len long))
          (omega (arith, full_len long, length-drop slots_per_sector log))
  ]

-- Whatever happens to the sector ahead of the head, the records of `make_room log` stay.
module _ (mem mem' : ℕ → ℕ) (head tail : ℕ) (log : List LogRecord)
    (rep : Represents mem head tail log) (at_start : head % slots_per_sector ≡ 0)
    (outside : (i : ℕ) → i / slots_per_sector ≢ next_sector head → slot mem' i ≡ slot mem i) where
  live_short :
      (k : ℕ) (r : LogRecord)
      → length log < capacity
      → get_elem? log k ≡ some r
      → (slot mem' (behind tail k) ≡ encode r) × IsRecord r
  live_short k r short e =
      let (stored, v) = rep.live k r e in
      (outside (behind tail k) (omega (arith, get_elem?-lt log k r e)) ∙ stored, v)

  live_full :
      (k : ℕ) (r : LogRecord)
      → length log ≡ capacity
      → get_elem? (drop slots_per_sector log) k ≡ some r
      → (slot mem' (behind tail (slots_per_sector + k)) ≡ encode r) × IsRecord r
  live_full k r full e =
      let there : get_elem? log (slots_per_sector + k) ≡ some r =
        sym (get_elem?-drop slots_per_sector k log) ∙ e in
      let (stored, v) = rep.live (slots_per_sector + k) r there in
      (
        outside (behind tail (slots_per_sector + k))
              (omega (arith, get_elem?-lt log (slots_per_sector + k) r there))
            ∙ stored,
        v,
      )

  pub room-Kept : Kept mem' (make_room log)
  unfolding make_room
  room-Kept k r = elim (dec_lt (length log) capacity) [
    | yes short ↦
        rw (not_full mem head tail log rep short) (λ e. (behind tail k, (live_short k r short e).0))
    | no long ↦
        let full = full_len mem head tail log rep long in
        rw (is_full mem head tail log rep full)
          (λ e. (behind tail (slots_per_sector + k), (live_full k r full e).0))
  ]

module _ (mem mem' : ℕ → ℕ) (head tail tail' : ℕ) (log : List LogRecord)
    (rep : Represents mem head tail log) (at_start : head % slots_per_sector ≡ 0)
    (inside : (i : ℕ) → i / slots_per_sector ≡ next_sector head → IsFree mem' i)
    (outside : (i : ℕ) → i / slots_per_sector ≢ next_sector head → slot mem' i ≡ slot mem i) where
  cleared : (i : ℕ) → (i / slots_per_sector ≡ next_sector head) ⊎ IsFree mem i → IsFree mem' i
  cleared i (inl e) = inside i e
  cleared i (inr e) = elim (ℕ_discrete (i / slots_per_sector) (next_sector head)) [
    | yes p ↦ inside i p
    | no p ↦ rw (outside i p) e
  ]

  spare : length log < capacity → tail' ≡ tail → Represents mem' head tail' log
  spare short same = rw same (record {
    tail_in = rep.tail_in;
    aligned = rep.aligned;
    head_at = rep.head_at;
    fits = rep.fits;
    live = λ k r e. live_short mem mem' head tail log rep at_start outside k r short e;
    free = λ k p q. cleared (behind tail k) (inr (rep.free k p q));
  })

  rolled :
      length log ≡ capacity
      → tail' ≡ behind tail slots_per_sector
      → Represents mem' head tail' (drop slots_per_sector log)
  rolled full moved = rw moved (record {
    tail_in = omega arith;
    aligned = omega (arith, rep.aligned);
    head_at = omega (arith, rep.head_at, length-drop slots_per_sector log);
    fits = omega (arith, length-drop slots_per_sector log);
    live = λ k r e. rw turn (live_full mem mem' head tail log rep at_start outside k r full e);
    free = λ k p q. rw turn (cleared (behind tail (slots_per_sector + k)) (vacant k p q));
  })
    where
      turn : (k : ℕ) → behind (behind tail slots_per_sector) k ≡ behind tail (slots_per_sector + k)
      turn = behind-behind mem head tail log rep

      vacant :
          (k : ℕ)
          → length (drop slots_per_sector log) ≤ k
          → k < total_slots
          → (behind tail (slots_per_sector + k) / slots_per_sector ≡ next_sector head)
            ⊎ IsFree mem (behind tail (slots_per_sector + k))
      vacant k p q = elim (dec_lt (slots_per_sector + k) total_slots) [
        | yes near ↦
            inr (
              rep.free (slots_per_sector + k) (omega (arith, length-drop slots_per_sector log))
                near)
        | no far ↦ inl (omega arith)
      ]

  pub room :
      (length log ≡ capacity → tail' ≡ behind tail slots_per_sector)
      → (length log < capacity → tail' ≡ tail)
      → Represents mem' head tail' (make_room log)
  unfolding make_room
  room if_full if_short = elim (dec_lt (length log) capacity) [
    | yes short ↦ rw (not_full mem head tail log rep short) (spare short (if_short short))
    | no long ↦
        let full = full_len mem head tail log rep long in
        rw (is_full mem head tail log rep full) (rolled full (if_full full))
  ]
