-- ===== src/LogStore/EraseLoss.antt =====
-- A restart after the power failed in the course of `log_store_append` erasing the sector ahead.
use s3_bme.Base.{
  ℕ, zero, suc, ◌+◌, ◌-◌, ◌*◌, ◌/◌, ◌%◌, ◌≤◌, ◌<◌, ◌≡◌, ◌≢◌, refl, sym, ◌∙◌, ap, arith, false, List,
  [], ◌∷◌, ◌++◌, some, length, get_elem?, get_elem?-lt, get_elem?-some, drop, ltb, leb, ◌&&◌,
  if◌then◌else◌, ℕ_discrete, length-drop, take_all,
}
use s3_bme.LogRecord.{LogRecord, is_empty}
use s3_bme.LogRecord.Codec.{encode-not_empty}
use s3_bme.Flash.Slots.{slot, IsFree, slot-IsFree, bytes_from-ext}
use s3_bme.LogStore.{slots_per_sector, capacity}
use s3_bme.LogStore.Layout.{behind, Represents, Occupies, make_room}
use s3_bme.LogStore.Room.{next_sector, room, length-room}
use s3_bme.LogStore.ReadSlots.{record_in, decoded}
use s3_bme.LogStore.ReadLog.{decoded-add, decoded-take}
use s3_bme.LogStore.Read.{record_in-encode}

-- The flash `g` with one sector erased.
abbrev pub wiped : (ℕ → ℕ) → ℕ → ℕ → ℕ
wiped g sector i = if leb (sector * 4096) i && ltb i (sector * 4096 + 4096) then 0xFF else g i

wiped_inside :
    (g : ℕ → ℕ) (sector i : ℕ) → i / slots_per_sector ≡ sector → IsFree (wiped g sector) i
wiped_inside g sector i e = slot-IsFree (wiped g sector) i (λ j p q. ground arith)

pub wiped_outside :
    (g : ℕ → ℕ) (sector i : ℕ) → i / slots_per_sector ≢ sector → slot (wiped g sector) i ≡ slot g i
unfolding slot
wiped_outside g sector i ne = bytes_from-ext g (wiped g sector) 16 (i * 16) (λ j p q. ground arith)

-- Slots counted from a tail that lies `d` slots further on.
decoded-behind :
    (f : ℕ → ℕ) (tail d k n : ℕ) → decoded f (behind tail d) k n ≡ decoded f tail (d + k) n
unfolding decoded
decoded-behind f tail d k zero = refl
decoded-behind f tail d k (suc n) =
    let here : behind (behind tail d) k ≡ behind tail (d + k) = omega arith in
    let next : d + (k + 1) ≡ d + k + 1 = omega arith in
    rw (here, ← next)
      (ap (λ rs. record_in (slot f (behind tail (d + k))) ++ rs)
        (decoded-behind f tail d (k + 1) n))

pub make_room_full :
    (log : List LogRecord) → length log ≡ capacity → make_room log ≡ drop slots_per_sector log
unfolding make_room
make_room_full log full = rw full refl

pub make_room_short : (log : List LogRecord) → length log < capacity → make_room log ≡ log
unfolding make_room
make_room_short log short = ground arith

-- The flash stood for the log as `f`, with the head at the start of a sector; the sector ahead may
-- hold anything now.
module _ (f g : ℕ → ℕ) (head tail : ℕ) (log : List LogRecord) (rep : Represents f head tail log)
    (at_start : head % slots_per_sector ≡ 0)
    (outside : (i : ℕ) → i / slots_per_sector ≢ next_sector head → slot g i ≡ slot f i) where
  -- With the sector ahead erased, the flash would stand for the log with room made.
  pub with_room :
      (tail' : ℕ)
      → (length log ≡ capacity → tail' ≡ behind tail slots_per_sector)
      → (length log < capacity → tail' ≡ tail)
      → Represents (wiped g (next_sector head)) head tail' (make_room log)
  with_room tail' if_full if_short =
      room f (wiped g (next_sector head)) head tail tail' log rep at_start
        (wiped_inside g (next_sector head))
        (λ i ne. wiped_outside g (next_sector head) i ne ∙ outside i ne) if_full if_short

  pub room_left : length (make_room log) + slots_per_sector ≤ capacity
  room_left = length-room f head tail log rep at_start

  module _ (tail' : ℕ)
      (rep' : Represents (wiped g (next_sector head)) head tail' (make_room log)) where
    -- The records that stay lie outside the sector ahead.
    elsewhere :
        (k : ℕ) → k < length (make_room log) → behind tail' k / slots_per_sector ≢ next_sector head
    elsewhere k h e = omega (arith, rep'.head_at, rep'.tail_in, rep'.aligned, room_left)

    live_kept :
        (k : ℕ) (r : LogRecord)
        → get_elem? (make_room log) k ≡ some r
        → record_in (slot g (behind tail' k)) ≡ r ∷ []
    live_kept k r e =
        let (stored, v) = rep'.live k r e in
        let within : k < length (make_room log) = get_elem?-lt (make_room log) k r e in
        record_in-encode (slot g (behind tail' k)) r
          (sym (wiped_outside g (next_sector head) (behind tail' k) (elsewhere k within)) ∙ stored)
          v

    pub decoded-kept : decoded g tail' 0 (length (make_room log)) ≡ make_room log
    decoded-kept =
        decoded-take g tail' (make_room log) live_kept 0 (length (make_room log)) (omega arith)
        ∙ take_all (length (make_room log)) (make_room log) (omega arith)

    -- The sector ahead reads as erased.
    pub blank_ahead :
        IsFree g (next_sector head * slots_per_sector)
        → Occupies g head tail' (length (make_room log))
    blank_ahead first = record {
      tail_in = rep'.tail_in;
      aligned = rep'.aligned;
      head_at = rep'.head_at;
      fits = rep'.fits;
      taken = λ k h seen.
          let (r, e) = get_elem?-some (make_room log) k h in
          rw
            (
              ← wiped_outside g (next_sector head) (behind tail' k) (elsewhere k h),
              (rep'.live k r e).0,
            )
            (encode-not_empty r);
      free = λ k p q seen.
          elim (ℕ_discrete (behind tail' k / slots_per_sector) (next_sector head)) [
            | yes ahead ↦
                let at : behind tail' k ≡ next_sector head * slots_per_sector =
                  omega (arith, seen, rep'.head_at, rep'.tail_in, rep'.aligned, at_start) in
                rw at first
            | no beside ↦
                rw (← wiped_outside g (next_sector head) (behind tail' k) beside) (rep'.free k p q)
          ];
    }

  -- The sector ahead still reads as in use; the log is at its capacity then.
  module _ (full : length log ≡ capacity)
      (used : is_empty (slot g (next_sector head * slots_per_sector)) ≡ false) where
    pub used_ahead : Occupies g head tail (length log)
    used_ahead = record {
      tail_in = rep.tail_in;
      aligned = rep.aligned;
      head_at = rep.head_at;
      fits = rep.fits;
      taken = λ k h seen. elim (ℕ_discrete (behind tail k / slots_per_sector) (next_sector head)) [
        | yes ahead ↦
            let at : behind tail k ≡ next_sector head * slots_per_sector =
              omega (arith, seen, rep.head_at, rep.tail_in, rep.aligned, at_start, full) in
            rw at used
        | no beside ↦
            let (r, e) = get_elem?-some log k h in
            rw (outside (behind tail k) beside, (rep.live k r e).0) (encode-not_empty r)
      ];
      free = λ k p q seen.
          rw
            (outside (behind tail k)
              (omega (arith, rep.head_at, rep.tail_in, rep.aligned, at_start, full)))
            (rep.free k p q);
    }

    -- What is left in the sector ahead comes first.
    pub decoded-left :
        decoded g tail 0 (length log) ≡ decoded g tail 0 slots_per_sector ++ make_room log
    decoded-left =
        let rep' =
          with_room (behind tail slots_per_sector) (λ _. refl) (λ short. absurd (omega arith)) in
        let rest : length (make_room log) ≡ length log - slots_per_sector =
          ap length (make_room_full log full) ∙ length-drop slots_per_sector log in
        let split : length log ≡ slots_per_sector + length (make_room log) = omega arith in
        rw split (
          decoded-add g tail 0 slots_per_sector (length (make_room log))
          ∙ ap (λ rs. decoded g tail 0 slots_per_sector ++ rs)
              (sym (decoded-behind g tail slots_per_sector 0 (length (make_room log)))
                ∙ decoded-kept (behind tail slots_per_sector) rep'))
