-- ===== src/LogStore/Image.antt =====
-- Which slots of a flash with some slots in use read as empty, and what the searches find in it.
use s3_bme.Base.{
  ℕ, ◌+◌, ◌-◌, ◌*◌, ◌/◌, ◌%◌, ◌≤◌, ◌<◌, ◌≡◌, ◌≢◌, sym, ◌∙◌, ap, arith, Bool, true, false, List,
  get_or, inl, ℕ_discrete,
}
use mathlib.Core.Bool.{false≢true}
use s3_bme.Base.Result.{ok}
use s3_bme.Flash.{sectors}
use s3_bme.LogStore.{slots_per_sector, find_start, find_end}
use s3_bme.LogStore.Layout.{behind, Occupies}
use s3_bme.LogStore.Search.{find_start_lem, find_end_lem}
use s3_bme.LogStore.Scan.{blank_at, flags, count_true, get_or-flags, all_flags, no_flags}

-- `size` slots from the tail on are in use.
module _ (f : ℕ → ℕ) (head tail : ℕ) (size : ℕ) (rep : Occupies f head tail size) where
  abbrev pub first : ℕ
  first = tail / slots_per_sector

  abbrev pub used : ℕ
  used = (size + 255) / slots_per_sector

  abbrev pub array : List Bool
  array = flags f 0 sectors

  from_first :
      (i : ℕ)
      → i < sectors
      → i * slots_per_sector ≡ behind tail ((i + sectors - first) % sectors * slots_per_sector)
  from_first i h = omega (arith, rep.tail_in, rep.aligned)

  array_at : (i : ℕ) → i < sectors → get_or array i false ≡ blank_at f i
  array_at i h = get_or-flags f sectors 0 i h ∙ ap (blank_at f) (omega arith)

  pub data_at :
      (i : ℕ) → i < sectors → (i + sectors - first) % sectors < used → get_or array i false ≡ false
  data_at i h p =
      array_at i h
      ∙ rw (from_first i h) (
          rep.taken ((i + sectors - first) % sectors * slots_per_sector) (omega arith)
            (inl (omega arith)))

  pub free_at :
      (i : ℕ) → i < sectors → used ≤ (i + sectors - first) % sectors → get_or array i false ≡ true
  free_at i h p =
      array_at i h
      ∙ rw (from_first i h) (
          rep.free ((i + sectors - first) % sectors * slots_per_sector) (omega arith) (omega arith)
            (inl (omega arith)))

  -- Some sector is erased, and all are only if none is in use.
  pub not_full_of_data : count_true array ≢ 0
  not_full_of_data e =
      let last : ℕ = (first + 127) % sectors in
      let free : get_or array last false ≡ true =
        free_at last (omega arith) (omega (arith, rep.fits)) in
      let read : get_or array last false ≡ blank_at f (0 + last) =
        get_or-flags f sectors 0 last (omega arith) in
      let none : blank_at f (0 + last) ≡ false = no_flags f sectors 0 last e (omega arith) in
      false≢true (sym none ∙ (sym read ∙ free))

  pub empty_of_all : count_true array ≡ sectors → size ≡ 0
  empty_of_all e = elim (ℕ_discrete (size) 0) [
    | yes empty ↦ empty
    | no some_data ↦
        let inside : first < sectors = omega (arith, rep.tail_in) in
        let used_first : get_or array first false ≡ false = data_at first inside (omega arith) in
        let read : get_or array first false ≡ blank_at f (0 + first) =
          get_or-flags f sectors 0 first inside in
        let set : blank_at f (0 + first) ≡ true = all_flags f sectors 0 first e inside in
        absurd (false≢true (sym used_first ∙ (read ∙ set)))
  ]

  -- The searches over this array.
  module _ (some_data : 0 < size) where
    abbrev pub start : ℕ
    start = (first + used) % sectors

    pub find_start_log : find_start array sectors 0 ≡ start
    find_start_log =
        find_start_lem array first used (omega (arith, rep.tail_in)) (omega arith)
          (omega (arith, rep.fits)) data_at free_at

    pub find_end_log : find_end array sectors start ≡ ok ((first + sectors - 1) % sectors)
    find_end_log =
        find_end_lem array first used (omega (arith, rep.tail_in)) (omega arith)
          (omega (arith, rep.fits)) data_at free_at sectors start (omega arith)
          (omega (arith, rep.tail_in, rep.fits)) (omega (arith, rep.tail_in, rep.fits))

    -- Slot `m` of the head sector, counted from the tail.
    abbrev pub rank : ℕ → ℕ
    rank m = (used - 1) * slots_per_sector + m

    pub head_sector_slot :
        (m : ℕ)
        → m < slots_per_sector
        → (start + sectors - 1) % sectors * slots_per_sector + m ≡ behind tail (rank m)
    head_sector_slot m h = omega (arith, rep.tail_in, rep.aligned, rep.fits)
