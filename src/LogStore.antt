-- ===== src/LogStore.antt =====
-- firmware/components/log_store/log-store.c: the circular log of records on flash.
-- Every function is a call on the store, with the flash operations as the section's parameter.
pub mod Layout
pub mod Prims
pub mod Room
pub mod Prepare
pub mod Append
pub mod ReadSlots
pub mod ReadLog
pub mod Read
pub mod Clear
pub mod Search
pub mod Scan
pub mod Image
pub mod Restart
pub mod PowerLoss
pub mod EraseLoss
pub mod EraseRestart
pub mod Recovery
pub mod Runs
pub mod Startup
pub mod Tests
pub mod EraseTests
use s3_bme.Base.{
  ℕ, zero, suc, ◌+◌, ◌-◌, ◌*◌, ◌/◌, ◌%◌, ◌^◌, ltb, leb, ◌==◌, if◌then◌else◌, ◌&&◌, not, Bool, true,
  false, Option, none, some, List, [], ◌∷◌, ◌++◌, get_or, u32,
}
use s3_bme.Base.Int.{ℤ, negsuc}
use s3_bme.Base.Result.{Result, ok, err, hang, M, pure, continue, fail, ◌>>=◌, ◌>>◌, get, put}
use s3_bme.LogRecord.{LogRecord, encode, decode, is_empty}
use s3_bme.Flash.{Flash, sectors}

-- LOG_STORE_SLOTS_PER_SECTOR, LOG_STORE_TOTAL_SLOTS and LOG_STORE_CAPACITY.
abbrev pub slots_per_sector : ℕ
slots_per_sector = 256

abbrev pub total_slots : ℕ
total_slots = 32768

abbrev pub capacity : ℕ
capacity = 32512

-- LOG_STORE_ERR_CORRUPT, -2.
abbrev pub err_corrupt : ℤ
err_corrupt = negsuc 1

-- `log_store_t`, with the state of the flash that it holds.
pub record Store (Dev : Type 0) : Type 0 where
  pub dev : Dev
  pub head : ℕ
  pub tail : ℕ

unfoldable pub count : {Dev : Type 0} → Store Dev → ℕ
count s = u32 (s.head + total_slots + 2 ^ 32 - s.tail) % total_slots

-- The search for the first erased sector behind one that is not, with `left` sectors to look at.
unfoldable pub find_start : List Bool → ℕ → ℕ → ℕ
find_start erased zero i = 0
find_start erased (suc left) i =
    let rest = find_start erased left (i + 1) in
    if get_or erased i false && not (get_or erased ((i + sectors - 1) % sectors) false)
    then i
    else rest

-- `while (erased[(run_end + 1) % ...]) run_end = ...`, on fuel.
unfoldable pub find_end : List Bool → ℕ → ℕ → Result ℕ
find_end erased zero e = hang
find_end erased (suc fuel) e =
    let rest = find_end erased fuel ((e + 1) % sectors) in
    if get_or erased ((e + 1) % sectors) false then rest else ok e

-- The arrays that the loop of `log_store_init` fills.
pub record Found : Type 0 where
  pub erased : List Bool
  pub n_erased : ℕ

-- `if (log_record_decode(...)) (*n_read)++`, on the records read so far.
unfoldable pub push_decoded : List LogRecord → Option LogRecord → List LogRecord
push_decoded out none = out
push_decoded out (some rec) = out ++ (rec ∷ [])

-- A store in the course of `log_store_read`, with the records read so far, `out[0..*n_read)`.
pub record Reading (Dev : Type 0) : Type 0 where
  pub out : List LogRecord
  pub store : Store Dev

module _ (F : Flash) where
  open F use {Dev}

  -- A flash operation on the flash of a store.
  abbrev pub on_flash : {A : Type 0} → M Dev A → M (Store Dev) A
  on_flash m s = let (r, d) = m s.dev in (r, record s { dev = d })

  unfoldable pub read_slot : ℕ → M (Store Dev) (List ℕ)
  read_slot i = on_flash (F.read (u32 (i * 16)) 16)

  unfoldable pub sector_is_erased : ℕ → M (Store Dev) Bool
  sector_is_erased sector = do
    buf ← read_slot (u32 (sector * slots_per_sector))
    pure (is_empty buf)

  -- The tail moves past the sector if the oldest record lived there.
  unfoldable pub move_tail : ℕ → M (Store Dev) (Unit {0})
  move_tail sector s =
      let first = u32 (sector * slots_per_sector) in
      let last = u32 (first + slots_per_sector) in
      if ltb 0 (count s) && (leb first s.tail && ltb s.tail last)
      then (ok tt, record s { tail = last % total_slots })
      else (ok tt, s)

  unfoldable pub erase_sector : ℕ → M (Store Dev) (Unit {0})
  erase_sector sector = do on_flash (F.erase_sector sector); move_tail sector

  unfoldable pub scan_sectors : ℕ → ℕ → Found → M (Store Dev) Found
  scan_sectors zero i found = pure found
  scan_sectors (suc left) i found = do
    erased ← sector_is_erased i
    scan_sectors left (i + 1) (record {
      erased = found.erased ++ (erased ∷ []);
      n_erased = if erased then found.n_erased + 1 else found.n_erased;
    })

  -- The search for the first empty slot of the head sector.
  unfoldable pub scan_head : ℕ → ℕ → M (Store Dev) (Unit {0})
  scan_head zero i = pure tt
  scan_head (suc left) i = do
    buf ← read_slot i
    let rest = scan_head left (i + 1)
    if is_empty buf then (λ s. (ok tt, record s { head = i })) else rest

  -- `log_store_init` from the search for the run of erased sectors on.
  unfoldable pub recover : List Bool → M (Store Dev) (Unit {0})
  recover erased = do
    let run_start = find_start erased sectors 0
    run_end ← λ s. (find_end erased sectors run_start, s)
    s ← get
    put (record s {
      head = run_start * slots_per_sector % total_slots;
      tail = (run_end + 1) % sectors * slots_per_sector;
    })
    scan_head slots_per_sector ((run_start + sectors - 1) % sectors * slots_per_sector)

  unfoldable pub init : M (Store Dev) (Unit {0})
  init = do
    s ← get
    put (record s { head = 0; tail = 0 })
    found ← scan_sectors sectors 0 (record { erased = []; n_erased = 0 })
    if found.n_erased == sectors
        then pure tt
        else if found.n_erased == 0
        then fail err_corrupt
        else recover found.erased

  -- What `log_store_append` does at the start of a sector.
  unfoldable pub prepare_sector : ℕ → M (Store Dev) (Unit {0})
  prepare_sector sector = do
    erased ← sector_is_erased sector
    if erased then pure tt else erase_sector sector
    erase_sector ((sector + 1) % sectors)

  -- The write at the head, and the step of the head.
  unfoldable pub write_head : LogRecord → M (Store Dev) (Unit {0})
  write_head rec = do
    s ← get
    on_flash (F.write (u32 (s.head * 16)) (encode rec))
    λ t. (ok tt, record t { head = (t.head + 1) % total_slots })

  unfoldable pub append : LogRecord → M (Store Dev) (Unit {0})
  append rec = do
    s ← get
    if s.head % slots_per_sector == 0 then prepare_sector (s.head / slots_per_sector) else pure tt
    write_head rec

  -- One round of the loop of `log_store_read`.
  unfoldable pub read_one : ℕ → ℕ → M (Reading Dev) (Unit {0})
  read_one offset i r =
      let (found, t) = read_slot (u32 (r.store.tail + offset + i) % total_slots) r.store in
      continue found (λ buf r'. (ok tt, record r' { out = push_decoded r'.out (decode buf) }))
        (record r { store = t })

  -- The loop at index `i`, with `left` rounds below `max`; `n` is the count.
  unfoldable pub read_loop : ℕ → ℕ → ℕ → ℕ → M (Reading Dev) (Unit {0})
  read_loop offset n zero i = pure tt
  read_loop offset n (suc left) i =
      let round = read_one offset i >> read_loop offset n left (i + 1) in
      if ltb (u32 (offset + i)) n then round else pure tt

  unfoldable pub read : ℕ → ℕ → Store Dev → Result (Unit {0}) × Reading Dev
  read offset max s = read_loop offset (count s) max 0 (record { out = []; store = s })

  unfoldable pub clear_loop : ℕ → ℕ → M (Store Dev) (Unit {0})
  clear_loop zero i = pure tt
  clear_loop (suc left) i = do on_flash (F.erase_sector i); clear_loop left (i + 1)

  unfoldable pub clear : M (Store Dev) (Unit {0})
  clear = do clear_loop sectors 0; s ← get; put (record s { head = 0; tail = 0 })
