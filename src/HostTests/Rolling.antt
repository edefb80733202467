-- ===== src/HostTests/Rolling.antt =====
-- The tests of Filling.antt, by what is known of the functions of the log store.
use s3_bme.Base.{
  ℕ, zero, suc, ◌+◌, ◌-◌, ◌%◌, ◌^◌, ◌≤◌, ◌<◌, ◌≡◌, ◌⊎◌, inl, inr, refl, sym, ◌∙◌, ap, arith, true,
  ==_refl, List, [], ◌∷◌, ◌++◌, length, take, drop, dec_lt,
}
use s3_bme.Base.Result.{Result, ok, err, hang, is_done, EnsuresOf, weaken, weaken_of}
use s3_bme.LogRecord.{LogRecord, IsRecord}
use s3_bme.Flash.{Flash, IsNor}
use s3_bme.Flash.Slots.{IsFree}
use s3_bme.LogStore.{Store, count, capacity, total_slots, slots_per_sector, init, append, read}
use s3_bme.LogStore.Layout.{Represents-Occupies, push}
use s3_bme.LogStore.Prims.{mem}
use s3_bme.LogStore.Prepare.{Holds, count_lem}
use s3_bme.LogStore.Append.{append-steps}
use s3_bme.LogStore.Read.{read-records}
use s3_bme.LogStore.Clear.{blank-Represents}
use s3_bme.LogStore.Recovery.{Restored-Holds}
use s3_bme.LogStore.Restart.{init-Restored}
use s3_bme.LogStore.EraseLoss.{make_room_full, make_room_short}
use s3_bme.HostTests.{all_of}
use s3_bme.HostTests.Filling.{
  unset, set_up, again, record_at, append_n, records, reads, oldest_ts, filling_tests,
  test_read_with_offset_and_limit, test_capacity_is_fixed_and_rolls_by_sector,
  test_recovery_before_wrap, test_recovery_when_head_sector_is_full, test_recovery_after_wrap,
}

-- The records that `append_n` makes, from a time stamp on.
unfoldable records_from : ℕ → ℕ → List LogRecord
records_from first zero = []
records_from first (suc n) = record_at first ∷ records_from (first + 1) n

length-records_from : (first n : ℕ) → length (records_from first n) ≡ n
unfolding records_from
length-records_from first zero = refl
length-records_from first (suc n) = omega (arith, length-records_from (first + 1) n)

records_from-zero : (first : ℕ) → records_from first 0 ≡ []
unfolding records_from
records_from-zero first = refl

records_from-suc :
    (first n : ℕ) → records_from first (suc n) ≡ record_at first ∷ records_from (first + 1) n
unfolding records_from
records_from-suc first n = refl

append-records_from :
    (first n : ℕ)
    → records_from first n ++ (record_at (first + n) ∷ []) ≡ records_from first (n + 1)
unfolding records_from
append-records_from first zero = let e : first + 0 ≡ first = omega arith in rw e refl
append-records_from first (suc n) =
    let (e, g) : (first + suc n ≡ first + 1 + n) × (suc n + 1 ≡ suc (n + 1)) = omega arith in
    rw (e, g) (ap (λ rs. record_at first ∷ rs) (append-records_from (first + 1) n))

drop-records_from :
    (k first n : ℕ) → k ≤ n → drop k (records_from first n) ≡ records_from (first + k) (n - k)
unfolding records_from
drop-records_from zero first n h =
    let (e, g) : (first + 0 ≡ first) × (n - 0 ≡ n) = omega arith in rw (e, g) refl
drop-records_from (suc k) first zero h = absurd (omega arith)
drop-records_from (suc k) first (suc n) h =
    let (e, g) : (first + suc k ≡ first + 1 + k) × (suc n - suc k ≡ n - k) = omega arith in
    rw (e, g) (drop-records_from k (first + 1) n (omega arith))

-- The log behind appends from the time stamp 0 on: `gone` records have been dropped with their
-- sectors, and `n` are there.
record Rolled (gone n : ℕ) : Type 0 where
  by_sector : gone % slots_per_sector ≡ 0
  fits : n ≤ capacity
  filled : (gone ≡ 0) ⊎ (capacity ≤ n + 255)

record IsRolled (total : ℕ) (log : List LogRecord) : Type 0 where
  gone : ℕ
  n : ℕ
  rolled : Rolled gone n
  all : gone + n ≡ total
  records : log ≡ records_from gone n

push-IsRolled :
    (total : ℕ) (log : List LogRecord)
    → IsRolled total log
    → IsRolled (total + 1) (push (record_at total) log)
unfolding push
push-IsRolled total log r =
    rw (r.records, ← r.all)
      (elim (dec_lt r.n capacity) [
        | yes short ↦
            let len = length-records_from r.gone r.n in
            rw (make_room_short (records_from r.gone r.n) (omega arith)) (record {
              gone = r.gone;
              n = r.n + 1;
              rolled = record {
                by_sector = r.rolled.by_sector;
                fits = omega arith;
                filled = elim r.rolled.filled [ inl e ↦ inl e | inr h ↦ inr (omega arith) ];
              };
              all = omega arith;
              records = append-records_from r.gone r.n;
            })
        | no long ↦
            let len = length-records_from r.gone r.n in
            let full : length (records_from r.gone r.n) ≡ capacity =
              omega (arith, len, r.rolled.fits) in
            let last : r.gone + r.n ≡ r.gone + 256 + (r.n - 256) = omega (arith, len, full) in
            rw
              (
                make_room_full (records_from r.gone r.n) full,
                drop-records_from 256 r.gone r.n (omega (arith, len, full)),
                last,
              )
              (record {
                gone = r.gone + 256;
                n = r.n - 256 + 1;
                rolled = record {
                  by_sector = omega (arith, r.rolled.by_sector);
                  fits = omega (arith, r.rolled.fits);
                  filled = inr (omega (arith, len, full));
                };
                all = omega arith;
                records = append-records_from (r.gone + 256) (r.n - 256);
              })
      ])

-- A call that cannot fail returns.
returned :
    {S A : Type 0} (P : A → S → Type 0) (r : Result A) (s : S)
    → EnsuresOf P (λ c t. ⊥) r s
    → (is_done r ≡ true) × ((a : A) × P a s)
returned P (ok a) s h = (refl, (a, h))
returned P (err c) s h = absurd h
returned P hang s h = absurd h

count_of : {Dev : Type 0} (s t : Store Dev) → t.head ≡ s.head → t.tail ≡ s.tail → count t ≡ count s
unfolding count
count_of s t h e = rw (h, e) refl

module _ (F : Flash) (N : IsNor F ⊥) where
  -- A store behind `total` appends.
  record Filled (total : ℕ) (s : Store F.Dev) : Type 0 where
    log : List LogRecord
    holds : Holds F N s log
    head_at : s.head ≡ total % total_slots
    rolled : IsRolled total log

  append_n-Filled :
      (n total : ℕ) (s : Store F.Dev)
      → total + n ≤ 2 ^ 32
      → Filled total s
      → ((append_n F n total s).0 ≡ true) × Filled (total + n) (append_n F n total s).1
  unfolding append_n
  append_n-Filled zero total s h fill = let e : total + 0 ≡ total = omega arith in (refl, rw e fill)
  append_n-Filled (suc n) total s h fill =
      let rec : IsRecord (record_at total) = omega arith in
      let (done, (_, (heads, held))) =
        returned _ (append F (record_at total) s).0 (append F (record_at total) s).1 (
          weaken _ _ _ _ (append F (record_at total)) s
            (append-steps F N s fill.log (record_at total) fill.holds rec) (λ u t p. p)
            (λ c t p. p.failed)) in
      let (rest, filled) =
        append_n-Filled n (total + 1) (append F (record_at total) s).1 (omega arith) (record {
          log = push (record_at total) fill.log;
          holds = held;
          head_at = omega (arith, heads, fill.head_at);
          rolled = push-IsRolled total fill.log fill.rolled;
        }) in
      let e : total + suc n ≡ total + 1 + n = omega arith in (rw (done, rest) refl, rw e filled)

  module _ (d : F.Dev) (erased : (i : ℕ) → i < total_slots → IsFree (N.byte d) i) where
    set_up-Filled : Filled 0 (set_up F d)
    set_up-Filled =
        let blank = blank-Represents (N.byte d) 0 (omega arith) refl erased in
        let (done, (_, restored)) =
          returned _ (init F (unset d)).0 (init F (unset d)).1
            (init-Restored F N (unset d) 0 0 0 (Represents-Occupies [] blank)) in
        record {
          log = [];
          holds = Restored-Holds F N (unset d) (set_up F d) 0 0 [] blank restored;
          head_at = elim restored.positions [ inl (h, _) ↦ h | inr (_, h, _) ↦ h ];
          rolled = record {
            gone = 0;
            n = 0;
            rolled = record { by_sector = refl; fits = omega arith; filled = inl refl };
            all = refl;
            records = sym (records_from-zero 0);
          };
        }

  read-Filled :
      (offset max total : ℕ) (s : Store F.Dev) (fill : Filled total s)
      → offset ≤ fill.rolled.n
      → (reads F offset max s ≡ true)
        × (records F offset max s
            ≡ take max (records_from (fill.rolled.gone + offset) (fill.rolled.n - offset)))
  read-Filled offset max total s fill h =
      let small : offset < 2 ^ 32 = omega (arith, fill.rolled.rolled.fits) in
      let (done, (_, (_, out))) = returned _ (read F offset max s).0 (read F offset max s).1 (
        weaken_of _ _ _ _ (read F offset max s).0 (read F offset max s).1
          (read-records F N fill.log offset max s fill.holds small) (λ u r p. p) (λ c r p. p.0)) in
      (
        done,
        out
            ∙ ap (take max) (
                ap (drop offset) fill.rolled.records
                ∙ drop-records_from offset fill.rolled.gone fill.rolled.n h),
      )

  oldest_ts-Filled :
      (total : ℕ) (s : Store F.Dev) (fill : Filled total s) (t : ℕ)
      → fill.rolled.gone ≡ t
      → 0 < fill.rolled.n
      → oldest_ts F s t ≡ true
  oldest_ts-Filled total s fill t e h =
      let (done, out) = read-Filled 0 1 total s fill (omega arith) in
      let (first, more) : (fill.rolled.gone + 0 ≡ t)
          × (fill.rolled.n - 0 ≡ suc (fill.rolled.n - 1)) =
        omega (arith, e) in
      rw (done, out, first, more, records_from-suc t (fill.rolled.n - 1)) (==_refl t)

  count-Filled : (total : ℕ) (s : Store F.Dev) (fill : Filled total s) → count s ≡ fill.rolled.n
  count-Filled total s fill =
      count_lem (mem F N s) s fill.log fill.holds
      ∙ (ap length fill.rolled.records ∙ length-records_from fill.rolled.gone fill.rolled.n)

  -- A second `log_store_init` finds the positions again.
  again-Filled :
      (total : ℕ) (s : Store F.Dev) (fill : Filled total s)
      → 0 < fill.rolled.n
      → (is_done (again F s).0 ≡ true)
        × ((again F s).1.head ≡ s.head)
        × ((again F s).1.tail ≡ s.tail)
  again-Filled total s fill h =
      let (done, (_, restored)) = returned _ (again F s).0 (again F s).1 (
        init-Restored F N (unset s.dev) s.head s.tail (length fill.log)
          (Represents-Occupies fill.log fill.holds)) in
      let (heads, tails) : ((again F s).1.head ≡ s.head) × ((again F s).1.tail ≡ s.tail) =
        elim restored.positions [
          | inl same ↦ same
          | inr (none, _, _) ↦ absurd (
              omega (
                arith,
                none,
                ap length fill.rolled.records,
                length-records_from fill.rolled.gone fill.rolled.n,
              ))
        ] in
      (done, heads, tails)

  module _ (d : F.Dev) (erased : (i : ℕ) → i < total_slots → IsFree (N.byte d) i) where
    -- `n` appends from the time stamp 0 on.
    abbrev appended : ℕ → Store F.Dev
    appended n = (append_n F n 0 (set_up F d)).1

    appended-Filled :
        (n : ℕ) → n < 2 ^ 32 → ((append_n F n 0 (set_up F d)).0 ≡ true) × Filled n (appended n)
    appended-Filled n h =
        let (done, fill) =
          append_n-Filled n 0 (set_up F d) (omega arith) (set_up-Filled d erased) in
        let e : 0 + n ≡ n = omega arith in (done, rw e at fill)

    recovery_before_wrap : test_recovery_before_wrap F d ≡ true
    recovery_before_wrap =
        let s : Store F.Dev = appended 1000 in
        let (done, fill) = appended-Filled 1000 (omega arith) in
        let n : fill.rolled.n ≡ 1000 = omega (arith, fill.rolled.all, fill.rolled.rolled.filled) in
        let (found, heads, tails) = again-Filled 1000 s fill (omega (arith, n)) in
        rw
          (
            done,
            found,
            heads,
            tails,
            count_of s (again F s).1 heads tails,
            count-Filled 1000 s fill,
            n,
            ==_refl s.head,
            ==_refl s.tail,
          )
          refl

    recovery_after_wrap : test_recovery_after_wrap F d ≡ true
    recovery_after_wrap =
        let s : Store F.Dev = appended 40000 in
        let (done, fill) = appended-Filled 40000 (omega arith) in
        let some_data : 0 < fill.rolled.n =
          omega (arith, fill.rolled.all, fill.rolled.rolled.filled) in
        let (found, heads, tails) = again-Filled 40000 s fill some_data in
        rw
          (
            done,
            found,
            heads,
            tails,
            count_of s (again F s).1 heads tails,
            ==_refl s.head,
            ==_refl s.tail,
            ==_refl (count s),
          )
          refl

    read_with_offset_and_limit : test_read_with_offset_and_limit F d ≡ true
    unfolding records_from
    read_with_offset_and_limit =
        let s : Store F.Dev = appended 300 in
        let (done, fill) = appended-Filled 300 (omega arith) in
        let (gone, n) : (fill.rolled.gone ≡ 0) × (fill.rolled.n ≡ 300) =
          omega (arith, fill.rolled.all, fill.rolled.rolled.filled) in
        let (read, out) = read-Filled 297 5 300 s fill (omega (arith, n)) in
        let (read', out') = read-Filled 300 5 300 s fill (omega (arith, n)) in
        rw (done, read, out, read', out', gone, n) refl

    rolls_by_sector : test_capacity_is_fixed_and_rolls_by_sector F d ≡ true
    rolls_by_sector =
        let s1 : Store F.Dev = appended capacity in
        let (done1, f1) = appended-Filled capacity (omega arith) in
        let s2 : Store F.Dev = (append_n F 1 capacity s1).1 in
        let (done2, f2) = append_n-Filled 1 capacity s1 (omega arith) f1 in
        let s3 : Store F.Dev = (append_n F 255 (capacity + 1) s2).1 in
        let (done3, f3) = append_n-Filled 255 (capacity + 1) s2 (omega arith) f2 in
        let s4 : Store F.Dev = (append_n F 1 (capacity + 256) s3).1 in
        let (done4, f4) = append_n-Filled 1 (capacity + 256) s3 (omega arith) f3 in
        let (gone1, n1) : (f1.rolled.gone ≡ 0) × (f1.rolled.n ≡ capacity) = omega (
          arith, f1.rolled.all, f1.rolled.rolled.filled, f1.rolled.rolled.fits,
          f1.rolled.rolled.by_sector,
        ) in
        let (gone2, n2) : (f2.rolled.gone ≡ 256) × (f2.rolled.n ≡ 32257) = omega (
          arith, f2.rolled.all, f2.rolled.rolled.filled, f2.rolled.rolled.fits,
          f2.rolled.rolled.by_sector,
        ) in
        let (gone3, n3) : (f3.rolled.gone ≡ 256) × (f3.rolled.n ≡ capacity) = omega (
          arith, f3.rolled.all, f3.rolled.rolled.filled, f3.rolled.rolled.fits,
          f3.rolled.rolled.by_sector,
        ) in
        let (gone4, n4) : (f4.rolled.gone ≡ 512) × (f4.rolled.n ≡ 32257) = omega (
          arith, f4.rolled.all, f4.rolled.rolled.filled, f4.rolled.rolled.fits,
          f4.rolled.rolled.by_sector,
        ) in
        rw
          (
            done1,
            count-Filled capacity s1 f1,
            n1,
            oldest_ts-Filled capacity s1 f1 0 gone1 (omega (arith, n1)),
            done2,
            count-Filled (capacity + 1) s2 f2,
            n2,
            oldest_ts-Filled (capacity + 1) s2 f2 256 gone2 (omega (arith, n2)),
            done3,
            count-Filled (capacity + 1 + 255) s3 f3,
            n3,
            done4,
            oldest_ts-Filled (capacity + 256 + 1) s4 f4 512 gone4 (omega (arith, n4)),
            count-Filled (capacity + 256 + 1) s4 f4,
            n4,
          )
          refl

    recovery_when_head_sector_is_full : test_recovery_when_head_sector_is_full F d ≡ true
    recovery_when_head_sector_is_full =
        let s : Store F.Dev = appended 512 in
        let (done, fill) = appended-Filled 512 (omega arith) in
        let n : fill.rolled.n ≡ 512 = omega (arith, fill.rolled.all, fill.rolled.rolled.filled) in
        let len : length fill.log ≡ 512 =
          ap length fill.rolled.records
          ∙ (length-records_from fill.rolled.gone fill.rolled.n ∙ n) in
        let head : s.head ≡ 512 = fill.head_at in
        let tail : s.tail ≡ 0 =
          omega (arith, len, head, fill.holds.head_at, fill.holds.aligned, fill.holds.tail_in) in
        let (found, heads, tails) = again-Filled 512 s fill (omega (arith, n)) in
        rw (done, found, heads, tails, head, tail) refl

    -- On an erased NOR flash that does not fail, these tests pass.
    pub filling_suite : all_of (filling_tests F d) ≡ true
    filling_suite =
        rw
          (
            read_with_offset_and_limit, rolls_by_sector, recovery_before_wrap, recovery_after_wrap,
            recovery_when_head_sector_is_full,
          )
          refl
