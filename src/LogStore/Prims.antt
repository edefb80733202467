-- ===== src/LogStore/Prims.antt =====
-- The flash accesses of the store: what they return and what they leave alone.
use s3_bme.Base.{ℕ, ◌*◌, ◌/◌, ◌<◌, ◌≡◌, ◌≢◌, ◌∙◌, ap, refl, arith, u32}
use s3_bme.Base.Int.{ℤ}
use s3_bme.Base.Result.{Result, ok, err, hang, M, Ensures, EnsuresOf, bind-Ensures, weaken}
use s3_bme.LogRecord.{LogRecord, IsRecord, encode, is_empty}
use s3_bme.LogRecord.Codec.{length-encode, encode-IsBytes}
use s3_bme.Flash.{Flash, IsNor, sectors}
use s3_bme.Flash.Slots.{slot, IsFree, slot-Erased, slot-other_sector, slot-Programmed, slot-beside}
use s3_bme.LogStore.{Store, on_flash, read_slot, sector_is_erased, slots_per_sector, total_slots}

module _ (F : Flash) {Fails : Type 0} (N : IsNor F Fails) where
  abbrev pub mem : Store F.Dev → ℕ → ℕ
  mem s = N.byte s.dev

  -- The positions and the flash content are as before.
  pub record Same (s t : Store F.Dev) : Type 0 where
    pub same_head : t.head ≡ s.head
    pub same_tail : t.tail ≡ s.tail
    pub same_mem : mem t ≡ mem s

  pub Same-refl : (s : Store F.Dev) → Same s s
  Same-refl s = record { same_head = refl; same_tail = refl; same_mem = refl }

  pub Same-trans : {s t u : Store F.Dev} → Same s t → Same t u → Same s u
  Same-trans p q = record {
    same_head = q.same_head ∙ p.same_head;
    same_tail = q.same_tail ∙ p.same_tail;
    same_mem = q.same_mem ∙ p.same_mem;
  }

  lift_of :
      {A : Type 0} (Q : A → Store F.Dev → Type 0) (E : ℤ → Store F.Dev → Type 0) (r : Result A)
      (d : F.Dev) (s : Store F.Dev)
      → EnsuresOf (λ a d'. Q a (record s { dev = d' })) (λ c d'. E c (record s { dev = d' })) r d
      → EnsuresOf Q E r (record s { dev = d })
  lift_of Q E (ok a) d s h = h
  lift_of Q E (err c) d s h = h
  lift_of Q E hang d s h = h

  -- An operation on the flash of a store, from what it does to the flash.
  pub on_flash-Ensures :
      {A : Type 0} (Q : A → Store F.Dev → Type 0) (E : ℤ → Store F.Dev → Type 0) (m : M F.Dev A)
      (s : Store F.Dev)
      → Ensures (λ a d. Q a (record s { dev = d })) (λ c d. E c (record s { dev = d })) (m s.dev)
      → Ensures Q E (on_flash F m s)
  on_flash-Ensures Q E m s h = lift_of Q E (m s.dev).0 (m s.dev).1 s h

  pub read_slot-Ensures :
      (i : ℕ) (s : Store F.Dev)
      → i < total_slots
      → Ensures
          (λ buf t. (buf ≡ slot (mem s) i) × Same s t)
          (λ c t. Fails × Same s t)
          (read_slot F i s)
  unfolding read_slot slot
  read_slot-Ensures i s h =
      let offset : u32 (i * 16) ≡ i * 16 = omega arith in
      on_flash-Ensures _ _ (F.read (u32 (i * 16)) 16) s (
        weaken _ _ _ _ (F.read (u32 (i * 16)) 16) s.dev
          (N.read_lem (u32 (i * 16)) 16 s.dev (omega arith))
          (λ bs d (e, same).
            (rw (← offset) e, record { same_head = refl; same_tail = refl; same_mem = same }))
          (λ c d (f, same). (f, record { same_head = refl; same_tail = refl; same_mem = same })))

  pub sector_is_erased-Ensures :
      (sector : ℕ) (s : Store F.Dev)
      → sector < sectors
      → Ensures
          (λ e t. (e ≡ is_empty (slot (mem s) (sector * slots_per_sector))) × Same s t)
          (λ c t. Fails × Same s t)
          (sector_is_erased F sector s)
  unfolding sector_is_erased
  sector_is_erased-Ensures sector s h =
      let index : u32 (sector * slots_per_sector) ≡ sector * slots_per_sector = omega arith in
      bind-Ensures _ _ _ (read_slot F (u32 (sector * slots_per_sector))) _ s
        (read_slot-Ensures (u32 (sector * slots_per_sector)) s (omega arith))
        (λ buf t (e, same). (rw (← index) (ap is_empty e), same))

  -- After the erase callback: the sector reads as erased and the other slots as before.
  pub record SectorErased (sector : ℕ) (s t : Store F.Dev) : Type 0 where
    pub same_head : t.head ≡ s.head
    pub same_tail : t.tail ≡ s.tail
    pub inside : (i : ℕ) → i / slots_per_sector ≡ sector → IsFree (mem t) i
    pub outside : (i : ℕ) → i / slots_per_sector ≢ sector → slot (mem t) i ≡ slot (mem s) i

  -- After an error: the slots of other sectors, and the positions, are as before.
  pub record SectorTouched (sector : ℕ) (s t : Store F.Dev) : Type 0 where
    pub same_head : t.head ≡ s.head
    pub same_tail : t.tail ≡ s.tail
    pub outside : (i : ℕ) → i / slots_per_sector ≢ sector → slot (mem t) i ≡ slot (mem s) i

  pub erase_flash-Ensures :
      (sector : ℕ) (s : Store F.Dev)
      → sector < sectors
      → Ensures
          (λ u t. SectorErased sector s t)
          (λ c t. Fails × SectorTouched sector s t)
          (on_flash F (F.erase_sector sector) s)
  erase_flash-Ensures sector s h = on_flash-Ensures _ _ (F.erase_sector sector) s (
      weaken _ _ _ _ (F.erase_sector sector) s.dev (N.erase_lem sector s.dev h)
        (λ u d (e, same). record {
          same_head = refl;
          same_tail = refl;
          inside = λ i p. slot-Erased (mem s) (N.byte d) sector i e p;
          outside = λ i p. slot-other_sector (mem s) (N.byte d) sector i same p;
        })
        (λ c d (f, same). (
          f,
          record {
            same_head = refl;
            same_tail = refl;
            outside = λ i p. slot-other_sector (mem s) (N.byte d) sector i same p;
          },
        )))

  -- After a record has been programmed into the free slot `i`.
  pub record SlotWritten (i : ℕ) (rec : LogRecord) (s t : Store F.Dev) : Type 0 where
    pub same_head : t.head ≡ s.head
    pub same_tail : t.tail ≡ s.tail
    pub inside : slot (mem t) i ≡ encode rec
    pub outside : (j : ℕ) → i ≢ j → slot (mem t) j ≡ slot (mem s) j

  pub record SlotTouched (i : ℕ) (s t : Store F.Dev) : Type 0 where
    pub same_head : t.head ≡ s.head
    pub same_tail : t.tail ≡ s.tail
    pub outside : (j : ℕ) → i ≢ j → slot (mem t) j ≡ slot (mem s) j

  pub write_flash-Ensures :
      (i : ℕ) (rec : LogRecord) (s : Store F.Dev)
      → i < total_slots
      → IsRecord rec
      → IsFree (mem s) i
      → Ensures
          (λ u t. SlotWritten i rec s t)
          (λ c t. Fails × SlotTouched i s t)
          (on_flash F (F.write (u32 (i * 16)) (encode rec)) s)
  write_flash-Ensures i rec s h v e =
      let offset : u32 (i * 16) ≡ i * 16 = omega arith in
      on_flash-Ensures _ _ (F.write (u32 (i * 16)) (encode rec)) s (
        weaken _ _ _ _ (F.write (u32 (i * 16)) (encode rec)) s.dev
          (N.write_lem (u32 (i * 16)) (encode rec) s.dev (omega (arith, length-encode rec)))
          (λ u d (p, same). record {
            same_head = refl;
            same_tail = refl;
            inside =
                slot-Programmed (mem s) (N.byte d) i (encode rec) (encode-IsBytes rec v)
                  (length-encode rec) e (rw offset at p);
            outside = λ j ne.
                slot-beside (mem s) (N.byte d) i j (rw (offset, length-encode rec) at same) ne;
          })
          (λ c d (f, same). (
            f,
            record {
              same_head = refl;
              same_tail = refl;
              outside = λ j ne.
                  slot-beside (mem s) (N.byte d) i j (rw (offset, length-encode rec) at same) ne;
            },
          )))
