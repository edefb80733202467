-- ===== src/LogStore/Read.antt =====
-- `log_store_read` against the abstract log.
use s3_bme.Base.{
  ℕ, ◌-◌, ◌^◌, ◌<◌, ◌≡◌, ◌∙◌, ap, arith, List, [], ◌∷◌, some, length, get_elem?, take, drop, min,
}
use s3_bme.Base.Result.{Ensures, weaken_of}
use s3_bme.LogRecord.{LogRecord, IsRecord, encode}
use s3_bme.LogRecord.Codec.{decode-encode}
use s3_bme.Flash.{Flash, IsNor}
use s3_bme.Flash.Slots.{slot}
use s3_bme.LogStore.{Store, read, push_decoded}
use s3_bme.LogStore.Layout.{behind, Represents, Represents-Occupies}
use s3_bme.LogStore.Prims.{mem, Same}
use s3_bme.LogStore.Prepare.{Holds}
use s3_bme.LogStore.ReadSlots.{record_in, decoded, read-decodes}
use s3_bme.LogStore.ReadLog.{decoded-log}

-- A slot with the encoding of a record holds that record.
pub record_in-encode :
    (buf : List ℕ) (r : LogRecord) → buf ≡ encode r → IsRecord r → record_in buf ≡ r ∷ []
unfolding record_in push_decoded
record_in-encode buf r stored v = rw (stored, decode-encode r v)

pub live_record :
    (f : ℕ → ℕ) (head tail : ℕ) (log : List LogRecord)
    → Represents f head tail log
    → (k : ℕ) (r : LogRecord) → get_elem? log k ≡ some r
    → record_in (slot f (behind tail k)) ≡ r ∷ []
live_record f head tail log rep k r e =
    let (stored, v) = rep.live k r e in record_in-encode (slot f (behind tail k)) r stored v

module _ (F : Flash) {Fails : Type 0} (N : IsNor F Fails) (log : List LogRecord) (offset : ℕ) where
  -- `log_store_read` returns the records of the log from `offset` on, `max` of them at most, for
  -- every 32-bit offset; the store and the flash are as before. If the flash fails, it has read a
  -- part of those records.
  pub read-records :
      (max : ℕ) (s : Store F.Dev)
      → Holds F N s log
      → offset < 2 ^ 32
      → Ensures
          (λ u r. Same F N s r.store × (r.out ≡ take max (drop offset log)))
          (λ c r. Fails × Same F N s r.store × ((n : ℕ) × (r.out ≡ take n (drop offset log))))
          (read F offset max s)
  read-records max s rep h =
      weaken_of _ _ _ _ (read F offset max s).0 (read F offset max s).1
        (read-decodes F N s (length log) offset max (Represents-Occupies log rep) h)
        (λ u r (same, out). (same, out ∙ in_log max))
        (λ c r (fails, same, (n, few, out)).
          let part : n ≡ min n (length log - offset) = omega (arith, few) in
          (fails, same, (n, out ∙ (ap (decoded (mem F N s) s.tail offset) part ∙ in_log n))))
    where
      in_log :
          (n : ℕ)
          → decoded (mem F N s) s.tail offset (min n (length log - offset))
            ≡ take n (drop offset log)
      in_log n =
          decoded-log (mem F N s) s.tail log (live_record (mem F N s) s.head s.tail log rep) offset
            n
