-- ===== src/Web/Fits.antt =====
-- The response buffer of the web server is large enough.
use mathlib.Core.List.{append-nil, append_assoc}
use s3_bme.Base.{
  ℕ, ◌+◌, ◌≤◌, ◌≡◌, ◌∙◌, arith, false, List, [], ◌∷◌, ◌++◌, length, length-append, concat,
}
use s3_bme.Protocol.Rows.{size}
use s3_bme.Web.{Buffer, buffer_write, write_all, response_max}

buffer_write_fits :
    (t : List ℕ) (b : Buffer)
    → b.overflow ≡ false
    → length b.text + length t ≤ response_max
    → buffer_write t b ≡ record b { text = b.text ++ t }
unfolding buffer_write
buffer_write_fits t b e h = rw e (ground arith)

pub write_all_fits :
    (texts : List (List ℕ)) (b : Buffer)
    → b.overflow ≡ false
    → length b.text + size texts ≤ response_max
    → write_all texts b ≡ record b { text = b.text ++ concat texts }
unfolding write_all
write_all_fits [] b e h = rw append-nil
write_all_fits (t ∷ ts) b e h = rw (buffer_write_fits t b e (omega (arith, h))) (
    write_all_fits ts (record b { text = b.text ++ t }) e (omega (arith, length-append b.text t, h))
    ∙ rw append_assoc)
