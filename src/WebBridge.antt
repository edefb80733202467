-- ===== src/WebBridge.antt =====
-- firmware/main/web-bridge.c: the translation of an HTTP query into a line of the protocol.
pub mod Request
pub mod ReadBack
mod Tests
use s3_bme.Base.{
  ℕ, ◌+◌, ◌-◌, ltb, leb, ◌==◌, if◌then◌else◌, ◌&&◌, ◌||◌, not, Bool, true, false, Option, none,
  some, List, [], ◌∷◌, ◌++◌, length, codes, concat, text_eq, is_digit, all,
}
use s3_bme.Base.Maybe.{◌>>=◌, ◌>>◌, guard}

abbrev pub is_cmd_char : ℕ → Bool
is_cmd_char c = (leb b'a' c && leb c b'z') || c == b'_'

-- `all`, which refuses the empty text.
unfoldable pub all_of : (ℕ → Bool) → List ℕ → Bool
all_of ok [] = false
all_of ok (c ∷ s) = all ok (c ∷ s)

unfoldable pub allowed : List ℕ → List ℕ → Bool
unfolding text_eq
allowed method cmd =
    if text_eq method (codes "GET")
    then (text_eq cmd (codes "ping")
        || (text_eq cmd (codes "read_now")
            || (text_eq cmd (codes "get_status") || text_eq cmd (codes "get_log"))))
    else if text_eq method (codes "POST")
    then text_eq cmd (codes "set_time")
    else false

-- The four buffers; a parameter that is given twice is overwritten.
pub record Params : Type 0 where
  pub cmd : List ℕ
  pub offset : List ℕ
  pub limit : List ℕ
  pub epoch : List ℕ

abbrev pub no_params : Params
no_params = record { cmd = []; offset = []; limit = []; epoch = [] }

-- The parts of the query that the loop walks over, cut at each `&`.
abbrev pub cons_first : ℕ → List (List ℕ) → List (List ℕ)
cons_first c [] = (c ∷ []) ∷ []
cons_first c (x ∷ xs) = (c ∷ x) ∷ xs

unfoldable pub segments : List ℕ → List (List ℕ)
segments [] = []
segments (c ∷ s) = if c == b'&' then [] ∷ segments s else cons_first c (segments s)

-- A part before and behind its first `=`, if it has one.
unfoldable pub split_eq : List ℕ → Option (List ℕ × List ℕ)
split_eq [] = none
split_eq (c ∷ s) =
    if c == b'=' then some ([], s) else elim (split_eq s) as (λ _. Option (List ℕ × List ℕ)) [
      | none ↦ none
      | some (key, value) ↦ some (c ∷ key, value)
    ]

-- `memcpy(dst, eq + 1, vlen)` to the buffer of the key, if there is one.
unfoldable pub store_param : List ℕ → List ℕ → Params → Option Params
unfolding text_eq
store_param key value p =
    if text_eq key (codes "cmd")
    then some (record p { cmd = value })
    else if text_eq key (codes "offset")
    then some (record p { offset = value })
    else if text_eq key (codes "limit")
    then some (record p { limit = value })
    else if text_eq key (codes "epoch")
    then some (record p { epoch = value })
    else none

-- MAX_VALUE
abbrev pub max_value : ℕ
max_value = 24

unfoldable pub parse_segment : List ℕ → Params → Option Params
unfolding split_eq store_param
parse_segment segment p = do
  (key, value) ← split_eq segment
  guard (not (length value == 0 || leb max_value (length value)))
  store_param key value p

unfoldable pub parse_segments : List (List ℕ) → Params → Option Params
unfolding parse_segment
parse_segments [] p = some p
parse_segments (x ∷ xs) p = do p' ← parse_segment x p; parse_segments xs p'

-- `*text && !all(text, is_digit)` is refused.
abbrev pub is_number_or_blank : List ℕ → Bool
is_number_or_blank [] = true
is_number_or_blank (c ∷ s) = all is_digit (c ∷ s)

-- `snprintf` behind what is in the buffer, which is refused if it does not fit.
unfoldable pub put : ℕ → List ℕ → List ℕ → Option (List ℕ)
put out_len text out = if ltb (length text) (out_len - length out) then some (out ++ text) else none

-- A field of the request, if it was given.
unfoldable pub put_field : ℕ → List ℕ → List ℕ → List ℕ → Option (List ℕ)
unfolding put
put_field out_len key [] out = some out
put_field out_len key (c ∷ s) out =
    put out_len (concat (codes ",\"" ∷ key ∷ codes "\":" ∷ (c ∷ s) ∷ [])) out

unfoldable pub print_request : Params → ℕ → Option (List ℕ)
unfolding put put_field
print_request p out_len = do
  a ← put out_len (concat (codes "{\"cmd\":\"" ∷ p.cmd ∷ codes "\"" ∷ [])) []
  b ← put_field out_len (codes "offset") p.offset a
  c ← put_field out_len (codes "limit") p.limit b
  d ← put_field out_len (codes "epoch") p.epoch c
  put out_len (codes "}") d

unfoldable pub check_params : List ℕ → Params → Bool
unfolding all_of allowed
check_params method p =
    (all_of is_cmd_char p.cmd && allowed method p.cmd)
    && (is_number_or_blank p.offset && (is_number_or_blank p.limit && is_number_or_blank p.epoch))

unfoldable pub build_request : List ℕ → List ℕ → ℕ → Option (List ℕ)
unfolding segments parse_segments check_params print_request
build_request method query out_len = do
  p ← parse_segments (segments query) no_params
  guard (check_params method p)
  print_request p out_len
