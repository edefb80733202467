-- ===== src/JsonMini.antt =====
-- firmware/main/json-mini.c: the reader of flat JSON objects, on C strings as lists of codes.
-- A pointer into the text is the rest of the text behind it.
pub mod Objects
pub mod Search
pub mod Fields
pub mod RoundTrip
mod Tests
use s3_bme.Base.{
  ℕ, zero, suc, ◌+◌, ◌-◌, ◌^◌, ltb, leb, ◌==◌, if◌then◌else◌, ◌||◌, Bool, true, false, Option, none,
  some, List, [], ◌∷◌, ◌++◌, length, is_digit, read_dec,
}
use s3_bme.Base.Maybe.{◌>>=◌, is_some}

-- The rest behind a text at the front, or `none`.
unfoldable pub strip_prefix : List ℕ → List ℕ → Option (List ℕ)
strip_prefix [] s = some s
strip_prefix (p ∷ pat) [] = none
strip_prefix (p ∷ pat) (c ∷ s) = if p == c then strip_prefix pat s else none

-- `while (*v == ' ') v++;`
unfoldable pub skip_spaces : List ℕ → List ℕ
skip_spaces [] = []
skip_spaces (c ∷ s) = if c == b' ' then skip_spaces s else c ∷ s

-- What follows the colon behind a key, with spaces on both sides of it.
unfoldable pub after_colon : List ℕ → Option (List ℕ)
after_colon [] = none
after_colon (c ∷ s) = if c == b':' then some (skip_spaces s) else none

-- The value, if the quoted key stands right here and is followed by a colon.
unfoldable pub value_here : List ℕ → List ℕ → Option (List ℕ)
unfolding strip_prefix skip_spaces after_colon
value_here pat s = do v ← strip_prefix pat s; after_colon (skip_spaces v)

-- The loop of `find_value`: the search goes on one place behind a match with no colon.
unfoldable pub find_from : List ℕ → List ℕ → Option (List ℕ)
unfolding value_here
find_from pat [] = none
find_from pat (c ∷ s) =
    let rest = find_from pat s in
    elim (value_here pat (c ∷ s)) as (λ _. Option (List ℕ)) [ none ↦ rest | some v ↦ some v ]

abbrev pub quoted : List ℕ → List ℕ
quoted key = b'"' ∷ (key ++ (b'"' ∷ []))

-- The buffer of the pattern has 40 places.
unfoldable pub find_value : List ℕ → List ℕ → Option (List ℕ)
unfolding find_from
find_value json key = if leb 40 (length (quoted key)) then none else find_from (quoted key) json

-- `if (n + 1 >= out_len) return false; out[n++] = c;` in front of the rest of the loop.
abbrev pub keep : ℕ → ℕ → ℕ → Option (List ℕ) → Option (List ℕ)
keep out_len n c rest =
    if leb out_len (n + 1)
    then none
    else elim rest as (λ _. Option (List ℕ)) [ none ↦ none | some out ↦ some (c ∷ out) ]

-- The loop of `json_mini_get_string` behind the opening quote, with `n` characters written.
unfoldable pub read_string : ℕ → ℕ → List ℕ → Option (List ℕ)
read_string out_len n [] = none
read_string out_len n (c ∷ []) = if c == b'"' then some [] else none
read_string out_len n (c ∷ d ∷ s) =
    let plain = keep out_len n c (read_string out_len (n + 1) (d ∷ s)) in
    let escaped = keep out_len n d (read_string out_len (n + 1) s) in
    if c == b'"'
    then some []
    else if c == b'\\'
    then (if d == b'"' || d == b'\\' then escaped else none)
    else plain

unfoldable pub string_at : ℕ → List ℕ → Option (List ℕ)
unfolding read_string
string_at out_len [] = none
string_at out_len (c ∷ s) = if c == b'"' then read_string out_len 0 s else none

unfoldable pub get_string : List ℕ → List ℕ → ℕ → Option (List ℕ)
unfolding find_value string_at
get_string json key out_len = do p ← find_value json key; string_at out_len p

unfoldable pub has_key : List ℕ → List ℕ → Bool
unfolding find_value
has_key json key = is_some (find_value json key)

-- `strtoul` on a digit; above ULONG_MAX, which is UINT32_MAX or more, it reports ERANGE.
unfoldable pub uint_at : List ℕ → Option ℕ
unfolding read_dec
uint_at [] = none
uint_at (c ∷ s) =
    if is_digit c
    then (if ltb (read_dec (c ∷ s) 0) (2 ^ 32) then some (read_dec (c ∷ s) 0) else none)
    else none

unfoldable pub get_uint : List ℕ → List ℕ → Option ℕ
unfolding find_value uint_at
get_uint json key = do p ← find_value json key; uint_at p
