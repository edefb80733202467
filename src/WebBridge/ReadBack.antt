-- ===== src/WebBridge/ReadBack.antt =====
-- What the JSON reader of the protocol gets out of a line that the bridge has built.
use s3_bme.Base.{
  ℕ, ◌<◌, ◌≡◌, ◌⊎◌, refl, ◌∙◌, ap, arith, true, false, Option, none, some, List, [], ◌∷◌, length,
  codes, text_eq, text_eq-eq, text_eq_refl,
}
use s3_bme.Base.Maybe.{>>=-eq-some, guard-eq-some}
use s3_bme.JsonMini.{get_string, get_uint}
use s3_bme.JsonMini.Objects.{
  text, number, Field, object_text, IsKey, IsObject, lookup, text_of, uint_of,
}
use s3_bme.JsonMini.RoundTrip.{get_string-object_text}
use s3_bme.WebBridge.{
  Params, no_params, is_cmd_char, allowed, is_number_or_blank, print_request, check_params,
  parse_segments, segments, build_request,
}
use s3_bme.WebBridge.Request.{given, request_fields, print_request-eq, all_of-all}

-- The commands that each method may use.
pub allowed-cases :
    (method cmd : List ℕ)
    → allowed method cmd ≡ true
    → ((method ≡ codes "GET")
        × ((cmd ≡ codes "ping")
            ⊎ (cmd ≡ codes "read_now")
            ⊎ (cmd ≡ codes "get_status")
            ⊎ (cmd ≡ codes "get_log")))
      ⊎ ((method ≡ codes "POST") × (cmd ≡ codes "set_time"))
unfolding allowed
allowed-cases method cmd h = ground (
  arith,
  text_eq-eq method (codes "GET"),
  text_eq-eq method (codes "POST"),
  text_eq-eq cmd (codes "ping"),
  text_eq-eq cmd (codes "read_now"),
  text_eq-eq cmd (codes "get_status"),
  text_eq-eq cmd (codes "get_log"),
  text_eq-eq cmd (codes "set_time"),
)

-- A number, as the JSON reader sees it.
abbrev pub param_uint : List ℕ → Option ℕ
param_uint [] = none
param_uint (c ∷ s) = uint_of (some (number (c ∷ s)))

given-IsObject :
    (key value : List ℕ) (fs : List Field)
    → IsKey key
    → is_number_or_blank value ≡ true
    → IsObject fs
    → IsObject (given key value fs)
given-IsObject key [] fs k n o = o
given-IsObject key (c ∷ s) fs k n o = (k, n, o)

lookup-given :
    (key k value : List ℕ) (fs : List Field)
    → text_eq k key ≡ false
    → lookup key (given k value fs) ≡ lookup key fs
unfolding lookup
lookup-given key k [] fs h = refl
lookup-given key k (c ∷ s) fs h = rw h

uint_of-given :
    (key value : List ℕ) (fs : List Field)
    → lookup key fs ≡ none
    → uint_of (lookup key (given key value fs)) ≡ param_uint value
unfolding lookup uint_of
uint_of-given key [] fs h = rw h
uint_of-given key (c ∷ s) fs h = rw (text_eq_refl key)

-- What the JSON reader gets out of a request.
pub record Reads (line : List ℕ) (p : Params) : Type 0 where
  pub cmd : get_string line (codes "cmd") 32 ≡ some p.cmd
  pub offset : get_uint line (codes "offset") ≡ param_uint p.offset
  pub limit : get_uint line (codes "limit") ≡ param_uint p.limit
  pub epoch : get_uint line (codes "epoch") ≡ param_uint p.epoch

numbers-IsObject :
    (p : Params)
    → is_number_or_blank p.offset ≡ true
    → is_number_or_blank p.limit ≡ true
    → is_number_or_blank p.epoch ≡ true
    → IsObject (request_fields p)
numbers-IsObject p o l e = (
  omega arith,
  tt,
  given-IsObject (codes "offset") p.offset _ (omega arith) o (
      given-IsObject (codes "limit") p.limit _ (omega arith) l
        (given-IsObject (codes "epoch") p.epoch [] (omega arith) e tt)),
)

-- Each key is that of its own field.
lookup-request_fields :
    (p : Params)
    → (lookup (codes "cmd") (request_fields p) ≡ some (text p.cmd))
      × (uint_of (lookup (codes "offset") (request_fields p)) ≡ param_uint p.offset)
      × (uint_of (lookup (codes "limit") (request_fields p)) ≡ param_uint p.limit)
      × (uint_of (lookup (codes "epoch") (request_fields p)) ≡ param_uint p.epoch)
unfolding lookup text_eq
lookup-request_fields p =
    let last = given (codes "epoch") p.epoch [] in
    let behind = given (codes "limit") p.limit last in
    (
      refl,
      uint_of-given (codes "offset") p.offset behind (
          lookup-given (codes "offset") (codes "limit") p.limit last refl
          ∙ lookup-given (codes "offset") (codes "epoch") p.epoch [] refl),
      ap uint_of (lookup-given (codes "limit") (codes "offset") p.offset behind refl)
          ∙ uint_of-given (codes "limit") p.limit last
              (lookup-given (codes "limit") (codes "epoch") p.epoch [] refl),
      ap uint_of (
            lookup-given (codes "epoch") (codes "offset") p.offset behind refl
            ∙ lookup-given (codes "epoch") (codes "limit") p.limit last refl)
          ∙ uint_of-given (codes "epoch") p.epoch [] refl,
    )

-- The reader's buffer of 32 places is enough for each command.
allowed-length : (method cmd : List ℕ) → allowed method cmd ≡ true → length cmd < 32
allowed-length method cmd h = grind (arith, allowed-cases)

request-Reads :
    (method : List ℕ) (p : Params)
    → check_params method p ≡ true
    → Reads (object_text (request_fields p)) p
unfolding check_params text_of
request-Reads method p h =
    let o : is_number_or_blank p.offset ≡ true = ground arith in
    let l : is_number_or_blank p.limit ≡ true = ground arith in
    let e : is_number_or_blank p.epoch ≡ true = ground arith in
    let can : allowed method p.cmd ≡ true = ground arith in
    let is_object = numbers-IsObject p o l e in
    let found = lookup-request_fields p in
    record {
      cmd =
          (get_string-object_text (codes "cmd") (omega arith) (omega arith) (request_fields p)
            is_object 32 (omega arith)).0
          ∙ ground (arith, found.0, allowed-length method p.cmd can);
      offset =
          (get_string-object_text (codes "offset") (omega arith) (omega arith) (request_fields p)
            is_object 32 (omega arith)).1
          ∙ found.1;
      limit =
          (get_string-object_text (codes "limit") (omega arith) (omega arith) (request_fields p)
            is_object 32 (omega arith)).1
          ∙ found.2;
      epoch =
          (get_string-object_text (codes "epoch") (omega arith) (omega arith) (request_fields p)
            is_object 32 (omega arith)).1
          ∙ found.3;
    }

-- When the bridge builds a line, the method may use the command of the query, and the JSON reader
-- gets the command and the numbers of the query out of the line, the last one of each name.
pub build_request-Reads :
    (method query : List ℕ) (out_len : ℕ) (line : List ℕ)
    → build_request method query out_len ≡ some line
    → (p : Params) × (parse_segments (segments query) no_params ≡ some p)
      × (allowed method p.cmd ≡ true)
      × Reads line p
unfolding build_request
build_request-Reads method query out_len line h =
    let (p, parsed, rest) = >>=-eq-some (parse_segments (segments query) no_params) _ h in
    let (checked, printed) = guard-eq-some (check_params method p) (print_request p out_len) rest in
    let cmd_chars = all_of-all is_cmd_char p.cmd (unfold check_params in ground arith) in
    (
      p,
      parsed,
      unfold check_params in ground arith,
      rw (print_request-eq p out_len line cmd_chars printed) (request-Reads method p checked),
    )
