-- ===== src/WebBridge/Request.antt =====
-- The line that the bridge builds is a flat JSON object that holds the parameters of the query.
use mathlib.Core.List.{append-nil, append_assoc}
use s3_bme.Base.{
  ℕ, ◌≡◌, refl, ◌∙◌, arith, Bool, true, Option, some, List, [], ◌∷◌, ◌++◌, all, concat, codes,
}
use s3_bme.Base.Maybe.{◌>>=◌, >>=-eq-some}
use s3_bme.JsonMini.Objects.{text, number, Field, escaped, more_text, object_text}
use s3_bme.WebBridge.{Params, is_cmd_char, all_of, put, put_field, print_request}

-- A parameter that was given is a field.
abbrev pub given : List ℕ → List ℕ → List Field → List Field
given key [] fs = fs
given key (c ∷ s) fs = (key, number (c ∷ s)) ∷ fs

abbrev pub numbers : Params → List Field
numbers p =
    given (codes "offset") p.offset
      (given (codes "limit") p.limit (given (codes "epoch") p.epoch []))

abbrev pub request_fields : Params → List Field
request_fields p = (codes "cmd", text p.cmd) ∷ numbers p

-- What `put_field` appends.
field_part : List ℕ → List ℕ → List ℕ
field_part key [] = []
field_part key (c ∷ s) = concat (codes ",\"" ∷ key ∷ codes "\":" ∷ (c ∷ s) ∷ [])

put-eq :
    (out_len : ℕ) (part out after : List ℕ)
    → put out_len part out ≡ some after
    → after ≡ out ++ part
put-eq out_len part out after h = unfold put in ground arith

put_field-eq :
    (out_len : ℕ) (key value out after : List ℕ)
    → put_field out_len key value out ≡ some after
    → after ≡ out ++ field_part key value
unfolding field_part
put_field-eq out_len key [] out after h = unfold put_field in cc (h, append-nil out)
put_field-eq out_len key (c ∷ s) out after h =
    unfold put_field in put-eq out_len (field_part key (c ∷ s)) out after h

field_part-more_text :
    (key value : List ℕ) (fs : List Field)
    → field_part key value ++ more_text fs ≡ more_text (given key value fs)
unfolding field_part more_text
field_part-more_text key [] fs = refl
field_part-more_text key (c ∷ s) fs = simp (append_assoc, append-nil)

-- No character of a command is escaped.
escaped-cmd : (s rest : List ℕ) → all is_cmd_char s ≡ true → escaped s rest ≡ s ++ rest
unfolding escaped
escaped-cmd [] rest h = refl
escaped-cmd (c ∷ s) rest h = ground (arith, escaped-cmd s rest)

pub all_of-all : (ok : ℕ → Bool) (s : List ℕ) → all_of ok s ≡ true → all ok s ≡ true
unfolding all_of
all_of-all ok [] h = cc
all_of-all ok (c ∷ s) h = h

request_text :
    (p : Params)
    → all is_cmd_char p.cmd ≡ true
    → object_text (request_fields p)
      ≡ codes "{\"cmd\":\"" ++ (p.cmd ++ (codes "\"" ++ more_text (numbers p)))
unfolding object_text
request_text p h = rw (escaped-cmd p.cmd (b'"' ∷ more_text (numbers p)) h)

-- A step of the printing that succeeded, in front of the rest.
put-then :
    (out_len : ℕ) (part out : List ℕ) (f : List ℕ → Option (List ℕ)) {line : List ℕ}
    → (put out_len part out >>= f) ≡ some line
    → f (out ++ part) ≡ some line
put-then out_len part out f h =
    let (a, ea, ra) = >>=-eq-some (put out_len part out) f h in
    rw (← put-eq out_len part out a ea) ra

put_field-then :
    (out_len : ℕ) (key value out : List ℕ) (f : List ℕ → Option (List ℕ)) {line : List ℕ}
    → (put_field out_len key value out >>= f) ≡ some line
    → f (out ++ field_part key value) ≡ some line
put_field-then out_len key value out f h =
    let (a, ea, ra) = >>=-eq-some (put_field out_len key value out) f h in
    rw (← put_field-eq out_len key value out a ea) ra

-- The parts that are printed make up the text of the object.
parts_text :
    (p : Params)
    → all is_cmd_char p.cmd ≡ true
    → (((concat (codes "{\"cmd\":\"" ∷ p.cmd ∷ codes "\"" ∷ [])
              ++ field_part (codes "offset") p.offset)
            ++ field_part (codes "limit") p.limit)
          ++ field_part (codes "epoch") p.epoch)
        ++ codes "}"
      ≡ object_text (request_fields p)
parts_text p h =
    let last : codes "}" ≡ more_text [] = unfold more_text in refl in
    simp (append_assoc, append-nil, request_text p h, last, field_part-more_text)

pub print_request-eq :
    (p : Params) (out_len : ℕ) (line : List ℕ)
    → all is_cmd_char p.cmd ≡ true
    → print_request p out_len ≡ some line
    → line ≡ object_text (request_fields p)
unfolding print_request
print_request-eq p out_len line h e =
    let a : List ℕ = concat (codes "{\"cmd\":\"" ∷ p.cmd ∷ codes "\"" ∷ []) in
    let start = put-then out_len a [] _ e in
    let second = put_field-then out_len (codes "offset") p.offset a _ start in
    let b = a ++ field_part (codes "offset") p.offset in
    let third = put_field-then out_len (codes "limit") p.limit b _ second in
    let c = b ++ field_part (codes "limit") p.limit in
    let fourth = put_field-then out_len (codes "epoch") p.epoch c _ third in
    let d = c ++ field_part (codes "epoch") p.epoch in
    let last = put-eq out_len (codes "}") d line fourth in last ∙ parts_text p h
