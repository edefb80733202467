-- ===== src/JsonMini/Tests.antt =====
-- The reader at concrete texts, some of them from test_host/test-json-mini.c.
use s3_bme.Base.{◌≡◌, refl, arith, codes, some, none, List, [], ◌∷◌}
use s3_bme.Base.Maybe.{is_some}
use s3_bme.JsonMini.{get_string, get_uint, has_key}
use s3_bme.JsonMini.Objects.{Field, IsObject, text, number, object_text, lookup, text_of, uint_of}
use s3_bme.JsonMini.RoundTrip.{get_string-object_text}

reads_string :
    get_string (codes "{\"cmd\" : \"ping\",\"x\":1}") (codes "cmd") 32 ≡ some (codes "ping")
unfolding get_string
reads_string = refl

reads_escape :
    get_string (codes "{\"ssid\":\"a\\\"b\\\\\"}") (codes "ssid") 32 ≡ some (codes "a\"b\\")
unfolding get_string
reads_escape = refl

-- A value that is spelled like the key is passed over.
passes_value :
    get_string (codes "{\"a\":\"cmd\",\"cmd\":\"x\"}") (codes "cmd") 32 ≡ some (codes "x")
unfolding get_string
passes_value = refl

too_long : get_string (codes "{\"cmd\":\"abc\"}") (codes "cmd") 3 ≡ none
unfolding get_string
too_long = refl

reads_uint : get_uint (codes "{\"n\":  4294967295}") (codes "n") ≡ some 4294967295
unfolding get_uint
reads_uint = refl

overflows : get_uint (codes "{\"n\":4294967296}") (codes "n") ≡ none
unfolding get_uint
overflows = refl

-- A value that tries to pass for a field, and one with quotes.
abbrev fields : List Field
fields =
    (codes "a", text (codes "x\",\"cmd\":\"y"))
    ∷ (codes "cmd", text (codes "set_\\wifi"))
    ∷ (codes "n", number (codes "42"))
    ∷ []

fields-IsObject : IsObject fields
fields-IsObject = (omega arith, tt, (omega arith, tt, (omega arith, refl, tt)))

get_string-object_text_example :
    (get_string (object_text fields) (codes "cmd") 32 ≡ text_of 32 (lookup (codes "cmd") fields))
    × (get_uint (object_text fields) (codes "cmd") ≡ uint_of (lookup (codes "cmd") fields))
    × (has_key (object_text fields) (codes "cmd") ≡ is_some (lookup (codes "cmd") fields))
get_string-object_text_example =
    get_string-object_text (codes "cmd") (omega arith) (omega arith) fields fields-IsObject 32
      (omega arith)

reads_fields : text_of 32 (lookup (codes "cmd") fields) ≡ some (codes "set_\\wifi")
unfolding text_of lookup
reads_fields = refl
