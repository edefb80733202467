-- ===== src/HostTests/Json.antt =====
-- firmware/test_host/test-json-mini.c
use s3_bme.Base.{ℕ, ◌≡◌, refl, Bool, true, not, List, [], ◌∷◌, ◌++◌, codes, text_eq}
use s3_bme.JsonMini.{get_string, get_uint, has_key}
use s3_bme.HostTests.{all_of, gives_text, gives_uint, refuses}

-- Each test makes its assertions in order.
abbrev test_get_string : Bool
test_get_string =
    gives_text (get_string (codes "{\"cmd\":\"get_log\",\"offset\":0}") (codes "cmd") 32)
      (codes "get_log")

abbrev test_get_string_with_spaces : Bool
test_get_string_with_spaces =
    gives_text (get_string (codes "{ \"cmd\" : \"ping\" }") (codes "cmd") 32) (codes "ping")

abbrev test_get_string_missing_or_wrong_type : Bool
test_get_string_missing_or_wrong_type = all_of (
    refuses (get_string (codes "{\"offset\":5}") (codes "cmd") 32)
    ∷ refuses (get_string (codes "{\"cmd\":5}") (codes "cmd") 32)
    ∷ refuses (get_string (codes "{\"cmd\":\"unterminated") (codes "cmd") 32)
    ∷ [])

abbrev test_get_string_too_long : Bool
test_get_string_too_long = refuses (get_string (codes "{\"cmd\":\"ping\"}") (codes "cmd") 4)

abbrev test_get_uint : Bool
test_get_uint = all_of (
    gives_uint
      (get_uint (codes "{\"cmd\":\"get_log\",\"offset\":1234,\"limit\":500}") (codes "offset")) 1234
    ∷ gives_uint (get_uint (codes "{\"epoch\": 1789000000}") (codes "epoch")) 1_789_000_000
    ∷ [])

abbrev test_get_uint_missing_or_not_number : Bool
test_get_uint_missing_or_not_number = all_of (
    refuses (get_uint (codes "{\"cmd\":\"ping\"}") (codes "epoch"))
    ∷ refuses (get_uint (codes "{\"epoch\":\"abc\"}") (codes "epoch"))
    ∷ refuses (get_uint (codes "{\"epoch\":-5}") (codes "epoch"))
    ∷ [])

abbrev test_key_must_be_quoted_exactly : Bool
test_key_must_be_quoted_exactly = refuses (get_uint (codes "{\"my_offset\":7}") (codes "offset"))

abbrev test_key_inside_earlier_value_is_skipped : Bool
test_key_inside_earlier_value_is_skipped =
    gives_uint (get_uint (codes "{\"cmd\":\"offset\",\"offset\":42}") (codes "offset")) 42

abbrev test_get_uint_rejects_overflow : Bool
test_get_uint_rejects_overflow = all_of (
    refuses (get_uint (codes "{\"offset\":99999999999999}") (codes "offset"))
    ∷ gives_uint (get_uint (codes "{\"offset\":4294967295}") (codes "offset")) 4_294_967_295
    ∷ [])

abbrev test_get_string_unescapes_quote_and_backslash : Bool
test_get_string_unescapes_quote_and_backslash =
    gives_text (get_string (codes "{\"password\":\"a\\\"b\\\\c\"}") (codes "password") 64)
      (codes "a\"b\\c")

abbrev test_get_string_rejects_unknown_escape : Bool
test_get_string_rejects_unknown_escape =
    refuses (get_string (codes "{\"password\":\"a\\nb\"}") (codes "password") 64)

-- Three Korean letters in UTF-8.
abbrev pub korean : List ℕ
korean = 0xEC ∷ 0x9A ∷ 0xB0 ∷ 0xEB ∷ 0xA6 ∷ 0xAC ∷ 0xEC ∷ 0xA7 ∷ 0x91 ∷ []

abbrev test_get_string_keeps_utf8_bytes : Bool
test_get_string_keeps_utf8_bytes =
    gives_text (get_string (codes "{\"ssid\":\"" ++ (korean ++ codes "\"}")) (codes "ssid") 64)
      korean

abbrev test_has_key : Bool
test_has_key = all_of (
    has_key (codes "{\"cmd\":\"x\",\"password\":\"\"}") (codes "password")
    ∷ not (has_key (codes "{\"cmd\":\"x\",\"password\":\"\"}") (codes "epoch"))
    ∷ not (has_key (codes "{\"cmd\":\"password\"}") (codes "password"))
    ∷ [])

abbrev main : List Bool
main =
    test_get_string ∷ test_get_string_with_spaces ∷ test_get_string_missing_or_wrong_type
    ∷ test_get_string_too_long ∷ test_get_uint ∷ test_get_uint_missing_or_not_number
    ∷ test_key_must_be_quoted_exactly ∷ test_key_inside_earlier_value_is_skipped
    ∷ test_get_uint_rejects_overflow ∷ test_get_string_unescapes_quote_and_backslash
    ∷ test_get_string_rejects_unknown_escape ∷ test_get_string_keeps_utf8_bytes ∷ test_has_key ∷ []

-- The suite passes.
json_suite : all_of main ≡ true
unfolding get_string get_uint has_key text_eq
json_suite = refl
