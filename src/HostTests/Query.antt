-- ===== src/HostTests/Query.antt =====
-- firmware/test_host/test-web-bridge.c
use s3_bme.Base.{◌≡◌, refl, Bool, true, List, [], ◌∷◌, codes, text_eq}
use s3_bme.WebBridge.{build_request}
use s3_bme.HostTests.{all_of, gives_text, refuses}

abbrev test_get_read_only_commands : Bool
test_get_read_only_commands = all_of (
    gives_text (build_request (codes "GET") (codes "cmd=ping") 128) (codes "{\"cmd\":\"ping\"}")
    ∷ gives_text (build_request (codes "GET") (codes "cmd=get_log&offset=1000&limit=500") 128)
        (codes "{\"cmd\":\"get_log\",\"offset\":1000,\"limit\":500}")
    ∷ gives_text (build_request (codes "GET") (codes "limit=5&cmd=get_log") 128)
        (codes "{\"cmd\":\"get_log\",\"limit\":5}")
    ∷ [])

abbrev test_post_set_time_only : Bool
test_post_set_time_only = all_of (
    gives_text (build_request (codes "POST") (codes "cmd=set_time&epoch=1789000000") 128)
      (codes "{\"cmd\":\"set_time\",\"epoch\":1789000000}")
    ∷ refuses (build_request (codes "GET") (codes "cmd=set_time&epoch=1") 128)
    ∷ refuses (build_request (codes "POST") (codes "cmd=get_status") 128)
    ∷ [])

abbrev test_rejects_forbidden_and_malformed : Bool
test_rejects_forbidden_and_malformed = all_of (
    refuses (build_request (codes "GET") (codes "cmd=clear_log") 128)
    ∷ refuses (build_request (codes "POST") (codes "cmd=set_interval&interval_s=10") 128)
    ∷ refuses (build_request (codes "POST") (codes "cmd=set_wifi&ssid=x") 128)
    ∷ refuses (build_request (codes "GET") (codes "") 128)
    ∷ refuses (build_request (codes "GET") (codes "offset=1") 128)
    ∷ refuses (build_request (codes "GET") (codes "cmd=get_log&offset=12a") 128)
    ∷ refuses (build_request (codes "GET") (codes "cmd=get%5Flog") 128)
    ∷ refuses (build_request (codes "GET") (codes "cmd=ping&unknown=1") 128)
    ∷ refuses (build_request (codes "DELETE") (codes "cmd=ping") 128)
    ∷ [])

abbrev test_output_buffer_too_small : Bool
test_output_buffer_too_small = refuses (build_request (codes "GET") (codes "cmd=ping") 8)

abbrev main : List Bool
main =
    test_get_read_only_commands ∷ test_post_set_time_only ∷ test_rejects_forbidden_and_malformed
    ∷ test_output_buffer_too_small ∷ []

-- The suite passes.
query_suite : all_of main ≡ true
unfolding build_request text_eq
query_suite = refl
