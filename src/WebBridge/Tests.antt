-- ===== src/WebBridge/Tests.antt =====
-- The bridge at concrete queries, some of them from test_host/test-web-bridge.c.
use s3_bme.Base.{◌≡◌, refl, true, codes, some, none}
use s3_bme.WebBridge.{Params, no_params, segments, parse_segments, allowed, build_request}
use s3_bme.WebBridge.ReadBack.{Reads, build_request-Reads}

builds_log :
    build_request (codes "GET") (codes "cmd=get_log&offset=5&limit=10") 256
    ≡ some (codes "{\"cmd\":\"get_log\",\"offset\":5,\"limit\":10}")
unfolding build_request
builds_log = refl

refuses_clear : build_request (codes "GET") (codes "cmd=clear_log") 256 ≡ none
unfolding build_request
refuses_clear = refl

refuses_injection : build_request (codes "GET") (codes "cmd=ping&limit=1,\"x\":2") 256 ≡ none
unfolding build_request
refuses_injection = refl

build_request-Reads_example :
    (p : Params) × (parse_segments (segments (codes "cmd=get_log&offset=5&limit=10")) no_params
      ≡ some p)
    × (allowed (codes "GET") p.cmd ≡ true)
    × Reads (codes "{\"cmd\":\"get_log\",\"offset\":5,\"limit\":10}") p
build_request-Reads_example =
    build_request-Reads (codes "GET") (codes "cmd=get_log&offset=5&limit=10") 256
      (codes "{\"cmd\":\"get_log\",\"offset\":5,\"limit\":10}") builds_log
