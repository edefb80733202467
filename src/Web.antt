-- ===== src/Web.antt =====
-- firmware/main/web.c: the handler of /api. The HTTP server is not in the repository: a request is
-- its method and its query, and the handler returns what it sends. The server runs one handler at a
-- time; the lock that the handler holds around the command keeps the main loop out.
pub mod Fits
pub mod Safety
use s3_bme.Base.{
  ℕ, ◌+◌, ◌-◌, ltb, leb, if◌then◌else◌, Bool, true, false, Option, none, some, List, [], ◌∷◌, ◌++◌,
  length, codes, take,
}
use s3_bme.Flash.{Flash}
use s3_bme.Protocol.{Ops, Conn, handle_line, max_line}
use s3_bme.WebBridge.{build_request}

-- RESPONSE_MAX
abbrev pub response_max : ℕ
response_max = 24576

-- `g_resp` up to `g_resp_len`, and `g_resp_overflow`.
pub record Buffer : Type 0 where
  pub text : List ℕ
  pub overflow : Bool

abbrev pub empty_buffer : Buffer
empty_buffer = record { text = []; overflow = false }

unfoldable pub buffer_write : List ℕ → Buffer → Buffer
buffer_write text b =
    if b.overflow
    then b
    else if ltb (response_max - length b.text) (length text)
    then record b { overflow = true }
    else record b { text = b.text ++ text }

-- The calls that a command makes, in their order.
unfoldable pub write_all : List (List ℕ) → Buffer → Buffer
unfolding buffer_write
write_all [] b = b
write_all (text ∷ texts) b = write_all texts (buffer_write text b)

-- What is sent: an error page, or a JSON text with the status 403, 500 or 200.
pub data Response : Type 0 where
  bad_request forbidden too_large : Response
  answered : List ℕ → Response

abbrev pub query_size : ℕ
query_size = 128

abbrev pub method_name : Bool → List ℕ
method_name true = codes "POST"
method_name false = codes "GET"

-- The answer that a buffer gives.
unfoldable pub respond : Buffer → Response
respond b = if b.overflow then too_large else answered b.text

module _ (F : Flash) (O : Ops F) where
  open O use {Ctx}

  -- The handler once the bridge has made a line of the query, or refused it.
  unfoldable pub serve_line : Option (List ℕ) → Ctx → Response × Ctx
  serve_line none x = (forbidden, x)
  serve_line (some line) x =
      let c = handle_line F O line (record { ctx = x; out = [] }) in
      (respond (write_all c.out empty_buffer), c.ctx)

  unfoldable pub api_handler : Bool → List ℕ → Ctx → Response × Ctx
  unfolding serve_line
  api_handler is_post query x =
      if leb query_size (length query)
      then (bad_request, x)
      else serve_line (build_request (method_name is_post) query max_line) x

-- What `index_handler` sends: the embedded page, less the NUL behind it.
pub record Page : Type 0 where
  pub content_type : List ℕ
  pub cache_control : List ℕ
  pub body : List ℕ

pub index_page : List ℕ → Page
index_page embedded = record {
  content_type = codes "text/html; charset=utf-8";
  cache_control = codes "no-cache";
  body = take (length embedded - 1) embedded;
}

pub data Handler : Type 0 where
  index api : Handler

-- `httpd_uri_t`
pub record Route : Type 0 where
  pub uri : List ℕ
  pub is_post : Bool
  pub handler : Handler

-- The handlers that `web_start` registers, if the server starts.
pub web_start : Bool → Option (List Route)
web_start started =
    if started
    then some (
        record { uri = codes "/"; is_post = false; handler = index }
        ∷ record { uri = codes "/api"; is_post = false; handler = api }
        ∷ record { uri = codes "/api"; is_post = true; handler = api }
        ∷ [])
    else none
