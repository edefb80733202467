-- ===== src/Web/Safety.antt =====
-- What a request to /api can do, and what it is answered.
use s3_bme.Base.{
  ℕ, ◌≤◌, ◌≡◌, ◌⊎◌, inl, inr, refl, arith, leb, Bool, Bool-cases, true, false, Option, none, some,
  List, [], length, codes, concat,
}
use s3_bme.LogRecord.{LogRecord}
use s3_bme.LogStore.{Store}
use s3_bme.LogStore.Prims.{Same}
use s3_bme.LogStore.Prepare.{Holds}
use s3_bme.Flash.{Flash, IsNor}
use s3_bme.Protocol.{Ops, handle_line, max_line}
use s3_bme.Protocol.Rows.{size}
use s3_bme.Protocol.Replies.{reply_max, handle_line-Served, handle_line-TimeSet}
use s3_bme.WebBridge.{build_request}
use s3_bme.WebBridge.ReadBack.{build_request-Reads, allowed-cases}
use s3_bme.Web.{
  empty_buffer, write_all, respond, Response, bad_request, forbidden, answered, response_max,
  query_size, method_name, serve_line, api_handler,
}
use s3_bme.Web.Fits.{write_all_fits}

respond_fits :
    (texts : List (List ℕ))
    → size texts ≤ response_max
    → respond (write_all texts empty_buffer) ≡ answered (concat texts)
unfolding respond
respond_fits texts h = rw (write_all_fits texts empty_buffer refl (omega (arith, h)))

module _ (F : Flash) (O : Ops F) where
  -- The request is refused with no change, or its line was handled and the whole reply is sent.
  abbrev pub Answered : Bool → List ℕ → O.Ctx → (O.Ctx → Type 0) → Response × O.Ctx → Type 0
  Answered is_post query x P (response, x') =
      ((response ≡ bad_request) × (x' ≡ x))
      ⊎ ((response ≡ forbidden) × (x' ≡ x))
      ⊎ ((line : List ℕ) × (build_request (method_name is_post) query max_line ≡ some line)
          × (response ≡ answered (concat (handle_line F O line (record { ctx = x; out = [] })).out))
          × P x')

  line-Answered :
      (is_post : Bool) (query : List ℕ) (x : O.Ctx) (P : O.Ctx → Type 0) (o : Option (List ℕ))
      → build_request (method_name is_post) query max_line ≡ o
      → ((line : List ℕ)
          → build_request (method_name is_post) query max_line ≡ some line
          → (size (handle_line F O line (record { ctx = x; out = [] })).out ≤ reply_max)
            × P (handle_line F O line (record { ctx = x; out = [] })).ctx)
      → Answered is_post query x P (serve_line F O o x)
  unfolding serve_line
  line-Answered is_post query x P none e h = inr (inl (refl, refl))
  line-Answered is_post query x P (some line) e h =
      let (fits, after) = h line e in
      inr (inr (line, e, respond_fits _ (omega (arith, fits)), after))

  request-Answered :
      (is_post : Bool) (query : List ℕ) (x : O.Ctx) (P : O.Ctx → Type 0)
      → ((line : List ℕ)
          → build_request (method_name is_post) query max_line ≡ some line
          → (size (handle_line F O line (record { ctx = x; out = [] })).out ≤ reply_max)
            × P (handle_line F O line (record { ctx = x; out = [] })).ctx)
      → Answered is_post query x P (api_handler F O is_post query x)
  unfolding api_handler
  request-Answered is_post query x P h = elim (Bool-cases (leb query_size (length query))) [
    | inl long ↦ rw long (inl (refl, refl))
    | inr short ↦ rw short (
        line-Answered is_post query x P (build_request (method_name is_post) query max_line) refl h)
  ]

  -- A POST request sets the time to a number or changes nothing, and is answered in full: the
  -- response buffer never overflows.
  pub post-Answered :
      (query : List ℕ) (x : O.Ctx)
      → Answered true query x
          (λ x'. (x' ≡ x) ⊎ ((epoch : ℕ) × (x' ≡ O.set_time epoch x)))
          (api_handler F O true query x)
  post-Answered query x =
      request-Answered true query x (λ x'. (x' ≡ x) ⊎ ((epoch : ℕ) × (x' ≡ O.set_time epoch x)))
        (λ line e.
          let (p, _, can, reads) = build_request-Reads (codes "POST") query max_line line e in
          handle_line-TimeSet F O line p.cmd x reads.cmd
            (is_set p.cmd (allowed-cases (codes "POST") p.cmd can)))
    where
      is_set :
          (cmd : List ℕ)
          → ((codes "POST" ≡ codes "GET")
              × ((cmd ≡ codes "ping")
                  ⊎ (cmd ≡ codes "read_now")
                  ⊎ (cmd ≡ codes "get_status")
                  ⊎ (cmd ≡ codes "get_log")))
            ⊎ ((codes "POST" ≡ codes "POST") × (cmd ≡ codes "set_time"))
          → cmd ≡ codes "set_time"
      is_set cmd (inl (e, _)) = cc
      is_set cmd (inr (_, e)) = e

  -- A GET request keeps every property of the state that a measurement and a read of the log keep,
  -- where the state's store stands for a log. It is answered in full: the response buffer never
  -- overflows.
  pub get-Answered :
      {Fails : Type 0} (N : IsNor F Fails) (log : List LogRecord) (Q : O.Ctx → Type 0)
      → ((x : O.Ctx) → Q x → Holds F N (O.store x) log)
      → ((x : O.Ctx) (s : Store F.Dev) → Same F N (O.store x) s → Q x → Q (O.put_store s x))
      → ((x : O.Ctx) → Q x → Q (O.read_now x).1)
      → (query : List ℕ) (x : O.Ctx) → Q x
      → Answered false query x Q (api_handler F O false query x)
  get-Answered N log Q holds put_same read_keeps query x q =
      request-Answered false query x Q (λ line e.
        let (p, _, can, reads) = build_request-Reads (codes "GET") query max_line line e in
        let served =
          handle_line-Served F O Q N log holds put_same line p.cmd x reads.cmd
            (is_read p.cmd (allowed-cases (codes "GET") p.cmd can)) q (read_keeps x q) in
        (served.fits, served.kept))
    where
      is_read :
          (cmd : List ℕ)
          → ((codes "GET" ≡ codes "GET")
              × ((cmd ≡ codes "ping")
                  ⊎ (cmd ≡ codes "read_now")
                  ⊎ (cmd ≡ codes "get_status")
                  ⊎ (cmd ≡ codes "get_log")))
            ⊎ ((codes "GET" ≡ codes "POST") × (cmd ≡ codes "set_time"))
          → (cmd ≡ codes "ping")
            ⊎ (cmd ≡ codes "read_now")
            ⊎ (cmd ≡ codes "get_status")
            ⊎ (cmd ≡ codes "get_log")
      is_read cmd (inl (_, e)) = e
      is_read cmd (inr (e, _)) = cc
