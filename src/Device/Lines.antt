-- ===== src/Device/Lines.antt =====
-- The line reader of the main loop against a division of the input into lines.
use mathlib.Core.List.{append-nil, append_assoc}
use s3_bme.Base.{
  ℕ, suc, ◌+◌, ◌-◌, ◌<◌, ◌≡◌, refl, sym, ◌∙◌, ap, ap₂, arith, ltb, if◌then◌else◌, ◌&&◌, not,
  Bool-cases, true, false, inl, inr, Option, none, some, List, [], ◌∷◌, ◌++◌, length, length-append,
  c_string,
}
use s3_bme.Flash.{Flash}
use s3_bme.Bme280.Driver.{Bus}
use s3_bme.Settings.{Nvs}
use s3_bme.Protocol.{max_line, Conn, handle_line}
use s3_bme.Device.{
  Reader, empty_reader, is_end, feed, State, ops, handle_fed, read_bytes, tick_device, show_led,
  round,
}

abbrev pub cons_some : Option (List ℕ) → List (List ℕ) → List (List ℕ)
cons_some none ls = ls
cons_some (some l) ls = l ∷ ls

-- The lines that the loop hands to the protocol, for all the bytes of some input.
pub lines_read : List ℕ → Reader → List (List ℕ)
lines_read [] r = []
lines_read (b ∷ bs) r = cons_some (feed b r).0 (lines_read bs (feed b r).1)

-- A line with no line end in it.
abbrev pub HasNoEnd : List ℕ → Type 0
HasNoEnd [] = Unit {0}
HasNoEnd (c ∷ s) = (is_end c ≡ false) × HasNoEnd s

-- Lines, each with the byte that ends it.
abbrev pub Line : Type 0
Line = List ℕ × ℕ

abbrev pub AreLines : List Line → Type 0
AreLines [] = Unit {0}
AreLines ((l, e) ∷ ls) = HasNoEnd l × (is_end e ≡ true) × AreLines ls

abbrev pub input : List Line → List ℕ
input [] = []
input ((l, e) ∷ ls) = l ++ (e ∷ input ls)

-- The lines that are handled: those that are not empty and fit the buffer with a NUL.
abbrev pub handled : List Line → List (List ℕ)
handled [] = []
handled ((l, e) ∷ ls) =
    if ltb 0 (length l) && ltb (length l) max_line then l ∷ handled ls else handled ls

-- The rest of a line behind what the reader has of it.
lines_read-line :
    (l : List ℕ) (e : ℕ) (rest : List ℕ) (r : Reader)
    → HasNoEnd l
    → is_end e ≡ true
    → length r.line < max_line
    → lines_read (l ++ (e ∷ rest)) r ≡ (
        if ltb 0 (length r.line + length l)
          && (not r.overflow && ltb (length r.line + length l) max_line)
        then (r.line ++ l) ∷ lines_read rest empty_reader
        else lines_read rest empty_reader)
unfolding lines_read feed
lines_read-line [] e rest r h end short = rw (end, append-nil r.line) (ground arith)
lines_read-line (c ∷ l) e rest r (hc, h) end short =
    elim (Bool-cases (ltb (length r.line) (max_line - 1))) [
      | inl room ↦
          let longer : Reader = record r { line = r.line ++ (c ∷ []) } in
          let n : length (r.line ++ (c ∷ [])) ≡ length r.line + 1 =
            omega (arith, length-append r.line (c ∷ [])) in
          let total : length r.line + 1 + length l ≡ length r.line + suc (length l) = omega arith in
          let ih = lines_read-line l e rest longer h end (rw n (ground arith)) in
          rw (hc, room) (ih ∙ rw (n, total, append_assoc r.line (c ∷ []) l))
      | inr full ↦
          let long : Reader = record r { overflow = true } in
          rw (hc, full) (lines_read-line l e rest long h end short ∙ ground arith)
    ]

-- The lines that are handled are those that are neither empty nor too long.
lines_read-input : (ls : List Line) → AreLines ls → lines_read (input ls) empty_reader ≡ handled ls
unfolding lines_read
lines_read-input [] h = refl
lines_read-input ((l, e) ∷ ls) (h, end, rest) =
    rw (lines_read-line l e (input ls) empty_reader h end (omega arith), lines_read-input ls rest)
      (ground arith)

module _ (B : Bus) (F : Flash) (N : Nvs) where
  -- The commands on some lines, one after another.
  pub handle_lines : List (List ℕ) → Conn (State B F N) → Conn (State B F N)
  handle_lines [] c = c
  handle_lines (l ∷ ls) c = handle_lines ls (handle_line F (ops B F N) (c_string l) c)

  read_bytes-lines_read :
      (bs : List ℕ) (r : Reader) (c : Conn (State B F N))
      → (read_bytes B F N bs r c).1 ≡ handle_lines (lines_read bs r) c
  unfolding read_bytes lines_read
  read_bytes-lines_read [] r c = unfold handle_lines in refl
  read_bytes-lines_read (b ∷ bs) r c =
      read_bytes-lines_read bs (feed b r).1 (handle_fed B F N (feed b r).0 c) ∙ fed (feed b r).0
    where
      fed :
          (o : Option (List ℕ))
          → handle_lines (lines_read bs (feed b r).1) (handle_fed B F N o c)
            ≡ handle_lines (cons_some o (lines_read bs (feed b r).1)) c
      fed none = unfold handle_fed in refl
      fed (some l) = unfold handle_fed handle_lines in refl

  -- The reader that some bytes leave.
  pub reader_after : List ℕ → Reader → Reader
  reader_after [] r = r
  reader_after (b ∷ bs) r = reader_after bs (feed b r).1

  read_bytes-reader_after :
      (bs : List ℕ) (r : Reader) (c : Conn (State B F N))
      → (read_bytes B F N bs r c).0 ≡ reader_after bs r
  unfolding read_bytes reader_after
  read_bytes-reader_after [] r c = refl
  read_bytes-reader_after (b ∷ bs) r c =
      read_bytes-reader_after bs (feed b r).1 (handle_fed B F N (feed b r).0 c)

  lines_read-append :
      (front bs : List ℕ) (r : Reader)
      → lines_read (front ++ bs) r ≡ lines_read front r ++ lines_read bs (reader_after front r)
  unfolding lines_read reader_after
  lines_read-append [] bs r = refl
  lines_read-append (a ∷ front) bs r =
      fed (feed a r).0 _ _ _ (lines_read-append front bs (feed a r).1)
    where
      fed :
          (o : Option (List ℕ)) (ls ms ns : List (List ℕ))
          → ls ≡ ms ++ ns
          → cons_some o ls ≡ cons_some o ms ++ ns
      fed none ls ms ns e = e
      fed (some l) ls ms ns e = ap (λ rs. l ∷ rs) e

  -- What happens to the device in front of a round, front the time goes on and requests and events come,
  -- and what the round then gets.
  abbrev pub Turns : Type 0 → Type 0
  Turns A = List ((State B F N → State B F N) × List A)

  abbrev pub joined : {A : Type 0} → Turns A → List A
  joined [] = []
  joined ((before, front) ∷ turns) = front ++ joined turns

  -- The loop of `app_main` for some rounds: the replies and the bytes for the LED of each, and the
  -- device after them.
  pub rounds : Turns ℕ → Reader → State B F N → List (List (List ℕ) × Option (List ℕ)) × State B F N
  rounds [] r x = ([], x)
  rounds ((before, bytes) ∷ turns) r x =
      let (out, sent, r', x') = round B F N bytes r (before x) in
      let (outs, y) = rounds turns r' x' in ((out, sent) ∷ outs, y)

  -- Rounds that get whole lines: they are handled, the sampler has its tick, and the LED is shown.
  pub serve : Turns (List ℕ) → State B F N → List (List (List ℕ) × Option (List ℕ)) × State B F N
  serve [] x = ([], x)
  serve ((before, ls) ∷ turns) x =
      let c = handle_lines ls (record { ctx = before x; out = [] }) in
      let (sent, x') = show_led B F N (tick_device B F N c.ctx) in
      let (outs, y) = serve turns x' in ((c.out, sent) ∷ outs, y)

  -- The lines that end in each round.
  pub ending : Turns ℕ → Reader → Turns (List ℕ)
  ending [] r = []
  ending ((before, bytes) ∷ turns) r =
      (before, lines_read bytes r) ∷ ending turns (reader_after bytes r)

  ending-joined :
      (turns : Turns ℕ) (r : Reader) → joined (ending turns r) ≡ lines_read (joined turns) r
  unfolding ending
  ending-joined [] r = unfold lines_read in refl
  ending-joined ((before, bytes) ∷ turns) r =
      ap (λ ls. lines_read bytes r ++ ls) (ending-joined turns (reader_after bytes r))
      ∙ sym (lines_read-append bytes (joined turns) r)

  -- The end of a round, once the bytes are read.
  shown : Reader × Conn (State B F N) → List (List ℕ) × Option (List ℕ) × Reader × State B F N
  shown (r, c) = let (sent, x) = show_led B F N (tick_device B F N c.ctx) in (c.out, sent, r, x)

  round_lem :
      (bytes : List ℕ) (r : Reader) (x : State B F N)
      → round B F N bytes r x
        ≡ shown
            (reader_after bytes r, handle_lines (lines_read bytes r) (record { ctx = x; out = [] }))
  round_lem bytes r x =
      let c : Conn (State B F N) = record { ctx = x; out = [] } in
      read_shown
      ∙ ap₂ (λ r' c'. shown (r', c')) (read_bytes-reader_after bytes r c)
          (read_bytes-lines_read bytes r c)
    where
      read_shown :
          round B F N bytes r x
          ≡ shown (
            (read_bytes B F N bytes r (record { ctx = x; out = [] })).0,
            (read_bytes B F N bytes r (record { ctx = x; out = [] })).1,
          )
      read_shown = unfold round shown in refl

  rounds-serve :
      (turns : Turns ℕ) (r : Reader) (x : State B F N) → rounds turns r x ≡ serve (ending turns r) x
  unfolding rounds serve ending shown
  rounds-serve [] r x = refl
  rounds-serve ((before, bytes) ∷ turns) r x =
      rw (round_lem bytes r (before x), rounds-serve turns (reader_after bytes r)) refl

  -- However the bytes of some lines are divided among rounds of the main loop, and whatever happens
  -- between these, the lines that are neither empty nor longer than 255 characters are handled in
  -- their order, each front it was sent and in the round in which it ends. A line that is too long is
  -- dropped whole and spoils no other.
  pub rounds-input :
      (ls : List Line) (turns : Turns ℕ) (x : State B F N)
      → AreLines ls
      → joined turns ≡ input ls
      → (joined (ending turns empty_reader) ≡ handled ls)
        × (rounds turns empty_reader x ≡ serve (ending turns empty_reader) x)
  rounds-input ls turns x h e = (
    ending-joined turns empty_reader
        ∙ (ap (λ bs. lines_read bs empty_reader) e ∙ lines_read-input ls h),
    rounds-serve turns empty_reader x,
  )
