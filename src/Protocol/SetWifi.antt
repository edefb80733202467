-- ===== src/Protocol/SetWifi.antt =====
-- set_wifi: which credentials reach the WiFi module.
use s3_bme.Base.{
  ℕ, ◌≤◌, ◌≡◌, ◌⊎◌, inl, inr, refl, arith, ltb, ◌==◌, not, ◌&&◌, ◌||◌, if◌then◌else◌, Bool, true,
  false, Option, none, some, List, [], ◌∷◌, length, codes, text_eq,
}
use s3_bme.Flash.{Flash}
use s3_bme.JsonMini.{get_string, has_key}
use s3_bme.Protocol.{
  Ops, Conn, reply_error, max_line, wifi_ssid_max, wifi_pass_max, wifi_set, call_set_wifi,
  set_wifi_password, set_wifi_ssid, cmd_set_wifi, dispatch, handle_line,
}
use s3_bme.Protocol.Replies.{handle_line-eq}

pub by_test :
    {A : Type 0} (P : A → Type 0) (b : Bool) (x y : A)
    → (b ≡ true → P x)
    → (b ≡ false → P y)
    → P (if b then x else y)
by_test P true x y yes_ no_ = yes_ refl
by_test P false x y yes_ no_ = no_ refl

module _ (F : Flash) (O : Ops F) where
  -- The reply is an error, and nothing is done.
  abbrev pub Refused : Conn O.Ctx → Conn O.Ctx → Type 0
  Refused c c' =
      (c' ≡ reply_error (codes "bad_request") c) ⊎ (c' ≡ reply_error (codes "out_of_range") c)

  -- The password of a line: none is an empty one.
  abbrev pub Password : List ℕ → List ℕ → Type 0
  Password line password =
      ((has_key line (codes "password") ≡ false) × (password ≡ []))
      ⊎ ((has_key line (codes "password") ≡ true)
          × (get_string line (codes "password") max_line ≡ some password))

  -- The credentials of the line are set: they fit the fields of `wifi_config_t`, with 32 and 64
  -- characters, and the password is empty or one of WPA.
  pub record Called (line : List ℕ) (c c' : Conn O.Ctx) : Type 0 where
    pub ssid : List ℕ
    pub password : List ℕ
    pub ssid_read : get_string line (codes "ssid") max_line ≡ some ssid
    pub password_read : Password line password
    pub ssid_fits : length ssid ≤ 32
    pub password_fits : (password ≡ []) ⊎ ((8 ≤ length password) × (length password ≤ 63))
    pub called :
        c'
        ≡ wifi_set F O
            (O.set_wifi ssid password c.ctx).0
            (record c { ctx = (O.set_wifi ssid password c.ctx).1 })

  abbrev pub Outcome : List ℕ → Conn O.Ctx → Conn O.Ctx → Type 0
  Outcome line c c' = Refused c c' ⊎ Called line c c'

  password-cases :
      (line ssid : List ℕ) (c : Conn O.Ctx) (p : Option (List ℕ))
      → get_string line (codes "ssid") max_line ≡ some ssid
      → length ssid ≤ 32
      → has_key line (codes "password") ≡ true
      → get_string line (codes "password") max_line ≡ p
      → Outcome line c (set_wifi_password F O ssid p c)
  unfolding set_wifi_password call_set_wifi
  password-cases line ssid c none read fits key e = inl (inl refl)
  password-cases line ssid c (some []) read fits key e = inr (record {
    ssid = ssid;
    password = [];
    ssid_read = read;
    password_read = inr (key, e);
    ssid_fits = fits;
    password_fits = inl refl;
    called = refl;
  })
  password-cases line ssid c (some (d ∷ ds)) read fits key e =
      by_test (Outcome line c)
        (not (length (d ∷ ds) == 0)
          && (ltb (length (d ∷ ds)) 8 || ltb wifi_pass_max (length (d ∷ ds))))
        _ _ (λ long. inl (inr refl))
        (λ short. inr (record {
          ssid = ssid;
          password = d ∷ ds;
          ssid_read = read;
          password_read = inr (key, e);
          ssid_fits = fits;
          password_fits = inr (ground arith);
          called = refl;
        }))

  pub cmd_set_wifi-cases :
      (line : List ℕ) (c : Conn O.Ctx) (s : Option (List ℕ))
      → get_string line (codes "ssid") max_line ≡ s
      → Outcome line c (set_wifi_ssid F O line s c)
  unfolding set_wifi_ssid call_set_wifi
  cmd_set_wifi-cases line c none e = inl (inl refl)
  cmd_set_wifi-cases line c (some ssid) e =
      by_test (Outcome line c) (ltb wifi_ssid_max (length ssid)) _ _ (λ long. inl (inr refl))
        (λ short.
          let fits : length ssid ≤ 32 = ground arith in
          by_test (Outcome line c) (has_key line (codes "password")) _ _
            (λ given. password-cases line ssid c _ e fits given refl)
            (λ none_given. inr (record {
              ssid = ssid;
              password = [];
              ssid_read = e;
              password_read = inl (none_given, refl);
              ssid_fits = fits;
              password_fits = inl refl;
              called = refl;
            })))

  -- A line with the command `set_wifi` is refused with `bad_request` or `out_of_range` and nothing
  -- else is done, or the name and the password that the JSON reader finds in it, none being an empty
  -- one, are set: the name has at most 32 characters, the password none or 8 to 63. The reply then
  -- tells what `set_wifi` returned.
  pub handle_line-set_wifi :
      (line : List ℕ) (c : Conn O.Ctx)
      → get_string line (codes "cmd") 32 ≡ some (codes "set_wifi")
      → Outcome line c (handle_line F O line c)
  unfolding dispatch text_eq cmd_set_wifi
  handle_line-set_wifi line c is_set =
      rw (handle_line-eq F O line (codes "set_wifi") c is_set) (cmd_set_wifi-cases line c _ refl)
