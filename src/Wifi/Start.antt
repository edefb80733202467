-- ===== src/Wifi/Start.antt =====
-- `wifi_init` of firmware/main/wifi.c.
use s3_bme.Base.{
  ℕ, ◌≡◌, ◌↔◌, ◌⊎◌, refl, sym, ◌∙◌, arith, if◌then◌else◌, not, ◌&&◌, Bool, true, false, Bool-cases,
  inl, inr, Option, none, some, List, [], ◌∷◌,
}
use s3_bme.Wifi.{
  off, connecting, Call, netif_init, event_loop, create_sta, driver_init, set_storage,
  register_wifi_events, register_ip_events, timer_create, set_mode, start, Answers, Wifi, call,
  apply_config,
}

-- It returns, with `true` for ESP_OK, or ESP_ERROR_CHECK stops the program.
pub data Ending : Type 0 where
  returns : Bool → Ending
  aborts : Ending

-- The calls under ESP_ERROR_CHECK, in their order.
abbrev pub under_check : List Call
under_check = set_storage ∷ register_wifi_events ∷ register_ip_events ∷ timer_create ∷ set_mode ∷ []

-- The calls whose failure stops the program: esp_netif_create_default_wifi_sta stops it itself.
abbrev pub checked : List Call
checked = create_sta ∷ under_check

-- The calls are made up to the first that fails; `false` tells that one did.
unfoldable pub check_all : Answers → List Call → Wifi → Bool × Wifi
unfolding call
check_all answers [] w = (true, w)
check_all answers (c ∷ cs) w =
    let rest = check_all answers cs (call c w) in if answers c then rest else (false, call c w)

-- From the credentials on, those that the settings hold.
unfoldable pub connect_stored : Answers → Option (List ℕ × List ℕ) → Wifi → Ending × Wifi
unfolding call
connect_stored answers none w = (returns true, w)
connect_stored answers (some (ssid, password)) w =
    let d = call (apply_config ssid password) w in
    if not (answers (apply_config ssid password))
    then (returns false, d)
    else if answers start
    then (
      returns true,
      call start (record d { want_connect = true; state = connecting; started = true }),
    )
    else (
      returns false,
      call start (record d { want_connect = false; state = off; started = false }),
    )

-- What follows the checked calls, of which `fine` tells whether all were answered with ESP_OK.
unfoldable pub go_on : Answers → Option (List ℕ × List ℕ) → Bool → Wifi → Ending × Wifi
unfolding connect_stored
go_on answers credentials true w = connect_stored answers credentials w
go_on answers credentials false w = (aborts, w)

-- `wifi_init`. The answer of `event_loop` is `true` for ESP_ERR_INVALID_STATE too.
unfoldable pub init : Answers → Option (List ℕ × List ℕ) → Wifi → Ending × Wifi
unfolding call check_all go_on
init answers credentials w =
    let a = call netif_init w in
    let b = call event_loop a in
    let sta = call create_sta b in
    let c = call driver_init sta in
    if not (answers netif_init)
    then (returns false, a)
    else if not (answers event_loop)
    then (returns false, b)
    else if not (answers create_sta)
    then (aborts, sta)
    else if not (answers driver_init)
    then (returns false, c)
    else let (fine, d) = check_all answers under_check c in go_on answers credentials fine d

-- Every call of the list is answered with ESP_OK.
abbrev pub all_pass : Answers → List Call → Bool
all_pass answers [] = true
all_pass answers (c ∷ cs) = answers c && all_pass answers cs

-- `settings_wifi_credentials` is called: the calls in front of it were answered with ESP_OK.
abbrev pub reads_credentials : Answers → Bool
reads_credentials answers =
    answers netif_init && (answers event_loop && (answers driver_init && all_pass answers checked))

check_all_lem :
    (answers : Answers) (cs : List Call) (w : Wifi)
    → (check_all answers cs w).0 ≡ all_pass answers cs
unfolding check_all
check_all_lem answers [] w = refl
check_all_lem answers (c ∷ cs) w = elim (Bool-cases (answers c)) [
  | inl passed ↦ rw passed (check_all_lem answers cs (call c w))
  | inr refused ↦ rw refused refl
]

-- `wifi_init` stops the program only at a checked call.
connect_stored-returns :
    (answers : Answers) (credentials : Option (List ℕ × List ℕ)) (w : Wifi)
    → (up : Bool) × ((connect_stored answers credentials w).0 ≡ returns up)
unfolding connect_stored
connect_stored-returns answers none w = (true, refl)
connect_stored-returns answers (some (ssid, password)) w =
    elim (Bool-cases (answers (apply_config ssid password))) [
      | inr refused ↦ (false, rw refused refl)
      | inl taken ↦ elim (Bool-cases (answers start)) [
        | inl up ↦ (true, rw (taken, up) refl)
        | inr down ↦ (false, rw (taken, down) refl)
      ]
    ]

-- The end of `wifi_init`.
ended :
    (answers : Answers) (credentials : Option (List ℕ × List ℕ)) (fine : Bool) (w : Wifi)
    → ((go_on answers credentials fine w).0 ≡ aborts) ↔ (fine ≡ false)
unfolding go_on
ended answers credentials false w = (λ e. refl, λ e. refl)
ended answers credentials true w =
    let (up, e) = connect_stored-returns answers credentials w in
    (λ stopped. cc (sym e ∙ stopped), λ never. cc never)

refuses-all_pass :
    (answers : Answers)
    → (all_pass answers under_check ≡ false) ↔ (
        (answers set_storage ≡ false)
        ⊎ (answers register_wifi_events ≡ false)
        ⊎ (answers register_ip_events ≡ false)
        ⊎ (answers timer_create ≡ false)
        ⊎ (answers set_mode ≡ false))
refuses-all_pass answers = (λ e. ground arith, λ h. ground arith)

pub init-aborts :
    (answers : Answers) (credentials : Option (List ℕ × List ℕ)) (w : Wifi)
    → ((init answers credentials w).0 ≡ aborts) ↔ (
        (answers netif_init ≡ true)
        × (answers event_loop ≡ true)
        × ((answers create_sta ≡ false)
            ⊎ ((answers create_sta ≡ true)
                × (answers driver_init ≡ true)
                × ((answers set_storage ≡ false)
                    ⊎ (answers register_wifi_events ≡ false)
                    ⊎ (answers register_ip_events ≡ false)
                    ⊎ (answers timer_create ≡ false)
                    ⊎ (answers set_mode ≡ false)))))
unfolding init
init-aborts answers credentials w =
    let c : Wifi = call driver_init (call create_sta (call event_loop (call netif_init w))) in
    let at_end =
      ended answers credentials (check_all answers under_check c).0
        (check_all answers under_check c).1 in
    let same = check_all_lem answers under_check c in
    let named = refuses-all_pass answers in
    elim (Bool-cases (answers netif_init)) [
      | inr off_ ↦ rw off_ (λ e. cc e, λ (p, q, r). cc p)
      | inl a ↦ elim (Bool-cases (answers event_loop)) [
        | inr off_ ↦ rw (a, off_) (λ e. cc e, λ (p, q, r). cc q)
        | inl b ↦ elim (Bool-cases (answers create_sta)) [
          | inr off_ ↦ rw (a, b, off_) (λ e. (refl, refl, inl refl), λ _. refl)
          | inl n ↦ elim (Bool-cases (answers driver_init)) [
            | inr off_ ↦ rw (a, b, n, off_) (λ e. cc e, λ (p, q, r). ground arith)
            | inl d ↦
                rw (a, b, n, d)
                  (
                    λ e. (refl, refl, inr (refl, refl, named.0 (sym same ∙ at_end.0 e))),
                    λ (p, q, r).
                        at_end.1 (same ∙ elim r [ inl x ↦ cc x | inr (x, y, z) ↦ named.1 z ]),
                  )
          ]
        ]
      ]
    ]

-- It stops only at a call whose failure does so.
pub aborts-all_pass :
    (answers : Answers) (credentials : Option (List ℕ × List ℕ)) (w : Wifi)
    → (init answers credentials w).0 ≡ aborts
    → all_pass answers checked ≡ false
aborts-all_pass answers credentials w e = ground (
  arith,
  (init-aborts answers credentials w).0 e,
  (refuses-all_pass answers).0,
  (refuses-all_pass answers).1,
)
