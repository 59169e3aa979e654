-- ===== src/Config/Required.antt =====
-- When config_load of src/config/config.c succeeds.
use dpdk_cex_source.Base.{
  ◌≡◌, ◌≢◌, ◌↔◌, refl, sym, ◌∙◌, Bool, true, false, Bool-cases, inl, inr, List, [], ◌∷◌, Option,
  none, some, All, ℕ, ◌⊎◌, map, take, bytes_eq, bytes_eq→eq, arith,
}
use dpdk_cex_source.Base.Text.{bytes}
use dpdk_cex_source.Config.{
  AppConfig, CNumbers, Env, is_missing, missing_keys, load_first, load_rest, config_load,
  or_default, lower, is_on,
}

-- The variables that have no default.
abbrev pub required_keys : List (List ℕ)
required_keys =
    bytes "OKX_API_KEY"
    ∷ bytes "OKX_API_SECRET"
    ∷ bytes "OKX_PASSPHRASE"
    ∷ bytes "BYBIT_API_KEY"
    ∷ bytes "BYBIT_API_SECRET"
    ∷ []

is_missing_iff :
    (val : Option (List ℕ)) (missing : Bool)
    → (is_missing val missing ≡ false) ↔ ((val ≢ none) × (missing ≡ false))
is_missing_iff none missing = ((λ e. cc), λ h. absurd (h.0 refl))
is_missing_iff (some v) missing = ((λ e. ((λ k. cc), e)), λ h. h.1)

module _ {I D : Type 0} (numbers : CNumbers I D) (env : Env) where
  missing_keys_iff :
      (missing_keys numbers env ≡ false) ↔ All (λ name. env name ≢ none) required_keys
  unfolding missing_keys
  missing_keys_iff = (
    λ e.
        let (h5, e4) = (is_missing_iff (env (bytes "BYBIT_API_SECRET")) _).0 e in
        let (h4, e3) = (is_missing_iff (env (bytes "BYBIT_API_KEY")) _).0 e4 in
        let (h3, e2) = (is_missing_iff (env (bytes "OKX_PASSPHRASE")) _).0 e3 in
        let (h2, e1) = (is_missing_iff (env (bytes "OKX_API_SECRET")) _).0 e2 in
        let (h1, e0) = (is_missing_iff (env (bytes "OKX_API_KEY")) _).0 e1 in
        (h1, (h2, (h3, (h4, (h5, tt))))),
    λ h. (is_missing_iff (env (bytes "BYBIT_API_SECRET")) _).1 (
      h.1.1.1.1.0,
      (is_missing_iff (env (bytes "BYBIT_API_KEY")) _).1 (
        h.1.1.1.0,
        (is_missing_iff (env (bytes "OKX_PASSPHRASE")) _).1 (
          h.1.1.0,
          (is_missing_iff (env (bytes "OKX_API_SECRET")) _).1
              (h.1.0, (is_missing_iff (env (bytes "OKX_API_KEY")) _).1 (h.0, refl)),
        ),
      ),
    ),
  )

  -- A flag: its default if the variable is not set, and otherwise on exactly for the texts `true`,
  -- in letters of either case, and `1`.
  abbrev pub IsOn : List ℕ → Type 0
  IsOn s = (map lower s ≡ bytes "true") ⊎ (s ≡ bytes "1")

  abbrev pub IsFlag : Option (List ℕ) → Bool → Bool → Type 0
  IsFlag none default_val value = value ≡ default_val
  IsFlag (some s) default_val value = (value ≡ true) ↔ IsOn s

  -- Another setting, `f` of the text of its variable.
  abbrev pub IsSetting : {A : Type 0} → Option (List ℕ) → List ℕ → (List ℕ → A) → A → Type 0
  IsSetting none default_val f value = value ≡ f default_val
  IsSetting (some s) default_val f value = value ≡ f s

  -- The eleven settings that are read behind the test of `missing`: after a failure, and after a
  -- success.
  abbrev pub IsLater : Bool → AppConfig I D → AppConfig I D → Type 0
  IsLater false c c' =
      (c'.debug_log_enabled ≡ c.debug_log_enabled)
      × (c'.enable_execution ≡ c.enable_execution)
      × (c'.log_price_enabled ≡ c.log_price_enabled)
      × (c'.log_system_enabled ≡ c.log_system_enabled)
      × (c'.log_trade_enabled ≡ c.log_trade_enabled)
      × (c'.udp_feed_enabled ≡ c.udp_feed_enabled)
      × (c'.udp_feed_port ≡ c.udp_feed_port)
      × (c'.udp_feed_address ≡ c.udp_feed_address)
      × (c'.log_price_file ≡ c.log_price_file)
      × (c'.log_system_file ≡ c.log_system_file)
      × (c'.log_trade_file ≡ c.log_trade_file)
  IsLater true c c' =
      IsFlag (env (bytes "DEBUG_LOG_ENABLED")) false c'.debug_log_enabled
      × IsFlag (env (bytes "ENABLE_EXECUTION")) false c'.enable_execution
      × IsFlag (env (bytes "LOG_PRICE_ENABLED")) true c'.log_price_enabled
      × IsFlag (env (bytes "LOG_SYSTEM_ENABLED")) true c'.log_system_enabled
      × IsFlag (env (bytes "LOG_TRADE_ENABLED")) true c'.log_trade_enabled
      × IsFlag (env (bytes "UDP_FEED_ENABLED")) true c'.udp_feed_enabled
      × IsSetting (env (bytes "UDP_FEED_PORT")) (bytes "13988") numbers.atoi c'.udp_feed_port
      × IsSetting (env (bytes "UDP_FEED_ADDRESS")) (bytes "127.0.0.1") (take 63) c'.udp_feed_address
      × IsSetting (env (bytes "LOG_PRICE_FILE")) (bytes "logs/price.log") (λ s. s) c'.log_price_file
      × IsSetting (env (bytes "LOG_SYSTEM_FILE")) (bytes "logs/system.log") (λ s. s)
          c'.log_system_file
      × IsSetting (env (bytes "LOG_TRADE_FILE")) (bytes "logs/trade.log") (λ s. s) c'.log_trade_file

  bytes_eq_self : (s : List ℕ) → bytes_eq s s ≡ true
  bytes_eq_self [] = refl
  bytes_eq_self (x ∷ xs) = ground (arith, bytes_eq_self xs)

  is_on_iff : (s : List ℕ) → (is_on s ≡ true) ↔ IsOn s
  is_on_iff s =
      (λ e. read e, λ h. elim h [ inl e ↦ rw (e, bytes_eq_self (bytes "true")) | inr e ↦ rw e ])
    where
      read : is_on s ≡ true → IsOn s
      read e = elim (Bool-cases (bytes_eq (map lower s) (bytes "true"))) [
        | inl h ↦ inl (bytes_eq→eq _ _ h)
        | inr h ↦ inr (bytes_eq→eq s (bytes "1") (ground (arith, e, h)))
      ]

  is_on-IsFlag :
      (o : Option (List ℕ)) (default_val : List ℕ) (b : Bool)
      → is_on default_val ≡ b
      → IsFlag o b (is_on (or_default o default_val))
  is_on-IsFlag none default_val b e = e
  is_on-IsFlag (some s) default_val b e = is_on_iff s

  setting_lem :
      {A : Type 0} (o : Option (List ℕ)) (default_val : List ℕ) (f : List ℕ → A)
      → IsSetting o default_val f (f (or_default o default_val))
  setting_lem none default_val f = refl
  setting_lem (some s) default_val f = refl

  load_rest-IsLater : (c c' : AppConfig I D) → IsLater true c (load_rest numbers env c')
  unfolding load_rest
  load_rest-IsLater c c' = (
    is_on-IsFlag (env (bytes "DEBUG_LOG_ENABLED")) (bytes "false") false refl,
    is_on-IsFlag (env (bytes "ENABLE_EXECUTION")) (bytes "false") false refl,
    is_on-IsFlag (env (bytes "LOG_PRICE_ENABLED")) (bytes "true") true refl,
    is_on-IsFlag (env (bytes "LOG_SYSTEM_ENABLED")) (bytes "true") true refl,
    is_on-IsFlag (env (bytes "LOG_TRADE_ENABLED")) (bytes "true") true refl,
    is_on-IsFlag (env (bytes "UDP_FEED_ENABLED")) (bytes "true") true refl,
    setting_lem (env (bytes "UDP_FEED_PORT")) (bytes "13988") numbers.atoi,
    setting_lem (env (bytes "UDP_FEED_ADDRESS")) (bytes "127.0.0.1") (take 63),
    setting_lem (env (bytes "LOG_PRICE_FILE")) (bytes "logs/price.log") (λ s. s),
    setting_lem (env (bytes "LOG_SYSTEM_FILE")) (bytes "logs/system.log") (λ s. s),
    setting_lem (env (bytes "LOG_TRADE_FILE")) (bytes "logs/trade.log") (λ s. s),
  )

  load_first-IsLater : (c : AppConfig I D) → IsLater false c (load_first numbers env c)
  unfolding load_first
  load_first-IsLater c = (refl, refl, refl, refl, refl, refl, refl, refl, refl, refl, refl)

  -- config_load succeeds exactly when the five variables without a default are set, whatever their
  -- values and whatever the other variables are; in either case the configuration holds the values
  -- of the five. If it fails, the eleven settings that are read behind the test are as before. If it
  -- succeeds, each of these has its default where its variable is not set (so nothing is executed
  -- unless ENABLE_EXECUTION is set); where it is set, a flag is on exactly for `true`, in letters of
  -- either case, and `1`, the port is atoi of the text, the address its first 63 bytes, and a log
  -- file the text.
  pub config_load_iff :
      (c : AppConfig I D)
      → let (ok, c') = config_load numbers env c in
        ((ok ≡ true) ↔ All (λ name. env name ≢ none) required_keys)
        × (c'.okx_api_key ≡ env (bytes "OKX_API_KEY"))
        × (c'.okx_api_secret ≡ env (bytes "OKX_API_SECRET"))
        × (c'.okx_passphrase ≡ env (bytes "OKX_PASSPHRASE"))
        × (c'.bybit_api_key ≡ env (bytes "BYBIT_API_KEY"))
        × (c'.bybit_api_secret ≡ env (bytes "BYBIT_API_SECRET"))
        × IsLater ok c c'
  unfolding config_load load_first load_rest
  config_load_iff c = elim (Bool-cases (missing_keys numbers env)) [
    | inl missing ↦ rw missing (
      ((λ e. cc), λ h. absurd (true_false (sym missing ∙ missing_keys_iff.1 h))),
      refl,
      refl,
      refl,
      refl,
      refl,
      load_first-IsLater c,
    )
    | inr complete ↦ rw complete (
      ((λ e. missing_keys_iff.0 complete), λ h. refl),
      refl,
      refl,
      refl,
      refl,
      refl,
      load_rest-IsLater c (load_first numbers env c),
    )
  ]
    where
      true_false : true ≡ false → ⊥
      true_false e = cc
