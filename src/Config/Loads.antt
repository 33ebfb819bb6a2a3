-- ===== src/Config/Loads.antt =====
-- What a configuration that `FromEnv` (internal/config/config.go) returns satisfies.
use chzzk_djclass_chat.Base.{
  ◌≡◌, ◌≢◌, refl, ◌⊎◌, inl, inr, Bool, true, false, not, ◌&&◌, Option, none, some, List, [], ◌∷◌,
  All, arith, Bool-cases, Option-cases, subst,
}
use chzzk_djclass_chat.Base.Text.{Text, text, text_eq, text_eq_iff}
use chzzk_djclass_chat.Config.{
  Config, Url, Environment, Std, Loaded, loaded, bad_dev, bad_base_url, dev_not_local, missing,
  getenv, dev_of, missing_names, required, read_config, is_loopback, is_web, check_url,
  check_missing, with_dev, from_env,
}

none_missing :
    (m : List (Text × Text)) → missing_names m ≡ [] → All (λ (p : Text × Text). p.1 ≢ []) m
unfolding missing_names
none_missing [] h = tt
none_missing ((name, v) ∷ m) h = elim (Bool-cases (text_eq v [])) [
  | inl e ↦ absurd (ground (arith, e, h))
  | inr e ↦ ((λ s. ground (arith, e, text_eq_iff v [], s)), none_missing m (ground (arith, e, h)))
]

module _ (std : Std) where
  -- What a configuration must satisfy for the server to start.
  pub record Usable (c : Config) : Type 0 where
    pub secrets : (c.chzzk_client_id ≢ []) × (c.chzzk_client_secret ≢ []) × (c.token_key ≢ [])
    pub address :
        (u : Url) × (std.parse_url c.base_url ≡ some u)
        × (is_web std u ≡ true)
        × (c.https ≡ text_eq u.scheme (text "https"))
        × ((c.dev ≡ false) ⊎ (is_loopback std u.hostname ≡ true))

  abbrev Fine : Loaded → Type 0
  Fine (loaded c) = Usable c
  Fine bad_dev = Unit
  Fine bad_base_url = Unit
  Fine dev_not_local = Unit
  Fine (missing names) = Unit

  check_url-Fine :
      (c : Config)
      → (c.chzzk_client_id ≢ []) × (c.chzzk_client_secret ≢ []) × (c.token_key ≢ [])
      → Fine (check_url std c (std.parse_url c.base_url))
  unfolding check_url
  check_url-Fine c s = elim (Option-cases (std.parse_url c.base_url)) [
    | inl e ↦ rw (e, check_url) tt
    | inr (u, e) ↦
        rw (e, check_url)
          (elim (Bool-cases (is_web std u)) [
            | inr w ↦ rw w tt
            | inl w ↦ rw w (elim (Bool-cases (c.dev && not (is_loopback std u.hostname))) [
              | inl d ↦ rw d tt
              | inr d ↦ rw d (record { secrets = s; address = (u, e, w, refl, ground (arith, d)) })
            ])
          ])
  ]

  check_missing-Fine :
      (c : Config) (names : List Text)
      → (names ≡ [] → (c.chzzk_client_id ≢ []) × (c.chzzk_client_secret ≢ []) × (c.token_key ≢ []))
      → Fine (check_missing std c names)
  unfolding check_missing
  check_missing-Fine c [] h = check_url-Fine c (h refl)
  check_missing-Fine c (name ∷ names) h = tt

  with_dev-Fine : (c : Config) (o : Option Bool) → Fine (with_dev std c o)
  unfolding with_dev
  with_dev-Fine c none = tt
  with_dev-Fine c (some dev) =
      check_missing-Fine (record c { dev = dev }) _
        (λ h. let a = none_missing (required c) h in (a.0, a.1.0, a.1.1.0))

  -- A configuration that is loaded has its three secrets, an absolute http or https base URL whose
  -- scheme decides whether cookies are secure, and the dev mode only at a loopback host.
  pub from_env-Usable : (env : Environment) (c : Config) → from_env std env ≡ loaded c → Usable c
  unfolding from_env
  from_env-Usable env c h =
      subst Fine h (with_dev-Fine (read_config env) (dev_of (getenv env (text "DEV"))))
