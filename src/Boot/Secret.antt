-- ===== src/Boot/Secret.antt =====
-- The secret that a gateway serves with.
use openwar.Common.{
  ◌≤◌, ◌≡◌, refl, sym, ◌∙◌, inl, inr, Bool, Bool-cases, Option, none, some, Option-cases, List, [],
  ◌∷◌, length, arith,
}
use openwar.Common.Int.{ℤ}
use openwar.Common.Text.{Text, codes, text_eq, is_empty}
use openwar.Config.{Config, load, validate, validate_iff, getenv}
use openwar.Boot.{
  Gateway, gateway_serves, gateway, parsed_gateway, start_gateway, override_rate, positive,
}

-- The secret that a gateway serves with.
abbrev pub secret_of {ℓ} : {U : Type ℓ} → Gateway U → Option Text
secret_of (gateway_serves d) = some d.jwt_secret
secret_of _ = none

module _ (env : Text → Text) (trim : Text → Text) (atoi duration : Text → Option ℤ) where
  abbrev pub cfg : Config
  cfg = load env trim atoi duration

  abbrev pub secret : Text
  secret = env (codes "JWT_SECRET")

  -- The secret of a valid configuration is that of the environment, not the default.
  pub valid_secret : validate cfg ≡ none → (32 ≤ length secret) × (cfg.jwt_secret ≡ secret)
  unfolding load getenv
  valid_secret e = elim (Bool-cases (is_empty secret)) [
    | inl y ↦
        let n : 32 ≤ length cfg.jwt_secret = (validate_iff cfg).0 e in
        let d : length cfg.jwt_secret ≡ 20 = rw y refl in absurd (omega arith)
    | inr y ↦
        let same : cfg.jwt_secret ≡ secret = rw y refl in
        (rw same at ((validate_iff cfg).0 e), same)
  ]

  module _ {ℓ} {U : Type ℓ} (parse_url : Text → Option U) (flags : List Text → Option ℤ)
      (ping : Bool) (t : Text) where
    start-secret :
        (c : Config)
        → secret_of (start_gateway parse_url ping c) ≡ some t
        → (validate c ≡ none) × (t ≡ c.jwt_secret)
    unfolding start_gateway
    start-secret c e = elim (Option-cases (validate c)) [
      | inr (x, v) ↦ let no : none ≡ some t = sym (rw (v, start_gateway) refl) ∙ e in cc
      | inl v ↦ elim (Bool-cases ping) [
        | inr p ↦ let no : none ≡ some t = sym (rw (v, p, start_gateway) refl) ∙ e in cc
        | inl p ↦ elim (Option-cases (parse_url c.backend_url)) [
          | inl q ↦ let no : none ≡ some t = sym (rw (v, p, q, start_gateway) refl) ∙ e in cc
          | inr (u, q) ↦
              let yes : some c.jwt_secret ≡ some t = sym (rw (v, p, q, start_gateway) refl) ∙ e in
              (v, cc)
        ]
      ]
    ]

    parsed-secret :
        (args : List Text)
        → secret_of (parsed_gateway parse_url flags ping cfg args) ≡ some t
        → (validate cfg ≡ none) × (t ≡ cfg.jwt_secret)
    unfolding parsed_gateway override_rate validate
    parsed-secret args e = elim (Option-cases (flags args)) [
      | inl n ↦ let no : none ≡ some t = sym (rw (n, parsed_gateway) refl) ∙ e in cc
      | inr (rate, n) ↦ elim (Bool-cases (positive rate)) [
        | inl p ↦
            start-secret (record cfg { admission_rate = rate })
              (rw (n, p, parsed_gateway, override_rate) at e)
        | inr p ↦ start-secret cfg (rw (n, p, parsed_gateway, override_rate) at e)
      ]
    ]

    pub gateway-secret :
        (args : List Text)
        → secret_of (gateway parse_url flags ping cfg args) ≡ some t
        → (validate cfg ≡ none) × (t ≡ cfg.jwt_secret)
    unfolding gateway
    gateway-secret [] e = parsed-secret [] e
    gateway-secret (a ∷ args) e = elim (Bool-cases (text_eq a (codes "seed-events"))) [
      | inl y ↦ let no : none ≡ some t = sym (rw (y, gateway) refl) ∙ e in cc
      | inr y ↦ elim (Bool-cases (text_eq a (codes "serve"))) [
        | inl z ↦ parsed-secret args (rw (y, z, gateway) at e)
        | inr z ↦ parsed-secret (a ∷ args) (rw (y, z, gateway) at e)
      ]
    ]
