-- ===== src/Base/Health.antt =====
-- The health check behind `base`.
use openwar.Common.{
  ◌≡◌, refl, inl, inr, Bool-cases, ◌||◌, ◌∙◌, Bool, true, false, Option, List, [], ◌∷◌,
}
use openwar.Common.Text.{Text, codes, text_eq}
use openwar.Base.{
  Exchange, Call, finished, allow_origin, set, base, healthz, health_code, write_header,
}
use openwar.Base.Panics.{base_ends, inner_exchange}

-- Setting an origin's headers sends no code.
allow_origin_code :
    (origins : List Text) (origin : Text) (e : Exchange)
    → (allow_origin origins origin e).code ≡ e.code
unfolding allow_origin
allow_origin_code [] origin e = refl
allow_origin_code (o ∷ os) origin e =
    elim (Bool-cases (text_eq o (codes "*") || text_eq o origin)) [
      | inl y ↦ rw (y, allow_origin) refl
      | inr n ↦ rw (n, allow_origin) (allow_origin_code os origin e)
    ]

-- A health check that is asked for with anything but OPTIONS is answered with 503 exactly where Redis does
-- not answer the ping, and with 200 otherwise.
healthz_answer {ℓ} :
    {S : Type ℓ} (error_headers : (Text → Text) → Text → Text) (new_id : Text) (origins : List Text)
    (ping : Option Bool) (c : Call) (e : Exchange) (s : S)
    → ((h : Text → Text) → error_headers h (codes "X-Request-ID") ≡ h (codes "X-Request-ID"))
    → text_eq c.method (codes "OPTIONS") ≡ false
    → e.code ≡ 0
    → (f : Exchange) × (base error_headers new_id origins (healthz ping) c e s ≡ finished f s)
      × (f.code ≡ health_code ping)
unfolding healthz write_header
healthz_answer error_headers new_id origins ping c e s keeps m z =
    let x = inner_exchange new_id origins (healthz ping) c e s in
    let zero_code : x.code ≡ 0 = allow_origin_code origins c.origin _ ∙ z in
    let (f, q, l, k, h) =
      base_ends new_id origins (healthz ping) c e s error_headers true
        (write_header (health_code ping) (set (codes "Content-Type") (codes "application/json") x))
        s keeps m refl in
    (f, q, k ∙ rw zero_code refl)
