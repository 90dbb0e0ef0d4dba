-- ===== src/Tests/Base.antt =====
-- Requests through the base chain.
use openwar.Common.{
  ℕ, ◌≡◌, refl, ap, ◌∙◌, inl, inr, true, false, Bool-cases, Option, none, some, List, [], ◌∷◌, ◌&&◌,
  if◌then◌else◌, arith,
}
use openwar.Common.Text.{Text, codes, text_eq, text_eq_iff}
use openwar.Base.{Exchange, Call, finished, panicked, Handler, base, new_mux, allow_origin}
use openwar.Base.Panics.{base_ends, inner_exchange}
use openwar.Base.Preflight.{IsMatching, preflight_refused}

abbrev fresh : Exchange
fresh = record { headers = λ k. []; code = 0; last = 0; log = [] }

abbrev get : Call
get = record { method = codes "GET"; origin = codes "shop"; request_id = codes "r-1"; ctx_id = [] }

-- A handler that panics at once.
abbrev broken : Handler ℕ
broken c e s = panicked e s

abbrev as_text : (Text → Text) → Text → Text
as_text h k = if text_eq k (codes "Content-Type") then codes "text/plain; charset=utf-8" else h k

base_ends_example :
    (f : Exchange) × (base as_text (codes "new") (codes "*" ∷ []) broken get fresh 7 ≡ finished f 7)
    × (f.log ≡ [])
    × (f.code ≡ 500)
    × (f.headers (codes "X-Request-ID") ≡ codes "r-1")
unfolding text_eq allow_origin
base_ends_example =
    base_ends (codes "new") (codes "*" ∷ []) broken get fresh 7 as_text false
      (inner_exchange (codes "new") (codes "*" ∷ []) broken get fresh 7) 7 (λ h. refl) refl refl

-- A mux of exact paths.
find : List (Text × Text) → Text → Text → Option (Text × Text)
find [] m path = none
find (p ∷ ps) m path = if text_eq p.0 m && text_eq p.1 path then some p else find ps m path

find-IsMatching : IsMatching find
unfolding find
find-IsMatching [] m path r e = cc
find-IsMatching (p ∷ ps) m path r e = elim (Bool-cases (text_eq p.0 m && text_eq p.1 path)) [
  | inl y ↦
      let q : some p ≡ some r = rw y at e in
      let q' : r ≡ p = cc in
      let t : text_eq p.0 m ≡ true = ground (arith, y) in
      (inl q', inl (ap (λ (x : Text × Text). x.0) q' ∙ (text_eq_iff p.0 m).0 t))
  | inr n ↦
      let q : find ps m path ≡ some r = rw n at e in
      let (has, method) = find-IsMatching ps m path r q in (inr has, method)
]

preflight_refused_example :
    new_mux find
      (λ e. record e { code = 405 })
      as_text
      (codes "new")
      []
      (λ r. broken)
      (codes "/healthz")
      (record get { method = codes "OPTIONS" })
      fresh
      7
    ≡ finished (record fresh { code = 405 }) 7
preflight_refused_example =
    preflight_refused find (λ e. record e { code = 405 }) as_text (codes "new") [] (λ r. broken)
      (codes "/healthz") (record get { method = codes "OPTIONS" }) fresh 7 find-IsMatching refl
