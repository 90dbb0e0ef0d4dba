-- ===== src/Base.antt =====
-- The chain `base` of internal/router/router.go with the middlewares of internal/middleware: recovery,
-- request ids, the log and CORS; and the routes that are put behind it. A handler works on what it has
-- written so far and a state of its own, and may panic; net/http's ServeMux and `http.Error` are
-- parameters.
pub mod Panics
pub mod Preflight
pub mod Health
use openwar.Common.{
  ℕ, Bool, true, false, ◌||◌, Option, none, some, List, [], ◌∷◌, ◌++◌, ◌==◌, if◌then◌else◌,
}
use openwar.Common.Text.{Text, codes, text_eq, is_empty}

-- What is written: the headers, the code that was sent, 0 before it is, the last code that a handler
-- asked for, and the lines of the log, each with a request id and a status.
pub record Exchange : Type 0 where
  pub headers : Text → Text
  pub code : ℕ
  pub last : ℕ
  pub log : List (Text × ℕ)

-- What the chain reads of a request; `ctx_id` is the request id in its context.
pub record Call : Type 0 where
  pub method : Text
  pub origin : Text
  pub request_id : Text
  pub ctx_id : Text

-- How a handler ends.
pub data Ran {ℓ} (S : Type ℓ) : Type ℓ where
  finished : Exchange → S → Ran S
  panicked : Exchange → S → Ran S

abbrev pub Handler {ℓ} : Type ℓ → Type ℓ
Handler S = Call → Exchange → S → Ran S

-- `Header().Set`
abbrev pub set : Text → Text → Exchange → Exchange
set k v e = record e { headers = λ j. if text_eq k j then v else e.headers j }

-- `WriteHeader`: only the first call sends its code.
unfoldable pub write_header : ℕ → Exchange → Exchange
write_header c e = record e { code = if e.code == 0 then c else e.code; last = c }

-- `RequestID`: the id is the client's, or a new one.
abbrev pub id_of : Text → Call → Text
id_of new_id c = if is_empty c.request_id then new_id else c.request_id

-- The loop of `CORS` over the allowed origins.
unfoldable pub allow_origin : List Text → Text → Exchange → Exchange
allow_origin [] origin e = e
allow_origin (o ∷ os) origin e =
    let rest = allow_origin os origin e in
    if text_eq o (codes "*") || text_eq o origin
    then set (codes "Access-Control-Allow-Origin") o e
    else rest

abbrev pub preflight_answer : Exchange → Exchange
preflight_answer e = write_header 204 (
    set (codes "Access-Control-Max-Age") (codes "600") (
      set (codes "Access-Control-Allow-Headers")
        (codes "Authorization, Content-Type, Idempotency-Key, X-Request-ID")
        (set (codes "Access-Control-Allow-Methods") (codes "GET, POST, OPTIONS") e)))

module _ {ℓ} {S : Type ℓ} where
  -- `Recovery`: `http.Error` leaves the headers `error_headers` and writes 500.
  unfoldable pub recovery : ((Text → Text) → Text → Text) → Handler S → Handler S
  unfolding write_header
  recovery error_headers next c e s = elim (next c e s) [
    | finished e' s' ↦ finished e' s'
    | panicked e' s' ↦
        finished (write_header 500 (record e' { headers = error_headers e'.headers })) s'
  ]

  unfoldable pub request_id : Text → Handler S → Handler S
  request_id new_id next c e s =
      next (record c { ctx_id = id_of new_id c }) (set (codes "X-Request-ID") (id_of new_id c) e) s

  -- `Logger`: one line when the handler has returned; a handler that wrote nothing counts as 200.
  unfoldable pub logger : Handler S → Handler S
  logger next c e s = elim (next c (record e { last = 0 }) s) [
    | finished e' s' ↦
        finished
          (record e' { log = e'.log ++ (c.ctx_id, if e'.last == 0 then 200 else e'.last) ∷ [] }) s'
    | panicked e' s' ↦ panicked e' s'
  ]

  -- `CORS`
  unfoldable pub cors : List Text → Handler S → Handler S
  unfolding allow_origin write_header
  cors origins next c e s =
      let e' = allow_origin origins c.origin e in
      if text_eq c.method (codes "OPTIONS") then finished (preflight_answer e') s else next c e' s

  -- `base` of `New`
  unfoldable pub base : ((Text → Text) → Text → Text) → Text → List Text → Handler S → Handler S
  base error_headers new_id origins next =
      recovery error_headers (request_id new_id (logger (cors origins next)))

-- The status of `GET /healthz`, by what the ping of Redis says; `none` is without a client.
unfoldable pub health_code : Option Bool → ℕ
health_code none = 200
health_code (some true) = 200
health_code (some false) = 503

-- The handler of `GET /healthz`, without the body that it writes.
unfoldable pub healthz {ℓ} : {S : Type ℓ} → Option Bool → Handler S
unfolding health_code write_header
healthz ping c e s =
    finished
      (write_header (health_code ping) (set (codes "Content-Type") (codes "application/json") e)) s

-- The patterns that `New` registers: a method and a path.
abbrev pub routes : List (Text × Text)
routes =
    (codes "POST", codes "/event/{id}/purchase")
    ∷ (codes "GET", codes "/healthz")
    ∷ (codes "POST", codes "/event/{id}/queue")
    ∷ (codes "GET", codes "/event/{id}/queue/status")
    ∷ (codes "POST", codes "/event/{id}/queue/heartbeat")
    ∷ (codes "POST", codes "/event/{id}/admit")
    ∷ []

-- The mux that `New` returns. `match` finds a pattern for a method and a path; a request without one
-- is answered by the mux, with 405 or 404, by `refuse`.
unfoldable pub new_mux {ℓ} :
    {S : Type ℓ}
    → (List (Text × Text) → Text → Text → Option (Text × Text))
    → (Exchange → Exchange)
    → ((Text → Text) → Text → Text)
    → Text
    → List Text
    → (Text × Text → Handler S)
    → Text
    → Handler S
new_mux match refuse error_headers new_id origins handlers path c e s =
    elim (match routes c.method path) [
      | none ↦ finished (refuse e) s
      | some r ↦ base error_headers new_id origins (handlers r) c e s
    ]
