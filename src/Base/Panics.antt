-- ===== src/Base/Panics.antt =====
-- A handler that panics: the answer, and the line of the log that it does not leave.
use openwar.Common.{◌≡◌, refl, ◌∙◌, Bool, true, false, List, [], ◌∷◌, ◌++◌, ◌==◌, if◌then◌else◌}
use openwar.Common.Text.{Text, codes, text_eq}
use openwar.Base.{
  Exchange, Call, finished, panicked, Handler, id_of, set, recovery, request_id, logger, cors,
  allow_origin, write_header, base,
}

module _ {ℓ} {S : Type ℓ} (new_id : Text) (origins : List Text) (next : Handler S) (c : Call)
    (e : Exchange) (s : S) where
  -- What the handler is called with.
  abbrev pub inner_call : Call
  inner_call = record c { ctx_id = id_of new_id c }

  abbrev logged_exchange : Exchange
  logged_exchange = record (set (codes "X-Request-ID") (id_of new_id c) e) { last = 0 }

  abbrev pub inner_exchange : Exchange
  inner_exchange = allow_origin origins c.origin logged_exchange

  cors-next :
      (d : Call) (x : Exchange)
      → text_eq d.method (codes "OPTIONS") ≡ false
      → cors origins next d x s ≡ next d (allow_origin origins d.origin x) s
  unfolding cors
  cors-next d x m = rw m refl

  -- For a request other than OPTIONS, whether the handler behind `base` finishes or panics, `base`
  -- answers. If it finishes, the log gets exactly one line, the request id with the status last
  -- asked for, or 200 if none was, and the code is the handler's; if it panics, no line is added
  -- to what it left in the log, and the code is the one it had already sent, or 500. X-Request-ID
  -- is what the handler left, given that `http.Error` keeps that header.
  pub base_ends :
      (error_headers : (Text → Text) → Text → Text) (ok : Bool) (e' : Exchange) (s' : S)
      → ((h : Text → Text) → error_headers h (codes "X-Request-ID") ≡ h (codes "X-Request-ID"))
      → text_eq c.method (codes "OPTIONS") ≡ false
      → next inner_call inner_exchange s ≡ (if ok then finished e' s' else panicked e' s')
      → (f : Exchange) × (base error_headers new_id origins next c e s ≡ finished f s')
        × (f.log ≡ (
            if ok
            then e'.log ++ (id_of new_id c, if e'.last == 0 then 200 else e'.last) ∷ []
            else e'.log))
        × (f.code ≡ (if ok then e'.code else if e'.code == 0 then 500 else e'.code))
        × (f.headers (codes "X-Request-ID") ≡ e'.headers (codes "X-Request-ID"))
  unfolding base recovery request_id logger text_eq
  base_ends error_headers true e' s' keeps m p =
      let q = cors-next inner_call logged_exchange m ∙ p in
      (
        record e' { log = e'.log ++ (id_of new_id c, if e'.last == 0 then 200 else e'.last) ∷ [] },
        rw (q, recovery, logger) refl,
        refl,
        refl,
        refl,
      )
  base_ends error_headers false e' s' keeps m p =
      let q = cors-next inner_call logged_exchange m ∙ p in
      (
        write_header 500 (record e' { headers = error_headers e'.headers }),
        rw (q, recovery, logger) refl,
        refl,
        refl,
        keeps e'.headers,
      )
