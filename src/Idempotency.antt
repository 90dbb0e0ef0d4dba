-- ===== src/Idempotency.antt =====
-- internal/middleware/idempotency/idempotency.go: the middleware that lets a request with a key run once.
-- The handler behind it works on the server's data and on a state of its own; what it writes to the
-- response is a list of writes. The body arrives as http.MaxBytesReader delivers it.
pub mod Once
pub mod Frame
pub mod Kept
pub mod Replay
use openwar.Common.{
  ℕ, zero, suc, ◌+◌, ◌*◌, ◌/◌, ◌-◌, Bool, true, false, not, ◌&&◌, ◌||◌, Option, none, some, List,
  [], ◌∷◌, ◌++◌, ◌==◌, leb, ltb, take, length, if◌then◌else◌,
}
use openwar.Common.Text.{Text, codes, text_eq, is_empty}
use openwar.Common.Text.Decimal.{decimal, value}
use openwar.Breaker.{second}
use openwar.Redis.{Redis, Net, call, fields_of}
use openwar.Lua.{claim_idem}

-- The characters of the pattern `uuidV4`.
pub data Class : Type 0 where
  hex dash four variant : Class

abbrev pub is_hex : ℕ → Bool
is_hex c = leb b'0' c && leb c b'9' || leb b'a' c && leb c b'f'

abbrev pub in_class : Class → ℕ → Bool
in_class hex c = is_hex c
in_class dash c = c == b'-'
in_class four c = c == b'4'
in_class variant c = c == b'8' || c == b'9' || c == b'a' || c == b'b'

unfoldable pub matches : List Class → Text → Bool
matches [] [] = true
matches [] (c ∷ s) = false
matches (k ∷ ks) [] = false
matches (k ∷ ks) (c ∷ s) = in_class k c && matches ks s

abbrev pub hexes : ℕ → List Class → List Class
hexes zero rest = rest
hexes (suc n) rest = hex ∷ hexes n rest

-- `uuidV4`
abbrev pub uuid_v4 : List Class
uuid_v4 =
    hexes 8 (dash ∷ hexes 4 (dash ∷ four ∷ hexes 3 (dash ∷ variant ∷ hexes 3 (dash ∷ hexes 12 []))))

-- One call on the response writer.
pub data Written : Type 0 where
  header : ℕ → Written
  bytes : Text → Written

-- `responseRecorder`, but for the writer that it passes everything on to.
pub record Recorder : Type 0 where
  pub status : ℕ
  pub body : Text

abbrev pub max_cached_response : ℕ
max_cached_response = 1048576

-- `Write`
abbrev pub record_bytes : Text → Recorder → Recorder
record_bytes b r = record {
  status = if r.status == 0 then 200 else r.status;
  body =
      if ltb (length r.body) max_cached_response
      then (if ltb (max_cached_response - length r.body) (length b)
          then r.body ++ take (max_cached_response - length r.body) b
          else r.body ++ b)
      else r.body;
}

abbrev pub record_one : Written → Recorder → Recorder
record_one (header code) r = record r { status = code }
record_one (bytes b) r = record_bytes b r

unfoldable pub record_all : List Written → Recorder → Recorder
record_all [] r = r
record_all (w ∷ ws) r = record_all ws (record_one w r)

abbrev pub recorded : List Written → Recorder
recorded ws = record_all ws (record { status = 0; body = [] })

pub data Body : Type 0 where
  read : Text → Body
  too_large unreadable : Body

-- What the middleware reads of a request; a path value that the route does not have is empty.
pub record Request : Type 0 where
  pub is_post : Bool
  pub idempotency_key : Text
  pub path : Text
  pub body : Body
  pub path_event : Text
  pub path_id : Text
  pub user : Text

-- What the client gets: what the handler wrote, an error with its code, or an earlier response.
pub data Reply : Type 0 where
  passed : List Written → Reply
  error : ℕ → Reply
  replayed : ℕ → Text → Reply

-- How the trips of one call go; the time is in milliseconds.
pub record IdemRun : Type 0 where
  pub claim : Net
  pub snapshot : Net
  pub save : Net
  pub extend : Net
  pub now_ms : ℕ

-- `idem:%s:%s:%s`
unfoldable pub idem_key : Request → Text
idem_key r =
    codes "idem:"
    ++ (r.user
        ++ (codes ":"
            ++ ((if is_empty r.path_event then r.path_id else r.path_event)
                ++ (codes ":" ++ r.idempotency_key))))

abbrev pub text_or_empty : Option Text → Text
text_or_empty none = []
text_or_empty (some t) = t

abbrev pub Next {ℓ} : Redis → Type ℓ → Type ℓ
Next R E = R.Db → E → List Written × R.Db × E

-- The stored response, if there is one.
pub replay : Option (Text → Option Text) → Reply
replay none = error 409
replay (some f) =
    if is_empty (text_or_empty (f (codes "respBody")))
    then error 409
    else replayed (value 0 (text_or_empty (f (codes "statusCode"))))
        (text_or_empty (f (codes "respBody")))

module _ (R : Redis) (window : ℕ) where
  -- After the handler: the outcome is kept under the key, whose errors are ignored.
  keep_outcome : IdemRun → Text → Text → Recorder → R.Db → R.Db
  keep_outcome run key print r d =
      let d1 =
        (call {A = Unit {0}} run.save
          (λ x. (
            tt,
            if leb 500 r.status
                then R.hset (R.hset x key (codes "status") (codes "FAILED")) key
                    (codes "fingerprint") print
                else R.hset
                    (R.hset (R.hset x key (codes "status") (codes "COMPLETED")) key
                      (codes "respBody") r.body)
                    key (codes "statusCode") (decimal r.status),
          ))
          d).1 in
      (call {A = Unit {0}} run.extend (λ x. (tt, R.expire x key window)) d1).1

module _ {ℓ} {E : Type ℓ} (R : Redis) (window : ℕ) where
  run_next : Next R E → IdemRun → Text → Text → R.Db → E → Reply × R.Db × E
  unfolding keep_outcome
  run_next next run key print d e =
      let (ws, d1, e1) = next d e in
      (passed ws, keep_outcome R window run key print (recorded ws) d1, e1)

  on_claim : Next R E → IdemRun → Text → Text → Option Text → R.Db → E → Reply × R.Db × E
  unfolding run_next replay
  on_claim next run key print none d e = (error 503, d, e)
  on_claim next run key print (some word) d e =
      if text_eq word (codes "DUPLICATE")
      then (let (f, d1) = call run.snapshot (λ x. (fields_of (R.look x key), x)) d in
          (replay f, d1, e))
      else if text_eq word (codes "MISMATCH")
      then (error 422, d, e)
      else run_next next run key print d e

  claimed : Next R E → IdemRun → Text → Text → R.Db → E → Reply × R.Db × E
  unfolding on_claim
  claimed next run key print d e =
      let (word, d1) =
        call run.claim
          (λ x.
            (let (r, x1) = claim_idem R key (window / second) print (decimal run.now_ms) x in
              (r.1, x1)))
          d in
      on_claim next run key print word d1 e

  on_body : Next R E → IdemRun → Request → Body → R.Db → E → Reply × R.Db × E
  unfolding claimed
  on_body next run req too_large d e = (error 413, d, e)
  on_body next run req unreadable d e = (error 400, d, e)
  on_body next run req (read b) d e =
      claimed next run (idem_key req) (req.path ++ (codes ":" ++ b)) d e

  -- `Middleware`
  unfoldable pub middleware : Next R E → IdemRun → Request → R.Db → E → Reply × R.Db × E
  unfolding on_body
  middleware next run req d e =
      if not req.is_post
      then (let (ws, d1, e1) = next d e in (passed ws, d1, e1))
      else if is_empty req.idempotency_key
      then (error 400, d, e)
      else if not (matches uuid_v4 req.idempotency_key)
      then (error 400, d, e)
      else on_body next run req req.body d e
