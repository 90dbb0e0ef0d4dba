-- ===== src/Gateway.antt =====
-- internal/router and internal/middleware: the chain in front of a purchase, and the handlers of the
-- waiting room. A handler works on the server's data and a state `E` of its own, and what it answers is
-- a parameter; golang-jwt, which checks a token, and the bucket's script are parameters too.
pub mod Admission
use openwar.Common.{
  ℕ, ◌+◌, ◌*◌, ◌==◌, Bool, true, false, ◌&&◌, Option, none, some, List, [], ◌∷◌, ◌++◌, leb,
  if◌then◌else◌,
}
use openwar.Common.Int.{ℤ, pos, negsuc}
use openwar.Common.Text.{Text, codes, is_empty}
use openwar.Common.Text.Decimal.{value}
use openwar.Common.Text.Last.{cut_prefix}
use openwar.Redis.{Redis, Net}
use openwar.Lua.{Item, int, bulk}
use openwar.Inventory.{is_one}
use openwar.Room.{Position, position, join, status, heartbeat, consume_admission}

-- What the chain reads of a request; the user is set by `JWT`, and a missing value is empty.
pub record Request : Type 0 where
  pub authorization : Text
  pub path_event : Text
  pub path_id : Text
  pub session : Text
  pub user : Text

-- A middleware's error with its code, or what the last handler answers.
pub data Answer {ℓ} (A : Type ℓ) : Type ℓ where
  denied : ℕ → Answer A
  answered : A → Answer A

abbrev pub Handler {ℓ κ} : Type ℓ → Type κ → Type (ℓ ⊔ κ)
Handler S A = Request → S → Answer A × S

-- `Chain`: the first middleware is the outermost.
unfoldable pub chain {ℓ κ} :
    {S : Type ℓ} {A : Type κ} → List (Handler S A → Handler S A) → Handler S A → Handler S A
chain [] next = next
chain (m ∷ ms) next = m (chain ms next)

-- `JWT`: the parser gives the uid claim of a token that is signed and valid.
unfoldable pub jwt {ℓ κ} :
    {S : Type ℓ} {A : Type κ} → (Text → Option Text) → Handler S A → Handler S A
jwt parse next req s = elim (cut_prefix req.authorization (codes "Bearer ")) [
  | none ↦ (denied 401, s)
  | some token ↦ if is_empty token then (denied 401, s) else elim (parse token) [
    | none ↦ (denied 401, s)
    | some uid ↦ if is_empty uid then (denied 401, s) else next (record req { user = uid }) s
  ]
]

abbrev pub event_of_path : Request → Text
event_of_path req = if is_empty req.path_event then req.path_id else req.path_event

-- The waiting room's middleware.
unfoldable pub admission {ℓ κ} :
    {E : Type ℓ} {A : Type κ} (R : Redis) → Net → Handler (R.Db × E) A → Handler (R.Db × E) A
admission R net next req (d, e) =
    if is_empty (event_of_path req)
    then (denied 400, (d, e))
    else if is_empty req.session
    then (denied 401, (d, e))
    else (let (r, d1) = consume_admission R (event_of_path req) net req.session d in
        elim r [
          | none ↦ (denied 403, (d1, e))
          | some ok ↦ if ok then next req (d1, e) else (denied 403, (d1, e))
        ])

-- internal/ratelimiter/limiter.go: `Result`, the retry in seconds.
pub record Result : Type 0 where
  pub allowed : Bool
  pub remaining : ℤ
  pub retry_after : ℤ
  pub err : Bool

pub data FailStrategy : Type 0 where
  fail_open fail_closed : FailStrategy

abbrev pub all_digits : Text → Bool
all_digits [] = true
all_digits (c ∷ s) = leb b'0' c && leb c b'9' && all_digits s

-- `toInt64` of what a script returns; the texts have fewer than 19 digits.
abbrev pub to_int64 : Item → ℤ
to_int64 (int n) = n
to_int64 (bulk t) = if all_digits t then pos (value 0 t) else pos 0

abbrev pub is_fail_open : FailStrategy → Bool
is_fail_open fail_open = true
is_fail_open fail_closed = false

abbrev pub failed_result : FailStrategy → Result
failed_result fs = record {
  allowed = is_fail_open fs;
  remaining = pos 0;
  retry_after = pos 0;
  err = true;
}

-- `Allow`, from the script's reply or `none` for an error.
unfoldable pub allow : FailStrategy → Option (List Item) → Result
allow fs none = failed_result fs
allow fs (some []) = failed_result fs
allow fs (some (a ∷ [])) = failed_result fs
allow fs (some (a ∷ b ∷ [])) = failed_result fs
allow fs (some (a ∷ b ∷ c ∷ rest)) = record {
  allowed = is_one (to_int64 a);
  remaining = to_int64 b;
  retry_after = to_int64 c;
  err = false;
}

-- `pathEvent`
abbrev pub bucket_event : Request → Text
bucket_event req =
    if is_empty req.path_event
    then (if is_empty req.path_id then codes "default" else req.path_id)
    else req.path_event

-- `bucketKey`
unfoldable pub bucket_key : Text → Text → Text
bucket_key event user =
    if is_empty user
    then codes "{event:" ++ (event ++ codes "}:bucket")
    else codes "{event:" ++ (event ++ (codes "}:bucket:" ++ user))

-- The token bucket's middleware; the script is run on the state.
unfoldable pub token_bucket {ℓ κ} :
    {S : Type ℓ} {A : Type κ}
    → FailStrategy
    → (Text → S → Option (List Item) × S)
    → Handler S A
    → Handler S A
token_bucket fs script next req s =
    let (reply, s1) = script (bucket_key (bucket_event req) req.user) s in
    if (allow fs reply).allowed then next req s1 else (denied 429, s1)

-- The chain `protected` of `New`, up to the idempotency keys, which belong to the handler here.
unfoldable pub protected {ℓ κ} :
    {E : Type ℓ} {A : Type κ} (R : Redis)
    → (Text → Option Text)
    → Net
    → FailStrategy
    → (Text → R.Db × E → Option (List Item) × (R.Db × E))
    → Handler (R.Db × E) A
    → Handler (R.Db × E) A
unfolding chain
protected R parse net fs script next =
    chain (jwt parse ∷ admission R net ∷ token_bucket fs script ∷ []) next

-- What a handler of the waiting room answers: an error with its code, or 200 or 202 with these fields.
pub data RoomReply : Type 0 where
  room_error : ℕ → RoomReply
  joined : Text → Option ℕ → RoomReply
  at_position : Position → RoomReply
  admitted : RoomReply

module _ (R : Redis) (event : Text) where
  -- `join`: the limiter's verdict on the address comes first, and a new session id is made if there is none.
  unfoldable pub join_handler : Bool → Text → Text → Net → ℕ → ℕ → R.Db → RoomReply × R.Db
  join_handler allowed session new_sid net hb_ttl score d =
      if allowed
      then (let sid = if is_empty session then new_sid else session in
          let (r, d1) = join R event net hb_ttl score sid d in
          (elim r [ none ↦ room_error 500 | some place ↦ joined sid place ], d1))
      else (room_error 429, d)

  unfoldable pub status_handler : Text → Net → Net → R.Db → RoomReply × R.Db
  status_handler session net net' d =
      if is_empty session
      then (room_error 401, d)
      else (let (r, d1) = status R event net net' session d in
          (elim r [ none ↦ room_error 500 | some p ↦ at_position p ], d1))

  unfoldable pub heartbeat_handler : Text → Net → ℕ → R.Db → RoomReply × R.Db
  heartbeat_handler session net hb_ttl d =
      if is_empty session
      then (room_error 401, d)
      else (let (r, d1) = heartbeat R event net hb_ttl session d in
          (elim r [ none ↦ room_error 500 | some p ↦ at_position p ], d1))

  unfoldable pub admit_handler : Text → Net → R.Db → RoomReply × R.Db
  admit_handler session net d =
      if is_empty session
      then (room_error 401, d)
      else (let (r, d1) = consume_admission R event net session d in
          (
            elim r [ none ↦ room_error 500 | some ok ↦ (if ok then admitted else room_error 403) ],
            d1,
          ))
