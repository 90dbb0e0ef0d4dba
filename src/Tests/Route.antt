-- ===== src/Tests/Route.antt =====
-- Purchases of a session that has one admission token.
use openwar.Common.{ℕ, ◌≡◌, ◌≢◌, refl, true, some, [], ◌∷◌, arith, ◌*◌}
use openwar.Common.Text.{Text, codes, text_eq}
use openwar.Redis.{Value, fine, call}
use openwar.Redis.Memory.{memory, memory-IsLawful, empty}
use openwar.Lua.{consume_admit}
use openwar.Room.{consume_admission}
use openwar.Room.Keys.{admit_key, admit_prefix}
use openwar.Gateway.{
  Request, answered, jwt, admission, token_bucket, allow, admit_handler, admitted, bucket_key,
}
use openwar.Bucket.{token_bucket_script, serve}
use openwar.Idempotency.{header, bytes, read, passed, Next}
use openwar.Route.{RouteRun, Submission, purchase_route}
use openwar.Room.Tokens.{IsToken}
use openwar.Common.Text.Last.{cut_prefix}
use openwar.Route.Spent.{past_room, token_spent, admit_spends}
use openwar.Tests.Bucket.{naturals, limiter}
use openwar.Tests.Fixtures.{ada}

abbrev sale : Text
sale = codes "sale"

abbrev session_one : Text
session_one = codes "s1"

abbrev buying : Request
buying = record {
  authorization = codes "Bearer t";
  path_event = [];
  path_id = sale;
  session = session_one;
  user = [];
}

abbrev submission : Submission
submission = record {
  idempotency_key = codes "123e4567-e89b-42d3-a456-426614174000";
  path = codes "/event/sale/purchase";
  body = read (codes "{}");
}

abbrev good_run : RouteRun naturals
good_run = record {
  token = fine;
  bucket = fine;
  now = 7;
  idem = record { claim = fine; snapshot = fine; save = fine; extend = fine; now_ms = 5 };
}

-- A backend that counts its orders.
abbrev counting_orders : Next memory ℕ
counting_orders d n = (header 201 ∷ bytes (codes "ok") ∷ [], d, 1)

abbrev with_token : Text → Value
with_token = memory.set empty (admit_key sale session_one) (codes "1") 0

abbrev hour : ℕ
hour = 3600 * openwar.Breaker.second

with_token-IsToken : IsToken (with_token (admit_key sale session_one))
unfolding text_eq admit_prefix
with_token-IsToken = tt

first_passes :
    past_room
      (purchase_route naturals memory limiter hour
        (λ t. some ada)
        good_run
        submission
        counting_orders
        buying
        (with_token, 0)).0
    ≡ true
unfolding purchase_route jwt cut_prefix admission consume_admission consume_admit token_bucket
    token_bucket_script serve allow call text_eq admit_prefix bucket_key
first_passes = refl

token_spent_example :
    (purchase_route naturals memory limiter hour
      (λ t. some ada)
      good_run
      submission
      counting_orders
      buying
      (
        (purchase_route naturals memory limiter hour
            (λ t. some ada)
            good_run
            submission
            counting_orders
            buying
            (with_token, 0)).1.0,
        1,
      )).0
    ≢ answered (passed (header 201 ∷ bytes (codes "ok") ∷ []))
token_spent_example =
    token_spent naturals memory memory-IsLawful limiter hour (λ t. some ada) (omega arith)
      (omega arith) good_run good_run submission submission counting_orders counting_orders buying
      buying with_token 0 1 (λ z y. refl) with_token-IsToken first_passes refl refl
      (passed (header 201 ∷ bytes (codes "ok") ∷ []))

exchanged : (admit_handler memory sale session_one fine with_token).0 ≡ admitted
unfolding admit_handler consume_admission consume_admit call text_eq admit_prefix
exchanged = refl

admit_spends_example :
    (purchase_route naturals memory limiter hour
      (λ t. some ada)
      good_run
      submission
      counting_orders
      buying
      ((admit_handler memory sale session_one fine with_token).1, 0)).0
    ≢ answered (passed [])
admit_spends_example =
    admit_spends naturals memory memory-IsLawful limiter hour (λ t. some ada) (omega arith)
      (omega arith) fine sale session_one good_run submission counting_orders buying with_token 0
      with_token-IsToken exchanged refl refl (passed [])
