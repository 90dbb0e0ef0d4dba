-- ===== src/Tests/Gateway.antt =====
-- The gateway: a purchase without a token, a repeated purchase, and a configuration.
use openwar.Common.{ℕ, ◌≡◌, ◌≢◌, ◌*◌, refl, arith, true, Option, some, List, [], ◌∷◌}
use openwar.Common.Int.{pos}
use openwar.Common.Text.{Text, codes, text_eq}
use openwar.Redis.{Value, fine, cut}
use openwar.Redis.Memory.{memory, memory-IsLawful, empty}
use openwar.Breaker.{second}
use openwar.Lua.{Item, int, claim_idem, accept_claim}
use openwar.Gateway.{answered, fail_open, protected}
use openwar.Gateway.Admission.{protected_needs_token}
use openwar.Idempotency.{
  IdemRun, Written, header, bytes, read, passed, middleware, matches, Next, idem_key,
}
use openwar.Idempotency.Once.{executes_at_most_once}
use openwar.Idempotency.Kept.{later_reply}
use openwar.Idempotency.Replay.{IsKeyed, fingerprint, replays_first}
use openwar.Tests.Fixtures.{ada}

abbrev buy : openwar.Gateway.Request
buy = record {
  authorization = codes "Bearer t";
  path_event = [];
  path_id = codes "sale";
  session = codes "s1";
  user = [];
}

abbrev Counted : Type 0
Counted = (Text → Value) × ℕ

abbrev full : Text → Counted → Option (List Item) × Counted
full key w = (some (int (pos 1) ∷ int (pos 9) ∷ int (pos 0) ∷ []), w)

protected_needs_token_example :
    (protected {A = ℕ} memory
      (λ t. some ada)
      fine
      fail_open
      full
      (λ req w. (answered 7, w))
      buy
      (empty, 0)).0
    ≢ answered 7
protected_needs_token_example =
    protected_needs_token memory memory-IsLawful fine (λ t. some ada) fail_open full
      (λ req w. (answered 7, w)) buy empty 0 refl 7

abbrev once : openwar.Idempotency.Request
once = record {
  is_post = true;
  idempotency_key = codes "123e4567-e89b-42d3-a456-426614174000";
  path = codes "/event/sale/purchase";
  body = read (codes "{}");
  path_event = [];
  path_id = codes "sale";
  user = ada;
}

abbrev steady_run : IdemRun
steady_run = record { claim = fine; snapshot = fine; save = cut; extend = fine; now_ms = 5 }

abbrev counting : Next memory ℕ
counting d n = (header 201 ∷ bytes (codes "ok") ∷ [], d, 1)

abbrev day : ℕ
day = 86400 * second

executes_at_most_once_example :
    (middleware memory day counting steady_run once
      (middleware memory day counting steady_run once empty 0).1
      0).2
    ≡ 0
unfolding middleware matches claim_idem accept_claim openwar.Redis.call
    openwar.Idempotency.record_all text_eq
executes_at_most_once_example =
    executes_at_most_once memory memory-IsLawful day counting counting steady_run steady_run once
      once empty 0 0 (header 201 ∷ bytes (codes "ok") ∷ []) (omega arith) refl refl refl tt
      (λ x y. refl) refl refl

abbrev fine_run : IdemRun
fine_run = record steady_run { save = fine }

once-IsKeyed : IsKeyed once (codes "{}")
unfolding matches
once-IsKeyed = record { post = refl; given = refl; uuid = refl; readable = refl }

replays_first_example :
    let d1 = (middleware memory day counting fine_run once empty 0).1 in
    middleware memory day counting fine_run once d1 0 ≡ (
      later_reply
          (fingerprint once (codes "{}"))
          (fingerprint once (codes "{}"))
          (record { status = 201; body = codes "ok" }),
      d1,
      0,
    )
unfolding middleware matches claim_idem accept_claim openwar.Redis.call
    openwar.Idempotency.record_all text_eq
replays_first_example =
    replays_first memory memory-IsLawful day counting counting fine_run fine_run once once
      (codes "{}") (codes "{}") empty 0 0 (header 201 ∷ bytes (codes "ok") ∷ []) (omega arith)
      once-IsKeyed once-IsKeyed refl (refl, refl, refl) (refl, refl) tt (λ x y. refl) refl refl
