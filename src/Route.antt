-- ===== src/Route.antt =====
-- The route of a purchase in internal/router/router.go, with every middleware of `protected`: the check of
-- the token, the waiting room, the token bucket with its script, and the idempotency keys.
pub mod Frames
pub mod Spent
use openwar.Common.{ℕ, true, Option}
use openwar.Common.Text.{Text}
use openwar.Redis.{Redis, Net, call}
use openwar.Gateway.{Request, Answer, answered, Handler, protected}
use openwar.Bucket.{Floats, Limiter, token_bucket_script}
use openwar.Idempotency.{Body, Reply, IdemRun, Next, middleware}

-- What the idempotency middleware reads of a purchase besides; the route takes POST only.
pub record Submission : Type 0 where
  pub idempotency_key : Text
  pub path : Text
  pub body : Body

-- How the trips of one purchase go, and the gateway's clock.
pub record RouteRun (F : Floats) : Type 0 where
  pub token : Net
  pub bucket : Net
  pub now : F.W
  pub idem : IdemRun

abbrev pub idem_request : Submission → Request → openwar.Idempotency.Request
idem_request x req = record {
  is_post = true;
  idempotency_key = x.idempotency_key;
  path = x.path;
  body = x.body;
  path_event = req.path_event;
  path_id = req.path_id;
  user = req.user;
}

module _ {ℓ} {E : Type ℓ} (F : Floats) (R : Redis) (l : Limiter F) (window : ℕ)
    (parse : Text → Option Text) where
  abbrev pub idempotent : IdemRun → Submission → Next R E → Handler (R.Db × E) Reply
  idempotent run x next req (d, e) =
      let (reply, d1, e1) = middleware R window next run (idem_request x req) d e in
      (answered reply, (d1, e1))

  -- The handler of `POST /event/{id}/purchase` behind `base`, with the proxy as `next`.
  unfoldable pub purchase_route : RouteRun F → Submission → Next R E → Handler (R.Db × E) Reply
  unfolding protected
  purchase_route run x next =
      protected R parse run.token l.fail_strategy
        (λ key s.
          (let (reply, d1) =
              call run.bucket (token_bucket_script F R l key run.now (F.of_nat 1)) s.0 in
            (reply, (d1, s.1))))
        (idempotent run.idem x next)
