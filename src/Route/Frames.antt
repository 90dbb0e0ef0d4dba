-- ===== src/Route/Frames.antt =====
-- What the middlewares behind the waiting room leave alone.
use openwar.Common.{ℕ, ◌/◌, ◌<◌, ◌≡◌, refl, ◌∙◌, inl, inr, false, Bool-cases, Option}
use openwar.Common.Text.{Text, text_eq, is_empty}
use openwar.Breaker.{second}
use openwar.Redis.{Redis, IsLawful, call}
use openwar.Room.Keys.{admit_key, admit_prefix}
use openwar.Gateway.{Request, bucket_key, bucket_event, allow, token_bucket}
use openwar.Bucket.{Floats, Limiter, idle_ttl, token_bucket_script, serve, level}
use openwar.Bucket.Level.{look-keep_tokens}
use openwar.Idempotency.{Reply, Next, idem_key, middleware}
use openwar.Idempotency.Frame.{call_frame, middleware_frame}
use openwar.Route.{RouteRun, Submission, idem_request, idempotent}

-- The keys of a purchase are not the key of a token.
bucket_key-admit : (event user e s : Text) → text_eq (bucket_key event user) (admit_key e s) ≡ false
unfolding bucket_key admit_prefix text_eq
bucket_key-admit event user e s = elim (Bool-cases (is_empty user)) [
  | inl y ↦ rw y refl
  | inr n ↦ rw n refl
]

idem_key-admit :
    (r : openwar.Idempotency.Request) (e s : Text) → text_eq (idem_key r) (admit_key e s) ≡ false
unfolding idem_key admit_prefix text_eq
idem_key-admit r e s = refl

module _ (F : Floats) (R : Redis) (L : IsLawful R) (l : Limiter F)
    (lives : 0 < idle_ttl F l.capacity l.refill_rate) where
  bucket_frame :
      (key j : Text) (now : F.W) (d : R.Db)
      → text_eq key j ≡ false
      → R.look (token_bucket_script F R l key now (F.of_nat 1) d).1 j ≡ R.look d j
  unfolding token_bucket_script serve
  bucket_frame key j now d ne = elim (Bool-cases (F.le (F.of_nat 1) (level F R l key now d))) [
    | inl y ↦ rw (y, look-keep_tokens F R L l key lives, ne) refl
    | inr n ↦ rw (n, look-keep_tokens F R L l key lives, ne) refl
  ]

module _ {ℓ} {E : Type ℓ} (F : Floats) (R : Redis) (L : IsLawful R) (l : Limiter F) (window : ℕ)
    (parse : Text → Option Text) (lives : 0 < idle_ttl F l.capacity l.refill_rate)
    (w : 0 < window / second) where
  -- Past the waiting room the key of the token is left alone.
  pub inside_frame :
      (run : RouteRun F) (x : Submission) (next : Next R E) (req : Request) (d : R.Db) (e : E)
      (ev sid : Text)
      → ((z : R.Db) (y : E) → R.look (next z y).1 (admit_key ev sid) ≡ R.look z (admit_key ev sid))
      → R.look
          (token_bucket l.fail_strategy
            (λ key s.
              (let (reply, d1) =
                  call run.bucket (token_bucket_script F R l key run.now (F.of_nat 1)) s.0 in
                (reply, (d1, s.1))))
            (idempotent F R l window parse run.idem x next)
            req
            (d, e)).1.0
          (admit_key ev sid)
        ≡ R.look d (admit_key ev sid)
  unfolding token_bucket
  inside_frame run x next req d e ev sid apart =
      let key = bucket_key (bucket_event req) req.user in
      let script = token_bucket_script F R l key run.now (F.of_nat 1) in
      let d1 = (call run.bucket script d).1 in
      let called = call_frame R (admit_key ev sid) run.bucket script d (λ z.
        bucket_frame F R L l lives key (admit_key ev sid) run.now z
          (bucket_key-admit (bucket_event req) req.user ev sid)) in
      elim (Bool-cases (allow l.fail_strategy (call run.bucket script d).0).allowed) [
        | inl y ↦ rw y (
            middleware_frame R L window w next (admit_key ev sid) apart run.idem
              (idem_request x req) d1 e (idem_key-admit (idem_request x req) ev sid)
            ∙ called)
        | inr n ↦ rw n called
      ]
