-- ===== src/Route/Spent.antt =====
-- An admission token pays for one purchase that gets past the waiting room, however that one ends.
use openwar.Common.{
  ℕ, ◌/◌, ◌<◌, ◌≡◌, ◌≢◌, refl, ◌∙◌, inl, inr, true, false, Bool, Bool-cases, Option-cases, ◌==◌,
  Option, some,
}
use openwar.Common.Text.{Text, is_empty}
use openwar.Breaker.{second}
use openwar.Redis.{Redis, IsLawful, Net, fine, lost, cut, call, absent}
use openwar.Room.{consume_admission}
use openwar.Room.Keys.{admit_key}
use openwar.Room.Tokens.{IsToken, consume_admission_lem, no_answer}
use openwar.Gateway.{
  Request, Answer, denied, answered, Handler, admission, event_of_path, token_bucket, protected,
  chain, admit_handler, admitted,
}
use openwar.Gateway.Admission.{jwt_cases, protected_needs_token}
use openwar.Bucket.{Floats, Limiter, idle_ttl, token_bucket_script}
use openwar.Idempotency.{Reply, Next}
use openwar.Route.{RouteRun, Submission, idempotent, purchase_route}
use openwar.Route.Frames.{inside_frame}

-- Whether an answer comes from behind the waiting room: not 400, 401 or 403.
abbrev pub past_room : Answer Reply → Bool
past_room (answered b) = true
past_room (denied n) = n == 429

module _ (R : Redis) (L : IsLawful R) (ev sid : Text) where
  token_gone :
      (net : Net) (d : R.Db)
      → IsToken (R.look d (admit_key ev sid))
      → (consume_admission R ev net sid d).0 ≡ some true
      → R.look (consume_admission R ev net sid d).1 (admit_key ev sid) ≡ absent
  token_gone fine d t h = (consume_admission_lem R L ev sid d t).1
  token_gone lost d t h = absurd (no_answer R L ev sid lost d (inl refl) h)
  token_gone cut d t h = absurd (no_answer R L ev sid cut d (inr refl) h)

module _ {ℓ} {E : Type ℓ} (R : Redis) (L : IsLawful R) (net : Net) where
  -- Past the waiting room the token is gone.
  admission_spends :
      (next : Handler (R.Db × E) Reply) (req : Request) (d : R.Db) (e : E)
      → ((z : R.Db) (y : E)
          → R.look (next req (z, y)).1.0 (admit_key (event_of_path req) req.session)
            ≡ R.look z (admit_key (event_of_path req) req.session))
      → IsToken (R.look d (admit_key (event_of_path req) req.session))
      → past_room (admission R net next req (d, e)).0 ≡ true
      → R.look (admission R net next req (d, e)).1.0 (admit_key (event_of_path req) req.session)
        ≡ absent
  unfolding admission
  admission_spends next req d e apart t p = elim (Bool-cases (is_empty (event_of_path req))) [
    | inl y ↦ cc (rw (y, admission) at p)
    | inr y ↦ elim (Bool-cases (is_empty req.session)) [
      | inl z ↦ cc (rw (y, z, admission) at p)
      | inr z ↦ elim (Option-cases (consume_admission R (event_of_path req) net req.session d).0) [
        | inl n ↦ cc (rw (y, z, n, admission) at p)
        | inr (ok, h) ↦ go y z ok h
      ]
    ]
  ]
    where
      go :
          is_empty (event_of_path req) ≡ false
          → is_empty req.session ≡ false
          → (ok : Bool) → (consume_admission R (event_of_path req) net req.session d).0 ≡ some ok
          → R.look (admission R net next req (d, e)).1.0 (admit_key (event_of_path req) req.session)
            ≡ absent
      go y z true h =
          rw (y, z, h, admission)
            (apart _ e ∙ token_gone R L (event_of_path req) req.session net d t h)
      go y z false h = cc (rw (y, z, h, admission) at p)

module _ {ℓ} {E : Type ℓ} (F : Floats) (R : Redis) (L : IsLawful R) (l : Limiter F) (window : ℕ)
    (parse : Text → Option Text) (lives : 0 < idle_ttl F l.capacity l.refill_rate)
    (w : 0 < window / second) where
  route_spends :
      (run : RouteRun F) (x : Submission) (next : Next R E) (req : Request) (d : R.Db) (e : E)
      → ((z : R.Db) (y : E)
          → R.look (next z y).1 (admit_key (event_of_path req) req.session)
            ≡ R.look z (admit_key (event_of_path req) req.session))
      → IsToken (R.look d (admit_key (event_of_path req) req.session))
      → past_room (purchase_route F R l window parse run x next req (d, e)).0 ≡ true
      → R.look
          (purchase_route F R l window parse run x next req (d, e)).1.0
          (admit_key (event_of_path req) req.session)
        ≡ absent
  unfolding purchase_route protected chain
  route_spends run x next req d e apart t p =
      let inner =
        token_bucket l.fail_strategy
          (λ key (s : R.Db × E).
            (let (reply, d1) =
                call run.bucket (token_bucket_script F R l key run.now (F.of_nat 1)) s.0 in
              (reply, (d1, s.1))))
          (idempotent F R l window parse run.idem x next) in
      elim (jwt_cases parse (admission R run.token inner) req (d, e)) [
        | inl r ↦ cc (rw r at p)
        | inr (uid, r) ↦
            let req1 = record req { user = uid } in
            rw r (
              admission_spends R L run.token inner req1 d e
                (λ z y.
                  inside_frame F R L l window parse lives w run x next req1 z y (event_of_path req)
                    req.session apart)
                t (rw r at p))
      ]

  -- An admission token pays for one purchase that gets past the waiting room, however that
  -- purchase ends. If a purchase is answered from behind the room, by the limiter with 429 or by
  -- the idempotency keys or the proxy, then no later purchase of the same session and event is let
  -- through, with the same idempotency key or another, until a token is issued again. The key of
  -- the token holds a token or nothing, the proxy's side leaves it alone, the window is at least a
  -- second and buckets have a positive time to live.
  pub token_spent :
      (run run' : RouteRun F) (x x' : Submission) (next next' : Next R E) (req req' : Request)
      (d : R.Db) (e e' : E)
      → ((z : R.Db) (y : E)
          → R.look (next z y).1 (admit_key (event_of_path req) req.session)
            ≡ R.look z (admit_key (event_of_path req) req.session))
      → IsToken (R.look d (admit_key (event_of_path req) req.session))
      → past_room (purchase_route F R l window parse run x next req (d, e)).0 ≡ true
      → event_of_path req' ≡ event_of_path req
      → req'.session ≡ req.session
      → (b : Reply)
      → (purchase_route F R l window parse run' x' next' req'
          ((purchase_route F R l window parse run x next req (d, e)).1.0, e')).0
        ≢ answered b
  unfolding purchase_route
  token_spent run run' x x' next next' req req' d e e' apart t p same_event same_session b =
      protected_needs_token R L run'.token parse l.fail_strategy _ _ req' _ e'
        (rw (same_event, same_session) (route_spends run x next req d e apart t p)) b

  -- Once `POST /event/{id}/admit` has answered a session that it is admitted, the purchase of that
  -- session and event is not let through, however the trips go: the handler has consumed the token
  -- that the purchase needs.
  pub admit_spends :
      (net : Net) (event session : Text) (run : RouteRun F) (x : Submission) (next : Next R E)
      (req : Request) (d : R.Db) (e : E)
      → IsToken (R.look d (admit_key event session))
      → (admit_handler R event session net d).0 ≡ admitted
      → event_of_path req ≡ event
      → req.session ≡ session
      → (b : Reply)
      → (purchase_route F R l window parse run x next req
          ((admit_handler R event session net d).1, e)).0
        ≢ answered b
  unfolding purchase_route admit_handler
  admit_spends net event session run x next req d e t p same_event same_session b =
      protected_needs_token R L run.token parse l.fail_strategy _ _ req _ e
        (rw (same_event, same_session) gone) b
    where
      go :
          is_empty session ≡ false
          → (ok : Bool) → (consume_admission R event net session d).0 ≡ some ok
          → R.look (admit_handler R event session net d).1 (admit_key event session) ≡ absent
      go z true h = rw (z, admit_handler) (token_gone R L event session net d t h)
      go z false h = cc (rw (z, h, admit_handler) at p)

      gone : R.look (admit_handler R event session net d).1 (admit_key event session) ≡ absent
      gone = elim (Bool-cases (is_empty session)) [
        | inl z ↦ cc (rw (z, admit_handler) at p)
        | inr z ↦ elim (Option-cases (consume_admission R event net session d).0) [
          | inl n ↦ cc (rw (z, n, admit_handler) at p)
          | inr (ok, h) ↦ go z ok h
        ]
      ]
