-- ===== src/Idempotency/Once.antt =====
-- What one key lets happen: at most one execution that does not fail.
use openwar.Common.{
  ℕ, ◌/◌, ◌≡◌, ◌<◌, refl, ◌∙◌, sym, subst, inl, inr, Bool, true, false, Option, none, some, List,
  ◌++◌, arith, leb, if◌then◌else◌, Bool-cases,
}
use openwar.Common.Text.{Text, codes, text_eq, text_eq_self, is_empty}
use openwar.Common.Text.Decimal.{decimal}
use openwar.Breaker.{second}
use openwar.Redis.{Redis, IsLawful, Net, Net-cases, fine, lost, cut, call, fields_of}
use openwar.Lua.{claim_idem}
use openwar.Lua.Claim.{
  IsClaim, IsClaimed, hset-IsClaim, fields-hset, claim_claimed, claim_idem-IsClaimed,
}
use openwar.Idempotency.{
  Written, Recorder, recorded, Body, read, too_large, unreadable, Request, Reply, passed, error,
  replayed, replay, text_or_empty, IdemRun, idem_key, Next, middleware, matches, uuid_v4,
  keep_outcome, run_next, on_claim, claimed, on_body,
}

module _ (R : Redis) (L : IsLawful R) (window : ℕ) where
  saved-IsClaimed :
      (key status code text : Text) (d : R.Db)
      → text_eq status (codes "FAILED") ≡ false
      → IsClaim (R.look d key)
      → IsClaimed (
          R.look
            (R.hset
              (R.hset (R.hset d key (codes "status") status) key (codes "respBody") text)
              key
              (codes "statusCode")
              code)
            key)
  unfolding text_eq
  saved-IsClaimed key status code text d n c =
      let c1 = hset-IsClaim (R.look d key) (codes "status") status c in
      let c2 = hset-IsClaim _ (codes "respBody") text c1 in
      let s = fields-hset (R.look d key) (codes "status") status (codes "status") c in
      let s2 = fields-hset _ (codes "respBody") text (codes "status") c1 in
      let s3 = fields-hset _ (codes "statusCode") code (codes "status") c2 in
      rw (L.look-hset, text_eq_self, L.look-hset, text_eq_self, L.look-hset, text_eq_self)
        (status, s3 ∙ s2 ∙ s, n)

  keep_outcome-IsClaimed :
      (run : IdemRun) (key print : Text) (r : Recorder) (d : R.Db)
      → 0 < window
      → leb 500 r.status ≡ false
      → IsClaim (R.look d key)
      → IsClaimed (R.look d key)
      → IsClaimed (R.look (keep_outcome R window run key print r d) key)
  unfolding keep_outcome call text_eq
  keep_outcome-IsClaimed run key print r d w n c i =
      let k = saved-IsClaimed key (codes "COMPLETED") (decimal r.status) r.body d refl c in
      elim (Net-cases run.save) [
        | inl s ↦ elim (Net-cases run.extend) [
          | inl x ↦ rw (s, x, n, L.look-expire _ key window key w) k
          | inr (inl x) ↦ rw (s, x, n) k
          | inr (inr x) ↦ rw (s, x, n, L.look-expire _ key window key w) k
        ]
        | inr (inl s) ↦ elim (Net-cases run.extend) [
          | inl x ↦ rw (s, x, L.look-expire _ key window key w) i
          | inr (inl x) ↦ rw (s, x) i
          | inr (inr x) ↦ rw (s, x, L.look-expire _ key window key w) i
        ]
        | inr (inr s) ↦ elim (Net-cases run.extend) [
          | inl x ↦ rw (s, x, n, L.look-expire _ key window key w) k
          | inr (inl x) ↦ rw (s, x, n) k
          | inr (inr x) ↦ rw (s, x, n, L.look-expire _ key window key w) k
        ]
      ]

  -- What a call leaves of the key, by its reply.
  After : Text → Reply → R.Db → Type 0
  After key (passed ws) d = leb 500 (recorded ws).status ≡ false → IsClaimed (R.look d key)
  After key (error code) d = Unit
  After key (replayed code b) d = Unit

  replay-After : (key : Text) (f : Option (Text → Option Text)) (d : R.Db) → After key (replay f) d
  unfolding replay After
  replay-After key none d = tt
  replay-After key (some f) d =
      elim (Bool-cases (is_empty (text_or_empty (f (codes "respBody"))))) [
        | inl e ↦ rw e tt
        | inr e ↦ rw e tt
      ]

module _ {ℓ} {E : Type ℓ} (R : Redis) (L : IsLawful R) (window : ℕ) where
  -- On a claimed key the handler is not run.
  on_claim_refused :
      (next : Next R E) (run : IdemRun) (key print : Text) (b : Bool) (d : R.Db) (e : E)
      → (on_claim R window next run key print
          (some (if b then codes "DUPLICATE" else codes "MISMATCH"))
          d
          e).2
        ≡ e
  unfolding on_claim text_eq
  on_claim_refused next run key print true d e = refl
  on_claim_refused next run key print false d e = refl

  claimed_refused :
      (next : Next R E) (run : IdemRun) (key print : Text) (d : R.Db) (e : E)
      → IsClaimed (R.look d key)
      → (claimed R window next run key print d e).2 ≡ e
  unfolding claimed call on_claim
  claimed_refused next run key print d e c = go run.claim refl
    where
      go : (net : Net) → run.claim ≡ net → (claimed R window next run key print d e).2 ≡ e
      go fine f =
          rw (f, claim_claimed R L key print (decimal run.now_ms) (window / second) d c)
            (on_claim_refused next run key print _ d e)
      go lost f = rw f refl
      go cut f = rw f refl

  -- A request with a claimed key does not reach the handler.
  middleware_refused :
      (next : Next R E) (run : IdemRun) (req : Request) (d : R.Db) (e : E)
      → req.is_post ≡ true
      → IsClaimed (R.look d (idem_key req))
      → (middleware R window next run req d e).2 ≡ e
  unfolding middleware on_body idem_key
  middleware_refused next run req d e p c = elim (Bool-cases (is_empty req.idempotency_key)) [
    | inl k ↦ rw (p, k, middleware) refl
    | inr k ↦ elim (Bool-cases (matches uuid_v4 req.idempotency_key)) [
      | inr m ↦ rw (p, k, m, middleware) refl
      | inl m ↦ rw (p, k, m, middleware) (body req.body)
    ]
  ]
    where
      body : (b : Body) → (on_body R window next run req b d e).2 ≡ e
      body (read b) = claimed_refused next run (idem_key req) _ d e c
      body too_large = refl
      body unreadable = refl

  module _ (next : Next R E) (run : IdemRun) (key print : Text) (w : 0 < window)
      (t : 0 < window / second)
      (apart : (d : R.Db) (e : E) → R.look (next d e).1 key ≡ R.look d key) where
    run_next-After :
        (d : R.Db) (e : E)
        → IsClaim (R.look d key)
        → IsClaimed (R.look d key)
        → let r = run_next R window next run key print d e in After R L window key r.0 r.1
    unfolding run_next After
    run_next-After d e c i n =
        keep_outcome-IsClaimed R L window run key print _ _ w n (subst IsClaim (sym (apart d e)) c)
          (subst IsClaimed (sym (apart d e)) i)

    on_claim-After :
        (word : Option Text) (d : R.Db) (e : E)
        → IsClaim (R.look d key)
        → IsClaimed (R.look d key)
        → let r = on_claim R window next run key print word d e in After R L window key r.0 r.1
    unfolding on_claim After
    on_claim-After none d e c i = tt
    on_claim-After (some word) d e c i = elim (Bool-cases (text_eq word (codes "DUPLICATE"))) [
      | inl y ↦
          let (f, d1) = call run.snapshot (λ x. (fields_of (R.look x key), x)) d in
          rw (y, on_claim) (replay-After R L window key f d1)
      | inr y ↦ elim (Bool-cases (text_eq word (codes "MISMATCH"))) [
        | inl z ↦ rw (y, z, on_claim) tt
        | inr z ↦ rw (y, z, on_claim) (run_next-After d e c i)
      ]
    ]

    claimed-After :
        (d : R.Db) (e : E)
        → IsClaim (R.look d key)
        → let r = claimed R window next run key print d e in After R L window key r.0 r.1
    unfolding claimed call After on_claim
    claimed-After d e c =
        let (i, c') =
          claim_idem-IsClaimed R L key print (decimal run.now_ms) (window / second) d t c in
        elim (Net-cases run.claim) [
          | inl f ↦
              let (r, x) = claim_idem R key (window / second) print (decimal run.now_ms) d in
              simp f (on_claim-After (some r.1) x e c' i)
          | inr (inl f) ↦ simp f tt
          | inr (inr f) ↦ simp f tt
        ]

  middleware-After :
      (next : Next R E) (run : IdemRun) (req : Request) (d : R.Db) (e : E)
      → 0 < window / second
      → req.is_post ≡ true
      → IsClaim (R.look d (idem_key req))
      → ((x : R.Db) (y : E) → R.look (next x y).1 (idem_key req) ≡ R.look x (idem_key req))
      → let r = middleware R window next run req d e in After R L window (idem_key req) r.0 r.1
  unfolding middleware on_body idem_key After
  middleware-After next run req d e t p c apart = elim (Bool-cases (is_empty req.idempotency_key)) [
    | inl k ↦ rw (p, k, middleware) tt
    | inr k ↦ elim (Bool-cases (matches uuid_v4 req.idempotency_key)) [
      | inr m ↦ rw (p, k, m, middleware) tt
      | inl m ↦ rw (p, k, m, middleware) (body req.body)
    ]
  ]
    where
      body :
          (b : Body)
          → let r = on_body R window next run req b d e in After R L window (idem_key req) r.0 r.1
      body (read b) =
          claimed-After next run (idem_key req) (req.path ++ (codes ":" ++ b)) (omega arith) t apart
            d e c
      body too_large = tt
      body unreadable = tt

  -- Once a POST with a key has been executed and its recorded status is below 500, no later POST
  -- with the same key, while it lives, reaches a handler: whatever it carries and however the trips
  -- of either call go, the state that the handlers work on stays as it was. The window is at least
  -- a second, the key held a claim or nothing, and the first handler leaves it alone.
  pub executes_at_most_once :
      (next later : Next R E) (run run' : IdemRun) (req req' : Request) (d : R.Db) (e e' : E)
      (ws : List Written)
      → 0 < window / second
      → req.is_post ≡ true
      → req'.is_post ≡ true
      → idem_key req' ≡ idem_key req
      → IsClaim (R.look d (idem_key req))
      → ((x : R.Db) (y : E) → R.look (next x y).1 (idem_key req) ≡ R.look x (idem_key req))
      → (middleware R window next run req d e).0 ≡ passed ws
      → leb 500 (recorded ws).status ≡ false
      → (middleware R window later run' req' (middleware R window next run req d e).1 e').2 ≡ e'
  unfolding After
  executes_at_most_once next later run run' req req' d e e' ws t p p' k c apart r n =
      let d1 = (middleware R window next run req d e).1 in
      let i =
        subst (λ x. After R L window (idem_key req) x d1) r
          (middleware-After next run req d e t p c apart) n in
      middleware_refused later run' req' d1 e' p' (subst (λ x. IsClaimed (R.look d1 x)) (sym k) i)
