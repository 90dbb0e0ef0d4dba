-- ===== src/Idempotency/Frame.antt =====
-- The middleware works on its own key only.
use openwar.Common.{
  ◌*◌, ℕ, ◌/◌, ◌<◌, ◌≡◌, refl, ◌∙◌, inl, inr, false, Bool-cases, Option, none, some, arith, leb,
  ◌++◌, if◌then◌else◌, Option-cases,
}
use openwar.Common.Text.{Text, codes, text_eq, is_empty}
use openwar.Common.Text.Decimal.{decimal}
use openwar.Breaker.{second}
use openwar.Redis.{Redis, IsLawful, Net, fine, lost, cut, call, fields_of}
use openwar.Lua.{claim_idem, accept_claim, same_text}
use openwar.Idempotency.{
  Recorder, Body, read, too_large, unreadable, Request, IdemRun, idem_key, Next, middleware,
  matches, uuid_v4, keep_outcome, run_next, on_claim, claimed, on_body,
}

-- A trip leaves what its command leaves.
pub call_frame {ℓ} :
    {A : Type ℓ} (R : Redis) (j : Text) (net : Net) (f : R.Db → A × R.Db) (d : R.Db)
    → ((x : R.Db) → R.look (f x).1 j ≡ R.look x j)
    → R.look (call net f d).1 j ≡ R.look d j
unfolding call
call_frame R j fine f d h = h d
call_frame R j lost f d h = refl
call_frame R j cut f d h = h d

module _ (R : Redis) (L : IsLawful R) (key j : Text) (ne : text_eq key j ≡ false) where
  claim_idem_frame :
      (print ms : Text) (ttl : ℕ) (d : R.Db)
      → 0 < ttl
      → R.look (claim_idem R key ttl print ms d).1 j ≡ R.look d j
  unfolding claim_idem accept_claim
  claim_idem_frame print ms ttl d t =
      elim (Option-cases (fields_of (R.look d key) (codes "status"))) [
        | inl e ↦ rw (e, claim_idem) accepted
        | inr (st, e) ↦ elim (Bool-cases (text_eq st (codes "FAILED"))) [
          | inl y ↦ rw (e, y, claim_idem) accepted
          | inr n ↦
              elim (Bool-cases
                (same_text R (fields_of (R.look d key) (codes "fingerprint")) print)) [
                  | inl y ↦ rw (e, n, y, claim_idem) refl
                  | inr y ↦ rw (e, n, y, claim_idem) refl
                ]
        ]
      ]
    where
      accepted : R.look (accept_claim R key ttl print ms d).1 j ≡ R.look d j
      accepted =
          rw
            (
              L.look-expire _ key (ttl * second) j (omega arith),
              L.look-hset,
              ne,
              L.look-hset,
              ne,
              L.look-hset,
              ne,
            )
            refl

  save_frame :
      (print : Text) (r : Recorder) (d : R.Db)
      → R.look
          (if leb 500 r.status
            then R.hset
                (R.hset d key (codes "status") (codes "FAILED"))
                key
                (codes "fingerprint")
                print
            else R.hset
                (R.hset
                  (R.hset d key (codes "status") (codes "COMPLETED"))
                  key
                  (codes "respBody")
                  r.body)
                key
                (codes "statusCode")
                (decimal r.status))
          j
        ≡ R.look d j
  save_frame print r d = elim (Bool-cases (leb 500 r.status)) [
    | inl y ↦ rw (y, L.look-hset, ne, L.look-hset, ne) refl
    | inr n ↦ rw (n, L.look-hset, ne, L.look-hset, ne, L.look-hset, ne) refl
  ]

  keep_outcome_frame :
      (window : ℕ) (run : IdemRun) (print : Text) (r : Recorder) (d : R.Db)
      → 0 < window
      → R.look (keep_outcome R window run key print r d) j ≡ R.look d j
  unfolding keep_outcome
  keep_outcome_frame window run print r d w =
      call_frame R j run.extend _ _ (λ x. L.look-expire x key window j w)
      ∙ call_frame R j run.save _ d (save_frame print r)

module _ {ℓ} {E : Type ℓ} (R : Redis) (L : IsLawful R) (window : ℕ) (w : 0 < window / second)
    (next : Next R E) (j : Text)
    (apart : (x : R.Db) (y : E) → R.look (next x y).1 j ≡ R.look x j) where
  on_claim_frame :
      (run : IdemRun) (key print : Text) (word : Option Text) (d : R.Db) (e : E)
      → text_eq key j ≡ false
      → R.look (on_claim R window next run key print word d e).1 j ≡ R.look d j
  unfolding on_claim run_next call
  on_claim_frame run key print none d e ne = refl
  on_claim_frame run key print (some word) d e ne =
      elim (Bool-cases (text_eq word (codes "DUPLICATE"))) [
        | inl y ↦
            rw (y, on_claim)
              (call_frame R j run.snapshot (λ x. (fields_of (R.look x key), x)) d (λ x. refl))
        | inr y ↦ elim (Bool-cases (text_eq word (codes "MISMATCH"))) [
          | inl z ↦ rw (y, z, on_claim) refl
          | inr z ↦
              rw (y, z, on_claim)
                (keep_outcome_frame R L key j ne window run print _ (next d e).1 (omega (arith, w))
                  ∙ apart d e)
        ]
      ]

  claimed_frame :
      (run : IdemRun) (key print : Text) (d : R.Db) (e : E)
      → text_eq key j ≡ false
      → R.look (claimed R window next run key print d e).1 j ≡ R.look d j
  unfolding claimed call
  claimed_frame run key print d e ne =
      on_claim_frame run key print _ _ e ne
      ∙ call_frame R j run.claim _ d
          (λ x. claim_idem_frame R L key j ne print (decimal run.now_ms) (window / second) x w)

  -- A key that is no key of the request, and that the handler leaves alone.
  pub middleware_frame :
      (run : IdemRun) (req : Request) (d : R.Db) (e : E)
      → text_eq (idem_key req) j ≡ false
      → R.look (middleware R window next run req d e).1 j ≡ R.look d j
  unfolding middleware on_body idem_key
  middleware_frame run req d e ne = elim (Bool-cases req.is_post) [
    | inr n ↦ rw (n, middleware) (apart d e)
    | inl y ↦ elim (Bool-cases (is_empty req.idempotency_key)) [
      | inl k ↦ rw (y, k, middleware) refl
      | inr k ↦ elim (Bool-cases (matches uuid_v4 req.idempotency_key)) [
        | inr m ↦ rw (y, k, m, middleware) refl
        | inl m ↦ rw (y, k, m, middleware) (body req.body)
      ]
    ]
  ]
    where
      body : (b : Body) → R.look (on_body R window next run req b d e).1 j ≡ R.look d j
      body (read b) = claimed_frame run (idem_key req) (req.path ++ (codes ":" ++ b)) d e ne
      body too_large = refl
      body unreadable = refl
