-- ===== src/Idempotency/Replay.antt =====
-- What a POST is answered whose key has been executed.
use openwar.Common.{
  ℕ, ◌/◌, ◌<◌, ◌≡◌, refl, ap, sym, subst, ◌∙◌, inl, inr, Bool, true, false, Bool-cases, some, List,
  ◌++◌, leb, if◌then◌else◌, arith,
}
use openwar.Common.Text.{Text, codes, text_eq, text_eq_self, is_empty}
use openwar.Common.Text.Decimal.{decimal}
use openwar.Breaker.{second}
use openwar.Redis.{Redis, IsLawful, fine, call, fields_of}
use openwar.Lua.{claim_idem, accept_claim}
use openwar.Lua.Claim.{IsClaim}
use openwar.Idempotency.{
  Written, Recorder, recorded, read, Request, Reply, passed, replay, IdemRun, idem_key, Next,
  middleware, matches, uuid_v4, keep_outcome, run_next, on_claim, claimed, on_body,
}
use openwar.Idempotency.Kept.{
  IsKept, completed, completed-IsKept, accept_claim-print, claim_idem_cases, claim_kept, replay_ne,
  replay_kept, passed_eq, later_reply,
}

-- A POST with a UUID v4 for a key and a body that can be read.
pub record IsKeyed (req : Request) (b : Text) : Type 0 where
  pub post : req.is_post ≡ true
  pub given : is_empty req.idempotency_key ≡ false
  pub uuid : matches uuid_v4 req.idempotency_key ≡ true
  pub readable : req.body ≡ read b

abbrev pub fingerprint : Request → Text → Text
fingerprint req b = req.path ++ (codes ":" ++ b)

module _ {ℓ} {E : Type ℓ} (R : Redis) (L : IsLawful R) (window : ℕ) where
  -- Such a POST gets as far as its claim.
  entered :
      (next : Next R E) (run : IdemRun) (req : Request) (b : Text) (d : R.Db) (e : E)
      → IsKeyed req b
      → middleware R window next run req d e
        ≡ claimed R window next run (idem_key req) (fingerprint req b) d e
  unfolding middleware on_body
  entered next run req b d e k = rw (k.post, k.given, k.uuid, k.readable, middleware) refl

  kept_reply :
      (next : Next R E) (run : IdemRun) (key kept print : Text) (r : Recorder) (d : R.Db) (e : E)
      → run.claim ≡ fine
      → run.snapshot ≡ fine
      → IsKept kept r (R.look d key)
      → claimed R window next run key print d e ≡ (later_reply kept print r, d, e)
  unfolding claimed on_claim call replay text_eq
  kept_reply next run key kept print r d e f g k =
      let c = claim_kept R key print (decimal run.now_ms) (window / second) kept r d k in
      elim (Bool-cases (text_eq kept print)) [
        | inl y ↦
            rw (f, c, y, on_claim, g)
              (ap (λ (x : Reply). (x, d, e)) (replay_kept kept r (R.look d key) k))
        | inr n ↦ rw (f, c, n, on_claim) refl
      ]

  run_next-IsKept :
      (next : Next R E) (run : IdemRun) (key print : Text) (d : R.Db) (e : E)
      → run.save ≡ fine
      → run.extend ≡ fine
      → 0 < window
      → leb 500 (recorded (next d e).0).status ≡ false
      → IsClaim (R.look (next d e).1 key)
      → fields_of (R.look (next d e).1 key) (codes "fingerprint") ≡ some print
      → IsKept print
          (recorded (next d e).0)
          (R.look (run_next R window next run key print d e).1 key)
  unfolding run_next keep_outcome call completed
  run_next-IsKept next run key print d e f g w n c p =
      rw
        (
          f,
          g,
          n,
          L.look-expire _ key window key w,
          L.look-hset,
          text_eq_self,
          L.look-hset,
          text_eq_self,
          L.look-hset,
          text_eq_self,
        )
        (completed-IsKept print _ _ c p)

  refused_ne :
      (next : Next R E) (run : IdemRun) (key print : Text) (b : Bool) (d : R.Db) (e : E)
      (ws : List Written)
      → (on_claim R window next run key print
          (some (if b then codes "DUPLICATE" else codes "MISMATCH"))
          d
          e).0
        ≡ passed ws
      → ⊥
  unfolding on_claim text_eq
  refused_ne next run key print true d e ws p =
      replay_ne (call run.snapshot (λ x. (fields_of (R.look x key), x)) d).0 ws p
  refused_ne next run key print false d e ws p = cc

  accepted :
      (next : Next R E) (run : IdemRun) (key print : Text) (d : R.Db) (e : E)
      → run.claim ≡ fine
      → claim_idem R key (window / second) print (decimal run.now_ms) d
        ≡ accept_claim R key (window / second) print (decimal run.now_ms) d
      → claimed R window next run key print d e
        ≡ run_next R window next run key print
            (accept_claim R key (window / second) print (decimal run.now_ms) d).1
            e
  unfolding claimed call on_claim text_eq accept_claim
  accepted next run key print d e f a = rw (f, a) refl

  -- What the first call leaves, if its handler was run.
  claimed-IsKept :
      (next : Next R E) (run : IdemRun) (key print : Text) (d : R.Db) (e : E) (ws : List Written)
      → run.claim ≡ fine
      → run.save ≡ fine
      → run.extend ≡ fine
      → 0 < window
      → 0 < window / second
      → IsClaim (R.look d key)
      → ((x : R.Db) (y : E) → R.look (next x y).1 key ≡ R.look x key)
      → (claimed R window next run key print d e).0 ≡ passed ws
      → leb 500 (recorded ws).status ≡ false
      → IsKept print (recorded ws) (R.look (claimed R window next run key print d e).1 key)
  unfolding claimed call run_next
  claimed-IsKept next run key print d e ws f g h w t c apart p n =
      let ms = decimal run.now_ms in
      elim (claim_idem_cases R L key print ms (window / second) d) [
        | inl a ↦
            let q = accepted next run key print d e f a in
            let d1 = (accept_claim R key (window / second) print ms d).1 in
            let same = passed_eq (next d1 e).0 ws (sym (ap (λ v. v.0) q) ∙ p) in
            let (c1, kept) = accept_claim-print R L key print ms (window / second) d t c in
            let here = apart d1 e in
            let k =
              run_next-IsKept next run key print d1 e g h w
                (ap (λ v. leb 500 (recorded v).status) same ∙ n) (subst IsClaim (sym here) c1)
                (ap (λ v. fields_of v (codes "fingerprint")) here ∙ kept) in
            let d2 = (run_next R window next run key print d1 e).1 in
            rw q (subst (λ v. IsKept print (recorded v) (R.look d2 key)) same k)
        | inr (b, a) ↦ absurd (refused_ne next run key print b d e ws (rw (f, a) at p))
      ]

  -- What a POST is answered whose key has been executed, while every trip is made. If a first POST
  -- with a key ran its handler and recorded a status below 500, a later POST under the same
  -- idempotency key changes nothing and does not run its handler: it is answered with the recorded
  -- status and body if its path and body are those of the first, with 409 if the recorded body is
  -- empty, and with 422 if they differ. Both are POSTs with a UUID v4 and a readable body; the
  -- window is at least a second, the key held a claim or nothing, and the first handler leaves it
  -- alone.
  pub replays_first :
      (next later : Next R E) (run run' : IdemRun) (req req' : Request) (b b' : Text) (d : R.Db)
      (e e' : E) (ws : List Written)
      → 0 < window / second
      → IsKeyed req b
      → IsKeyed req' b'
      → idem_key req' ≡ idem_key req
      → (run.claim ≡ fine) × (run.save ≡ fine) × (run.extend ≡ fine)
      → (run'.claim ≡ fine) × (run'.snapshot ≡ fine)
      → IsClaim (R.look d (idem_key req))
      → ((x : R.Db) (y : E) → R.look (next x y).1 (idem_key req) ≡ R.look x (idem_key req))
      → (middleware R window next run req d e).0 ≡ passed ws
      → leb 500 (recorded ws).status ≡ false
      → let d1 = (middleware R window next run req d e).1 in
        middleware R window later run' req' d1 e'
        ≡ (later_reply (fingerprint req b) (fingerprint req' b') (recorded ws), d1, e')
  replays_first next later run run' req req' b b' d e e' ws t k k' same (f, g, h) (f', g') c apart p
        n =
      let q = entered next run req b d e k in
      let d1 = (middleware R window next run req d e).1 in
      let kept =
        claimed-IsKept next run (idem_key req) (fingerprint req b) d e ws f g h (omega (arith, t)) t
          c apart (sym (ap (λ v. v.0) q) ∙ p) n in
      let kept1 =
        subst (λ v. IsKept (fingerprint req b) (recorded ws) (R.look v.1 (idem_key req))) (sym q)
          kept in
      entered later run' req' b' d1 e' k'
      ∙ kept_reply later run' (idem_key req') (fingerprint req b) (fingerprint req' b')
          (recorded ws) d1 e' f' g'
          (subst (λ x. IsKept (fingerprint req b) (recorded ws) (R.look d1 x)) (sym same) kept1)
