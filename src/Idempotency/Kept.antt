-- ===== src/Idempotency/Kept.antt =====
-- A key that holds the response of an executed request.
use openwar.Common.{
  arith, ◌*◌, ℕ, ◌<◌, ◌≡◌, refl, ◌∙◌, ◌⊎◌, Option-cases, inl, inr, Bool, true, false, Bool-cases,
  Option, none, some, List, if◌then◌else◌,
}
use openwar.Common.Int.{pos}
use openwar.Common.Text.{Text, codes, text_eq, text_eq_self, is_empty}
use openwar.Common.Text.Decimal.{decimal, value-decimal}
use openwar.Breaker.{second}
use openwar.Redis.{Redis, IsLawful, Value, fields_of, hset_value}
use openwar.Lua.{claim_idem, accept_claim, same_text}
use openwar.Lua.Claim.{IsClaim, hset-IsClaim, fields-hset}
use openwar.Idempotency.{Written, Recorder, Reply, passed, error, replayed, replay, text_or_empty}

-- The key holds a response and the fingerprint of the request that it answered.
pub record IsKept (print : Text) (r : Recorder) (v : Value) : Type 0 where
  pub status : fields_of v (codes "status") ≡ some (codes "COMPLETED")
  pub print_kept : fields_of v (codes "fingerprint") ≡ some print
  pub body : fields_of v (codes "respBody") ≡ some r.body
  pub code : fields_of v (codes "statusCode") ≡ some (decimal r.status)

-- The three fields that are written after the handler.
unfoldable pub completed : Recorder → Value → Value
completed r v =
    hset_value (codes "statusCode") (decimal r.status)
      (hset_value (codes "respBody") r.body (hset_value (codes "status") (codes "COMPLETED") v))

pub completed-IsKept :
    (print : Text) (r : Recorder) (v : Value)
    → IsClaim v
    → fields_of v (codes "fingerprint") ≡ some print
    → IsKept print r (completed r v)
unfolding completed text_eq
completed-IsKept print r v c p =
    let c1 = hset-IsClaim v (codes "status") (codes "COMPLETED") c in
    let c2 = hset-IsClaim _ (codes "respBody") r.body c1 in
    let through = λ (j : Text). fields-hset v (codes "status") (codes "COMPLETED") j c in
    let through1 = λ (j : Text). fields-hset _ (codes "respBody") r.body j c1 in
    let through2 = λ (j : Text). fields-hset _ (codes "statusCode") (decimal r.status) j c2 in
    record {
      status = through2 (codes "status") ∙ through1 (codes "status") ∙ through (codes "status");
      print_kept =
          through2 (codes "fingerprint")
          ∙ through1 (codes "fingerprint")
          ∙ through (codes "fingerprint")
          ∙ p;
      body = through2 (codes "respBody") ∙ through1 (codes "respBody");
      code = through2 (codes "statusCode");
    }

module _ (R : Redis) (L : IsLawful R) (key print ms : Text) (ttl : ℕ) (d : R.Db) where
  pub accept_claim-print :
      0 < ttl
      → IsClaim (R.look d key)
      → IsClaim (R.look (accept_claim R key ttl print ms d).1 key)
        × (fields_of (R.look (accept_claim R key ttl print ms d).1 key) (codes "fingerprint")
            ≡ some print)
  unfolding accept_claim text_eq
  accept_claim-print t c =
      let c1 = hset-IsClaim (R.look d key) (codes "status") (codes "PENDING") c in
      let c2 = hset-IsClaim _ (codes "fingerprint") print c1 in
      let c3 = hset-IsClaim _ (codes "createdAt") ms c2 in
      let s = fields-hset _ (codes "fingerprint") print (codes "fingerprint") c1 in
      let s2 = fields-hset _ (codes "createdAt") ms (codes "fingerprint") c2 in
      rw
        (
          L.look-expire _ key (ttl * second) key (omega arith),
          L.look-hset,
          text_eq_self,
          L.look-hset,
          text_eq_self,
          L.look-hset,
          text_eq_self,
        )
        (c3, s2 ∙ s)

  -- The script accepts, or refuses with one of two words and changes nothing.
  pub claim_idem_cases :
      let r = claim_idem R key ttl print ms d in
      (r ≡ accept_claim R key ttl print ms d)
      ⊎ ((b : Bool) × (r ≡ ((pos 0, if b then codes "DUPLICATE" else codes "MISMATCH"), d)))
  unfolding claim_idem
  claim_idem_cases = elim (Option-cases (fields_of (R.look d key) (codes "status"))) [
    | inl e ↦ inl (rw (e, claim_idem) refl)
    | inr (st, e) ↦ elim (Bool-cases (text_eq st (codes "FAILED"))) [
      | inl y ↦ inl (rw (e, y, claim_idem) refl)
      | inr n ↦
          elim (Bool-cases (same_text R (fields_of (R.look d key) (codes "fingerprint")) print)) [
            | inl y ↦ inr (true, rw (e, n, y, claim_idem) refl)
            | inr y ↦ inr (false, rw (e, n, y, claim_idem) refl)
          ]
    ]
  ]

-- On a key that holds a response the script tells by the fingerprint, and changes nothing.
pub claim_kept :
    (R : Redis) (key print ms : Text) (ttl : ℕ) (kept : Text) (r : Recorder) (d : R.Db)
    → IsKept kept r (R.look d key)
    → claim_idem R key ttl print ms d
      ≡ ((pos 0, if text_eq kept print then codes "DUPLICATE" else codes "MISMATCH"), d)
unfolding claim_idem same_text text_eq
claim_kept R key print ms ttl kept r d k = elim (Bool-cases (text_eq kept print)) [
  | inl y ↦ rw (k.status, k.print_kept, y, claim_idem) refl
  | inr n ↦ rw (k.status, k.print_kept, n, claim_idem) refl
]

pub replay_ne : (f : Option (Text → Option Text)) (ws : List Written) → replay f ≡ passed ws → ⊥
unfolding replay
replay_ne none ws e = cc
replay_ne (some f) ws e = elim (Bool-cases (is_empty (text_or_empty (f (codes "respBody"))))) [
  | inl y ↦ cc (rw y at e)
  | inr n ↦ cc (rw n at e)
]

pub replay_kept :
    (kept : Text) (r : Recorder) (v : Value)
    → IsKept kept r v
    → replay (some (fields_of v))
      ≡ (if is_empty r.body then error 409 else replayed r.status r.body)
unfolding replay
replay_kept kept r v k = rw (k.body, k.code, value-decimal r.status) refl

pub passed_eq : (ws ws' : List Written) → passed ws ≡ passed ws' → ws ≡ ws'
passed_eq ws ws' e = cc

-- What a later call on a kept key is answered.
abbrev pub later_reply : Text → Text → Recorder → Reply
later_reply kept print r =
    if text_eq kept print
    then (if is_empty r.body then error 409 else replayed r.status r.body)
    else error 422
