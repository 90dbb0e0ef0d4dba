-- ===== src/Lua/Claim.antt =====
-- claim_idem.lua: a key that is claimed stays claimed.
use openwar.Common.{
  ℕ, ◌*◌, arith, ◌≡◌, ◌<◌, refl, ◌∙◌, inl, inr, false, Option, none, some, if◌then◌else◌,
  Bool-cases,
}
use openwar.Common.Int.{pos}
use openwar.Common.Text.{Text, codes, text_eq, text_eq_self}
use openwar.Breaker.{second}
use openwar.Redis.{Redis, IsLawful, Value, absent, str, num, zset, hash, fields_of, hset_value}
use openwar.Lua.{claim_idem, accept_claim, same_text}

-- A key of claims holds a hash or nothing.
abbrev pub IsClaim : Value → Type 0
IsClaim absent = Unit
IsClaim (hash f) = Unit
IsClaim _ = ⊥

-- The key holds a status other than FAILED.
abbrev pub IsClaimed : Value → Type 0
IsClaimed v =
    (st : Text) × (fields_of v (codes "status") ≡ some st) × (text_eq st (codes "FAILED") ≡ false)

pub hset-IsClaim : (v : Value) (k t : Text) → IsClaim v → IsClaim (hset_value k t v)
hset-IsClaim absent k t c = tt
hset-IsClaim (hash f) k t c = tt
hset-IsClaim (str s) k t c = c
hset-IsClaim (num n) k t c = c
hset-IsClaim (zset xs) k t c = c

-- Setting a field of a claim.
pub fields-hset :
    (v : Value) (k t j : Text)
    → IsClaim v
    → fields_of (hset_value k t v) j ≡ (if text_eq k j then some t else fields_of v j)
fields-hset absent k t j c = refl
fields-hset (hash f) k t j c = refl
fields-hset (str s) k t j c = elim c [ ]
fields-hset (num n) k t j c = elim c [ ]
fields-hset (zset xs) k t j c = elim c [ ]

module _ (R : Redis) (L : IsLawful R) (key print ms : Text) (ttl : ℕ) (d : R.Db) where
  -- A claimed key is not claimed again, and the script changes nothing.
  pub claim_claimed :
      IsClaimed (R.look d key)
      → claim_idem R key ttl print ms d ≡ (
        (
          pos 0,
          if same_text R (fields_of (R.look d key) (codes "fingerprint")) print
              then codes "DUPLICATE"
              else codes "MISMATCH",
        ),
        d,
      )
  unfolding claim_idem
  claim_claimed (st, e, n) =
      elim (Bool-cases (same_text R (fields_of (R.look d key) (codes "fingerprint")) print)) [
        | inl y ↦ rw (e, n, y, claim_idem) refl
        | inr y ↦ rw (e, n, y, claim_idem) refl
      ]

  pub accept_claim-IsClaimed :
      0 < ttl
      → IsClaim (R.look d key)
      → IsClaimed (R.look (accept_claim R key ttl print ms d).1 key)
        × IsClaim (R.look (accept_claim R key ttl print ms d).1 key)
  unfolding accept_claim text_eq
  accept_claim-IsClaimed t c =
      let c1 = hset-IsClaim (R.look d key) (codes "status") (codes "PENDING") c in
      let c2 = hset-IsClaim _ (codes "fingerprint") print c1 in
      let c3 = hset-IsClaim _ (codes "createdAt") ms c2 in
      let s = fields-hset (R.look d key) (codes "status") (codes "PENDING") (codes "status") c in
      let s2 = fields-hset _ (codes "fingerprint") print (codes "status") c1 in
      let s3 = fields-hset _ (codes "createdAt") ms (codes "status") c2 in
      rw
        (
          L.look-expire _ key (ttl * second) key (omega arith),
          L.look-hset,
          text_eq_self,
          L.look-hset,
          text_eq_self,
          L.look-hset,
          text_eq_self,
        )
        ((codes "PENDING", s3 ∙ s2 ∙ s, refl), c3)

  -- Whatever the script answers, the key is claimed afterwards.
  pub claim_idem-IsClaimed :
      0 < ttl
      → IsClaim (R.look d key)
      → IsClaimed (R.look (claim_idem R key ttl print ms d).1 key)
        × IsClaim (R.look (claim_idem R key ttl print ms d).1 key)
  unfolding claim_idem
  claim_idem-IsClaimed t c = go (fields_of (R.look d key) (codes "status")) refl
    where
      go :
          (o : Option Text)
          → fields_of (R.look d key) (codes "status") ≡ o
          → IsClaimed (R.look (claim_idem R key ttl print ms d).1 key)
            × IsClaim (R.look (claim_idem R key ttl print ms d).1 key)
      go none e = rw (e, claim_idem) (accept_claim-IsClaimed t c)
      go (some st) e = elim (Bool-cases (text_eq st (codes "FAILED"))) [
        | inl y ↦ rw (e, y, claim_idem) (accept_claim-IsClaimed t c)
        | inr n ↦
            elim (Bool-cases (same_text R (fields_of (R.look d key) (codes "fingerprint")) print)) [
              | inl y ↦ rw (e, n, y, claim_idem) ((st, e, n), c)
              | inr y ↦ rw (e, n, y, claim_idem) ((st, e, n), c)
            ]
      ]
