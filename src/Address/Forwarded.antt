-- ===== src/Address/Forwarded.antt =====
-- Requests that each name another address in X-Forwarded-For.
use openwar.Common.{
  ℕ, suc, ◌^◌, ◌≤◌, ◌<◌, ◌≡◌, refl, ap, ◌∙◌, true, false, Option, none, List, [], ◌∷◌, length,
  arith,
}
use openwar.Common.Text.{Text, codes, text_eq, text_eq_ne, text_eq_iff, is_empty, append_cancel}
use openwar.Redis.{Redis, IsLawful, absent, fine, call}
use openwar.Bucket.{Floats, IsRounded, IsExact, Limiter, idle_ttl, allow_key}
use openwar.Bucket.Level.{IsHash, token_bucket_script-Leaves}
use openwar.Bucket.Burst.{allow_key-Has}
use openwar.Address.{Visitor, index_from, client_ip, ip_key, check_all}

ip_key_ne :
    (event a b : Text) → text_eq a b ≡ false → text_eq (ip_key event a) (ip_key event b) ≡ false
unfolding ip_key
ip_key_ne event a b h = text_eq_ne _ _ (λ e.
    let q : a ≡ b =
      append_cancel (codes ":") _ _
        (append_cancel event _ _ (append_cancel (codes "rl:ip:") _ _ e)) in
    let p : text_eq a b ≡ true = (text_eq_iff a b).1 q in cc)

module _ (trim : Text → Text) (host_of : Text → Option Text) where
  -- A header with one address and no space around it.
  abbrev pub IsPlain : Visitor → Type 0
  IsPlain r =
      (is_empty r.forwarded_for ≡ false)
      × (index_from 0 b',' r.forwarded_for ≡ none)
      × (trim r.forwarded_for ≡ r.forwarded_for)

  client_ip-forwarded : (r : Visitor) → IsPlain r → client_ip trim host_of r ≡ r.forwarded_for
  unfolding client_ip
  client_ip-forwarded r (some_header, one, clean) = rw (some_header, one) clean

  module _ (F : Floats) (R : Redis) (event : Text) where
    -- No later request names this address.
    abbrev pub IsElsewhere : Text → List (F.W × Visitor) → Type 0
    IsElsewhere a [] = Unit {0}
    IsElsewhere a ((now, r) ∷ rs) = (text_eq a r.forwarded_for ≡ false) × IsElsewhere a rs

    -- Each request names one address, which has no bucket yet and which no other one names.
    abbrev pub IsFresh : R.Db → List (F.W × Visitor) → Type 0
    IsFresh d [] = Unit {0}
    IsFresh d ((now, r) ∷ rs) =
        IsPlain r
        × (R.look d (ip_key event r.forwarded_for) ≡ absent)
        × IsElsewhere r.forwarded_for rs
        × IsFresh d rs

    stay-IsFresh :
        (a : Text) (rs : List (F.W × Visitor)) (d d' : R.Db)
        → ((j : Text) → text_eq (ip_key event a) j ≡ false → R.look d' j ≡ R.look d j)
        → IsElsewhere a rs
        → IsFresh d rs
        → IsFresh d' rs
    stay-IsFresh a [] d d' frame away fresh = tt
    stay-IsFresh a ((now, r) ∷ rs) d d' frame (ne, away) (plain, missing, others, fresh) = (
      plain,
      frame (ip_key event r.forwarded_for) (ip_key_ne event a r.forwarded_for ne) ∙ missing,
      others,
      stay-IsFresh a rs d d' frame away fresh,
    )

    module _ (X : IsRounded F) (E : IsExact F) (L : IsLawful R) (l : Limiter F)
        (lives : 0 < idle_ttl F l.capacity l.refill_rate) (c : ℕ) (low : 1 ≤ c) (small : c < 2 ^ 53)
        (cap : l.capacity ≡ F.of_nat c) where
      -- A call leaves the other keys as they are.
      frame :
          (key : Text) (now : F.W) (d : R.Db)
          → IsHash (R.look d key)
          → (j : Text) → text_eq key j ≡ false
          → R.look (allow_key F R l fine key now d).1 j ≡ R.look d j
      unfolding allow_key call
      frame key now d h =
          let (_, _, _, kept) = token_bucket_script-Leaves F R L l key lives now (F.of_nat 1) d h in
          kept

      -- The limit on joins by address does not hold for a client that chooses its X-Forwarded-For:
      -- of checks whose requests each name one address there, unchanged by TrimSpace, that has no
      -- bucket yet and that no other request names, all pass, wherever they come from. Every trip
      -- is made; the capacity is a whole number of tokens, at least one and below 2^53, and the
      -- bucket's time to live is positive.
      pub check_all-IsFresh :
          (rs : List (F.W × Visitor)) (d : R.Db)
          → IsFresh d rs
          → (check_all trim host_of F R event l rs d).0 ≡ length rs
      unfolding check_all ip_key
      check_all-IsFresh [] d fresh = refl
      check_all-IsFresh ((now, r) ∷ rs) d (plain, missing, away, fresh) =
          let key = ip_key event r.forwarded_for in
          let h : IsHash (R.look d key) = rw missing tt in
          let (ok, _) = allow_key-Has F X E R L l key lives c now d small h (rw missing cap) in
          let passed : (allow_key F R l fine key now d).0.allowed ≡ true =
            ok ∙ ground (arith, low) in
          let d1 = (allow_key F R l fine key now d).1 in
          let ih =
            check_all-IsFresh rs d1
              (stay-IsFresh r.forwarded_for rs d d1 (frame key now d h) away fresh) in
          rw (client_ip-forwarded r plain, passed) (ap suc ih)
