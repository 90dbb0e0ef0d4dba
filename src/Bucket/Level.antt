-- ===== src/Bucket/Level.antt =====
-- What a bucket holds: the fields after a call, and that it is never overdrawn or overfull.
use openwar.Common.{
  ◌<◌, ◌≡◌, refl, subst, true, false, Option, none, some, Bool-cases, inl, inr, if◌then◌else◌,
}
use openwar.Common.Text.{Text, codes, text_eq, text_eq_self}
use openwar.Redis.{Redis, IsLawful, Value, absent, hash, hset_value, fields_of}
use openwar.Bucket.{
  Floats, IsRounded, Limiter, number, refilled, idle_ttl, keep_tokens, level, serve,
  token_bucket_script,
}

-- A key that is empty or holds a hash.
abbrev pub IsHash : Value → Type 0
IsHash absent = Unit {0}
IsHash (hash f) = Unit {0}
IsHash _ = ⊥

abbrev pub filled : Text → Text → Value → Value
filled tokens last v = hset_value (codes "last_updated") last (hset_value (codes "tokens") tokens v)

pub filled-fields :
    (tokens last : Text) (v : Value)
    → IsHash v
    → IsHash (filled tokens last v)
      × (fields_of (filled tokens last v) (codes "tokens") ≡ some tokens)
      × (fields_of (filled tokens last v) (codes "last_updated") ≡ some last)
unfolding text_eq
filled-fields tokens last absent h = (tt, refl, refl)
filled-fields tokens last (hash f) h = (tt, refl, refl)
filled-fields tokens last (Value.str t) h = elim h [ ]
filled-fields tokens last (Value.num n) h = elim h [ ]
filled-fields tokens last (Value.zset xs) h = elim h [ ]

module _ (F : Floats) (R : Redis) (L : IsLawful R) (l : Limiter F) (key : Text)
    (lives : 0 < idle_ttl F l.capacity l.refill_rate) where
  pub look-keep_tokens :
      (now tokens : F.W) (d : R.Db) (j : Text)
      → R.look (keep_tokens F R l key now tokens d) j ≡ (
          if text_eq key j
          then filled (F.print tokens) (F.print now) (R.look d key)
          else R.look d j)
  unfolding keep_tokens
  look-keep_tokens now tokens d j = elim (Bool-cases (text_eq key j)) [
    | inl e ↦ rw (L.look-expire _ _ _ _ lives, L.look-hset, e, L.look-hset, text_eq_self) refl
    | inr e ↦ rw (L.look-expire _ _ _ _ lives, L.look-hset, e, L.look-hset, e) refl
  ]

  -- After a call the bucket has what was left of the level, and the call's clock.
  abbrev pub Leaves : F.W → F.W → R.Db → R.Db → Type 0
  Leaves now tokens d d' =
      IsHash (R.look d' key)
      × (fields_of (R.look d' key) (codes "tokens") ≡ some (F.print tokens))
      × (fields_of (R.look d' key) (codes "last_updated") ≡ some (F.print now))
      × ((j : Text) → text_eq key j ≡ false → R.look d' j ≡ R.look d j)

  pub keep_tokens-Leaves :
      (now tokens : F.W) (d : R.Db)
      → IsHash (R.look d key)
      → Leaves now tokens d (keep_tokens F R l key now tokens d)
  keep_tokens-Leaves now tokens d h =
      let (a, b, c) = filled-fields (F.print tokens) (F.print now) (R.look d key) h in
      (
        rw (look-keep_tokens, text_eq_self) a,
        rw (look-keep_tokens, text_eq_self) b,
        rw (look-keep_tokens, text_eq_self) c,
        λ j n. rw (look-keep_tokens, n) refl,
      )

  -- What is left of a level after a request.
  abbrev pub left_of : F.W → F.W → F.W
  left_of requested tokens = if F.le requested tokens then F.sub tokens requested else tokens

  pub token_bucket_script-Leaves :
      (now requested : F.W) (d : R.Db)
      → IsHash (R.look d key)
      → Leaves now
          (left_of requested (level F R l key now d))
          d
          (token_bucket_script F R l key now requested d).1
  unfolding token_bucket_script serve
  token_bucket_script-Leaves now requested d h =
      elim (Bool-cases (F.le requested (level F R l key now d))) [
        | inl e ↦ rw e (keep_tokens-Leaves now _ d h)
        | inr e ↦ rw e (keep_tokens-Leaves now _ d h)
      ]

module _ (F : Floats) (X : IsRounded F) (l : Limiter F) where
  -- Between 0 and the capacity.
  abbrev pub InRange : F.W → Type 0
  InRange t = (F.le (F.of_nat 0) t ≡ true) × (F.le t l.capacity ≡ true)

  -- A field that is missing, or holds a number of tokens in range.
  abbrev pub IsFilling : Option Text → Type 0
  IsFilling none = Unit {0}
  IsFilling (some s) = (t : F.W) × (F.parse s ≡ some t) × InRange t

  module _ (cap_pos : F.le (F.of_nat 0) l.capacity ≡ true)
      (rate_pos : F.le (F.of_nat 0) l.refill_rate ≡ true) where
    full-InRange : InRange l.capacity
    full-InRange = (cap_pos, X.le_refl l.capacity)

    refilled-InRange :
        (now : F.W) (o : Option F.W) (p : Option F.W)
        → ((t : F.W) → o ≡ some t → F.le (F.of_nat 0) t ≡ true)
        → InRange (refilled F l.capacity l.refill_rate now o p)
    refilled-InRange now none p h = full-InRange
    refilled-InRange now (some t) none h = full-InRange
    refilled-InRange now (some t) (some last) h = (
      X.min_pos _ _ cap_pos (X.add_pos _ _ (h t refl) (X.mul_pos _ _ (X.max_pos _) rate_pos)),
      X.min_le _ _,
    )

    number_pos :
        (o : Option Text)
        → IsFilling o
        → (t : F.W) → number F o ≡ some t
        → F.le (F.of_nat 0) t ≡ true
    number_pos none h t e = cc
    number_pos (some s) (u, p, (q, _)) t e =
        let w : u ≡ t = cc in subst (λ x. F.le (F.of_nat 0) x ≡ true) w q

    left_of-InRange :
        (requested t : F.W)
        → F.le (F.of_nat 0) requested ≡ true
        → InRange t
        → InRange (if F.le requested t then F.sub t requested else t)
    left_of-InRange requested t r (a, b) = elim (Bool-cases (F.le requested t)) [
      | inl e ↦ rw e (X.sub_pos t requested e, X.le_trans _ t _ (X.sub_le t requested r) b)
      | inr e ↦ rw e (a, b)
    ]

    module _ (R : Redis) (L : IsLawful R) (key : Text)
        (lives : 0 < idle_ttl F l.capacity l.refill_rate) where
      -- From a key that is empty, or a hash whose tokens are missing or in range, with a capacity
      -- and a rate that are not negative: after the bucket's script, whatever the clock and the
      -- size of the request, the tokens that it has stored are between 0 and the capacity, and no
      -- other key has changed. The request is not negative, and the time to live is positive.
      pub token_bucket_script-IsFilling :
          (now requested : F.W) (d : R.Db)
          → F.le (F.of_nat 0) requested ≡ true
          → IsHash (R.look d key)
          → IsFilling (fields_of (R.look d key) (codes "tokens"))
          → let r = token_bucket_script F R l key now requested d in
            IsHash (R.look r.1 key)
            × IsFilling (fields_of (R.look r.1 key) (codes "tokens"))
            × ((j : Text) → text_eq key j ≡ false → R.look r.1 j ≡ R.look d j)
      token_bucket_script-IsFilling now requested d pos h f =
          let (h', t, _, same) = token_bucket_script-Leaves F R L l key lives now requested d h in
          let lv = level F R l key now d in
          let range =
            left_of-InRange requested lv pos (
              refilled-InRange now _ _
                (number_pos (fields_of (R.look d key) (codes "tokens")) f)) in
          (h', rw t (left_of F R L l key lives requested lv, X.parse-print _, range), same)
