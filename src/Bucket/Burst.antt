-- ===== src/Bucket/Burst.antt =====
-- How many calls of `Allow` pass a bucket while its clock stands still or runs backwards.
use openwar.Common.{
  ℕ, zero, suc, ◌+◌, ◌-◌, ◌^◌, ◌≤◌, ◌<◌, ◌≡◌, refl, ap, ◌∙◌, true, some, List, [], ◌∷◌, Bool-cases,
  inl, inr, if◌then◌else◌, leb, arith, length,
}
use openwar.Common.Text.{Text, codes}
use openwar.Redis.{Redis, IsLawful, absent, fine, call, fields_of}
use openwar.Gateway.{allow}
use openwar.Bucket.{
  Floats, IsRounded, IsExact, Limiter, refilled, idle_ttl, level, serve, token_bucket_script,
  allow_key, allow_all,
}
use openwar.Bucket.Level.{IsHash, left_of, token_bucket_script-Leaves}

module _ (F : Floats) (X : IsRounded F) (E : IsExact F) (R : Redis) (L : IsLawful R) (l : Limiter F)
    (key : Text) (lives : 0 < idle_ttl F l.capacity l.refill_rate) where
  -- A bucket of `k` tokens whose last call came at `last`.
  abbrev pub Has : ℕ → F.W → R.Db → Type 0
  Has k last d =
      IsHash (R.look d key)
      × (fields_of (R.look d key) (codes "tokens") ≡ some (F.print (F.of_nat k)))
      × (fields_of (R.look d key) (codes "last_updated") ≡ some (F.print last))

  -- The script allows a request exactly when the level covers it.
  pub allow_key-allowed :
      (now : F.W) (d : R.Db)
      → (allow_key F R l fine key now d).0.allowed ≡ F.le (F.of_nat 1) (level F R l key now d)
  unfolding allow_key token_bucket_script serve call allow
  allow_key-allowed now d = elim (Bool-cases (F.le (F.of_nat 1) (level F R l key now d))) [
    | inl e ↦ rw e refl
    | inr e ↦ rw e refl
  ]

  left-one :
      (k : ℕ) → k < 2 ^ 53 → left_of F R L l key lives (F.of_nat 1) (F.of_nat k) ≡ F.of_nat (k - 1)
  left-one zero small = rw (E.le_exact 1 0 (omega arith) small) refl
  left-one (suc k) small =
      rw (E.le_exact 1 (suc k) (omega arith) small, E.sub_exact (suc k) 1 (omega arith) small)
        (ground arith)

  -- With `k` tokens at the time of a call, it is allowed if there is one, and takes it.
  pub allow_key-Has :
      (k : ℕ) (now : F.W) (d : R.Db)
      → k < 2 ^ 53
      → IsHash (R.look d key)
      → level F R l key now d ≡ F.of_nat k
      → let r = allow_key F R l fine key now d in (r.0.allowed ≡ leb 1 k) × Has (k - 1) now r.1
  unfolding allow_key call
  allow_key-Has k now d small h e =
      let (a, b, c, _) = token_bucket_script-Leaves F R L l key lives now (F.of_nat 1) d h in
      let q : F.le (F.of_nat 1) (F.of_nat k) ≡ leb 1 k = E.le_exact 1 k (omega arith) small in
      (
        allow_key-allowed now d ∙ ap (F.le (F.of_nat 1)) e ∙ q,
        (
          a,
          b
              ∙ ap (λ x. some (F.print x))
                  (ap (left_of F R L l key lives (F.of_nat 1)) e ∙ left-one k small),
          c,
        ),
      )

  -- No clock is ahead of the one before it.
  abbrev pub Backwards : F.W → List F.W → Type 0
  Backwards last [] = Unit {0}
  Backwards last (now ∷ nows) = (F.le now last ≡ true) × Backwards now nows

  module _ (c : ℕ) (small : c < 2 ^ 53) (cap : l.capacity ≡ F.of_nat c)
      (rate_pos : F.le (F.of_nat 0) l.refill_rate ≡ true) where
    pub refilled_none :
        (k : ℕ) (now last : F.W)
        → k ≤ c
        → F.le now last ≡ true
        → refilled F l.capacity l.refill_rate now (some (F.of_nat k)) (some last) ≡ F.of_nat k
    refilled_none k now last h b =
        let m =
          ap (λ x. F.mul x l.refill_rate) (E.max_back now last b)
          ∙ E.mul_zero l.refill_rate rate_pos in
        ap (λ x. F.min l.capacity (F.add (F.of_nat k) x)) m
        ∙ ap (F.min l.capacity) (E.add_exact k 0 (omega arith))
        ∙ ap (λ x. F.min x (F.of_nat (k + 0))) cap
        ∙ E.min_exact c (k + 0) small (omega arith)
        ∙ ap F.of_nat (ground arith)

    pub level-Has :
        (k : ℕ) (now last : F.W) (d : R.Db)
        → Has k last d
        → level F R l key now d
          ≡ refilled F l.capacity l.refill_rate now (some (F.of_nat k)) (some last)
    level-Has k now last d (h, t, u) = rw (t, u, X.parse-print, X.parse-print) refl

    allow_all-Has :
        (nows : List F.W) (k : ℕ) (last : F.W) (d : R.Db)
        → k ≤ c
        → Has k last d
        → Backwards last nows
        → (allow_all F R l key nows d).0 ≡ (if leb k (length nows) then k else length nows)
    unfolding allow_all
    allow_all-Has [] k last d h b w = ground arith
    allow_all-Has (now ∷ nows) k last d h b w =
        let e = level-Has k now last d b ∙ refilled_none k now last h w.0 in
        let (a, b') = allow_key-Has k now d (omega arith) b.0 e in
        let ih =
          allow_all-Has nows (k - 1) now (allow_key F R l fine key now d).1 (omega arith) b' w.1 in
        rw (a, ih) (ground arith)

    -- From an empty key, with a capacity of c tokens below 2^53, a rate that is not negative and a
    -- positive time to live: of calls of `Allow` whose clocks stand still or run backwards, and
    -- whose trips are made, exactly c are allowed, or all if they are fewer.
    pub allow_all_lem :
        (now : F.W) (nows : List F.W) (d : R.Db)
        → R.look d key ≡ absent
        → Backwards now nows
        → (allow_all F R l key (now ∷ nows) d).0
          ≡ (if leb c (suc (length nows)) then c else suc (length nows))
    unfolding allow_all
    allow_all_lem now nows d e w =
        let h : IsHash (R.look d key) = rw e tt in
        let (a, b) = allow_key-Has c now d small h (rw e cap) in
        let ih =
          allow_all-Has nows (c - 1) now (allow_key F R l fine key now d).1 (omega arith) b w in
        rw (a, ih) (ground arith)
