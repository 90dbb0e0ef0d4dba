-- ===== src/Bucket/Skew.antt =====
-- Gateways whose clocks differ share a bucket: each call writes its own clock back, so that a call of
-- the faster one refills the bucket for a span that the last call of the slower one has undone.
use openwar.Common.{
  ℕ, zero, suc, ◌+◌, ◌-◌, ◌*◌, ◌^◌, ◌≤◌, ◌<◌, ◌≡◌, refl, ap, ◌∙◌, true, some, List, [], ◌∷◌,
  if◌then◌else◌, leb, arith,
}
use openwar.Common.Text.{Text}
use openwar.Redis.{Redis, IsLawful, absent, fine}
use openwar.Bucket.{
  Floats, IsRounded, IsExact, Limiter, refilled, idle_ttl, level, allow_key, allow_all,
}
use openwar.Bucket.Level.{IsHash}
use openwar.Bucket.Burst.{Has, allow_key-Has, level-Has, refilled_none}

-- The clocks of `n` rounds, a call of the faster gateway and one of the slower in each.
abbrev pub rounds {ℓ} : {A : Type ℓ} → ℕ → A → A → List A
rounds zero fast slow = []
rounds (suc n) fast slow = fast ∷ slow ∷ rounds n fast slow

leb_one : (k : ℕ) → 1 ≤ k → leb 1 k ≡ true
leb_one k h = ground arith

module _ (F : Floats) (X : IsRounded F) (E : IsExact F) (R : Redis) (L : IsLawful R) (l : Limiter F)
    (key : Text) (lives : 0 < idle_ttl F l.capacity l.refill_rate) (c rate slow ahead : ℕ)
    (small : c < 2 ^ 53) (cap : l.capacity ≡ F.of_nat c) (speed : l.refill_rate ≡ F.of_nat rate)
    (clock : slow + ahead < 2 ^ 53) (enough : 2 ≤ c) (refills : 2 ≤ ahead * rate)
    (quick : rate < 2 ^ 53) (fits : c + ahead * rate < 2 ^ 53) where
  abbrev slow_clock : F.W
  slow_clock = F.of_nat slow

  abbrev fast_clock : F.W
  fast_clock = F.of_nat (slow + ahead)

  rate_pos : F.le (F.of_nat 0) l.refill_rate ≡ true
  rate_pos = ap (F.le (F.of_nat 0)) speed ∙ E.le_exact 0 rate (omega arith) quick ∙ ground arith

  -- A call of the faster gateway finds what the slower one left, and the span between the clocks.
  refilled_span :
      (k : ℕ)
      → k ≤ c
      → refilled F l.capacity l.refill_rate fast_clock (some (F.of_nat k)) (some slow_clock)
        ≡ F.of_nat (if leb c (k + ahead * rate) then c else k + ahead * rate)
  refilled_span k h =
      let m =
        ap (F.max (F.of_nat 0)) (E.sub_exact (slow + ahead) slow (omega arith) clock)
        ∙ ap (λ (n : ℕ). F.max (F.of_nat 0) (F.of_nat n)) (omega arith)
        ∙ E.max_exact ahead (omega arith) in
      let p =
        ap (λ x. F.mul x l.refill_rate) m
        ∙ ap (F.mul (F.of_nat ahead)) speed
        ∙ E.mul_exact ahead rate (omega arith) in
      ap (λ x. F.min l.capacity (F.add (F.of_nat k) x)) p
      ∙ ap (F.min l.capacity) (E.add_exact k (ahead * rate) (omega arith))
      ∙ ap (λ x. F.min x (F.of_nat (k + ahead * rate))) cap
      ∙ E.min_exact c (k + ahead * rate) small (omega arith)

  behind : F.le slow_clock fast_clock ≡ true
  behind = E.le_exact slow (slow + ahead) (omega arith) clock ∙ ground arith

  after_fast : R.Db → R.Db
  after_fast d = (allow_key F R l fine key fast_clock d).1

  -- A round from two tokens or more: both calls are allowed.
  pair_allowed :
      (k : ℕ) (d : R.Db)
      → 2 ≤ k
      → k ≤ c
      → IsHash (R.look d key)
      → level F R l key fast_clock d ≡ F.of_nat k
      → let r = allow_key F R l fine key fast_clock d in
        let r' = allow_key F R l fine key slow_clock r.1 in
        (r.0.allowed ≡ true)
        × (r'.0.allowed ≡ true)
        × Has F X E R L l key lives (k - 1 - 1) slow_clock r'.1
  unfolding after_fast
  pair_allowed k d two h hash e =
      let (a, b) = allow_key-Has F X E R L l key lives k fast_clock d (omega arith) hash e in
      let e' : level F R l key slow_clock (after_fast d) ≡ F.of_nat (k - 1) =
        level-Has F X E R L l key lives c small cap rate_pos (k - 1) slow_clock fast_clock
          (after_fast d) b
        ∙ refilled_none F X E R L l key lives c small cap rate_pos (k - 1) slow_clock fast_clock
            (omega arith) behind in
      let (a', b') =
        allow_key-Has F X E R L l key lives (k - 1) slow_clock (after_fast d) (omega arith) b.0
          e' in
      (a ∙ leb_one k (omega arith), a' ∙ leb_one (k - 1) (omega arith), b')

  pairs_allowed :
      (n k : ℕ) (d : R.Db)
      → k ≤ c
      → Has F X E R L l key lives k slow_clock d
      → (allow_all F R l key (rounds n fast_clock slow_clock) d).0 ≡ 2 * n
  unfolding allow_all
  pairs_allowed zero k d h b = refl
  pairs_allowed (suc n) k d h b =
      let k' : ℕ = if leb c (k + ahead * rate) then c else k + ahead * rate in
      let e =
        level-Has F X E R L l key lives c small cap rate_pos k fast_clock slow_clock d b
        ∙ refilled_span k h in
      let (a, a', b') = pair_allowed k' d (ground arith) (ground arith) b.0 e in
      rw (a, a', pairs_allowed n (k' - 1 - 1) _ (ground arith) b') (omega arith)

  -- Two gateways whose clocks differ by `ahead` seconds call `Allow` in turn, the faster first, on
  -- a key that is empty at first, and every trip is made. If `ahead` seconds refill two tokens or
  -- more and the capacity is two or more, then every call is allowed, however many there are and
  -- although neither clock moves. The clocks, the rate, the capacity and what it refills are
  -- integers below 2^53, and the time to live is positive.
  pub skewed_clocks_unlimited :
      (n : ℕ) (d : R.Db)
      → R.look d key ≡ absent
      → (allow_all F R l key (rounds n fast_clock slow_clock) d).0 ≡ 2 * n
  unfolding allow_all
  skewed_clocks_unlimited zero d e = refl
  skewed_clocks_unlimited (suc n) d e =
      let h : IsHash (R.look d key) = rw e tt in
      let (a, a', b') = pair_allowed c d enough (omega arith) h (rw e cap) in
      rw (a, a', pairs_allowed n (c - 1 - 1) _ (omega arith) b') (omega arith)
