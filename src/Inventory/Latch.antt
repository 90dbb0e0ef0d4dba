-- ===== src/Inventory/Latch.antt =====
-- The sold-out latch after a sweep whose trips have failed: `Reserve` takes errors for empty shards.
use openwar.Common.{ℕ, zero, suc, ◌+◌, ◌%◌, ◌<◌, ◌≡◌, refl, ap, ◌∙◌, Bool, true, arith}
use openwar.Common.Text.{Text, codes, text_eq_self}
use openwar.Breaker.{Config, Breaker, closed, failed, execute, begin, finish}
use openwar.Redis.{Redis, IsLawful, fine, lost, call, absent, exists}
use openwar.Lua.{reserve_stock}
use openwar.Inventory.{
  Trip, exhausted, sold_out, guarded, sweep, is_sold_out, latch_sold_out, latch_if, probe_if,
  reserve, verdict,
}
use openwar.Inventory.Hash.{shard_for}
use openwar.Inventory.Keys.{inventory_key, soldout_key, soldout-inventory}
use openwar.Inventory.Counts.{units, total, sum_ext}
use openwar.Inventory.Effect.{guarded_fine}

module _ (R : Redis) (cfg : Config) where
  -- A closed breaker with room for more failures counts a lost trip, and stays closed.
  guarded_lost {κ} :
      {A : Type κ} (t : Trip) (f : R.Db → A × R.Db) (b : Breaker) (d : R.Db)
      → t.net ≡ lost
      → b.state ≡ closed
      → b.failures + 1 < cfg.max_failures
      → let r = guarded R cfg t f b d in
        (r.0 ≡ failed) × (r.1.state ≡ closed) × (r.1.failures ≡ b.failures + 1) × (r.2 ≡ d)
  unfolding guarded execute call begin finish
  guarded_lost t f b d e c room = rw (e, c) (ground arith)

  guarded_resets {κ} :
      {A : Type κ} (t : Trip) (f : R.Db → A × R.Db) (b : Breaker) (d : R.Db)
      → t.net ≡ fine
      → b.state ≡ closed
      → (guarded R cfg t f b d).1.failures ≡ 0
  unfolding guarded execute call begin finish
  guarded_resets t f b d e c = rw (e, c) refl

  -- `isSoldOut` when Redis has answered.
  answered_latch :
      (t : Trip) (sku : Text) (b : Breaker) (d : R.Db)
      → t.net ≡ fine
      → b.state ≡ closed
      → let g = guarded R cfg t (λ x. (exists (R.look x (soldout_key sku)), x)) b d in
        is_sold_out R cfg t sku b d ≡ (exists (R.look d (soldout_key sku)), g.1, g.2)
  unfolding is_sold_out
  answered_latch t sku b d e c =
      let (r, _, _) =
        guarded_fine R cfg (λ x. (exists (R.look x (soldout_key sku)), x)) d t b e c in
      rw (r, is_sold_out) refl

  latched-total :
      (L : IsLawful R) (sku : Text) (shards : ℕ) (d : R.Db)
      → total R (R.set d (soldout_key sku) (codes "1") 0) sku shards ≡ total R d sku shards
  latched-total L sku shards d =
      sum_ext (units R (R.set d (soldout_key sku) (codes "1") 0) sku) (units R d sku) shards
        (λ i lt. rw (L.look-set, soldout-inventory sku sku i) refl)

  module _ (trips : ℕ → Trip) (sku : Text) (shards : ℕ)
      (down : (n : ℕ) → n < shards → (trips (suc n)).net ≡ lost) where
    -- A sweep whose trips are all lost is exhausted, and has changed nothing.
    sweep_lost :
        (home left offset : ℕ) (b : Breaker) (d : R.Db)
        → offset + left ≡ shards
        → b.state ≡ closed
        → b.failures + left < cfg.max_failures
        → let r = sweep R cfg trips sku home shards left offset b d in
          (r.0 ≡ exhausted) × (r.1.state ≡ closed) × (r.2 ≡ d)
    unfolding sweep verdict
    sweep_lost home zero offset b d e c room = (refl, c, refl)
    sweep_lost home (suc left) offset b d e c room =
        let key = inventory_key sku ((home + offset) % shards) in
        let (r, c', n, d') =
          guarded_lost (trips (suc offset)) (reserve_stock R key) b d (down offset (omega arith)) c
            (omega arith) in
        let g = guarded R cfg (trips (suc offset)) (reserve_stock R key) b d in
        let (x, y, z) =
          sweep_lost home left (suc offset) g.1 g.2 (omega arith) c' (omega (arith, n)) in
        rw (r, sweep) (x, y, z ∙ d')

    module _ (L : IsLawful R) where
      -- A sweep whose trips are all lost latches the sku as sold out: if the latch is clear and
      -- can be read and set, but no trip to a shard arrives, the breaker is closed and its
      -- threshold of failures is above the number of shards, then `Reserve` returns `ErrSoldOut`
      -- with the stock as it was, and the next `Reserve` of any user that reads the latch returns
      -- it too.
      pub outage_latches :
          (user user' : Text) (later : ℕ → Trip) (b : Breaker) (d : R.Db)
          → (trips 0).net ≡ fine
          → (trips (suc shards)).net ≡ fine
          → b.state ≡ closed
          → R.look d (soldout_key sku) ≡ absent
          → shards < cfg.max_failures
          → (later 0).net ≡ fine
          → let x = reserve R cfg trips sku user shards b d in
            (x.0 ≡ sold_out)
            × (total R x.2 sku shards ≡ total R d sku shards)
            × ((reserve R cfg later sku user' shards x.1 x.2).0 ≡ sold_out)
      unfolding reserve probe_if latch_if latch_sold_out
      outage_latches user user' later b d first last c clear few next =
          let f0 : R.Db → Bool × R.Db = λ x. (exists (R.look x (soldout_key sku)), x) in
          let (r0, c0, d0) = guarded_fine R cfg f0 d (trips 0) b first c in
          let z = guarded_resets (trips 0) f0 b d first c in
          let g0 = guarded R cfg (trips 0) f0 b d in
          let home = shard_for user shards in
          let (s1, c1, d1) =
            sweep_lost home shards 0 g0.1 g0.2 (omega arith) c0 (omega (arith, z)) in
          let w = sweep R cfg trips sku home shards shards 0 g0.1 g0.2 in
          let f2 : R.Db → Unit {0} × R.Db = λ x. (tt, R.set x (soldout_key sku) (codes "1") 0) in
          let (r2, c2, d2) = guarded_fine R cfg f2 w.2 (trips (suc shards)) w.1 last c1 in
          let g2 = guarded R cfg (trips (suc shards)) f2 w.1 w.2 in
          let x : reserve R cfg trips sku user shards b d ≡ (sold_out, g2.1, g2.2) =
            ap (probe_if R cfg trips sku user shards)
              (answered_latch (trips 0) sku b d first c ∙ ap (λ v. (exists v, g0.1, g0.2)) clear)
            ∙ ap (λ v. latch_if R cfg trips sku shards (v, w.1, w.2)) s1 in
          let kept : g2.2 ≡ R.set d (soldout_key sku) (codes "1") 0 =
            d2 ∙ ap (λ v. R.set v (soldout_key sku) (codes "1") 0) (d1 ∙ d0) in
          let set : exists (R.look g2.2 (soldout_key sku)) ≡ true =
            ap (λ v. exists (R.look v (soldout_key sku))) kept
            ∙ rw (L.look-set, text_eq_self) refl in
          let g3 = guarded R cfg (later 0) f0 g2.1 g2.2 in
          rw x (
            refl,
            ap (λ v. total R v sku shards) kept ∙ latched-total L sku shards d,
            ap (λ v. (probe_if R cfg later sku user' shards v).0)
                  (answered_latch (later 0) sku g2.1 g2.2 next c2)
                ∙ ap (λ v. (probe_if R cfg later sku user' shards (v, g3.1, g3.2)).0) set,
          )
