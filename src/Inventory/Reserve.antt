-- ===== src/Inventory/Reserve.antt =====
-- `Reserve` as a whole: its accounts under any failures, and what it returns when there are none.
use openwar.Common.{ℕ, suc, ◌≤◌, ◌<◌, ◌≡◌, refl, inl, inr, Bool, true, false, arith, ap, subst}
use openwar.Common.Text.{Text, codes}
use openwar.Breaker.{Config, Breaker}
use openwar.Redis.{Redis, IsLawful, exists}
use openwar.Lua.Stock.{count}
use openwar.Inventory.{
  Trip, Swept, took, stopped, exhausted, Reserved, reserved, is_sold_out, latch_sold_out, latch_if,
  probe_if, reserve,
}
use openwar.Inventory.Hash.{shard_for}
use openwar.Inventory.Keys.{inventory_key, soldout_key, soldout-inventory}
use openwar.Inventory.Effect.{guarded-Ends}
use openwar.Inventory.Sweep.{Accounts, sweep-Accounts}
use openwar.Inventory.Counts.{sum_ext, units, total, IsStocked}

module _ (R : Redis) (cfg : Config) (trips : ℕ → Trip) (sku user : Text) (shards : ℕ) where
  -- A reservation is a unit taken out of the stock of one shard; without one the stock has not grown.
  abbrev pub Reserves : R.Db → Reserved → R.Db → Type 0
  Reserves d (reserved key) d' =
      IsStocked R d' sku shards
      × (i : ℕ) × (i < shards)
      × (key ≡ inventory_key sku i)
      × (suc (total R d' sku shards) ≤ total R d sku shards)
  Reserves d _ d' = IsStocked R d' sku shards × (total R d' sku shards ≤ total R d sku shards)

  pub is_sold_out_reads : (t : Trip) (b : Breaker) (d : R.Db) → (is_sold_out R cfg t sku b d).2 ≡ d
  unfolding is_sold_out
  is_sold_out_reads t b d =
      elim (guarded-Ends R cfg (λ x. (exists (R.look x (soldout_key sku)), x)) d t b) [
        | inl (_, r, d') ↦ rw (r, d', is_sold_out)
        | inr (inl (r, inl d')) ↦ rw (r, d', is_sold_out)
        | inr (inl (r, inr d')) ↦ rw (r, d', is_sold_out)
        | inr (inr (r, d')) ↦ rw (r, d', is_sold_out)
      ]

  module _ (L : IsLawful R) where
    latched : R.Db → R.Db
    latched d = R.set d (soldout_key sku) (codes "1") 0

    look-latched :
        (d : R.Db) (i : ℕ)
        → R.look (latched d) (inventory_key sku i) ≡ R.look d (inventory_key sku i)
    unfolding latched
    look-latched d i = rw (L.look-set, soldout-inventory)

    Keeps : R.Db → R.Db → Type 0
    Keeps d d' = (i : ℕ) → R.look d' (inventory_key sku i) ≡ R.look d (inventory_key sku i)

    latch-Keeps : (t : Trip) (b : Breaker) (d : R.Db) → Keeps d (latch_sold_out R cfg t sku b d).1
    unfolding Keeps latch_sold_out latched
    latch-Keeps t b d =
        elim (guarded-Ends {A = Unit {0}} R cfg (λ x. (tt, R.set x (soldout_key sku) (codes "1") 0))
          d t b) [
            | inl (_, r, d') ↦ rw d' (look-latched d)
            | inr (inl (r, inl d')) ↦ rw d' (λ i. refl)
            | inr (inl (r, inr d')) ↦ rw d' (look-latched d)
            | inr (inr (r, d')) ↦ rw d' (λ i. refl)
          ]

    Keeps-total : (d d' : R.Db) → Keeps d d' → total R d' sku shards ≡ total R d sku shards
    unfolding Keeps
    Keeps-total d d' k = sum_ext (units R d' sku) (units R d sku) shards (λ i lt. ap count (k i))

    Keeps-IsStocked :
        (d d' : R.Db) → Keeps d d' → IsStocked R d sku shards → IsStocked R d' sku shards
    unfolding Keeps
    Keeps-IsStocked d d' k ok i lt = rw (k i) (ok i lt)

    latch_if-Reserves :
        (home : ℕ) (d : R.Db) (r : Swept) (b : Breaker) (d' : R.Db)
        → Accounts R cfg trips sku home shards d r d'
        → Reserves d
            (latch_if R cfg trips sku shards (r, b, d')).0
            (latch_if R cfg trips sku shards (r, b, d')).2
    unfolding latch_if
    latch_if-Reserves home d (took key) b d' a = a
    latch_if-Reserves home d stopped b d' a = a
    latch_if-Reserves home d exhausted b d' (ok, le) =
        let k = latch-Keeps (trips (suc shards)) b d' in
        (Keeps-IsStocked d' _ k ok, omega (arith, Keeps-total d' _ k))

    probe_if-Reserves :
        (x : Bool) (b : Breaker) (d : R.Db)
        → 0 < shards
        → IsStocked R d sku shards
        → Reserves d
            (probe_if R cfg trips sku user shards (x, b, d)).0
            (probe_if R cfg trips sku user shards (x, b, d)).2
    unfolding probe_if
    probe_if-Reserves true b d h ok = (ok, omega arith)
    probe_if-Reserves false b d h ok =
        latch_if-Reserves (shard_for user shards) d _ _ _
          (sweep-Accounts R cfg trips sku (shard_for user shards) shards L h shards 0 b d ok)

    -- With at least one shard, and counters of the sku that are not negative: whatever happens to
    -- any of the trips, `Reserve` returns a key only of a shard of the sku and with a unit taken
    -- from the stock, and otherwise the stock has not grown. No counter becomes negative.
    pub reserve-Reserves :
        (b : Breaker) (d : R.Db)
        → 0 < shards
        → IsStocked R d sku shards
        → Reserves d
            (reserve R cfg trips sku user shards b d).0
            (reserve R cfg trips sku user shards b d).2
    unfolding reserve
    reserve-Reserves b d h ok =
        let same = is_sold_out_reads (trips 0) b d in
        let x = is_sold_out R cfg (trips 0) sku b d in
        subst
          (λ e.
            Reserves e (probe_if R cfg trips sku user shards x).0
              (probe_if R cfg trips sku user shards x).2)
          same (probe_if-Reserves x.0 x.1 x.2 h (rw same ok))
