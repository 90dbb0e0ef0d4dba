-- ===== src/Inventory/Sweep.antt =====
-- The sweep of `Reserve` over the shards, whatever happens on the way.
use native.Mathlib.Nat.{mod-lt}
use openwar.Common.{ℕ, zero, suc, ◌+◌, ◌%◌, ◌≤◌, ◌<◌, ◌≡◌, refl, ◌⊎◌, inl, inr, arith}
use openwar.Common.Text.{Text}
use openwar.Breaker.{Config, Breaker}
use openwar.Redis.{Redis, IsLawful}
use openwar.Lua.{reserve_stock}
use openwar.Inventory.{
  Trip, Swept, took, stopped, exhausted, guarded, sweep, Verdict, take, stop, go_on, verdict,
}
use openwar.Inventory.Keys.{inventory_key}
use openwar.Inventory.Effect.{guarded-Ends}
use openwar.Inventory.Counts.{
  total, IsStocked, reserve_stock-IsStocked, reserve_stock-total, reserve_stock-reply,
}

module _ (R : Redis) (cfg : Config) (trips : ℕ → Trip) (sku : Text) (home shards : ℕ) where
  -- How the units go with the result: a shard key is returned only for a unit that was taken from
  -- the stock, and the stock never grows.
  abbrev pub Accounts : R.Db → Swept → R.Db → Type 0
  Accounts d (took key) d' =
      IsStocked R d' sku shards
      × (i : ℕ) × (i < shards)
      × (key ≡ inventory_key sku i)
      × (suc (total R d' sku shards) ≤ total R d sku shards)
  Accounts d _ d' = IsStocked R d' sku shards × (total R d' sku shards ≤ total R d sku shards)

  Accounts-mono :
      (d e : R.Db) (r : Swept) (d' : R.Db)
      → total R e sku shards ≤ total R d sku shards
      → Accounts e r d'
      → Accounts d r d'
  Accounts-mono d e (took key) d' h (s, i, lt, k, a) = (s, i, lt, k, omega arith)
  Accounts-mono d e stopped d' h (s, a) = (s, omega arith)
  Accounts-mono d e exhausted d' h (s, a) = (s, omega arith)

  module _ (L : IsLawful R) (pos_shards : 0 < shards) where
    -- The trip for one shard, seen from the loop.
    Probes : R.Db → Verdict → R.Db → Type 0
    Probes d v d' =
        (v ≡ take) × (suc (total R d' sku shards) ≤ total R d sku shards)
        ⊎ (v ≡ stop) × (total R d' sku shards ≤ total R d sku shards)
        ⊎ (v ≡ go_on) × (total R d' sku shards ≤ total R d sku shards)

    probe :
        (i : ℕ) (t : Trip) (b : Breaker) (d : R.Db)
        → i < shards
        → IsStocked R d sku shards
        → let r = guarded R cfg t (reserve_stock R (inventory_key sku i)) b d in
          IsStocked R r.2 sku shards × Probes d (verdict r.0) r.2
    unfolding verdict Probes
    probe i t b d lt ok = elim (guarded-Ends R cfg (reserve_stock R (inventory_key sku i)) d t b) [
      | inl (_, r, d') ↦
          rw (r, d')
            (
              reserve_stock-IsStocked R L d sku i shards lt ok,
              ground (
                arith,
                reserve_stock-total R L d sku i shards lt ok,
                reserve_stock-reply R L d sku i shards lt ok,
              ),
            )
      | inr (inl (r, inl d')) ↦ rw (r, d') (ok, inr (inr (refl, omega arith)))
      | inr (inl (r, inr d')) ↦
          rw (r, d')
            (
              reserve_stock-IsStocked R L d sku i shards lt ok,
              inr (inr (refl, omega (arith, reserve_stock-total R L d sku i shards lt ok))),
            )
      | inr (inr (r, d')) ↦ rw (r, d') (ok, inr (inl (refl, omega arith)))
    ]

    -- However the trips go, a sweep returns the key of a shard only for a unit that it took out of
    -- the stock; otherwise the stock is no larger than before. No counter becomes negative.
    pub sweep-Accounts :
        (left offset : ℕ) (b : Breaker) (d : R.Db)
        → IsStocked R d sku shards
        → Accounts d
            (sweep R cfg trips sku home shards left offset b d).0
            (sweep R cfg trips sku home shards left offset b d).2
    unfolding sweep Probes
    sweep-Accounts zero offset b d ok = (ok, omega arith)
    sweep-Accounts (suc left) offset b d ok =
        let i : ℕ = (home + offset) % shards in
        let lt : i < shards = mod-lt (home + offset) pos_shards in
        let (ok', p) = probe i (trips (suc offset)) b d lt ok in
        elim p [
          | inl (v, less) ↦ rw (v, sweep) (ok', i, lt, refl, less)
          | inr (inl (v, le)) ↦ rw (v, sweep) (ok', le)
          | inr (inr (v, le)) ↦
              rw (v, sweep)
                (Accounts-mono d _ _ _ le (
                  sweep-Accounts left (suc offset)
                    (guarded R cfg (trips (suc offset)) (reserve_stock R (inventory_key sku i)) b
                      d).1
                    (guarded R cfg (trips (suc offset)) (reserve_stock R (inventory_key sku i)) b
                      d).2
                    ok'))
        ]
