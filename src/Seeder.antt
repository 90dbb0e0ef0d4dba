-- ===== src/Seeder.antt =====
-- internal/inventory/seeder.go: splitting the stock over the shards, and reading it back. The stock
-- given is not negative; a pipeline is one step, made whole or not at all.
pub mod Split
use openwar.Common.{
  ℕ, zero, suc, ◌+◌, ◌%◌, ◌/◌, Bool, true, false, Option, none, some, ltb, if◌then◌else◌, ◌==◌,
}
use openwar.Common.Int.{ℤ, pos, ◌+ℤ◌}
use openwar.Common.Text.{Text}
use openwar.Redis.{Redis, Net, call, Value, num}
use openwar.Inventory.Keys.{inventory_key, soldout_key}

-- The share of shard `i`.
unfoldable pub share : ℕ → ℕ → ℕ → ℕ
share stock shards i =
    let base = stock / shards in if ltb i (stock % shards) then base + 1 else base

-- What one value of an MGET reply adds: nothing if the key is missing.
abbrev pub shown : Value → ℤ
shown (num n) = n
shown _ = pos 0

module _ (R : Redis) where
  -- The commands of the pipeline, in the order of the loop, over the first `n` shards.
  unfoldable pub seed_shards : Text → ℕ → ℕ → ℕ → R.Db → R.Db
  seed_shards sku stock shards zero d = d
  seed_shards sku stock shards (suc n) d =
      R.set_int (seed_shards sku stock shards n d) (inventory_key sku n)
        (pos (share stock shards n))

  -- `SeedPartitionedStock`: whether it succeeds, and the data. The latch is cleared in a second trip.
  unfoldable pub seed_partitioned_stock : Net → Net → Text → ℕ → ℕ → R.Db → Bool × R.Db
  seed_partitioned_stock pipe clear sku stock shards d =
      if shards == 0
      then (false, d)
      else (let (r, d') =
            call {A = Unit {0}} pipe (λ x. (tt, seed_shards sku stock shards shards x)) d in
          elim r [
            | none ↦ (false, d')
            | some u ↦
                let (r', d'') =
                  call {A = Unit {0}} clear (λ x. (tt, R.del x (soldout_key sku))) d' in
                (elim r' [ none ↦ false | some u' ↦ true ], d'')
          ])

  -- The loop of `Available` over the replies for the first `n` shards.
  unfoldable pub available : Text → ℕ → R.Db → ℤ
  available sku zero d = pos 0
  available sku (suc n) d = available sku n d +ℤ shown (R.look d (inventory_key sku n))
