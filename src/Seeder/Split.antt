-- ===== src/Seeder/Split.antt =====
-- The split is exact and even, and `Available` reads it back.
use native.Mathlib.Nat.{div-add-mod}
use openwar.Common.{
  ℕ, zero, suc, ◌+◌, ◌*◌, ◌%◌, ◌/◌, ◌≤◌, ◌<◌, ◌≡◌, refl, ◌==◌, ==_iff, ltb, if◌then◌else◌, true,
  false, arith, Bool-cases, inl, inr, ap, ◌∙◌,
}
use openwar.Common.Int.{pos, ◌+ℤ◌}
use openwar.Common.Text.{Text, text_eq_self}
use openwar.Redis.{Redis, IsLawful, num, absent, fine, call, Net}
use openwar.Lua.Stock.{count}
use openwar.Inventory.Keys.{inventory_key, inventory_key_ne, soldout_key, soldout-inventory}
use openwar.Inventory.Counts.{sum, sum_ext, total, IsStocked}
use openwar.Seeder.{share, seed_shards, seed_partitioned_stock, available}

-- The first `n` shares, where `r` shards get one more.
sum_shares :
    (base r n : ℕ)
    → sum (λ i. if ltb i r then base + 1 else base) n ≡ n * base + (if ltb n r then n else r)
sum_shares base r zero = ground arith
sum_shares base r (suc n) = grind (arith, sum_shares base r n)

-- The shares of all shards add up to the stock, and no two differ by more than one.
pub share_exact :
    (stock shards : ℕ)
    → 0 < shards
    → (sum (share stock shards) shards ≡ stock)
      × ((i : ℕ)
          → (stock / shards ≤ share stock shards i) × (share stock shards i ≤ stock / shards + 1))
unfolding share
share_exact stock shards h = (
  sum_shares (stock / shards) (stock % shards) shards ∙ grind (arith, div-add-mod stock shards),
  λ i. ground arith,
)

module _ (R : Redis) (L : IsLawful R) (sku : Text) (stock shards : ℕ) where
  look-seed_shards :
      (n : ℕ) (d : R.Db) (i : ℕ)
      → i < n
      → R.look (seed_shards R sku stock shards n d) (inventory_key sku i)
        ≡ num (pos (share stock shards i))
  unfolding seed_shards
  look-seed_shards zero d i h = elim h [ ]
  look-seed_shards (suc n) d i h = elim (Bool-cases (n == i)) [
    | inl e ↦
        let same : n ≡ i = (==_iff n i).0 e in rw (seed_shards, L.look-set_int, same, text_eq_self)
    | inr e ↦
        rw (seed_shards, L.look-set_int, inventory_key_ne sku n i (ground arith))
          (look-seed_shards n d i (ground arith))
  ]

  look_seeded :
      (d : R.Db) (i : ℕ)
      → i < shards
      → R.look
          (R.del (seed_shards R sku stock shards shards d) (soldout_key sku))
          (inventory_key sku i)
        ≡ num (pos (share stock shards i))
  look_seeded d i h = rw (L.look-del, soldout-inventory) (look-seed_shards shards d i h)

  available_lem :
      (n : ℕ) (d : R.Db)
      → ((i : ℕ) → i < n → R.look d (inventory_key sku i) ≡ num (pos (share stock shards i)))
      → available R sku n d ≡ pos (sum (share stock shards) n)
  unfolding available ◌+ℤ◌
  available_lem zero d h = refl
  available_lem (suc n) d h =
      rw (available_lem n d (λ i lt. h i (omega arith)), h n (omega arith)) (ground arith)

  -- Where both trips succeed and there is a shard, seeding succeeds; every shard then holds a count,
  -- the counts add up to the stock, the sold-out latch is clear, and `Available` reports the stock.
  pub seed_partitioned_stock_lem :
      (d : R.Db)
      → 0 < shards
      → let r = seed_partitioned_stock R fine fine sku stock shards d in
        (r.0 ≡ true)
        × IsStocked R r.1 sku shards
        × (total R r.1 sku shards ≡ stock)
        × (R.look r.1 (soldout_key sku) ≡ absent)
        × (available R sku shards r.1 ≡ pos stock)
  unfolding seed_partitioned_stock call
  seed_partitioned_stock_lem d h =
      let e : (shards == 0) ≡ false = ground arith in
      let s = share_exact stock shards h in
      rw (e, seed_partitioned_stock)
        (
          refl,
          λ i lt. rw (look_seeded d i lt) tt,
          sum_ext _ _ shards (λ i lt. ap count (look_seeded d i lt)) ∙ s.0,
          rw (L.look-del, text_eq_self),
          available_lem shards _ (look_seeded d) ∙ ap pos s.0,
        )

-- With no shard, seeding is refused and nothing changes.
pub seed_no_shards :
    (R : Redis) (pipe clear : Net) (sku : Text) (stock : ℕ) (d : R.Db)
    → seed_partitioned_stock R pipe clear sku stock 0 d ≡ (false, d)
unfolding seed_partitioned_stock
seed_no_shards R pipe clear sku stock d = refl
