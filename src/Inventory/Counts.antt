-- ===== src/Inventory/Counts.antt =====
-- The stock of a sku over its shards.
use openwar.Common.{
  ℕ, zero, suc, ◌+◌, ◌-◌, ◌<◌, ◌≡◌, refl, ap, ◌==◌, ==_iff, if◌then◌else◌, arith, inl, inr,
  Bool-cases,
}
use openwar.Common.Text.{Text}
use openwar.Redis.{Redis, IsLawful}
use openwar.Lua.{reserve_stock}
use openwar.Lua.Stock.{Holds, count, reserve_stock_lem}
use openwar.Inventory.Keys.{inventory_key, inventory_key_ne}
use openwar.Common.Int.{pos}

abbrev pub sum : (ℕ → ℕ) → ℕ → ℕ
sum f zero = 0
sum f (suc n) = sum f n + f n

pub sum_ext : (f g : ℕ → ℕ) (n : ℕ) → ((j : ℕ) → j < n → f j ≡ g j) → sum f n ≡ sum g n
sum_ext f g zero h = refl
sum_ext f g (suc n) h = omega (arith, sum_ext f g n (λ j lt. h j (omega arith)), h n (omega arith))

-- One less at one place, if there is any.
pub sum_take :
    (f g : ℕ → ℕ) (i n : ℕ)
    → i < n
    → ((j : ℕ) → g j ≡ (if i == j then f j - 1 else f j))
    → sum g n + (if f i == 0 then 0 else 1) ≡ sum f n
sum_take f g i zero h e = elim h [ ]
sum_take f g i (suc n) h e = elim (Bool-cases (i == n)) [
  | inl here ↦ ground (arith, e n, sum_ext f g n (λ j lt. ground (arith, e j)))
  | inr there ↦ ground (arith, e n, sum_take f g i n (ground arith) e)
]

-- One more at one place.
pub sum_put :
    (f g : ℕ → ℕ) (i n : ℕ)
    → i < n
    → ((j : ℕ) → g j ≡ (if i == j then f j + 1 else f j))
    → sum g n ≡ sum f n + 1
sum_put f g i zero h e = elim h [ ]
sum_put f g i (suc n) h e = elim (Bool-cases (i == n)) [
  | inl here ↦ ground (arith, e n, sum_ext f g n (λ j lt. ground (arith, e j)))
  | inr there ↦ ground (arith, e n, sum_put f g i n (ground arith) e)
]

module _ (R : Redis) where
  abbrev pub units : R.Db → Text → ℕ → ℕ
  units d sku i = count (R.look d (inventory_key sku i))

  -- The units left over all shards.
  abbrev pub total : R.Db → Text → ℕ → ℕ
  total d sku shards = sum (units d sku) shards

  -- Every shard holds a count that is not negative, or is missing.
  abbrev pub IsStocked : R.Db → Text → ℕ → Type 0
  IsStocked d sku shards = (i : ℕ) → i < shards → Holds (R.look d (inventory_key sku i))

  module _ (L : IsLawful R) (d : R.Db) (sku : Text) (i shards : ℕ) (lt : i < shards)
      (ok : IsStocked d sku shards) where
    abbrev after : R.Db
    after = (reserve_stock R (inventory_key sku i) d).1

    pub reserve_stock-units :
        (j : ℕ) → units after sku j ≡ (if i == j then units d sku j - 1 else units d sku j)
    reserve_stock-units j = elim (Bool-cases (i == j)) [
      | inl e ↦
          let same : i ≡ j = (==_iff i j).0 e in
          rw (e, ← same) (ap count (reserve_stock_lem R L (inventory_key sku i) d (ok i lt)).1)
      | inr e ↦ rw e (
          ap count (
            (reserve_stock_lem R L (inventory_key sku i) d (ok i lt)).2 (inventory_key sku j)
              (inventory_key_ne sku i j (ground arith))))
    ]

    pub reserve_stock-IsStocked : IsStocked after sku shards
    reserve_stock-IsStocked j h = elim (Bool-cases (i == j)) [
      | inl e ↦
          let same : i ≡ j = (==_iff i j).0 e in
          rw (← same, (reserve_stock_lem R L (inventory_key sku i) d (ok i lt)).1) tt
      | inr e ↦
          rw
            ((reserve_stock_lem R L (inventory_key sku i) d (ok i lt)).2 (inventory_key sku j)
              (inventory_key_ne sku i j (ground arith)))
            (ok j h)
    ]

    pub reserve_stock-total :
        total after sku shards + (if units d sku i == 0 then 0 else 1) ≡ total d sku shards
    reserve_stock-total = sum_take (units d sku) (units after sku) i shards lt reserve_stock-units

    pub reserve_stock-reply :
        (reserve_stock R (inventory_key sku i) d).0.0
        ≡ (if units d sku i == 0 then pos 0 else pos 1)
    reserve_stock-reply = (reserve_stock_lem R L (inventory_key sku i) d (ok i lt)).0
