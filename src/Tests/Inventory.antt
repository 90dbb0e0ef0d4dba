-- ===== src/Tests/Inventory.antt =====
-- Reservations, compensations and seeding in the shop.
use openwar.Common.{ℕ, ◌≡◌, refl, inl, arith, [], ◌∷◌, ◌==◌, if◌then◌else◌}
use openwar.Common.Int.{pos}
use openwar.Common.Text.{Text, codes, text_eq}
use openwar.Common.Text.Decimal.{decimal}
use openwar.Breaker.{new_breaker}
use openwar.Redis.{fine, lost, cut, num, str, absent, Value}
use openwar.Redis.Memory.{memory, memory-IsLawful}
use openwar.Inventory.{reserve, sold_out, parse_sku}
use openwar.Inventory.Keys.{inventory_key, reservation_key}
use openwar.Inventory.Reserve.{Reserves, reserve-Reserves}
use openwar.Inventory.Fine.{reserve-first_for, reply_for, first_for}
use openwar.Inventory.Compensate.{Refunds, retries, retries-Refunds}
use openwar.Tests.Fixtures.{tea, ada, limits, steady, shop, shop-IsStocked, shop-clear}

-- The first trip's reply is cut off.
abbrev broken : ℕ → openwar.Inventory.Trip
broken n = if n == 0 then record steady { net = cut } else steady

reserve-Reserves_example :
    Reserves memory limits broken tea ada 2 shop
      (reserve memory limits broken tea ada 2 new_breaker shop).0
      (reserve memory limits broken tea ada 2 new_breaker shop).2
reserve-Reserves_example =
    reserve-Reserves memory limits broken tea ada 2 memory-IsLawful new_breaker shop (omega arith)
      shop-IsStocked

reserve-first_for_example :
    (reserve memory limits (λ n. steady) tea ada 2 new_breaker shop).0
    ≡ reply_for memory limits
        (λ n. steady)
        tea
        ada
        2
        (first_for memory limits (λ n. steady) tea ada 2 shop)
reserve-first_for_example =
    reserve-first_for memory limits (λ n. steady) tea ada 2 memory-IsLawful (λ n. refl)
      (omega arith) new_breaker shop refl shop-IsStocked shop-clear

-- One unit left on the shard, and a reservation that holds another.
abbrev held : Text → Value
held k =
    if text_eq k (inventory_key tea 0)
    then num (pos 1)
    else if text_eq k (reservation_key (codes "ord-1"))
    then str (codes "RESERVED")
    else absent

retries-Refunds_example : Refunds memory limits (codes "ord-1") tea 0 1 (
    retries memory limits
      (codes "ord-1")
      tea
      0
      (record { trip = record steady { net = cut }; clear = fine }
        ∷ record { trip = steady; clear = lost }
        ∷ [])
      new_breaker
      held)
unfolding inventory_key reservation_key text_eq decimal
retries-Refunds_example =
    retries-Refunds memory limits (codes "ord-1") tea 0 memory-IsLawful 1
      (record { trip = record steady { net = cut }; clear = fine }
        ∷ record { trip = steady; clear = lost }
        ∷ [])
      new_breaker held (tt, inl (refl, refl))
