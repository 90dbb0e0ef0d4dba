-- ===== src/Tests/Sale.antt =====
-- A sale of tea: single steps, an order, and a tick of the reconciler.
use openwar.Common.{ℕ, ◌+◌, ◌≤◌, ◌≡◌, refl, arith, true, List, [], ◌∷◌}
use openwar.Common.Lists.{All}
use openwar.Common.Int.{◌+ℤ◌}
use openwar.Common.Text.{Text, codes, text_eq}
use openwar.Common.Text.Decimal.{decimal}
use openwar.Redis.{fine, call}
use openwar.Redis.Memory.{memory, memory-IsLawful}
use openwar.Lua.{reserve_stock}
use openwar.Inventory.Keys.{inventory_key, reservation_key, soldout_key}
use openwar.Inventory.Counts.{IsStocked, total}
use openwar.Store.{any_text}
use openwar.Order.{acked, placed, place}
use openwar.Order.Timeout.{tick_once}
use openwar.Sale.{System, sys, reserved_units, take, enter, Reach, here, next}
use openwar.Sale.Balance.{Reach-IsBalanced}
use openwar.Sale.Places.{place-Reach}
use openwar.Sale.Timeouts.{IsOwn, tick_once-Reach}
use openwar.Seeder.{seed_partitioned_stock, seed_shards, share}
use openwar.Tests.Fixtures.{tea, limits, shop, shop-IsStocked}
use openwar.Tests.Order.{one_tea, world, run_over}
use openwar.Tests.Timeout.{site, timing_out}

-- One unit is taken from the second shard and entered in the reservation of an order.
abbrev sold_one : System memory
sold_one =
    sys memory
      (memory.set (reserve_stock memory (inventory_key tea 1) shop).1 (codes "reservation:ord-1")
        (codes "RESERVED") 900)
      0 (codes "ord-1" ∷ [])

selling : Reach memory tea 2 (sys memory shop 0 []) sold_one
unfolding reserve_stock seed_partitioned_stock inventory_key reservation_key soldout_key text_eq
    decimal call seed_shards share ◌+ℤ◌ any_text
selling =
    next (next here (take 1 (omega arith) refl refl)) (enter (codes "ord-1") 0 900 refl refl refl)

Reach-IsBalanced_example :
    IsStocked memory sold_one.db tea 2
    × (total memory sold_one.db tea 2
          + sold_one.held
          + reserved_units memory sold_one.db sold_one.marked
        ≤ total memory shop tea 2)
Reach-IsBalanced_example = Reach-IsBalanced memory tea 2 memory-IsLawful shop shop-IsStocked selling

place-Reach_example :
    let r = place memory limits 2 900 (run_over acked fine) one_tea world in
    (h' : ℕ) × (m' : List Text) × Reach memory tea 2
      (sys memory shop 0 [])
      (sys memory r.1.db h' m')
    × (r.0 ≡ placed (codes "ord-1") → any_text (codes "ord-1") m' ≡ true)
unfolding any_text
place-Reach_example =
    place-Reach memory memory-IsLawful limits 2 900 (run_over acked fine) one_tea [] 0 world
      (omega arith) shop-IsStocked refl

site-IsOwn :
    All (IsOwn memory memory-IsLawful limits tea 2 (codes "ord-1" ∷ []) 0) site.tables.orders
unfolding any_text text_eq
site-IsOwn = ((refl, refl), tt)

tick_once-Reach_example :
    let s' = (tick_once memory limits 2 fine fine 120 600 (λ n. timing_out 600) site).1 in
    Reach memory tea 2
      (sys memory shop 0 (codes "ord-1" ∷ []))
      (sys memory s'.world.db 0 (codes "ord-1" ∷ []))
    × All (IsOwn memory memory-IsLawful limits tea 2 (codes "ord-1" ∷ []) 0) s'.tables.orders
tick_once-Reach_example =
    tick_once-Reach memory memory-IsLawful limits tea 2 (codes "ord-1" ∷ []) 0 (omega arith)
      (omega arith) fine fine 120 600 (λ n. timing_out 600) site site-IsOwn
