-- ===== src/Tests/Order.antt =====
-- Orders placed in the shop.
use openwar.Common.{some, ℕ, suc, ◌+◌, ◌≤◌, ◌<◌, ◌≡◌, refl, arith, false, [], ◌∷◌, ◌++◌, replicate}
use openwar.Common.Int.{pos}
use openwar.Common.Text.{codes}
use openwar.Breaker.{new_breaker}
use openwar.Redis.{fine, lost, Net, text_of}
use openwar.Redis.Memory.{memory, memory-IsLawful, empty}
use openwar.Inventory.Keys.{inventory_key, reservation_key}
use openwar.Inventory.Counts.{IsStocked, total}
use openwar.Order.{
  Order, World, Run, Message, orders_created, acked, refused, ack_lost, Sent, placed, redis_error,
  publish_error, place, place_reserved, event_of,
}
use openwar.Order.Place.{place_never_oversells}
use openwar.Order.Emitted.{place_announces}
use openwar.Order.Failures.{place_reserved_stored_and_refunded, place_reserved_leaks}
use openwar.Tests.Fixtures.{tea, ada, limits, steady, shop, shop-IsStocked}

abbrev pub one_tea : Order
one_tea = record { user_id = ada; event_id = codes "sale"; sku = tea; qty = pos 1 }

abbrev pub world : World memory
world = record { redis_cb = new_breaker; nats_cb = new_breaker; db = shop; stream = [] }

abbrev pub run_over : Sent → Net → Run
run_over s mark = record {
  trips = λ n. steady;
  mark = mark;
  nats_start = 30;
  nats_stop = 40;
  line = record { sent = λ n. s; context_done = λ n. false };
  refund = steady;
  clear = fine;
  order_id = codes "ord-1";
  now = 25;
}

place_never_oversells_example :
    let r = place memory limits 2 900 (run_over refused fine) one_tea world in
    IsStocked memory r.1.db tea 2
    × (total memory r.1.db tea 2 ≤ total memory shop tea 2)
    × (r.0 ≡ placed (codes "ord-1") → suc (total memory r.1.db tea 2) ≤ total memory shop tea 2)
place_never_oversells_example =
    place_never_oversells memory memory-IsLawful limits 2 900 (run_over refused fine) one_tea world
      (omega arith) shop-IsStocked

abbrev stored_message : Message
stored_message = orders_created (event_of (run_over ack_lost fine) one_tea (inventory_key tea 1))

place_reserved_stored_and_refunded_example :
    let r =
      place_reserved memory limits 2 900
        (run_over ack_lost fine)
        one_tea
        (inventory_key tea 1)
        world in
    (r.0 ≡ publish_error)
    × (total memory r.1.db tea 2 ≡ total memory shop tea 2 + 1)
    × (r.1.stream ≡ ([] ++ stored_message ∷ []) ++ stored_message ∷ [] ++ stored_message ∷ [])
place_reserved_stored_and_refunded_example =
    place_reserved_stored_and_refunded memory memory-IsLawful limits 2 900 (run_over ack_lost fine)
      one_tea 1 (omega arith) world shop-IsStocked refl refl refl refl (λ n. refl) (λ n. refl)

-- An empty server: no shard has a count, and nothing is reserved.
abbrev bare : World memory
bare = record world { db = empty }

place_reserved_leaks_example :
    let r =
      place_reserved memory limits 2 900 (run_over acked lost) one_tea (inventory_key tea 1) bare in
    (r.0 ≡ redis_error) × (total memory r.1.db tea 2 ≡ total memory empty tea 2)
place_reserved_leaks_example =
    place_reserved_leaks memory memory-IsLawful limits 2 900 (run_over acked lost) one_tea 1
      (omega arith) bare (λ i h. tt) refl refl

place_announces_example :
    let r = place memory limits 2 900 (run_over ack_lost fine) one_tea world in
    (i : ℕ) × (n : ℕ) × (i < 2)
    × (r.1.stream
        ≡ world.stream
          ++ replicate n
              (orders_created (event_of (run_over ack_lost fine) one_tea (inventory_key tea i))))
    × (n ≤ 3)
    × (r.0 ≡ placed (codes "ord-1")
        → (0 < n)
          × (text_of (memory.look r.1.db (reservation_key (codes "ord-1")))
              ≡ some (codes "RESERVED")))
place_announces_example =
    place_announces memory memory-IsLawful limits 2 900 (run_over ack_lost fine) one_tea world
      (omega arith) shop-IsStocked
