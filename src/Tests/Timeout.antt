-- ===== src/Tests/Timeout.antt =====
-- Orders that are handled, and their timeouts.
use openwar.Common.{All, arith, ℕ, ◌≡◌, refl, false, some, []}
use openwar.Common.Text.{codes, text_eq}
use openwar.Breaker.{new_breaker}
use openwar.Redis.{fine, call}
use openwar.Redis.Memory.{memory, memory-IsLawful}
use openwar.Inventory.Counts.{total}
use openwar.Store.{
  affects, insert_order, has_order, fetch_expired_orders, sort_by_created, insert_by_created,
  has_user_event,
}
use openwar.Order.{Event, acked}
use openwar.Order.Worker.{Site, HandleRun, handle_order}
use openwar.Order.Timeout.{TimeoutRun, duplicate, process_timeout, tick_once}
use openwar.Order.Timeout.Guard.{handled_timeout_keeps_stock, early_timeout_blocks}
use openwar.Order.Timeout.Cancelled.{IsCancelled}
use openwar.Order.Timeout.Ticks.{tick_cancels}
use openwar.Inventory.Keys.{cancel_key, inventory_key, soldout_key}
use openwar.Seeder.{seed_partitioned_stock, seed_shards}
use openwar.Tests.Fixtures.{tea, ada, limits, steady, shop}
use openwar.Tests.Store.{tables}

abbrev pub site : Site memory
site = record {
  world = record { redis_cb = new_breaker; nats_cb = new_breaker; db = shop; stream = [] };
  tables = tables;
}

abbrev pub paid_late : Event
paid_late = record {
  order_id = codes "ord-1";
  user_id = ada;
  event_id = codes "sale";
  sku = tea;
  qty = 1;
  shard_key = [];
  created = 100;
}

abbrev pub handling : HandleRun
handling = record {
  insert = fine;
  now = 100;
  db_now = 101;
  flip = fine;
  arm_start = 102;
  arm_stop = 103;
  arm = record { sent = λ n. acked; context_done = λ n. false };
}

abbrev pub timing_out : ℕ → TimeoutRun
timing_out t = record {
  guard = fine;
  lookup = fine;
  cas = fine;
  db_now = t;
  refund = steady;
  clear = fine;
  announce = acked;
}

handled_timeout_keeps_stock_example :
    let s' = (handle_order memory limits 400 handling (some paid_late) site).1 in
    total memory
      (process_timeout memory limits 2 (timing_out 600) (codes "ord-1") s').1.world.db
      tea
      2
    ≡ total memory s'.world.db tea 2
unfolding handle_order insert_order has_order text_eq call
handled_timeout_keeps_stock_example =
    handled_timeout_keeps_stock memory memory-IsLawful limits 2 400 handling paid_late
      (timing_out 600) site tea refl

early_timeout_blocks_example :
    let s' = (process_timeout memory limits 2 (timing_out 499) (codes "ord-1") site).1 in
    let r = process_timeout memory limits 2 (timing_out 600) (codes "ord-1") s' in
    (s'.tables ≡ tables) × (r.0 ≡ duplicate) × (r.1.tables ≡ tables)
unfolding affects text_eq
early_timeout_blocks_example =
    early_timeout_blocks memory memory-IsLawful limits 2 (timing_out 499) (timing_out 600)
      (codes "ord-1") site (λ e. cc) refl refl

tick_cancels_example :
    All
      (λ r.
        IsCancelled r.order_id
          (tick_once memory limits 2 fine fine 120 600 (λ n. timing_out 600) site).1.tables.orders)
      (fetch_expired_orders 600 100 tables)
unfolding has_order fetch_expired_orders sort_by_created insert_by_created text_eq cancel_key
    inventory_key soldout_key seed_partitioned_stock seed_shards has_user_event call
tick_cancels_example =
    tick_cancels memory memory-IsLawful limits 2 600 120 (λ n. timing_out 600) site (refl, refl, tt)
      refl (λ i. (refl, refl, refl, omega arith)) (refl, tt)
