-- ===== src/Order/Worker.antt =====
-- cmd/worker/main.go: `handleOrder`; `ArmTimeout` of internal/order/service.go. The worker is a process
-- of its own with its own breakers; a message's JSON arrives as what the library decodes it to.
pub mod Published
pub mod Redelivery
use openwar.Common.{ℕ, ◌+◌, ◌/◌, Bool, true, false, Option, none, some, List}
use openwar.Common.Text.{Text, codes}
use openwar.Breaker.{Config, Breaker, second}
use openwar.Redis.{Redis, Net, call}
use openwar.Inventory.Keys.{reservation_key}
use openwar.Store.{
  Tables, NewOrder, Inserted, inserted, row_exists, insert_error, insert_order, pending,
}
use openwar.Order.{Event, Message, schedule_timeout, Line, World, publish}

-- What a handler returns: nil, or an error, after which the message is delivered again.
pub data Handled : Type 0 where
  handled handle_error : Handled

module _ (R : Redis) where
  -- What the worker works on: the servers, and the tables of Postgres.
  pub record Site : Type 0 where
    pub world : World R
    pub tables : Tables

-- How one call of `handleOrder` goes: its statement, the trip that marks the reservation, and the
-- publications; the times are those of the process and of the database.
pub record HandleRun : Type 0 where
  pub insert : Net
  pub now : ℕ
  pub db_now : ℕ
  pub flip : Net
  pub arm_start : ℕ
  pub arm_stop : ℕ
  pub arm : Line

abbrev pub new_order : ℕ → Event → NewOrder
new_order expires ev = record {
  order_id = ev.order_id;
  user_id = ev.user_id;
  event_id = ev.event_id;
  sku = ev.sku;
  qty = ev.qty;
  status = pending;
  expires = expires;
}

-- `ArmTimeout`: the schedule keeps whole seconds of the deadline.
unfoldable pub arm_timeout :
    Config → ℕ → ℕ → Line → Text → ℕ → Breaker → List Message → Bool × Breaker × List Message
arm_timeout cfg start stop line order deadline b stream =
    publish cfg start stop line (schedule_timeout order (deadline / second)) b stream

module _ (R : Redis) (cfg : Config) (window : ℕ) where
  -- A failure to arm the timeout is only logged.
  unfoldable pub armed : HandleRun → Event → Site R → Handled × Site R
  armed run ev s =
      let (ok, b, stream) =
        arm_timeout cfg run.arm_start run.arm_stop run.arm ev.order_id (run.now + window)
          s.world.nats_cb s.world.stream in
      (handled, record s { world = record s.world { nats_cb = b; stream = stream } })

  unfoldable pub after_flip : HandleRun → Event → Option (Unit {0}) → Site R → Handled × Site R
  unfolding armed
  after_flip run ev none s = (handle_error, s)
  after_flip run ev (some u) s = armed run ev s

  -- Marking the reservation as published.
  unfoldable pub flipped : HandleRun → Event → Site R → Handled × Site R
  unfolding after_flip
  flipped run ev s =
      let (u, d) =
        call run.flip (λ x. (tt, R.set x (reservation_key ev.order_id) (codes "PUBLISHED") 0))
          s.world.db in
      after_flip run ev u (record s { world = record s.world { db = d } })

  -- An order that is already there counts as stored.
  unfoldable pub after_insert : HandleRun → Event → Option Inserted → Site R → Handled × Site R
  unfolding flipped
  after_insert run ev none s = (handle_error, s)
  after_insert run ev (some inserted) s = flipped run ev s
  after_insert run ev (some row_exists) s = flipped run ev s
  after_insert run ev (some insert_error) s = (handle_error, s)

  -- `handleOrder`
  unfoldable pub handle_order : HandleRun → Option Event → Site R → Handled × Site R
  unfolding after_insert
  handle_order run none s = (handle_error, s)
  handle_order run (some ev) s =
      let (r, t) =
        call run.insert (insert_order run.db_now (new_order (run.now + window) ev)) s.tables in
      after_insert run ev r (record s { tables = t })
