-- ===== src/Order.antt =====
-- internal/order/service.go: placing an order, and the retries of a publication. Redis and NATS each
-- have a breaker of their own; the stream is the list of the messages that NATS has stored.
pub mod Ids
pub mod Publish
pub mod Place
pub mod Emitted
pub mod Failures
pub mod Worker
pub mod Timeout
pub mod Deliver
use openwar.Common.{
  ℕ, zero, suc, ◌+◌, ◌*◌, Bool, true, false, Option, none, some, List, [], ◌∷◌, ◌++◌, ◌==◌,
  if◌then◌else◌,
}
use openwar.Common.Int.{ℤ, pos, negsuc}
use openwar.Common.Text.{Text, codes, is_empty}
use openwar.Breaker.{Config, Breaker, Outcome, circuit_open, failed, done, execute}
use openwar.Redis.{Redis, Net, call}
use openwar.Inventory.{Trip, Reserved, reserved, sold_out, breaker_open, reserve, compensate}
use openwar.Inventory.Keys.{reservation_key}

-- `Order`, as `Place` is given it; the quantity is a Go integer.
pub record Order : Type 0 where
  pub user_id : Text
  pub event_id : Text
  pub sku : Text
  pub qty : ℤ

-- `Event`
pub record Event : Type 0 where
  pub order_id : Text
  pub user_id : Text
  pub event_id : Text
  pub sku : Text
  pub qty : ℕ
  pub shard_key : Text
  pub created : ℕ

-- The messages that this program publishes, by their subjects.
pub data Message : Type 0 where
  orders_created : Event → Message
  orders_cancelled : Text → Text → Message
  schedule_timeout : Text → ℕ → Message

-- One publication: stored and acknowledged, answered without an acknowledgement, refused with an
-- error, or stored with the acknowledgement lost.
pub data Sent : Type 0 where
  acked no_ack refused ack_lost : Sent

abbrev pub stored : Sent → Message → List Message → List Message
stored acked m stream = stream ++ m ∷ []
stored no_ack m stream = stream
stored refused m stream = stream
stored ack_lost m stream = stream ++ m ∷ []

abbrev pub is_acked : Sent → Bool
is_acked acked = true
is_acked _ = false

-- How the publications of one call go, and whether the context is done while it waits.
pub record Line : Type 0 where
  pub sent : ℕ → Sent
  pub context_done : ℕ → Bool

-- The loop of `publish`, at attempt `i` with `left` attempts: whether it succeeds, how long it has
-- waited in milliseconds, and the stream.
unfoldable pub publish_loop :
    Line → Message → ℕ → ℕ → ℕ → ℕ → List Message → Bool × ℕ × List Message
publish_loop line m zero i backoff waited stream = (false, waited, stream)
publish_loop line m (suc left) i backoff waited stream =
    let s = line.sent i in
    let stream' = stored s m stream in
    elim (is_acked s) [
      | true ↦ (true, waited, stream')
      | false ↦ elim (i == 2) [
        | true ↦ (false, waited, stream')
        | false ↦ elim (line.context_done i) [
          | true ↦ (false, waited, stream')
          | false ↦ publish_loop line m left (suc i) (backoff * 2) (waited + backoff) stream'
        ]
      ]
    ]

attempt_publish : Line → Message → List Message → Option (Unit {0}) × List Message
attempt_publish line m stream =
    let (ok, waited, stream') = publish_loop line m 3 0 100 0 stream in
    (if ok then some tt else none, stream')

-- `publish` and `ArmTimeout` inside the breaker of NATS: whether they succeed.
unfoldable pub publish :
    Config → ℕ → ℕ → Line → Message → Breaker → List Message → Bool × Breaker × List Message
unfolding attempt_publish
publish cfg start stop line m b stream =
    let (r, b', stream') = execute cfg start stop (attempt_publish line m) b stream in
    (elim r [ circuit_open ↦ false | failed ↦ false | done u ↦ true ], b', stream')

-- `if o.Qty <= 0 { o.Qty = 1 }`
abbrev pub quantity : ℤ → ℕ
quantity (pos n) = if n == 0 then 1 else n
quantity (negsuc n) = 1

-- What `Place` returns: the order id, `ErrSoldOut`, Redis's error, or the error of the publication.
pub data Placed : Type 0 where
  placed : Text → Placed
  order_sold_out : Placed
  redis_error : Placed
  publish_error : Placed

module _ (R : Redis) where
  -- What the steps of `Place` work on.
  pub record World : Type 0 where
    pub redis_cb : Breaker
    pub nats_cb : Breaker
    pub db : R.Db
    pub stream : List Message

-- How one call of `Place` goes: the trips of `Reserve`, the one that marks the reservation, the
-- publication, and the trips of `Compensate`; the order id and the time of the event.
pub record Run : Type 0 where
  pub trips : ℕ → Trip
  pub mark : Net
  pub nats_start : ℕ
  pub nats_stop : ℕ
  pub line : Line
  pub refund : Trip
  pub clear : Net
  pub order_id : Text
  pub now : ℕ

-- The event of an order whose unit is on the shard of this key.
abbrev pub event_of : Run → Order → Text → Event
event_of run o key = record {
  order_id = run.order_id;
  user_id = o.user_id;
  event_id = o.event_id;
  sku = o.sku;
  qty = quantity o.qty;
  shard_key = key;
  created = run.now;
}

module _ (R : Redis) (cfg : Config) (shards ttl : ℕ) where
  -- `Compensate` and the error that `Place` returns after it.
  unfoldable pub give_back : Run → Text → Placed → World R → Placed × World R
  give_back run key error w =
      let (r, b', d') =
        compensate R cfg run.refund run.clear (reservation_key run.order_id) key w.redis_cb w.db in
      (error, record w { redis_cb = b'; db = d' })

  unfoldable pub after_publish : Run → Text → Bool → World R → Placed × World R
  unfolding give_back
  after_publish run key true w = (placed run.order_id, w)
  after_publish run key false w = give_back run key publish_error w

  unfoldable pub publish_step : Run → Order → Text → World R → Placed × World R
  unfolding after_publish
  publish_step run o key w =
      let (ok, b', stream') =
        publish cfg run.nats_start run.nats_stop run.line (orders_created (event_of run o key))
          w.nats_cb w.stream in
      after_publish run key ok (record w { nats_cb = b'; stream = stream' })

  unfoldable pub after_mark : Run → Order → Text → Option (Unit {0}) → World R → Placed × World R
  unfolding give_back publish_step
  after_mark run o key none w = give_back run key redis_error w
  after_mark run o key (some u) w = publish_step run o key w

  -- `Place` once `Reserve` has returned a key.
  unfoldable pub place_reserved : Run → Order → Text → World R → Placed × World R
  unfolding after_mark
  place_reserved run o key w =
      let (u, d') =
        call run.mark (λ x. (tt, R.set x (reservation_key run.order_id) (codes "RESERVED") ttl))
          w.db in
      after_mark run o key u (record w { db = d' })

  unfoldable pub place_after : Run → Order → World R → Reserved × Breaker × R.Db → Placed × World R
  place_after run o w (reserved key, b, d) =
      place_reserved run o key (record w { redis_cb = b; db = d })
  place_after run o w (sold_out, b, d) = (order_sold_out, record w { redis_cb = b; db = d })
  place_after run o w (breaker_open, b, d) = (order_sold_out, record w { redis_cb = b; db = d })

  -- `Place`
  unfoldable pub place : Run → Order → World R → Placed × World R
  unfolding place_after
  place run o w =
      place_after run o w (reserve R cfg run.trips o.sku o.user_id shards w.redis_cb w.db)
