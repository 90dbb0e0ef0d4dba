-- ===== src/Order/Timeout.antt =====
-- internal/order/timeout.go and reconciler.go: the payment timeout of an order, from its message or from
-- the scan of the reconciler; internal/order/dlq.go: the compensation of dead letters.
pub mod Guard
pub mod Dead
pub mod Effect
pub mod Cancelled
pub mod Ticks
use openwar.Common.{
  ℕ, zero, suc, ◌+◌, ◌-◌, ◌*◌, ◌/◌, ◌%◌, Bool, true, false, not, ◌&&◌, ◌||◌, Option, none, some,
  List, [], ◌∷◌, ◌++◌, ◌==◌, ltb, if◌then◌else◌,
}
use openwar.Common.Int.{ℤ}
use openwar.Common.Text.{Text, codes, is_empty}
use openwar.Breaker.{Config, Breaker, second}
use openwar.Redis.{Redis, Net, call, exists}
use openwar.Inventory.{Trip, compensate}
use openwar.Inventory.Keys.{inventory_key, reservation_key, cancel_key}
use openwar.Inventory.Hash.{shard_for}
use openwar.Store.{Row, Tables, get_order, cancel_order_timeout, fetch_expired_orders}
use openwar.Order.{Event, Message, orders_cancelled, Sent, stored, World}
use openwar.Order.Worker.{Site, Handled, handled, handle_error}

-- What `ProcessTimeout` returns: nil, `ErrDuplicateTimeout`, or another error.
pub data Timeout : Type 0 where
  processed duplicate timeout_error : Timeout

-- How one call of `ProcessTimeout` goes: its trips and statements, and the publication.
pub record TimeoutRun : Type 0 where
  pub guard : Net
  pub lookup : Net
  pub cas : Net
  pub db_now : ℕ
  pub refund : Trip
  pub clear : Net
  pub announce : Sent

-- `shardForUser`
unfoldable pub shard_for_user : Text → ℕ → ℕ
shard_for_user user shards = if shards == 0 then 0 else shard_for user shards

abbrev pub guard_ttl : ℕ
guard_ttl = 24 * 3600 * second

module _ (R : Redis) (cfg : Config) (shards : ℕ) where
  -- The stock of a cancelled order, and its announcement; errors of either are only logged.
  unfoldable pub restored : TimeoutRun → Text → Row → Site R → Timeout × Site R
  restored run order row s =
      let key = inventory_key row.sku (shard_for_user row.user_id shards) in
      let (r, b, d) =
        compensate R cfg run.refund run.clear (reservation_key order) key s.world.redis_cb
          s.world.db in
      let stream = stored run.announce (orders_cancelled order row.sku) s.world.stream in
      (processed, record s { world = record s.world { redis_cb = b; db = d; stream = stream } })

  unfoldable pub after_cas : TimeoutRun → Text → Row → Option Bool → Site R → Timeout × Site R
  unfolding restored
  after_cas run order row none s = (timeout_error, s)
  after_cas run order row (some true) s = restored run order row s
  after_cas run order row (some false) s = (processed, s)

  unfoldable pub after_lookup : TimeoutRun → Text → Option (Option Row) → Site R → Timeout × Site R
  unfolding after_cas
  after_lookup run order none s = (timeout_error, s)
  after_lookup run order (some none) s = (processed, s)
  after_lookup run order (some (some row)) s =
      let (r, t) = call run.cas (cancel_order_timeout run.db_now order) s.tables in
      after_cas run order row r (record s { tables = t })

  unfoldable pub after_guard : TimeoutRun → Text → Option Bool → Site R → Timeout × Site R
  unfolding after_lookup
  after_guard run order none s = (timeout_error, s)
  after_guard run order (some false) s = (duplicate, s)
  after_guard run order (some true) s =
      let (r, t) = call run.lookup (λ (t : Tables). (get_order order t.orders, t)) s.tables in
      after_lookup run order r (record s { tables = t })

  -- SETNX of the guard: whether it was set.
  abbrev pub set_guard : Text → R.Db → Bool × R.Db
  set_guard order d = (
    not (exists (R.look d (cancel_key order))),
    R.set_nx d (cancel_key order) (codes "1") guard_ttl,
  )

  -- `ProcessTimeout`.
  unfoldable pub process_timeout : TimeoutRun → Text → Site R → Timeout × Site R
  unfolding after_guard
  process_timeout run order s =
      let (ok, d) = call run.guard (set_guard order) s.world.db in
      after_guard run order ok (record s { world = record s.world { db = d } })

  -- The loop of `tickOnce`: an error of one order does not stop it. The count is of those without one.
  unfoldable pub reconcile : (ℕ → TimeoutRun) → ℕ → List Row → Site R → ℕ × Site R
  reconcile runs n [] s = (0, s)
  reconcile runs n (row ∷ rows) s =
      let (r, s1) = process_timeout (runs n) row.order_id s in
      let (count, s2) = reconcile runs (suc n) rows s1 in
      (elim r [ processed ↦ suc count | duplicate ↦ count | timeout_error ↦ count ], s2)

  unfoldable pub after_fetch : (ℕ → TimeoutRun) → Option (List Row) → Site R → ℕ × Site R
  unfolding reconcile
  after_fetch runs none s = (0, s)
  after_fetch runs (some rows) s = reconcile runs 0 rows s

  unfoldable pub after_lock : Net → ℕ → (ℕ → TimeoutRun) → Option Bool → Site R → ℕ × Site R
  unfolding after_fetch
  after_lock fetch db_now runs none s = (0, s)
  after_lock fetch db_now runs (some false) s = (0, s)
  after_lock fetch db_now runs (some true) s =
      let (rows, t) =
        call fetch (λ (t : Tables). (fetch_expired_orders db_now 100 t, t)) s.tables in
      after_fetch runs rows (record s { tables = t })

  abbrev pub leader_key : Text
  leader_key = codes "reconciler:leader"

  -- `tickOnce` of the reconciler: how many orders were processed.
  unfoldable pub tick_once : Net → Net → ℕ → ℕ → (ℕ → TimeoutRun) → Site R → ℕ × Site R
  unfolding after_lock
  tick_once lock fetch interval db_now runs s =
      let (ok, d) =
        call lock
          (λ x.
            (not (exists (R.look x leader_key)), R.set_nx x leader_key (codes "1") (interval / 2)))
          s.world.db in
      after_lock fetch db_now runs ok (record s { world = record s.world { db = d } })

-- `string(rune(n))`: one character in UTF-8.
unfoldable pub rune_text : ℕ → Text
rune_text n =
    if ltb n 128
    then n ∷ []
    else if ltb n 2048
    then (192 + n / 64) ∷ (128 + n % 64) ∷ []
    else if (not (ltb n 55296) && ltb n 57344) || not (ltb n 1114112)
    then 239 ∷ 191 ∷ 189 ∷ []
    else if ltb n 65536
    then (224 + n / 4096) ∷ (128 + n / 64 % 64) ∷ (128 + n % 64) ∷ []
    else (240 + n / 262144) ∷ (128 + n / 4096 % 64) ∷ (128 + n / 64 % 64) ∷ (128 + n % 64) ∷ []

-- The key that a dead letter's unit goes back to.
unfoldable pub dead_key : ℕ → Event → Text
dead_key shards ev =
    if is_empty ev.shard_key
    then codes "inventory:"
      ++ (ev.sku ++ (codes ":shard:" ++ rune_text (48 + shard_for_user ev.user_id shards)))
    else ev.shard_key

module _ (R : Redis) (cfg : Config) (shards : ℕ) where
  dead_reply : Option ℤ → Handled
  dead_reply none = handle_error
  dead_reply (some n) = handled

  -- `HandleDLQMsg`
  unfoldable pub handle_dlq_msg :
      Trip → Net → Option Event → Breaker → R.Db → Handled × Breaker × R.Db
  unfolding dead_reply
  handle_dlq_msg t net none b d = (handle_error, b, d)
  handle_dlq_msg t net (some ev) b d =
      let (r, b', d') =
        compensate R cfg t net (reservation_key ev.order_id) (dead_key shards ev) b d in
      (dead_reply r, b', d')
