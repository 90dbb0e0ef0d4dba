-- ===== src/Order/Deliver.antt =====
-- cmd/worker/main.go: the loops that take messages from their subscriptions. A message that is not
-- acknowledged is delivered again, up to `MaxDeliver` times; NATS counts, and then stops delivering it.
pub mod Given
pub mod Delivered
pub mod Once
pub mod Dropped
use openwar.Common.{ℕ, zero, suc, ◌≡◌, ap, Bool, true, false, Option, if◌then◌else◌}
use openwar.Common.Text.{Text}
use openwar.Breaker.{Config, Breaker}
use openwar.Redis.{Redis, Net}
use openwar.Inventory.{Trip}
use openwar.Order.{Event}
use openwar.Order.Worker.{Site, HandleRun, Handled, handled, handle_error, handle_order}
use openwar.Order.Timeout.{
  TimeoutRun, Timeout, processed, duplicate, timeout_error, process_timeout, handle_dlq_msg,
}

-- What becomes of a message: acknowledged at a delivery, counted from 0, or never.
pub data Fate : Type 0 where
  acknowledged : ℕ → Fate
  given_up : Fate

-- `nats.MaxDeliver(5)`
abbrev pub max_deliver : ℕ
max_deliver = 5

-- The rounds of a loop that see one message: `handle` says whether it is acknowledged.
unfoldable pub deliver {ℓ} : {S : Type ℓ} → (ℕ → S → Bool × S) → ℕ → ℕ → S → Fate × S
deliver handle zero n s = (given_up, s)
deliver handle (suc left) n s =
    let (ok, s') = handle n s in
    let rest = deliver handle left (suc n) s' in if ok then (acknowledged n, s') else rest

-- A round by what its handler did.
pub deliver-suc {ℓ} :
    {S : Type ℓ} (handle : ℕ → S → Bool × S) (left n : ℕ) (s t : S) (ok : Bool)
    → handle n s ≡ (ok, t)
    → deliver handle (suc left) n s
      ≡ (if ok then (acknowledged n, t) else deliver handle left (suc n) t)
unfolding deliver
deliver-suc handle left n s t ok h =
    ap (λ x. if x.0 then (acknowledged n, x.1) else deliver handle left (suc n) x.1) h

abbrev pub is_handled : Handled → Bool
is_handled handled = true
is_handled handle_error = false

-- A duplicate is acknowledged as well.
abbrev pub is_settled : Timeout → Bool
is_settled processed = true
is_settled duplicate = true
is_settled timeout_error = false

module _ (R : Redis) (cfg : Config) where
  abbrev pub order_round : ℕ → (ℕ → HandleRun) → Option Event → ℕ → Site R → Bool × Site R
  order_round window runs ev n s =
      let (r, s') = handle_order R cfg window (runs n) ev s in (is_handled r, s')

  -- The order worker on one message of `orders.created`.
  unfoldable pub deliver_order : ℕ → (ℕ → HandleRun) → Option Event → Site R → Fate × Site R
  unfolding deliver
  deliver_order window runs ev s = deliver (order_round window runs ev) max_deliver 0 s

  abbrev pub timeout_round : ℕ → (ℕ → TimeoutRun) → Text → ℕ → Site R → Bool × Site R
  timeout_round shards runs order n s =
      let (r, s') = process_timeout R cfg shards (runs n) order s in (is_settled r, s')

  -- The timeout worker on one message of `orders.timeout`.
  unfoldable pub deliver_timeout : ℕ → (ℕ → TimeoutRun) → Text → Site R → Fate × Site R
  unfolding deliver
  deliver_timeout shards runs order s = deliver (timeout_round shards runs order) max_deliver 0 s

  abbrev pub dead_round :
      ℕ → (ℕ → Trip × Net) → Option Event → ℕ → Breaker × R.Db → Bool × (Breaker × R.Db)
  dead_round shards runs ev n (b, d) =
      let (r, b', d') = handle_dlq_msg R cfg shards (runs n).0 (runs n).1 ev b d in (true, (b', d'))

  -- The dead letter worker on one message of `orders.dlq`, which NATS would deliver without a limit: it
  -- is acknowledged whatever `HandleDLQMsg` returns.
  unfoldable pub deliver_dead :
      ℕ → ℕ → (ℕ → Trip × Net) → Option Event → Breaker × R.Db → Fate × (Breaker × R.Db)
  unfolding deliver
  deliver_dead left shards runs ev s = deliver (dead_round shards runs ev) (suc left) 0 s
