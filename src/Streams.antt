-- ===== src/Streams.antt =====
-- internal/queue/queue.go: the streams of JetStream and `Setup`. What AddStream does is a parameter, and
-- so is the way in which a stream's subjects match the subject of a message.
pub mod Routes
pub mod Again
pub mod Named
use openwar.Common.{
  ℕ, ◌*◌, Bool, true, false, ◌||◌, Option, none, some, List, [], ◌∷◌, ◌++◌, if◌then◌else◌,
}
use openwar.Common.Text.{Text, codes, text_eq}
use openwar.Breaker.{second}
use openwar.Order.{Message, orders_created, orders_cancelled, schedule_timeout}

-- What `Setup` sets of a `nats.StreamConfig`; the ages are in nanoseconds. All are kept in files.
pub record Stream : Type 0 where
  pub name : Text
  pub subjects : List Text
  pub max_age : ℕ
  pub allow_msg_ttl : Bool

-- The subjects that the program names.
pub data Subject : Type 0 where
  created cancelled timeout dlq notify : Subject
  schedule : Text → Subject

unfoldable pub subject_text : Subject → Text
subject_text created = codes "orders.created"
subject_text cancelled = codes "orders.cancelled"
subject_text timeout = codes "orders.timeout"
subject_text dlq = codes "orders.dlq"
subject_text notify = codes "queue.notify"
subject_text (schedule order) = codes "schedules.timeout." ++ order

-- Where a message is published.
unfoldable pub subject_of : Message → Subject
subject_of (orders_created ev) = created
subject_of (orders_cancelled order sku) = cancelled
subject_of (schedule_timeout order deadline) = schedule order

-- `defs`
unfoldable pub defs : List Stream
defs =
    record {
      name = codes "ORDERS";
      subjects = codes "orders.created" ∷ codes "orders.cancelled" ∷ [];
      max_age = 86400 * second;
      allow_msg_ttl = false;
    }
    ∷ record {
      name = codes "ORDERS_TIMEOUT";
      subjects = codes "schedules.timeout.>" ∷ codes "orders.timeout" ∷ [];
      max_age = 86400 * second;
      allow_msg_ttl = true;
    }
    ∷ record {
      name = codes "ORDERS_DLQ";
      subjects = codes "orders.dlq" ∷ [];
      max_age = 604800 * second;
      allow_msg_ttl = false;
    }
    ∷ record {
      name = codes "QUEUE_NOTIFY";
      subjects = codes "queue.notify" ∷ [];
      max_age = 3600 * second;
      allow_msg_ttl = false;
    }
    ∷ []

-- `isAlreadyExists`
unfoldable pub is_already_exists : Text → Bool
is_already_exists e =
    text_eq e (codes "stream name already in use") || text_eq e (codes "stream already exists")

module _ {ℓ} {S : Type ℓ} (add_stream : Stream → S → Option Text × S) where
  -- An answer of AddStream after which the loop of `Setup` goes on.
  abbrev pub is_there : Option Text → Bool
  is_there none = true
  is_there (some e) = is_already_exists e

  unfoldable pub setup_loop : List Stream → S → Option Text × S
  setup_loop [] s = (none, s)
  setup_loop (d ∷ ds) s =
      let (e, s') = add_stream d s in
      let rest = setup_loop ds s' in if is_there e then rest else (e, s')

  -- `Setup`, once there is a context of JetStream: `none`, or the error of the stream that failed.
  unfoldable pub setup : S → Option Text × S
  unfolding setup_loop defs
  setup s = setup_loop defs s
