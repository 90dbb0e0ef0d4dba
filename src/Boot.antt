-- ===== src/Boot.antt =====
-- How the processes come up: cmd/gateway/main.go, cmd/worker/main.go and cmd/backend-demo/main.go, up to
-- where they serve. Whether a server answers, and what the flags say, is an argument; the logs and the
-- shutdown are left out.
pub mod Secret
pub mod Ready
use openwar.Common.{
  ℕ, zero, suc, ◌*◌, ◌/◌, Bool, true, false, ◌&&◌, Option, none, some, List, [], ◌∷◌, ◌==◌, not,
  if◌then◌else◌,
}
use openwar.Common.Int.{ℤ, pos, negsuc}
use openwar.Common.Text.{Text, codes, text_eq, is_empty}
use openwar.Breaker.{second}
use openwar.Gateway.{FailStrategy, fail_open}
use openwar.Config.{Config, Invalid, load, validate, getenv}
use openwar.Migrations.{Migrated, open_store}
use openwar.Streams.{Stream, setup}

-- Why a process ends before it serves.
pub data Exit : Type 0 where
  invalid : Invalid → Exit
  no_redis no_nats no_streams no_database bad_url no_subscription : Exit

abbrev pub positive : ℤ → Bool
positive (pos n) = not (n == 0)
positive (negsuc n) = false

-- `Milliseconds` of a duration: Go's division cuts towards 0.
unfoldable pub milliseconds : ℤ → ℤ
milliseconds (pos n) = pos (n / 1000000)
milliseconds (negsuc n) = let q = suc n / 1000000 in elim q [ zero ↦ pos 0 | suc m ↦ negsuc m ]

-- What the gateway's handlers are given: `router.Deps` with the room's times to live and the limiter's
-- bucket, which refills `refill_halves` half tokens a second.
pub record Deps {ℓ} (U : Type ℓ) : Type ℓ where
  pub jwt_secret : Text
  pub allowed_origins : List Text
  pub heartbeat_ttl : ℤ
  pub admission_ttl : ℤ
  pub capacity : ℤ
  pub refill_halves : ℤ
  pub fail_strategy : FailStrategy
  pub idem_window : ℤ
  pub heartbeat_ms : ℤ
  pub backend_url : U
  pub listen_addr : Text

-- How `main` of the gateway goes on: the seed command with its arguments, an exit for bad flags or
-- another reason, or the server.
pub data Gateway {ℓ} (U : Type ℓ) : Type ℓ where
  seed_command : List Text → Gateway U
  bad_flags : Gateway U
  gateway_exits : Exit → Gateway U
  gateway_serves : Deps U → Gateway U

-- What the worker runs with.
pub record Workers : Type 0 where
  pub shards : ℤ
  pub reservation_ttl : ℤ
  pub payment_window : ℤ
  pub reconcile_interval : ℤ
  pub event : Text
  pub admission_rate : ℤ
  pub tick : ℕ
  pub dead_letters : Bool

pub data Worker : Type 0 where
  worker_exits : Exit → Worker
  worker_runs : Workers → Worker

-- The backend serves with a number of shards and a time to live for reservations.
pub data Backend : Type 0 where
  backend_exits : Exit → Backend
  backend_serves : ℤ → ℤ → Backend

-- Which of the outside calls of a start succeed.
pub record Up : Type 0 where
  pub nats : Bool
  pub jetstream : Bool
  pub connects : Bool
  pub database_ping : Bool
  pub created_sub : Bool
  pub timeout_sub : Bool
  pub dlq_sub : Bool

-- `getenv` of cmd/worker
unfoldable pub worker_getenv : (Text → Text) → Text → Text → Text
worker_getenv env key d = if is_empty (env key) then d else env key

-- `NewReconcilerWorker`: an interval that is not positive becomes two minutes.
unfoldable pub reconcile_every : ℤ → ℤ
reconcile_every interval = if positive interval then interval else pos (120 * second)

-- `main` of the gateway overrides the rate of the configuration by a positive flag.
unfoldable pub override_rate : ℤ → Config → Config
override_rate rate c = if positive rate then record c { admission_rate = rate } else c

abbrev pub deps_of {ℓ} : {U : Type ℓ} → Config → U → Deps U
deps_of c u = record {
  jwt_secret = c.jwt_secret;
  allowed_origins = c.allowed_origins;
  heartbeat_ttl = c.heartbeat_ttl;
  admission_ttl = c.admission_ttl;
  capacity = c.admission_rate;
  refill_halves = c.admission_rate;
  fail_strategy = fail_open;
  idem_window = c.idempotency_win;
  heartbeat_ms = milliseconds c.heartbeat_interval;
  backend_url = u;
  listen_addr = c.listen_addr;
}

module _ {ℓ} {U : Type ℓ} (parse_url : Text → Option U) where
  -- The gateway with its configuration; `ping` is whether Redis answers.
  unfoldable pub start_gateway : Bool → Config → Gateway U
  start_gateway ping c = elim (validate c) [
    | some e ↦ gateway_exits (invalid e)
    | none ↦
        if ping
        then elim (parse_url c.backend_url) [
          | none ↦ gateway_exits bad_url
          | some u ↦ gateway_serves (deps_of c u)
        ]
        else gateway_exits no_redis
  ]

  -- The gateway behind the subcommand; the flag library ends the process on a bad flag.
  unfoldable pub parsed_gateway : (List Text → Option ℤ) → Bool → Config → List Text → Gateway U
  unfolding start_gateway override_rate
  parsed_gateway flags ping c args = elim (flags args) [
    | none ↦ bad_flags
    | some rate ↦ start_gateway ping (override_rate rate c)
  ]

  -- `main` of cmd/gateway, with the arguments behind the program's name.
  unfoldable pub gateway : (List Text → Option ℤ) → Bool → Config → List Text → Gateway U
  unfolding parsed_gateway
  gateway flags ping c [] = parsed_gateway flags ping c []
  gateway flags ping c (a ∷ args) =
      if text_eq a (codes "seed-events")
      then seed_command args
      else if text_eq a (codes "serve")
      then parsed_gateway flags ping c args
      else parsed_gateway flags ping c (a ∷ args)

module _ {ℓ} {S : Type ℓ} (add_stream : Stream → S → Option Text × S) where
  -- The streams of `Setup`, whether they are there.
  unfoldable pub streams_ready : Up → S → Bool × S
  streams_ready up s =
      if up.jetstream
      then (let (e, s') = setup add_stream s in (elim e [ none ↦ true | some x ↦ false ], s'))
      else (false, s)

  abbrev pub workers_of : Text → Up → Config → Workers
  workers_of event up c = record {
    shards = c.inventory_shards;
    reservation_ttl = c.reservation_ttl;
    payment_window = c.payment_window;
    reconcile_interval = reconcile_every (pos (120 * second));
    event = event;
    admission_rate = c.admission_rate;
    tick = second;
    dead_letters = up.dlq_sub;
  }

  -- The worker once the database is open: the dead letters are optional.
  unfoldable pub start_worker : Text → Up → Config → Worker
  start_worker event up c =
      if up.created_sub && up.timeout_sub
      then worker_runs (workers_of event up c)
      else worker_exits no_subscription

  module _ {κ} {C : Type κ} (ensure_schema : C → Migrated × C) where
    -- The worker once its streams are there.
    unfoldable pub with_store : (Text → Text) → Up → Config → S → C → Worker × S × C
    unfolding start_worker worker_getenv
    with_store env up c s t =
        let (ok, t') = open_store up.connects up.database_ping ensure_schema t in
        (
          if ok
              then start_worker (worker_getenv env (codes "ADMISSION_EVENT") (codes "*")) up c
              else worker_exits no_database,
          s,
          t',
        )

    -- `main` of cmd/worker
    unfoldable pub worker : (Text → Text) → Up → Config → S → C → Worker × S × C
    unfolding streams_ready with_store
    worker env up c s t = elim (validate c) [
      | some e ↦ (worker_exits (invalid e), s, t)
      | none ↦
          if up.nats
          then (let (ok, s') = streams_ready up s in
              let rest = with_store env up c s' t in
              if ok then rest else (worker_exits no_streams, s', t))
          else (worker_exits no_nats, s, t)
    ]

  -- `main` of cmd/backend-demo
  unfoldable pub backend : Up → Config → S → Backend × S
  unfolding streams_ready
  backend up c s =
      if up.nats
      then (let (ok, s') = streams_ready up s in
          (
            if ok
                then backend_serves c.inventory_shards c.reservation_ttl
                else backend_exits no_streams,
            s',
          ))
      else (backend_exits no_nats, s)
