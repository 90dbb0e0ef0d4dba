-- ===== src/Tests/Boot.antt =====
-- A way to match subjects, and the processes started on them.
use openwar.Common.{
  ℕ, ◌≤◌, ◌≡◌, refl, ap, Bool, true, false, ◌&&◌, ◌||◌, ◌==◌, none, some, List, [], ◌∷◌, ◌++◌, All,
  map, length, if◌then◌else◌, arith,
}
use openwar.Common.Int.{ℤ, pos}
use openwar.Common.Text.{Text, codes, text_eq, is_empty}
use openwar.Config.{Config, load, validate, getenv, getint, getdur, getslice}
use openwar.Store.{any_text}
use openwar.Boot.{
  Deps, Workers, Up, gateway, gateway_serves, worker, worker_runs, backend, backend_serves, deps_of,
  workers_of, with_store, start_worker, worker_getenv, streams_ready,
}
use openwar.Boot.Ready.{comes_up}
use openwar.Redis.{fine, call}
use openwar.Migrations.{
  Migrated, Catalog, migrate, migrate_files, migrate_file, apply_file, has_suffix, open_store,
}
use openwar.Migrations.Resume.{all_made}
use openwar.Tests.Server.{add_kept, IsKept, add_kept-IsServer}
use openwar.Tests.Migrations.{directory, new_catalog, read_name, keep_sql}
use openwar.Streams.{Stream, Subject, schedule, defs, setup, setup_loop}
use openwar.Streams.Routes.{plain, is_token, IsMatching, takes, home, taken_once}
use openwar.Streams.Again.{IsClear}
use openwar.Order.Ids.{gen_order_id}

-- A last `>` matches whatever is left, if anything is.
matches : Text → Text → Bool
matches [] [] = true
matches [] (c ∷ s) = false
matches (a ∷ p) [] = false
matches (a ∷ p) (b ∷ s) = (a == b'>' && is_empty p) || (a == b && matches p s)

matches-literal : (p s : Text) → plain p ≡ true → matches p s ≡ text_eq p s
unfolding matches text_eq
matches-literal [] [] e = refl
matches-literal [] (c ∷ s) e = refl
matches-literal (a ∷ p) [] e = refl
matches-literal (a ∷ p) (b ∷ s) e = ground (arith, matches-literal p s)

matches-tail :
    (p t : Text)
    → plain p ≡ true
    → is_token t ≡ true
    → matches (p ++ codes ".>") (p ++ codes "." ++ t) ≡ true
unfolding matches
matches-tail [] [] e h = cc
matches-tail [] (c ∷ t) e h = refl
matches-tail (a ∷ p) t e h = ground (arith, matches-tail p t)

not_empty : (p : Text) → is_empty (p ++ codes ".>") ≡ false
not_empty [] = refl
not_empty (a ∷ p) = refl

matches-tail_only :
    (p s : Text)
    → plain p ≡ true
    → matches (p ++ codes ".>") s ≡ true
    → (t : Text) × (s ≡ p ++ codes "." ++ t)
unfolding matches
matches-tail_only [] [] e h = cc
matches-tail_only [] (c ∷ s) e h =
    let dot : c ≡ b'.' = ground arith in (s, ap (λ (x : ℕ). x ∷ s) dot)
matches-tail_only (a ∷ p) [] e h = cc
matches-tail_only (a ∷ p) (b ∷ s) e h =
    let (t, q) = matches-tail_only p s (ground arith) (ground (arith, not_empty p)) in
    let same : b ≡ a = ground (arith, not_empty p) in (t, rw (same, q) refl)

matches-IsMatching : IsMatching matches
matches-IsMatching = record {
  literal = matches-literal;
  tail = matches-tail;
  tail_only = matches-tail_only;
}

-- The timeout of an order whose id was made without a request id.
abbrev late : Subject
late = schedule (gen_order_id (λ b. codes "0a1f") (some (10 ∷ 31 ∷ [])) 7 [])

taken_once_example : map (takes matches late) defs ≡ map (λ d. text_eq d.name (home late)) defs
unfolding gen_order_id
taken_once_example = taken_once matches matches-IsMatching late refl

-- Only the secret is set, to 32 bytes.
abbrev env : Text → Text
env k = if text_eq k (codes "JWT_SECRET") then codes "0123456789abcdef0123456789abcdef" else []

abbrev all_up : Up
all_up = record {
  nats = true;
  jetstream = true;
  connects = true;
  database_ping = true;
  created_sub = true;
  timeout_sub = true;
  dlq_sub = false;
}

abbrev defaults : Config
defaults = load env (λ t. t) (λ t. none) (λ t. none)

abbrev some_deps : Deps Text
some_deps = deps_of defaults (codes "http://backend-demo:9001")

abbrev IsStarted : List Stream → Type 0
IsStarted s =
    IsClear add_kept IsKept add_kept-IsServer [] defs
    × All (λ d. IsKept d s) defs
    × (setup add_kept s ≡ (none, s))

-- The schema is ensured from nothing, and everything is made.
abbrev ensured_by : Catalog (List Text) → Migrated × Catalog (List Text)
ensured_by = migrate read_name keep_sql (λ fs. fs) fine all_made (some directory)

comes_up_example :
    (gateway (λ (u : Text). some u) (λ a. some (pos 0)) true defaults (codes "serve" ∷ [])
        ≡ gateway_serves some_deps
      → (32 ≤ length (env (codes "JWT_SECRET")))
        × (some_deps.jwt_secret ≡ env (codes "JWT_SECRET")))
    × ((w : Workers)
        → let r = worker add_kept ensured_by env all_up defaults [] new_catalog in
          r.0 ≡ worker_runs w
          → (32 ≤ length (env (codes "JWT_SECRET")))
            × IsStarted r.1
            × (r.2 ≡ (ensured_by new_catalog).1))
    × ((shards ttl : ℤ)
        → (backend add_kept all_up defaults []).0 ≡ backend_serves shards ttl
        → IsStarted (backend add_kept all_up defaults []).1)
comes_up_example =
    comes_up env (λ t. t) (λ t. none) (λ t. none) add_kept IsKept add_kept-IsServer (λ u. some u)
      (λ a. some (pos 0)) true (codes "serve" ∷ []) some_deps all_up [] read_name keep_sql
      (λ fs. fs) fine all_made (some directory) new_catalog

-- There is a run of the worker to speak of.
runs : worker add_kept ensured_by env all_up defaults [] new_catalog ≡ (
  worker_runs (workers_of add_kept (codes "*") all_up defaults),
  (setup add_kept []).1,
  (ensured_by new_catalog).1,
)
unfolding worker with_store open_store start_worker worker_getenv streams_ready setup setup_loop
    load validate getenv getint getdur getslice add_kept text_eq defs any_text migrate migrate_files
    migrate_file apply_file call has_suffix
runs = refl
