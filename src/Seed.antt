-- ===== src/Seed.antt =====
-- cmd/gateway/seed.go: the seed command, with the statements of internal/store/store.go on users and
-- products that it makes. A statement is made or fails, and the reply of one that is made may be lost.
pub mod Owners
pub mod Sells
pub mod Ready
use openwar.Common.{
  ℕ, zero, suc, Bool, true, false, not, ◌&&◌, ◌||◌, Option, none, some, List, [], ◌∷◌, ◌++◌, map,
  ltb, if◌then◌else◌,
}
use openwar.Common.Text.{Text, codes, text_eq}
use openwar.Common.Text.Decimal.{decimal}
use openwar.Redis.{Redis, Net, call}
use openwar.Room.Keys.{queue_key}
use openwar.Seeder.{seed_partitioned_stock}
use openwar.Store.{Row, Tables, clear_orders}

-- A row of `openwar.users`.
pub record User : Type 0 where
  pub id : Text
  pub email : Text
  pub full_name : Text

-- A row of `openwar.products`.
pub record Product : Type 0 where
  pub sku : Text
  pub name : Text
  pub price_cents : ℕ
  pub inventory_total : ℕ
  pub inventory_shards : ℕ
  pub status : Text

-- The tables, and what the statements on orders see of them.
pub record Catalog : Type 0 where
  pub users : List User
  pub products : List Product
  pub orders : List Row

abbrev pub ids : List User → List Text
ids = map (λ (u : User). u.id)

abbrev pub skus : List Product → List Text
skus = map (λ (p : Product). p.sku)

abbrev pub tables_of : Catalog → Tables
tables_of t = record { users = ids t.users; products = skus t.products; orders = t.orders }

-- Whether another user has the address, which is UNIQUE.
unfoldable pub email_taken : Text → Text → List User → Bool
email_taken id email [] = false
email_taken id email (u ∷ us) =
    text_eq u.email email && not (text_eq u.id id) || email_taken id email us

unfoldable pub put_user : User → List User → List User
put_user u [] = u ∷ []
put_user u (v ∷ vs) = if text_eq v.id u.id then u ∷ vs else v ∷ put_user u vs

-- `UpsertUser`: whether Postgres accepts it.
unfoldable pub upsert_user : User → Catalog → Bool × Catalog
unfolding put_user
upsert_user u t =
    if email_taken u.id u.email t.users
    then (false, t)
    else (true, record t { users = put_user u t.users })

unfoldable pub put_product : Product → List Product → List Product
put_product p [] = p ∷ []
put_product p (q ∷ qs) = if text_eq q.sku p.sku then p ∷ qs else q ∷ put_product p qs

-- `UpsertProduct`
abbrev pub upsert_product : Product → Catalog → Unit {0} × Catalog
upsert_product p t = (tt, record t { products = put_product p t.products })

-- `GetProduct`; `none` is `ErrNoRows`.
unfoldable pub get_product : Text → List Product → Option Product
get_product sku [] = none
get_product sku (p ∷ ps) = if text_eq p.sku sku then some p else get_product sku ps

abbrev pub user_id : ℕ → Text
user_id i = codes "user-" ++ decimal i

abbrev pub address : Text → Text
address id = id ++ codes "@demo.openwar"

abbrev pub demo_user : ℕ → User
demo_user i = record {
  id = user_id i;
  email = address (user_id i);
  full_name = codes "Demo User " ++ user_id i;
}

-- The loop over the demo users: `left` of them, from `i` on.
unfoldable pub seed_users : (ℕ → Net) → ℕ → ℕ → Catalog → Bool × Catalog
unfolding upsert_user
seed_users nets zero i t = (true, t)
seed_users nets (suc left) i t =
    let (r, t1) = call (nets i) (upsert_user (demo_user i)) t in
    let rest = seed_users nets left (suc i) t1 in
    elim r [ none ↦ (false, t1) | some ok ↦ if ok then rest else (false, t1) ]

-- How the statements go; `opened` is the connection with the schema in place.
pub record CatalogRun : Type 0 where
  pub opened : Bool
  pub clear : Net
  pub upsert : Net
  pub each_user : ℕ → Net

abbrev pub ticket : Text → Text → ℕ → ℕ → Product
ticket event sku qty shards = record {
  sku = sku;
  name = event ++ codes " ticket";
  price_cents = 59000;
  inventory_total = qty;
  inventory_shards = shards;
  status = codes "ACTIVE";
}

-- `for i := 1; i <= 2000; i++`
abbrev pub demo_users : ℕ
demo_users = 2000

-- After the orders are cleared.
unfoldable pub seed_product : CatalogRun → Product → Catalog → Bool × Catalog
seed_product run p t =
    let (u, t1) = call run.upsert (upsert_product p) t in
    elim u [ none ↦ (false, t1) | some u' ↦ seed_users run.each_user demo_users 1 t1 ]

-- ClearOrders
abbrev pub clear_catalog : Catalog → Unit {0} × Catalog
clear_catalog t = (tt, record t { orders = (clear_orders (tables_of t)).orders })

-- `seedCatalog`
unfoldable pub seed_catalog : CatalogRun → Text → Text → ℕ → ℕ → Catalog → Bool × Catalog
unfolding seed_product clear_orders
seed_catalog run event sku qty shards t =
    if not run.opened
    then (false, t)
    else (let (u, t1) = call run.clear clear_catalog t in
        elim u [ none ↦ (false, t1) | some u' ↦ seed_product run (ticket event sku qty shards) t1 ])

-- The shard count: the flag, where it is positive, and the configuration's otherwise.
abbrev pub shard_count : ℕ → ℕ → ℕ
shard_count flag configured = if ltb 0 flag then flag else configured

abbrev pub ticket_sku : Text → Text
ticket_sku event = event ++ codes ":ticket"

module _ (R : Redis) where
  -- `runSeed` for an event, a quantity and a number of shards: the errors are logged.
  unfoldable pub run_seed :
      Net → Net → Net → CatalogRun → Text → ℕ → ℕ → R.Db × Catalog → R.Db × Catalog
  unfolding seed_catalog
  run_seed pipe unlatch drop run event qty shards (d, t) =
      let (ok, d1) = seed_partitioned_stock R pipe unlatch (ticket_sku event) qty shards d in
      if ok
      then (
        (call {A = Unit {0}} drop (λ x. (tt, R.del x (queue_key event))) d1).1,
        (seed_catalog run event (ticket_sku event) qty shards t).1,
      )
      else (d1, t)
