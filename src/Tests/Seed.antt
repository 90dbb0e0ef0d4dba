-- ===== src/Tests/Seed.antt =====
-- A seed over a catalog that a demo user is in already.
use openwar.Common.{◌≡◌, refl, false, some, [], ◌∷◌, if◌then◌else◌, ◌==◌, arith}
use openwar.Common.Text.{Text, codes, text_eq}
use openwar.Common.Text.Decimal.{decimal}
use openwar.Redis.{fine, lost, absent, call}
use openwar.Redis.Memory.{memory, empty, memory-IsLawful}
use openwar.Room.Keys.{queue_key}
use openwar.Inventory.Keys.{soldout_key}
use openwar.Inventory.Counts.{IsStocked, total}
use openwar.Store.{NewOrder, inserted, insert_order}
use openwar.Seed.{
  Catalog, tables_of, put_user, upsert_user, email_taken, get_product, user_id, demo_user,
  seed_users, ticket, ticket_sku, run_seed,
}
use openwar.Seed.Owners.{IsOwned, put_user-IsOwned}
use openwar.Seed.Sells.{all_seeded}
use openwar.Seed.Ready.{run_seed_sells}

abbrev gala : Text
gala = codes "gala"

abbrev old_catalog : Catalog
old_catalog = record {
  users = put_user (demo_user 1) [];
  products = ticket gala (ticket_sku gala) 3 2 ∷ [];
  orders = [];
}

abbrev seventh : NewOrder
seventh = record {
  order_id = codes "o7";
  user_id = user_id 7;
  event_id = gala;
  sku = ticket_sku gala;
  qty = 1;
  status = [];
  expires = 60;
}

-- A user's address that another one holds.
upsert_taken :
    (upsert_user
      (record { id = codes "eve"; email = codes "a@b"; full_name = [] })
      (record old_catalog {
        users = record { id = codes "ada"; email = codes "a@b"; full_name = [] } ∷ [];
      })).0
    ≡ false
unfolding upsert_user email_taken text_eq
upsert_taken = refl

-- The loop ends at a request that is lost.
seed_users_lost : (seed_users (λ n. if n == 2 then lost else fine) 3 1 old_catalog).0 ≡ false
unfolding seed_users call upsert_user email_taken put_user text_eq decimal
seed_users_lost = refl

old_catalog-IsOwned : IsOwned old_catalog.users
unfolding email_taken
old_catalog-IsOwned = put_user-IsOwned (user_id 1) (demo_user 1).full_name [] (λ id. refl)

run_seed_sells_example :
    let r = run_seed memory fine fine fine all_seeded gala 5 2 (empty, old_catalog) in
    IsStocked memory r.0 (ticket_sku gala) 2
    × (total memory r.0 (ticket_sku gala) 2 ≡ 5)
    × (memory.look r.0 (soldout_key (ticket_sku gala)) ≡ absent)
    × (memory.look r.0 (queue_key gala) ≡ absent)
    × (get_product (ticket_sku gala) r.1.products ≡ some (ticket gala (ticket_sku gala) 5 2))
    × ((insert_order 0 seventh (tables_of r.1)).0 ≡ inserted)
run_seed_sells_example =
    run_seed_sells memory gala 5 2 empty old_catalog 7 0 seventh memory-IsLawful (omega arith)
      old_catalog-IsOwned (omega arith) (omega arith) refl refl
