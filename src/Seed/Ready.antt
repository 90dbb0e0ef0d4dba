-- ===== src/Seed/Ready.antt =====
-- The seed command, on the stock in Redis and the catalog in Postgres.
use openwar.Common.{ℕ, ◌≤◌, ◌<◌, ◌≡◌, refl, ap, ◌∙◌, false, some}
use openwar.Common.Text.{Text, text_eq, text_eq_self}
use openwar.Redis.{Redis, IsLawful, fine, call, absent}
use openwar.Room.Keys.{queue_key}
use openwar.Inventory.Keys.{inventory_key, soldout_key}
use openwar.Inventory.Counts.{IsStocked, total, sum_ext}
use openwar.Lua.Stock.{count}
use openwar.Seeder.{seed_partitioned_stock}
use openwar.Seeder.Split.{seed_partitioned_stock_lem}
use openwar.Store.{NewOrder, inserted, insert_order}
use openwar.Seed.{
  Catalog, tables_of, get_product, user_id, ticket, ticket_sku, demo_users, run_seed,
}
use openwar.Seed.Owners.{IsOwned}
use openwar.Seed.Sells.{all_seeded, seed_catalog_sells}

queue-inventory : (e s : Text) (i : ℕ) → text_eq (queue_key e) (inventory_key s i) ≡ false
unfolding text_eq queue_key inventory_key
queue-inventory e s i = refl

queue-soldout : (e s : Text) → text_eq (queue_key e) (soldout_key s) ≡ false
unfolding text_eq queue_key soldout_key
queue-soldout e s = refl

-- The seed command in which nothing fails, on a Redis that does what is documented: it leaves the
-- stock of the event's ticket split over the shards, no counter negative and in sum the quantity,
-- no latch of the sku and no queue of the event; the catalog has the ticket's product as seeded;
-- and an order for it by any of the 2000 demo users is inserted. There is a shard, and no other
-- user has a demo user's address.
pub run_seed_sells :
    (R : Redis) (event : Text) (qty shards : ℕ) (d : R.Db) (s : Catalog) (i now : ℕ) (o : NewOrder)
    → IsLawful R
    → 0 < shards
    → IsOwned s.users
    → 1 ≤ i
    → i ≤ demo_users
    → o.user_id ≡ user_id i
    → o.sku ≡ ticket_sku event
    → let r = run_seed R fine fine fine all_seeded event qty shards (d, s) in
      let sku = ticket_sku event in
      IsStocked R r.0 sku shards
      × (total R r.0 sku shards ≡ qty)
      × (R.look r.0 (soldout_key sku) ≡ absent)
      × (R.look r.0 (queue_key event) ≡ absent)
      × (get_product sku r.1.products ≡ some (ticket event sku qty shards))
      × ((insert_order now o (tables_of r.1)).0 ≡ inserted)
unfolding run_seed call
run_seed_sells R event qty shards d s i now o L pos own low high user prod =
    let sku = ticket_sku event in
    let r = seed_partitioned_stock R fine fine sku qty shards d in
    let (ok, stocked, all, clear, seen) = seed_partitioned_stock_lem R L sku qty shards d pos in
    let kept : (j : ℕ)
        → R.look (R.del r.1 (queue_key event)) (inventory_key sku j)
          ≡ R.look r.1 (inventory_key sku j) =
      λ j. rw (L.look-del, queue-inventory event sku j) refl in
    let (t, e, product, order) =
      seed_catalog_sells event sku qty shards s i now o own low high user prod in
    rw (ok, e)
      (
        λ j lt. rw (kept j) (stocked j lt),
        sum_ext _ _ shards (λ j lt. ap count (kept j)) ∙ all,
        rw (L.look-del, queue-soldout event sku) clear,
        rw (L.look-del, text_eq_self (queue_key event)) refl,
        product,
        order,
      )
