-- ===== src/Tests/Deliver.antt =====
-- Messages on their way to the workers.
use openwar.Common.{◌⊎◌, ◌<◌, [], ◌∷◌, ◌++◌, ℕ, ◌≡◌, refl, some, if◌then◌else◌, ◌==◌}
use openwar.Common.Text.{codes, text_eq}
use openwar.Redis.{lost, call}
use openwar.Redis.Memory.{memory, memory-IsLawful}
use openwar.Store.{any_text, has_order}
use openwar.Order.{Event}
use openwar.Order.Worker.{Site, HandleRun}
use openwar.Order.Timeout.{TimeoutRun}
use openwar.Order.Deliver.{acknowledged, given_up, deliver_order, deliver_timeout}
use openwar.Order.Worker.Published.{IsPublished}
use openwar.Order.Deliver.Once.{row_of, deliver_order_once}
use openwar.Order.Deliver.Given.{unknown_user_given_up, failed_timeout_dropped}
use openwar.Seeder.{seed_partitioned_stock, seed_shards}
use openwar.Inventory.Keys.{cancel_key, inventory_key, soldout_key}
use openwar.Tests.Fixtures.{limits}
use openwar.Tests.Timeout.{site, handling, paid_late, timing_out}

-- An order of someone who has no row in `users`.
abbrev strangers : Event
strangers = record paid_late { order_id = codes "ord-9"; user_id = codes "eve" }

unknown_user_given_up_example :
    deliver_order memory limits 400 (λ n. handling) (some strangers) site ≡ (given_up, site)
unfolding any_text has_order text_eq
unknown_user_given_up_example =
    unknown_user_given_up memory limits 400 strangers site refl refl (λ n. handling)

-- The first delivery does not get the row.
abbrev row_lost : ℕ → TimeoutRun
row_lost n = if n == 0 then record (timing_out 600) { lookup = lost } else timing_out 600

failed_timeout_dropped_example :
    let r = deliver_timeout memory limits 2 row_lost (codes "ord-1") site in
    (r.0 ≡ acknowledged 1) × (r.1.tables ≡ site.tables)
unfolding seed_partitioned_stock seed_shards text_eq cancel_key inventory_key soldout_key call
failed_timeout_dropped_example =
    failed_timeout_dropped memory memory-IsLawful limits 2 row_lost (codes "ord-1") site refl
      (λ e. cc) refl refl

-- The first insert is lost.
abbrev insert_lost : ℕ → HandleRun
insert_lost n = if n == 0 then record handling { insert = lost } else handling

-- Before any order.
abbrev unsold : Site memory
unsold = record site { tables = record site.tables { orders = [] } }

deliver_order_once_example :
    let r = deliver_order memory limits 400 insert_lost (some paid_late) unsold in
    (((r.0 ≡ given_up) × (r.1.tables ≡ unsold.tables))
      ⊎ ((j : ℕ) × (j < 5)
          × (r.1.tables ≡ record unsold.tables {
            orders = unsold.tables.orders ++ row_of memory limits 400 insert_lost paid_late j ∷ [];
          })))
    × ((k : ℕ)
        → r.0 ≡ acknowledged k
        → (k < 5) × IsPublished memory memory-IsLawful limits paid_late.order_id r.1.world.db)
unfolding has_order text_eq
deliver_order_once_example =
    deliver_order_once memory limits 400 insert_lost paid_late memory-IsLawful unsold refl
