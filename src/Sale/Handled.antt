-- ===== src/Sale/Handled.antt =====
-- `handleOrder` is a run of the steps of a sale.
use openwar.Common.{ℕ, ◌≡◌, refl, Option, none, some, List}
use openwar.Common.Text.{Text, codes, text_eq, text_eq_self}
use openwar.Breaker.{Config}
use openwar.Redis.{Redis, IsLawful, Net, fine, lost, cut, call}
use openwar.Inventory.Keys.{reservation_key}
use openwar.Store.{Inserted, inserted, row_exists, insert_error}
use openwar.Order.{Event}
use openwar.Order.Worker.{Site, HandleRun, handle_order, after_insert, flipped, after_flip, armed}
use openwar.Sale.{sys, retire, Reach, here}
use openwar.Sale.Runs.{Reach-trans, one, stays}

module _ (R : Redis) (L : IsLawful R) (cfg : Config) (sku : Text) (shards : ℕ) (m : List Text)
    (h : ℕ) where
  abbrev Runs : R.Db → R.Db → Type 0
  Runs d d' = Reach R sku shards (sys R d h m) (sys R d' h m)

  published-Runs :
      (id : Text) (d : R.Db) → Runs d (R.set d (reservation_key id) (codes "PUBLISHED") 0)
  unfolding text_eq
  published-Runs id d =
      one R sku shards
        (retire id _ (rw (L.look-set, text_eq_self) refl) (λ k n. rw (L.look-set, n) refl) refl)

  flip-Runs :
      (net : Net) (id : Text) (d : R.Db)
      → Runs d
          (call {A = Unit {0}} net
            (λ x. (tt, R.set x (reservation_key id) (codes "PUBLISHED") 0))
            d).1
  unfolding call
  flip-Runs lost id d = here
  flip-Runs fine id d = published-Runs id d
  flip-Runs cut id d = published-Runs id d

  module _ (window : ℕ) (run : HandleRun) (ev : Event) where
    after_flip-same :
        (u : Option (Unit {0})) (s : Site R)
        → (after_flip R cfg window run ev u s).1.world.db ≡ s.world.db
    unfolding after_flip armed
    after_flip-same none s = refl
    after_flip-same (some u) s = refl

    flipped-Runs : (s : Site R) → Runs s.world.db (flipped R cfg window run ev s).1.world.db
    unfolding flipped
    flipped-Runs s =
        Reach-trans R sku shards (flip-Runs run.flip ev.order_id s.world.db)
          (stays R sku shards _ _ h m (after_flip-same _ _))

    after_insert-Runs :
        (i : Option Inserted) (s : Site R)
        → Runs s.world.db (after_insert R cfg window run ev i s).1.world.db
    unfolding after_insert
    after_insert-Runs none s = here
    after_insert-Runs (some inserted) s = flipped-Runs s
    after_insert-Runs (some row_exists) s = flipped-Runs s
    after_insert-Runs (some insert_error) s = here

    -- However it goes, handling an order's event is a run of the steps of any sale, which takes nothing in
    -- hand and writes no reservation anew.
    handle_order-Reach :
        (s : Site R)
        → Reach R sku shards
            (sys R s.world.db h m)
            (sys R (handle_order R cfg window run (some ev) s).1.world.db h m)
    unfolding handle_order
    handle_order-Reach s = after_insert-Runs _ _
