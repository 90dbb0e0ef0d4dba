-- ===== src/Order/Place.antt =====
-- `Place`: the stock of the sku, the stream and the reply, whatever fails and when nothing does.
use openwar.Common.{
  ℕ, suc, ◌+◌, ◌≤◌, ◌<◌, ◌≡◌, ◌≢◌, refl, ap, ◌∙◌, Bool, true, false, Option, none, some, arith,
}
use openwar.Common.Text.{codes}
use openwar.Breaker.{Config, Breaker}
use openwar.Redis.{Redis, IsLawful, Net, fine, lost, cut, call}
use openwar.Lua.Stock.{count}
use openwar.Inventory.{Reserved, reserved, sold_out, breaker_open}
use openwar.Inventory.Keys.{inventory_key, reservation_key, reservation-inventory}
use openwar.Inventory.Counts.{units, total, IsStocked, sum_ext}
use openwar.Inventory.Reserve.{Reserves, reserve-Reserves}
use openwar.Inventory.Refund.{Keeps, compensated_bound}
use openwar.Order.{
  Order, World, Run, Placed, placed, redis_error, publish_error, place_reserved, place_after,
  give_back, after_publish, publish_step, after_mark, place,
}

module _ (R : Redis) (L : IsLawful R) (cfg : Config) (shards ttl : ℕ) (run : Run) (o : Order) where
  -- Marking the reservation leaves the stock alone.
  marked : R.Db → R.Db
  marked d = R.set d (reservation_key run.order_id) (codes "RESERVED") ttl

  marked-Keeps :
      (d : R.Db) (j : ℕ)
      → R.look (marked d) (inventory_key o.sku j) ≡ R.look d (inventory_key o.sku j)
  unfolding marked
  marked-Keeps d j = rw (L.look-set, reservation-inventory)

  -- How the stock goes with the reply, once `Reserve` has taken a unit.
  abbrev Settles : R.Db → Placed → R.Db → Type 0
  Settles d r d' =
      IsStocked R d' o.sku shards
      × (total R d' o.sku shards ≤ total R d o.sku shards + 1)
      × (r ≡ placed run.order_id → total R d' o.sku shards ≡ total R d o.sku shards)

  module _ (i : ℕ) (lt : i < shards) where
    give_back-Settles :
        (e : Placed) (w : World R)
        → IsStocked R w.db o.sku shards
        → e ≢ placed run.order_id
        → let r = give_back R cfg shards ttl run (inventory_key o.sku i) e w in
          Settles w.db r.0 r.1.db
    unfolding give_back
    give_back-Settles e w ok ne =
        let (n, le, (ok', t)) =
          compensated_bound R L cfg run.order_id o.sku i shards lt run.refund run.clear w.redis_cb
            w.db ok in
        (ok', omega arith, λ p. absurd (ne p))

    after_publish-Settles :
        (ok : Bool) (w : World R)
        → IsStocked R w.db o.sku shards
        → let r = after_publish R cfg shards ttl run (inventory_key o.sku i) ok w in
          Settles w.db r.0 r.1.db
    unfolding after_publish
    after_publish-Settles true w s = (s, omega arith, λ p. refl)
    after_publish-Settles false w s = give_back-Settles publish_error w s (λ e. cc)

    after_mark-Settles :
        (u : Option (Unit {0})) (w : World R)
        → IsStocked R w.db o.sku shards
        → let r = after_mark R cfg shards ttl run o (inventory_key o.sku i) u w in
          Settles w.db r.0 r.1.db
    unfolding after_mark publish_step
    after_mark-Settles none w s = give_back-Settles redis_error w s (λ e. cc)
    after_mark-Settles (some u) w s = after_publish-Settles _ _ s

    moved :
        (d d' : R.Db) (r : Placed) (e : R.Db)
        → Keeps R L cfg run.order_id o.sku i shards lt d d'
        → Settles d' r e
        → Settles d r e
    moved d d' r e k (s, le, p) =
        let same : total R d' o.sku shards ≡ total R d o.sku shards =
          sum_ext (units R d' o.sku) (units R d o.sku) shards (λ j jl. ap count (k j)) in
        (s, omega arith, λ h. p h ∙ same)

    stocked :
        (d d' : R.Db)
        → Keeps R L cfg run.order_id o.sku i shards lt d d'
        → IsStocked R d o.sku shards
        → IsStocked R d' o.sku shards
    stocked d d' k s j jl = rw (k j) (s j jl)

    mark_then :
        (net : Net) (d : R.Db)
        → Keeps R L cfg run.order_id o.sku i shards lt d
            (call {A = Unit {0}} net
              (λ x. (tt, R.set x (reservation_key run.order_id) (codes "RESERVED") ttl))
              d).1
    unfolding call marked
    mark_then fine d j = marked-Keeps d j
    mark_then lost d j = refl
    mark_then cut d j = marked-Keeps d j

    place_reserved-Settles :
        (w : World R)
        → IsStocked R w.db o.sku shards
        → let r = place_reserved R cfg shards ttl run o (inventory_key o.sku i) w in
          Settles w.db r.0 r.1.db
    unfolding place_reserved
    place_reserved-Settles w s =
        let k = mark_then run.mark w.db in
        moved w.db _ _ _ k (after_mark-Settles _ _ (stocked w.db _ k s))

  Sells : R.Db → Placed → R.Db → Type 0
  Sells d r d' =
      IsStocked R d' o.sku shards
      × (total R d' o.sku shards ≤ total R d o.sku shards)
      × (r ≡ placed run.order_id → suc (total R d' o.sku shards) ≤ total R d o.sku shards)

  place_after-Sells :
      (d : R.Db) (w : World R) (r : Reserved) (b : Breaker) (e : R.Db)
      → Reserves R cfg run.trips o.sku o.user_id shards d r e
      → let p = place_after R cfg shards ttl run o w (r, b, e) in Sells d p.0 p.1.db
  unfolding place_after Sells
  place_after-Sells d w sold_out b e (s, le) = (s, le, λ p. cc)
  place_after-Sells d w breaker_open b e (s, le) = (s, le, λ p. cc)
  place_after-Sells d w (reserved key) b e (s, i, lt, k, less) = rw k (
      let (s', le, p) = place_reserved-Settles i lt (record w { redis_cb = b; db = e }) s in
      (s', omega arith, λ h. omega (arith, p h)))

  -- With at least one shard, and counters of the sku that are missing or hold no negative number:
  -- whatever fails on the way, a call of `Place` leaves no more units than there were, and at least
  -- one unit fewer if it returns its order as placed; the counters are then still not negative.
  pub place_never_oversells :
      (w : World R)
      → 0 < shards
      → IsStocked R w.db o.sku shards
      → let r = place R cfg shards ttl run o w in
        IsStocked R r.1.db o.sku shards
        × (total R r.1.db o.sku shards ≤ total R w.db o.sku shards)
        × (r.0 ≡ placed run.order_id
            → suc (total R r.1.db o.sku shards) ≤ total R w.db o.sku shards)
  unfolding place Sells
  place_never_oversells w h s =
      place_after-Sells w.db w _ _ _
        (reserve-Reserves R cfg run.trips o.sku o.user_id shards L w.redis_cb w.db h s)
