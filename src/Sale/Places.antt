-- ===== src/Sale/Places.antt =====
-- `Compensate` and `Place` are runs of the steps of a sale, however their trips go.
use openwar.Common.{
  ℕ, suc, ◌<◌, ◌≡◌, refl, ◌⊎◌, inl, inr, Bool, true, false, Option, none, some, List, ◌∷◌,
}
use openwar.Common.Text.{Text, codes, text_eq_self}
use openwar.Breaker.{Config, Breaker}
use openwar.Redis.{Redis, IsLawful, Net, fine, lost, cut, call}
use openwar.Lua.{release_stock}
use openwar.Inventory.{Trip, compensate, reserve, Reserved, reserved, sold_out, breaker_open}
use openwar.Inventory.Ends.{compensate-Ends}
use openwar.Inventory.Keys.{inventory_key, soldout_key, reservation_key}
use openwar.Inventory.Counts.{IsStocked}
use openwar.Inventory.Reserve.{Reserves, reserve-Reserves}
use openwar.Store.{any_text}
use openwar.Order.{
  Order, World, Run, Placed, placed, redis_error, publish_error, place, place_after, place_reserved,
  after_mark, publish_step, after_publish, give_back,
}
use openwar.Sale.{System, sys, Step, enter, compensate_marked, compensate_held, Reach, here}
use openwar.Sale.Runs.{Reach-trans, one, stays, latch_other, reserve-Reach, reserved_hand}

module _ (R : Redis) (L : IsLawful R) (cfg : Config) (sku : Text) (shards : ℕ) (m : List Text)
    (id : Text) (i : ℕ) (lt : i < shards) where
  abbrev compensated : Trip → Net → Breaker → R.Db → R.Db
  compensated t net b d = (compensate R cfg t net (reservation_key id) (inventory_key sku i) b d).2

  abbrev released : R.Db → R.Db
  released d = (release_stock R (reservation_key id) (inventory_key sku i) d).1

  cleared :
      (s : Text) (d : R.Db) (h : ℕ)
      → Reach R sku shards (sys R d h m) (sys R (R.del d (soldout_key s)) h m)
  cleared s d h = latch_other R L cfg sku shards m s d _ h (λ k n. rw (L.look-del, n) refl)

  -- From a first step that runs the script.
  ended :
      (t : Trip) (net : Net) (b : Breaker) (d : R.Db) (h h' : ℕ)
      → Step R sku shards (sys R d h m) (sys R (released d) h' m)
      → (compensated t net b d ≡ d)
        ⊎ Reach R sku shards (sys R d h m) (sys R (compensated t net b d) h' m)
  ended t net b d h h' st =
      elim (compensate-Ends R cfg (reservation_key id) (inventory_key sku i) d t net b) [
        | inl e ↦ inl e
        | inr (inl e) ↦ inr (
            Reach-trans R sku shards (one R sku shards st)
              (stays R sku shards (released d) _ h' m e))
        | inr (inr (s, e)) ↦ inr (
            Reach-trans R sku shards (one R sku shards st) (
              Reach-trans R sku shards (cleared s (released d) h') (stays R sku shards _ _ h' m e)))
      ]

  -- A compensation of an order whose reservation was written.
  pub compensate-Reach :
      (t : Trip) (net : Net) (b : Breaker) (d : R.Db) (h : ℕ)
      → any_text id m ≡ true
      → Reach R sku shards (sys R d h m) (sys R (compensated t net b d) h m)
  compensate-Reach t net b d h a = elim (ended t net b d h h (compensate_marked id i lt a refl)) [
    | inl e ↦ stays R sku shards d _ h m e
    | inr r ↦ r
  ]

  -- A compensation by the one who holds the unit.
  pub compensate_held-Reach :
      (t : Trip) (net : Net) (b : Breaker) (d : R.Db) (h : ℕ)
      → (h' : ℕ) × Reach R sku shards (sys R d (suc h) m) (sys R (compensated t net b d) h' m)
  compensate_held-Reach t net b d h =
      elim (ended t net b d (suc h) h (compensate_held id i h lt refl refl)) [
        | inl e ↦ (suc h, stays R sku shards d _ (suc h) m e)
        | inr r ↦ (h, r)
      ]

module _ (R : Redis) (L : IsLawful R) (cfg : Config) (shards ttl : ℕ) (run : Run) (o : Order)
    (m : List Text) where
  -- From some state to what a call of `Place` leaves: the unit is in the order's reservation if the
  -- order was placed.
  Places : System R → Placed × World R → Type 0
  Places s r =
      (h : ℕ) × (m' : List Text) × Reach R o.sku shards s (sys R r.1.db h m')
      × (r.0 ≡ placed run.order_id → any_text run.order_id m' ≡ true)

  module _ (i : ℕ) (lt : i < shards) where
    give_back-Places :
        (h : ℕ) (m' : List Text) (e : Placed) (w : World R)
        → any_text run.order_id m' ≡ true
        → Places (sys R w.db h m') (give_back R cfg shards ttl run (inventory_key o.sku i) e w)
    unfolding give_back Places
    give_back-Places h m' e w a = (
      h,
      m',
      compensate-Reach R L cfg o.sku shards m' run.order_id i lt run.refund run.clear w.redis_cb
          w.db h a,
      λ p. a,
    )

    after_publish-Places :
        (h : ℕ) (m' : List Text) (ok : Bool) (w : World R)
        → any_text run.order_id m' ≡ true
        → Places (sys R w.db h m') (after_publish R cfg shards ttl run (inventory_key o.sku i) ok w)
    unfolding after_publish Places
    after_publish-Places h m' true w a = (h, m', here, λ p. a)
    after_publish-Places h m' false w a = give_back-Places h m' publish_error w a

    after_mark-Places :
        (h : ℕ) (m' : List Text) (u : Option (Unit {0})) (w : World R)
        → any_text run.order_id m' ≡ true
        → Places (sys R w.db h m') (after_mark R cfg shards ttl run o (inventory_key o.sku i) u w)
    unfolding after_mark publish_step
    after_mark-Places h m' none w a = give_back-Places h m' redis_error w a
    after_mark-Places h m' (some u) w a = after_publish-Places h m' _ _ a

    -- The trip that marks the reservation gets no answer and does nothing, or writes the key.
    mark_ends :
        (net : Net) (d : R.Db)
        → let r =
            call {A = Unit {0}} net
              (λ x. (tt, R.set x (reservation_key run.order_id) (codes "RESERVED") ttl))
              d in
          ((r.0 ≡ none) × (r.1 ≡ d))
          ⊎ (r.1 ≡ R.set d (reservation_key run.order_id) (codes "RESERVED") ttl)
    unfolding call
    mark_ends fine d = inr refl
    mark_ends lost d = inl (refl, refl)
    mark_ends cut d = inr refl

    Places-trans :
        (s t : System R) (r : Placed × World R) → Reach R o.sku shards s t → Places t r → Places s r
    unfolding Places
    Places-trans s t r q (h, m', q', p) = (h, m', Reach-trans R o.sku shards q q', p)

    unmarked :
        (h : ℕ) (d : R.Db) (u : Option (Unit {0})) (w : World R)
        → u ≡ none
        → w.db ≡ d
        → Places (sys R d (suc h) m) (after_mark R cfg shards ttl run o (inventory_key o.sku i) u w)
    unfolding after_mark give_back Places
    unmarked h d u w e q =
        let (h', r) =
          compensate_held-Reach R L cfg o.sku shards m run.order_id i lt run.refund run.clear
            w.redis_cb w.db h in
        rw e
          (h', m, Reach-trans R o.sku shards (stays R o.sku shards d w.db (suc h) m q) r, λ p. cc)

    place_reserved-Places :
        (h : ℕ) (w : World R)
        → any_text run.order_id m ≡ false
        → Places
            (sys R w.db (suc h) m)
            (place_reserved R cfg shards ttl run o (inventory_key o.sku i) w)
    unfolding place_reserved any_text
    place_reserved-Places h w new =
        let r =
          call {A = Unit {0}} run.mark
            (λ x. (tt, R.set x (reservation_key run.order_id) (codes "RESERVED") ttl)) w.db in
        elim (mark_ends run.mark w.db) [
          | inl (u, d) ↦ unmarked h w.db r.0 (record w { db = r.1 }) u d
          | inr d ↦
              Places-trans _ (sys R r.1 h (run.order_id ∷ m)) _
                (Reach-trans R o.sku shards
                  (one R o.sku shards (enter run.order_id h ttl refl new refl))
                  (stays R o.sku shards _ r.1 h (run.order_id ∷ m) d))
                (after_mark-Places h (run.order_id ∷ m) r.0 (record w { db = r.1 })
                  (rw (text_eq_self run.order_id) refl))
        ]

  place_after-Places :
      (h : ℕ) (w : World R) (r : Reserved) (b : Breaker) (e : R.Db)
      → any_text run.order_id m ≡ false
      → Reserves R cfg run.trips o.sku o.user_id shards w.db r e
      → Reach R o.sku shards (sys R w.db h m) (sys R e (reserved_hand R L cfg o.sku shards m r h) m)
      → Places (sys R w.db h m) (place_after R cfg shards ttl run o w (r, b, e))
  unfolding place_after Places
  place_after-Places h w (reserved key) b e new (_, i, lt, k, _) q =
      let w' = record w { redis_cb = b; db = e } in
      rw k (
        Places-trans i lt _ (sys R e (suc h) m)
          (place_reserved R cfg shards ttl run o (inventory_key o.sku i) w') q
          (place_reserved-Places i lt h w' new))
  place_after-Places h w sold_out b e new s q = (h, m, q, λ p. cc)
  place_after-Places h w breaker_open b e new s q = (h, m, q, λ p. cc)

  -- `Place` refines the steps of a sale: however its trips and publications go, a call for an
  -- order id whose reservation was not yet written is a run of those steps on its sku, and if it
  -- returns the order as placed, that run has written the order's reservation. There is a shard,
  -- and no counter of the sku is negative.
  pub place-Reach :
      (h : ℕ) (w : World R)
      → 0 < shards
      → IsStocked R w.db o.sku shards
      → any_text run.order_id m ≡ false
      → let r = place R cfg shards ttl run o w in
        (h' : ℕ) × (m' : List Text) × Reach R o.sku shards (sys R w.db h m) (sys R r.1.db h' m')
        × (r.0 ≡ placed run.order_id → any_text run.order_id m' ≡ true)
  unfolding place Places
  place-Reach h w pos ok new =
      let x = reserve R cfg run.trips o.sku o.user_id shards w.redis_cb w.db in
      place_after-Places h w x.0 x.1 x.2 new
        (reserve-Reserves R cfg run.trips o.sku o.user_id shards L w.redis_cb w.db pos ok)
        (reserve-Reach R L cfg o.sku shards m run.trips o.user_id w.redis_cb w.db h pos)
