-- ===== src/Checkout/Outage.antt =====
-- What a buyer is told while Redis cannot be asked.
use openwar.Common.{ℕ, suc, ◌+◌, ◌-◌, ◌%◌, ◌<◌, ◌≡◌, ap, sym, subst, ◌∙◌, false, arith}
use openwar.Common.Text.{Text}
use openwar.Breaker.{Config, Breaker, open_state, circuit_open, execute}
use openwar.Breaker.Recovery.{execute_refuses}
use openwar.Redis.{Redis, call}
use openwar.Lua.{reserve_stock}
use openwar.Inventory.{
  Trip, guarded, is_sold_out, stopped, sweep, probe_if, latch_if, verdict, reserve, breaker_open,
}
use openwar.Inventory.Keys.{inventory_key}
use openwar.Inventory.Hash.{shard_for}
use openwar.Order.{World, Run, place, place_after}
use openwar.Checkout.{PlaceRequest, checkout_error, order_of, checkout_order, reply_of}

module _ (R : Redis) (cfg : Config) (shards ttl : ℕ) where
  -- A breaker that is open, with trips that start before its cooldown has passed.
  abbrev pub Refuses : Breaker → Trip → Type 0
  Refuses b t = (b.state ≡ open_state) × (t.start < b.last_failed_at + cfg.cooldown)

  asked :
      (t : Trip) (sku : Text) (b : Breaker) (d : R.Db)
      → Refuses b t
      → is_sold_out R cfg t sku b d ≡ (false, b, d)
  unfolding is_sold_out guarded execute
  asked t sku b d p = ground arith

  refused {κ} :
      {A : Type κ} (t : Trip) (f : R.Db → A × R.Db) (b : Breaker) (d : R.Db)
      → Refuses b t
      → guarded R cfg t f b d ≡ (circuit_open, b, d)
  unfolding guarded
  refused t f b d p = execute_refuses cfg t.start t.stop (call t.net f) b d p.0 p.1

  swept :
      (trips : ℕ → Trip) (sku : Text) (home n : ℕ) (b : Breaker) (d : R.Db)
      → Refuses b (trips 1)
      → sweep R cfg trips sku home shards (suc n) 0 b d ≡ (stopped, b, d)
  unfolding sweep verdict
  swept trips sku home n b d q =
      let key = inventory_key sku ((home + 0) % shards) in
      let g = guarded R cfg (trips 1) (reserve_stock R key) b d in
      let e : g ≡ (circuit_open, b, d) = refused (trips 1) (reserve_stock R key) b d q in
      let r : g.0 ≡ circuit_open = ap (λ x. x.0) e in
      rw (r, sweep) (ap (λ x. (stopped, x.1, x.2)) e)

  reserve-breaker_open :
      (trips : ℕ → Trip) (sku user : Text) (b : Breaker) (d : R.Db) (n : ℕ)
      → shards ≡ suc n
      → Refuses b (trips 0)
      → Refuses b (trips 1)
      → reserve R cfg trips sku user shards b d ≡ (breaker_open, b, d)
  unfolding reserve probe_if latch_if
  reserve-breaker_open trips sku user b d n e p q =
      let home = shard_for user shards in
      let w : sweep R cfg trips sku home shards shards 0 b d ≡ (stopped, b, d) =
        subst (λ (k : ℕ). sweep R cfg trips sku home shards k 0 b d ≡ (stopped, b, d)) (sym e)
          (swept trips sku home n b d q) in
      ap (probe_if R cfg trips sku user shards) (asked (trips 0) sku b d p)
      ∙ ap (latch_if R cfg trips sku shards) w

  -- While the breaker of Redis refuses the trips that ask for the latch and the first shard, a
  -- checkout of a user is answered 410 (sold out), whatever the stock, and changes nothing. There
  -- is a shard.
  pub refused-sold_out :
      (run : Run) (user : Text) (req : PlaceRequest) (w : World R)
      → 0 < shards
      → Refuses w.redis_cb (run.trips 0)
      → Refuses w.redis_cb (run.trips 1)
      → checkout_order R cfg shards ttl run user req w ≡ (checkout_error 410, w)
  unfolding checkout_order place
  refused-sold_out run user req w pos p q =
      ap
        (λ x.
          let y = place_after R cfg shards ttl run (order_of user req) w x in (reply_of y.0, y.1))
        (reserve-breaker_open run.trips (order_of user req).sku user w.redis_cb w.db (shards - 1)
          (omega arith) p q)
