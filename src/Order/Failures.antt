-- ===== src/Order/Failures.antt =====
-- What `Place` makes of a failure after a unit was taken: where the unit ends up.
use openwar.Common.{
  ℕ, suc, ◌==◌, if◌then◌else◌, ◌+◌, ◌*◌, ◌<◌, ◌≡◌, refl, inl, inr, ap, ◌∙◌, Bool, true, false,
  Option, none, some, List, [], ◌∷◌, ◌++◌, arith,
}
use openwar.Common.Text.{codes, text_eq_self}
use openwar.Breaker.{Config, Breaker, closed, Outcome, circuit_open, failed, done, execute, begin}
use openwar.Redis.{Redis, IsLawful, fine, lost, call, absent, text_of}
use openwar.Lua.Stock.{count}
use openwar.Inventory.Keys.{inventory_key, reservation_key, reservation-inventory}
use openwar.Inventory.Counts.{units, total, IsStocked, sum_ext}
use openwar.Inventory.Refund.{
  Returns-Keeps, compensated_cases, compensated_fine, released_reserved, released_handled,
}
use openwar.Order.{
  Order, World, Run, Message, orders_created, Line, ack_lost, redis_error, publish_error, event_of,
  publish, publish_loop, attempt_publish, is_acked, stored, place_reserved, give_back,
  after_publish, publish_step, after_mark,
}

retry :
    (line : Line) (m : Message) (left i b w : ℕ) (s : List Message)
    → line.sent i ≡ ack_lost
    → line.context_done i ≡ false
    → (i == 2) ≡ false
    → publish_loop line m (suc left) i b w s
      ≡ publish_loop line m left (suc i) (b * 2) (w + b) (s ++ m ∷ [])
unfolding publish_loop
retry line m left i b w s a c n =
    let k : is_acked (line.sent i) ≡ false = ap is_acked a in
    rw (k, n, c, publish_loop)
      (ap (λ x. publish_loop line m left (suc i) (b * 2) (w + b) (stored x m s)) a)

last_try :
    (line : Line) (m : Message) (left b w : ℕ) (s : List Message)
    → line.sent 2 ≡ ack_lost
    → publish_loop line m (suc left) 2 b w s ≡ (false, w, s ++ m ∷ [])
unfolding publish_loop
last_try line m left b w s a =
    let k : is_acked (line.sent 2) ≡ false = ap is_acked a in
    rw (k, publish_loop) (ap (λ x. (false, w, stored x m s)) a)

-- Three attempts whose acknowledgements are all lost.
lost_acks_loop :
    (line : Line) (m : Message) (s : List Message)
    → ((n : ℕ) → line.sent n ≡ ack_lost)
    → ((n : ℕ) → line.context_done n ≡ false)
    → publish_loop line m 3 0 100 0 s ≡ (false, 300, ((s ++ m ∷ []) ++ m ∷ []) ++ m ∷ [])
lost_acks_loop line m s a c =
    retry line m 2 0 100 0 s (a 0) (c 0) refl
    ∙ retry line m 1 1 200 100 _ (a 1) (c 1) refl
    ∙ last_try line m 0 400 300 _ (a 2)

begin_closed :
    (cfg : Config) (now : ℕ) (b : Breaker) → b.state ≡ closed → begin cfg now b ≡ (true, b)
unfolding begin
begin_closed cfg now b c = ground arith

execute_failed {ℓ κ} :
    {S : Type ℓ} {A : Type κ}
    → (cfg : Config) (start stop : ℕ) (fn : S → Option A × S) (b : Breaker) (s : S)
    → b.state ≡ closed
    → (fn s).0 ≡ none
    → ((execute cfg start stop fn b s).0 ≡ failed) × ((execute cfg start stop fn b s).2 ≡ (fn s).1)
unfolding execute begin
execute_failed cfg start stop fn b s c e = rw c (rw e (refl, refl))

failed_publish :
    (cfg : Config) (start stop : ℕ) (line : Line) (m : Message) (b : Breaker) (s s' : List Message)
    → b.state ≡ closed
    → attempt_publish line m s ≡ (none, s')
    → ((publish cfg start stop line m b s).0 ≡ false) × ((publish cfg start stop line m b s).2 ≡ s')
unfolding publish
failed_publish cfg start stop line m b s s' c e =
    let (k, t) =
      execute_failed cfg start stop (attempt_publish line m) b s c
        (ap (λ (x : Option (Unit {0}) × List Message). x.0) e) in
    (
      ap
          (λ (x : Outcome (Unit {0})). elim x [
            | circuit_open ↦ false
            | failed ↦ false
            | done u ↦ true
          ])
          k,
      t ∙ ap (λ (x : Option (Unit {0}) × List Message). x.1) e,
    )

module _ (R : Redis) (L : IsLawful R) (cfg : Config) (shards ttl : ℕ) (run : Run) (o : Order)
    (i : ℕ) (lt : i < shards) where
  marked : R.Db → R.Db
  marked d = R.set d (reservation_key run.order_id) (codes "RESERVED") ttl

  marked-total :
      (d : R.Db)
      → IsStocked R d o.sku shards
      → IsStocked R (marked d) o.sku shards
        × (total R (marked d) o.sku shards ≡ total R d o.sku shards)
  unfolding marked
  marked-total d s =
      let k : (j : ℕ)
          → R.look (marked d) (inventory_key o.sku j) ≡ R.look d (inventory_key o.sku j) =
        λ j. rw (L.look-set, reservation-inventory) in
      (
        λ j jl. rw (k j) (s j jl),
        sum_ext (units R (marked d) o.sku) (units R d o.sku) shards (λ j jl. ap count (k j)),
      )

  marked_reserved :
      (d : R.Db)
      → text_of (R.look (marked d) (reservation_key run.order_id)) ≡ some (codes "RESERVED")
  unfolding marked
  marked_reserved d = rw (L.look-set, text_eq_self)

  abbrev event_message : Message
  event_message = orders_created (event_of run o (inventory_key o.sku i))

  abbrev pub published : World R → Bool × Breaker × List Message
  published w = publish cfg run.nats_start run.nats_stop run.line event_message w.nats_cb w.stream

  refused_publish :
      (ok : Bool) (w : World R)
      → ok ≡ false
      → after_publish R cfg shards ttl run (inventory_key o.sku i) ok w
        ≡ give_back R cfg shards ttl run (inventory_key o.sku i) publish_error w
  unfolding after_publish
  refused_publish ok w e = rw (e, after_publish)

  -- Where the trips that mark and refund the reservation succeed, the breaker of Redis is closed
  -- and no counter is negative, an order whose publication fails gives back one unit, to the shard
  -- it was taken from; what the publication left in the stream stays there.
  place_reserved_refund :
      (w : World R)
      → IsStocked R w.db o.sku shards
      → run.mark ≡ fine
      → run.refund.net ≡ fine
      → w.redis_cb.state ≡ closed
      → (published w).0 ≡ false
      → let r = place_reserved R cfg shards ttl run o (inventory_key o.sku i) w in
        (r.0 ≡ publish_error)
        × (total R r.1.db o.sku shards ≡ total R w.db o.sku shards + 1)
        × (r.1.stream ≡ (published w).2)
  unfolding place_reserved after_mark publish_step call give_back marked
  place_reserved_refund w s m f c p =
      let (s', t) = marked-total w.db s in
      let (_, t') =
        Returns-Keeps R L cfg run.order_id o.sku i shards lt 1 (marked w.db) _ _
          (compensated_fine R L cfg run.order_id o.sku i shards lt run.refund run.clear w.redis_cb
            (marked w.db) f c)
          (released_reserved R L cfg run.order_id o.sku i shards lt (marked w.db) s'
            (marked_reserved w.db)) in
      rw (m, call, refused_publish _ _ p) (refl, t' ∙ ap (λ (n : ℕ). n + 1) t, refl)

  -- The attempts of a line that loses every acknowledgement, with the breaker closed: three copies are
  -- stored, and the publication counts as failed.
  lost_acks_publish :
      (w : World R)
      → w.nats_cb.state ≡ closed
      → ((n : ℕ) → run.line.sent n ≡ ack_lost)
      → ((n : ℕ) → run.line.context_done n ≡ false)
      → ((published w).0 ≡ false)
        × ((published w).2
            ≡ ((w.stream ++ event_message ∷ []) ++ event_message ∷ []) ++ event_message ∷ [])
  unfolding attempt_publish
  lost_acks_publish w c a d =
      failed_publish cfg run.nats_start run.nats_stop run.line event_message w.nats_cb w.stream _ c
        (ap (λ (r : Bool × ℕ × List Message). (if r.0 then some tt else none, r.2))
          (lost_acks_loop run.line event_message w.stream a d))

  -- An order can be refunded although its event is in the stream. Each counter of the sku is
  -- missing or holds no negative number, and `Place` has reserved from a shard. Where Redis
  -- answers, both breakers are closed, the context is not done during the waits, and each time
  -- NATS stores the event but the acknowledgement is lost, the caller gets an error, one unit goes
  -- back to the stock, and the stream has three more copies of the event.
  pub place_reserved_stored_and_refunded :
      (w : World R)
      → IsStocked R w.db o.sku shards
      → run.mark ≡ fine
      → run.refund.net ≡ fine
      → w.redis_cb.state ≡ closed
      → w.nats_cb.state ≡ closed
      → ((n : ℕ) → run.line.sent n ≡ ack_lost)
      → ((n : ℕ) → run.line.context_done n ≡ false)
      → let r = place_reserved R cfg shards ttl run o (inventory_key o.sku i) w in
        (r.0 ≡ publish_error)
        × (total R r.1.db o.sku shards ≡ total R w.db o.sku shards + 1)
        × (r.1.stream
            ≡ ((w.stream ++ event_message ∷ []) ++ event_message ∷ []) ++ event_message ∷ [])
  place_reserved_stored_and_refunded w s m f c c' a d =
      let (p, q) = lost_acks_publish w c' a d in
      let (e, t, st) = place_reserved_refund w s m f c p in (e, t, st ∙ q)

  -- If the order has no reservation yet and the request that marks it is lost, the unit is not
  -- given back: whatever becomes of the compensation, the caller gets the error and the stock stays
  -- as it was after the unit was taken.
  pub place_reserved_leaks :
      (w : World R)
      → IsStocked R w.db o.sku shards
      → R.look w.db (reservation_key run.order_id) ≡ absent
      → run.mark ≡ lost
      → let r = place_reserved R cfg shards ttl run o (inventory_key o.sku i) w in
        (r.0 ≡ redis_error) × (total R r.1.db o.sku shards ≡ total R w.db o.sku shards)
  unfolding place_reserved after_mark call give_back
  place_reserved_leaks w s n m =
      rw (m, call)
        (
          refl,
          elim (compensated_cases R L cfg run.order_id o.sku i shards lt run.refund run.clear
              w.redis_cb w.db) [
                | inl same ↦ ap (λ x. total R x o.sku shards) same
                | inr k ↦
                    let (_, t) = Returns-Keeps R L cfg run.order_id o.sku i shards lt 0 w.db _ _ k (
                      released_handled R L cfg run.order_id o.sku i shards lt w.db s
                        (λ e. cc (ap text_of n))) in
                    t ∙ omega arith
              ],
        )
