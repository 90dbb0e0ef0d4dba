-- ===== src/Order/Emitted.antt =====
-- What `publish` and `Place` leave in the stream, and what `Place` returns with it.
use mathlib.Core.List.{append-nil}
use openwar.Common.{
  ℕ, ◌≤◌, ◌<◌, ◌≡◌, ◌≢◌, refl, ap, sym, ◌∙◌, ◌⊎◌, inl, inr, Bool, true, false, Bool-cases, Option,
  none, some, Option-cases, List, ◌++◌, arith, replicate,
}
use openwar.Common.Text.{Text, codes, text_eq_self}
use openwar.Breaker.{Config, Breaker, Outcome, circuit_open, failed, done, begin, execute}
use openwar.Redis.{Redis, IsLawful, Net, fine, lost, cut, call, text_of}
use openwar.Inventory.{reserve, Reserved, reserved, sold_out, breaker_open}
use openwar.Inventory.Keys.{inventory_key, reservation_key}
use openwar.Inventory.Counts.{IsStocked}
use openwar.Inventory.Reserve.{Reserves, reserve-Reserves}
use openwar.Order.{
  Order, Message, orders_created, World, Run, Placed, placed, Line, event_of, publish,
  attempt_publish, give_back, after_publish, publish_step, after_mark, place_reserved, place_after,
  place,
}
use openwar.Order.Publish.{publish_loop_lem}

-- A stream that has some copies of a message more: at most three, and one at least if `ok`.
pub Grows : Message → Type 0 → List Message → List Message → Type 0
Grows m ok stream stream' = (n : ℕ) × (stream' ≡ stream ++ replicate n m) × (n ≤ 3) × (ok → 0 < n)

execute_ends {ℓ κ} :
    {S : Type ℓ} {A : Type κ}
    → (cfg : Config) (start stop : ℕ) (fn : S → Option A × S) (b : Breaker) (s : S)
    → (((execute cfg start stop fn b s).0 ≡ circuit_open) × ((execute cfg start stop fn b s).2 ≡ s))
      ⊎ (((fn s).0 ≡ none)
          × ((execute cfg start stop fn b s).0 ≡ failed)
          × ((execute cfg start stop fn b s).2 ≡ (fn s).1))
      ⊎ ((a : A) × ((fn s).0 ≡ some a) × ((execute cfg start stop fn b s).2 ≡ (fn s).1))
unfolding execute
execute_ends cfg start stop fn b s = elim (Bool-cases (begin cfg start b).0) [
  | inr e ↦ inl (rw (e, execute) refl, rw (e, execute) refl)
  | inl e ↦ elim (Option-cases (fn s).0) [
    | inl n ↦ inr (inl (n, rw (e, n, execute) refl, rw (e, n, execute) refl))
    | inr (a, h) ↦ inr (inr (a, h, rw (e, h, execute) refl))
  ]
]

publish_ok : Outcome (Unit {0}) → Bool
publish_ok circuit_open = false
publish_ok failed = false
publish_ok (done u) = true

module _ (cfg : Config) (start stop : ℕ) (line : Line) (m : Message) (b : Breaker)
    (stream : List Message) where
  publish-is_ok :
      (publish cfg start stop line m b stream).0
      ≡ publish_ok (execute cfg start stop (attempt_publish line m) b stream).0
  unfolding publish publish_ok
  publish-is_ok = elim (execute cfg start stop (attempt_publish line m) b stream).0 [
    | circuit_open ↦ refl
    | failed ↦ refl
    | done u ↦ refl
  ]

  -- An outcome that is no success fails the publication.
  refused :
      {o : Outcome (Unit {0})}
      → (execute cfg start stop (attempt_publish line m) b stream).0 ≡ o
      → publish_ok o ≡ false
      → (publish cfg start stop line m b stream).0 ≢ true
  refused {o} r f q =
      let w : false ≡ true = sym f ∙ ap publish_ok (sym r) ∙ sym publish-is_ok ∙ q in cc

  -- However the publication goes, its copies are all that the stream has more.
  publish-Grows : let r = publish cfg start stop line m b stream in Grows m (r.0 ≡ true) stream r.2
  unfolding publish Grows attempt_publish publish_ok
  publish-Grows =
      let (n, e, le, ok, w) = publish_loop_lem line m stream in
      elim (execute_ends cfg start stop (attempt_publish line m) b stream) [
        | inl (r, d) ↦ (0, d ∙ rw append-nil, omega arith, λ q. absurd (refused r refl q))
        | inr (inl (o, r, d)) ↦ (n, d ∙ e, le, λ q. absurd (refused r refl q))
        | inr (inr (a, o, d)) ↦ (n, d ∙ e, le, λ q. ok (ground arith))
      ]

module _ (R : Redis) (L : IsLawful R) (cfg : Config) (shards ttl : ℕ) (run : Run) (o : Order) where
  IsMarked : R.Db → Type 0
  IsMarked d = text_of (R.look d (reservation_key run.order_id)) ≡ some (codes "RESERVED")

  -- What a call that took a unit of the shard of this key leaves, from a stream.
  Emits : Text → List Message → Placed × World R → Type 0
  Emits key stream r =
      Grows (orders_created (event_of run o key)) (r.0 ≡ placed run.order_id) stream r.1.stream
      × (r.0 ≡ placed run.order_id → IsMarked r.1.db)

  unsold :
      (key : Text) (stream : List Message) (r : Placed × World R)
      → r.0 ≢ placed run.order_id
      → r.1.stream ≡ stream
      → Emits key stream r
  unfolding Emits Grows
  unsold key stream r n e =
      ((0, e ∙ rw append-nil, omega arith, λ p. absurd (n p)), λ p. absurd (n p))

  after_publish-Emits :
      (key : Text) (stream : List Message) (ok : Bool) (w : World R)
      → Grows (orders_created (event_of run o key)) (ok ≡ true) stream w.stream
      → IsMarked w.db
      → Emits key stream (after_publish R cfg shards ttl run key ok w)
  unfolding Emits Grows after_publish give_back
  after_publish-Emits key stream true w (n, e, le, p) m = ((n, e, le, λ q. p refl), λ q. m)
  after_publish-Emits key stream false w (n, e, le, p) m = ((n, e, le, λ q. cc), λ q. cc)

  call-IsMarked :
      (net : Net) (d : R.Db) (u : Unit {0})
      → let r =
          call {A = Unit {0}} net
            (λ x. (tt, R.set x (reservation_key run.order_id) (codes "RESERVED") ttl))
            d in
        r.0 ≡ some u → IsMarked r.1
  unfolding call IsMarked
  call-IsMarked fine d u e = rw (L.look-set, text_eq_self) refl
  call-IsMarked lost d u e = cc
  call-IsMarked cut d u e = cc

  after_mark-Emits :
      (key : Text) (u : Option (Unit {0})) (w : World R)
      → ((v : Unit {0}) → u ≡ some v → IsMarked w.db)
      → Emits key w.stream (after_mark R cfg shards ttl run o key u w)
  unfolding after_mark publish_step give_back
  after_mark-Emits key none w m = unsold key w.stream _ (λ e. cc) refl
  after_mark-Emits key (some u) w m =
      after_publish-Emits key w.stream _ _
        (publish-Grows cfg run.nats_start run.nats_stop run.line
          (orders_created (event_of run o key)) w.nats_cb w.stream)
        (m u refl)

  place_reserved-Emits :
      (key : Text) (w : World R) → Emits key w.stream (place_reserved R cfg shards ttl run o key w)
  unfolding place_reserved
  place_reserved-Emits key w = after_mark-Emits key _ _ (call-IsMarked run.mark w.db)

  Announces : List Message → Placed × World R → Type 0
  Announces stream r = (i : ℕ) × (i < shards) × Emits (inventory_key o.sku i) stream r

  place_after-Announces :
      (w : World R) (r : Reserved) (b : Breaker) (e : R.Db)
      → 0 < shards
      → Reserves R cfg run.trips o.sku o.user_id shards w.db r e
      → Announces w.stream (place_after R cfg shards ttl run o w (r, b, e))
  unfolding place_after Announces
  place_after-Announces w (reserved key) b e pos (_, i, lt, k, _) = (
    i,
    lt,
    rw k (place_reserved-Emits (inventory_key o.sku i) (record w { redis_cb = b; db = e })),
  )
  place_after-Announces w sold_out b e pos s = (0, pos, unsold _ w.stream _ (λ e. cc) refl)
  place_after-Announces w breaker_open b e pos s = (0, pos, unsold _ w.stream _ (λ e. cc) refl)

  -- At most three copies of one event are all that a call of `Place` adds to the stream, and the
  -- event names the caller's order and the counter of one shard of its sku, however the trips, the
  -- publication and the compensation go. If the order is returned as placed, at least one copy is
  -- there, and the order's reservation reads RESERVED. There is a shard, and no counter of the sku
  -- is negative.
  pub place_announces :
      (w : World R)
      → 0 < shards
      → IsStocked R w.db o.sku shards
      → let r = place R cfg shards ttl run o w in
        (i : ℕ) × (n : ℕ) × (i < shards)
        × (r.1.stream
            ≡ w.stream ++ replicate n (orders_created (event_of run o (inventory_key o.sku i))))
        × (n ≤ 3)
        × (r.0 ≡ placed run.order_id
            → (0 < n)
              × (text_of (R.look r.1.db (reservation_key run.order_id)) ≡ some (codes "RESERVED")))
  unfolding place Announces Emits Grows IsMarked
  place_announces w pos ok =
      let x = reserve R cfg run.trips o.sku o.user_id shards w.redis_cb w.db in
      let (i, lt, em) =
        place_after-Announces w x.0 x.1 x.2 pos
          (reserve-Reserves R cfg run.trips o.sku o.user_id shards L w.redis_cb w.db pos ok) in
      let ((n, e, le, p), m) = em in (i, n, lt, e, le, λ q. (p q, m q))
