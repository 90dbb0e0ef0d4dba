-- ===== src/Sale/Timeouts.antt =====
-- `ProcessTimeout` and the reconciler's tick are runs of the steps of a sale.
use openwar.Common.{
  ℕ, suc, ◌/◌, ◌^◌, ◌<◌, ◌≡◌, refl, sym, subst, ◌⊎◌, inl, inr, Bool, true, false, not, Option, none,
  some, List, [], ◌∷◌, All, arith,
}
use openwar.Common.Text.{Text, codes, text_eq}
use openwar.Breaker.{Config}
use openwar.Redis.{Redis, IsLawful, Net, fine, lost, cut, call, exists}
use openwar.Inventory.Hash.{shard_for-lt}
use openwar.Inventory.Keys.{inventory_key, reservation_key, cancel_key, cancel_ne}
use openwar.Store.{Row, Tables, any_text, get_order, cancel_order_timeout, fetch_expired_orders}
use openwar.Store.Rows.{get_order-All, cancel_rows-All, fetch_expired_orders-All}
use openwar.Order.Worker.{Site}
use openwar.Order.Timeout.{
  TimeoutRun, process_timeout, after_guard, after_lookup, after_cas, restored, shard_for_user,
  set_guard, reconcile, tick_once, after_lock, after_fetch, leader_key,
}
use openwar.Sale.{sys, other, Reach, here}
use openwar.Sale.Runs.{Reach-trans, one}
use openwar.Sale.Places.{compensate-Reach}

module _ (R : Redis) (L : IsLawful R) (cfg : Config) (sku : Text) (shards : ℕ) (m : List Text)
    (h : ℕ) where
  abbrev Runs : R.Db → R.Db → Type 0
  Runs d d' = Reach R sku shards (sys R d h m) (sys R d' h m)

  -- A row of an order of this sku whose reservation was written.
  abbrev pub IsOwn : Row → Type 0
  IsOwn r = (r.sku ≡ sku) × (any_text r.order_id m ≡ true)

  -- What a call needs of the tables and leaves.
  abbrev Goes : Site R → Site R → Type 0
  Goes s s' = Runs s.world.db s'.world.db × All IsOwn s'.tables.orders

  cancelled-IsOwn :
      (net : Net) (now : ℕ) (id : Text) (t : Tables)
      → All IsOwn t.orders
      → All IsOwn (call net (cancel_order_timeout now id) t).1.orders
  unfolding call cancel_order_timeout
  cancelled-IsOwn fine now id t a = cancel_rows-All IsOwn now id t.orders (λ r p. p) a
  cancelled-IsOwn lost now id t a = a
  cancelled-IsOwn cut now id t a = cancel_rows-All IsOwn now id t.orders (λ r p. p) a

  -- A trip that only reads.
  read_cases {κ} :
      {A : Type κ} (net : Net) (f : Tables → A) (t : Tables)
      → let r = call net (λ x. (f x, x)) t in (r.1 ≡ t) × ((r.0 ≡ none) ⊎ (r.0 ≡ some (f t)))
  unfolding call
  read_cases fine f t = (refl, inr refl)
  read_cases lost f t = (refl, inl refl)
  read_cases cut f t = (refl, inl refl)

  -- SETNX of a key that belongs neither to the stock nor to a reservation.
  set_nx-Runs :
      (net : Net) (k v : Text) (ttl : ℕ) (f : R.Db → Bool) (d : R.Db)
      → ((i : ℕ) → text_eq k (inventory_key sku i) ≡ false)
      → ((id : Text) → text_eq k (reservation_key id) ≡ false)
      → Runs d (call net (λ x. (f x, R.set_nx x k v ttl)) d).1
  unfolding call
  set_nx-Runs lost k v ttl f d a b = here
  set_nx-Runs fine k v ttl f d a b =
      one R sku shards (
        other _ (λ i lt. rw (L.look-set_nx, a i) refl) (λ id x. rw (L.look-set_nx, b id) refl) refl)
  set_nx-Runs cut k v ttl f d a b =
      one R sku shards (
        other _ (λ i lt. rw (L.look-set_nx, a i) refl) (λ id x. rw (L.look-set_nx, b id) refl) refl)

  module _ (pos_shards : 0 < shards) (few : shards < 2 ^ 32) where
    home_lt : (user : Text) → shard_for_user user shards < shards
    unfolding shard_for_user
    home_lt user = ground (arith, shard_for-lt user shards pos_shards few)

    module _ (run : TimeoutRun) (order : Text) (mine : any_text order m ≡ true) where
      restored-Goes :
          (row : Row) (s : Site R)
          → row.sku ≡ sku
          → All IsOwn s.tables.orders
          → Goes s (restored R cfg shards run order row s).1
      unfolding restored
      restored-Goes row s e a = (
        rw e (
            compensate-Reach R L cfg sku shards m order (shard_for_user row.user_id shards)
              (home_lt row.user_id) run.refund run.clear s.world.redis_cb s.world.db h mine),
        a,
      )

      after_cas-Goes :
          (row : Row) (r : Option Bool) (s : Site R)
          → row.sku ≡ sku
          → All IsOwn s.tables.orders
          → Goes s (after_cas R cfg shards run order row r s).1
      unfolding after_cas
      after_cas-Goes row none s e a = (here, a)
      after_cas-Goes row (some true) s e a = restored-Goes row s e a
      after_cas-Goes row (some false) s e a = (here, a)

      after_lookup-Goes :
          (r : Option (Option Row)) (s : Site R)
          → (r ≡ none) ⊎ (r ≡ some (get_order order s.tables.orders))
          → All IsOwn s.tables.orders
          → Goes s (after_lookup R cfg shards run order r s).1
      unfolding after_lookup
      after_lookup-Goes none s e a = (here, a)
      after_lookup-Goes (some none) s e a = (here, a)
      after_lookup-Goes (some (some row)) s e a =
          let q : get_order order s.tables.orders ≡ some row = elim e [ inl x ↦ cc | inr x ↦ cc ] in
          after_cas-Goes row _ _ (get_order-All IsOwn order s.tables.orders row q a).0
            (cancelled-IsOwn run.cas run.db_now order s.tables a)

      after_guard-Goes :
          (r : Option Bool) (s : Site R)
          → All IsOwn s.tables.orders
          → Goes s (after_guard R cfg shards run order r s).1
      unfolding after_guard
      after_guard-Goes none s a = (here, a)
      after_guard-Goes (some false) s a = (here, a)
      after_guard-Goes (some true) s a =
          let (t, e) = read_cases run.lookup (λ (t : Tables). get_order order t.orders) s.tables in
          let r = call run.lookup (λ (t : Tables). (get_order order t.orders, t)) s.tables in
          after_lookup-Goes r.0 (record s { tables = r.1 })
            (subst (λ (x : Tables). (r.0 ≡ none) ⊎ (r.0 ≡ some (get_order order x.orders))) (sym t)
              e)
            (subst (λ (x : Tables). All IsOwn x.orders) (sym t) a)

      -- Where every order in the tables is of the sku and had its reservation written, the payment
      -- timeout of such an order is a run of the steps of the sale, however its trips and statements go.
      pub process_timeout-Reach :
          (s : Site R)
          → All IsOwn s.tables.orders
          → Reach R sku shards
              (sys R s.world.db h m)
              (sys R (process_timeout R cfg shards run order s).1.world.db h m)
            × All IsOwn (process_timeout R cfg shards run order s).1.tables.orders
      unfolding process_timeout
      process_timeout-Reach s a =
          let g = call run.guard (set_guard R cfg shards order) s.world.db in
          let (r, a') = after_guard-Goes g.0 (record s { world = record s.world { db = g.1 } }) a in
          (
            Reach-trans R sku shards
                (set_nx-Runs run.guard (cancel_key order) _ _ _ s.world.db
                  (λ i. (cancel_ne order sku i).1) (λ id. (cancel_ne order id 0).3))
                r,
            a',
          )

    reconcile-Goes :
        (runs : ℕ → TimeoutRun) (n : ℕ) (rows : List Row) (s : Site R)
        → All IsOwn rows
        → All IsOwn s.tables.orders
        → Goes s (reconcile R cfg shards runs n rows s).1
    unfolding reconcile
    reconcile-Goes runs n [] s o a = (here, a)
    reconcile-Goes runs n (row ∷ rows) s o a =
        let (r, a') = process_timeout-Reach (runs n) row.order_id o.0.1 s a in
        let (r', a'') = reconcile-Goes runs (suc n) rows _ o.1 a' in
        (Reach-trans R sku shards r r', a'')

    after_fetch-Goes :
        (runs : ℕ → TimeoutRun) (db_now : ℕ) (r : Option (List Row)) (s : Site R)
        → (r ≡ none) ⊎ (r ≡ some (fetch_expired_orders db_now 100 s.tables))
        → All IsOwn s.tables.orders
        → Goes s (after_fetch R cfg shards runs r s).1
    unfolding after_fetch
    after_fetch-Goes runs db_now none s e a = (here, a)
    after_fetch-Goes runs db_now (some rows) s e a =
        let q : fetch_expired_orders db_now 100 s.tables ≡ rows = elim e [
          | inl x ↦ cc
          | inr x ↦ cc
        ] in
        reconcile-Goes runs 0 rows s
          (subst (All IsOwn) q (fetch_expired_orders-All IsOwn db_now 100 s.tables a)) a

    after_lock-Goes :
        (fetch : Net) (db_now : ℕ) (runs : ℕ → TimeoutRun) (r : Option Bool) (s : Site R)
        → All IsOwn s.tables.orders
        → Goes s (after_lock R cfg shards fetch db_now runs r s).1
    unfolding after_lock
    after_lock-Goes fetch db_now runs none s a = (here, a)
    after_lock-Goes fetch db_now runs (some false) s a = (here, a)
    after_lock-Goes fetch db_now runs (some true) s a =
        let (t, e) =
          read_cases fetch (λ (t : Tables). fetch_expired_orders db_now 100 t) s.tables in
        let r = call fetch (λ (t : Tables). (fetch_expired_orders db_now 100 t, t)) s.tables in
        after_fetch-Goes runs db_now r.0 (record s { tables = r.1 })
          (subst (λ (x : Tables). (r.0 ≡ none) ⊎ (r.0 ≡ some (fetch_expired_orders db_now 100 x)))
            (sym t) e)
          (subst (λ (x : Tables). All IsOwn x.orders) (sym t) a)

    -- A tick of the reconciler refines the steps of a sale: with at least one and fewer than 2^32
    -- shards, and where every order in the tables is of the sku and had its reservation written, it
    -- is a run of those steps that takes nothing in hand, and leaves the tables so, however its
    -- trips, its statements and the timeouts that it processes go.
    pub tick_once-Reach :
        (lock fetch : Net) (interval db_now : ℕ) (runs : ℕ → TimeoutRun) (s : Site R)
        → All IsOwn s.tables.orders
        → let s' = (tick_once R cfg shards lock fetch interval db_now runs s).1 in
          Reach R sku shards (sys R s.world.db h m) (sys R s'.world.db h m)
          × All IsOwn s'.tables.orders
    unfolding tick_once text_eq inventory_key reservation_key
    tick_once-Reach lock fetch interval db_now runs s a =
        let g =
          call lock
            (λ x. (
              not (exists (R.look x (leader_key R cfg shards))),
              R.set_nx x (leader_key R cfg shards) (codes "1") (interval / 2),
            ))
            s.world.db in
        let (r, a') =
          after_lock-Goes fetch db_now runs g.0 (record s { world = record s.world { db = g.1 } })
            a in
        (
          Reach-trans R sku shards
              (set_nx-Runs lock (leader_key R cfg shards) _ _ _ s.world.db (λ i. refl) (λ id. refl))
              r,
          a',
        )
