-- ===== src/Order/Timeout/Ticks.antt =====
-- The reconciler's tick cancels what it fetches.
use openwar.Common.{
  ℕ, suc, ◌/◌, ◌≡◌, subst, ◌⊎◌, inl, inr, false, Bool-cases, some, List, [], ◌∷◌, All,
}
use openwar.Common.Text.{Text, codes, text_eq, eq_of_text_eq}
use openwar.Breaker.{Config}
use openwar.Redis.{Redis, IsLawful, fine, call, exists}
use openwar.Inventory.Keys.{cancel_key}
use openwar.Store.{Row, get_order, fetch_expired_orders}
use openwar.Store.Laws.{IsKeyed}
use openwar.Store.Cancel.{IsExpired, fetch_expired_orders_lem}
use openwar.Store.Found.{keyed-found}
use openwar.Store.Rows.{fetch_expired_orders-All}
use openwar.Order.Worker.{Site}
use openwar.Order.Timeout.{TimeoutRun, reconcile, after_fetch, after_lock, tick_once, leader_key}
use openwar.Order.Timeout.Cancelled.{
  IsCancelled, IsMade, IsOpen, after, stays-IsCancelled, open-IsCancelled, stays-IsOpen,
}

module _ (R : Redis) (L : IsLawful R) (cfg : Config) (shards now : ℕ) where
  -- An order that is cancelled already, or still can be.
  IsDue : Site R → Row → Type 0
  IsDue s r = IsCancelled r.order_id s.tables.orders ⊎ IsOpen R L cfg shards now s r

  stays-IsDue :
      (run : TimeoutRun) (head : Row) (s : Site R) (r : Row)
      → IsCancelled head.order_id (after R L cfg shards now run head.order_id s).tables.orders
      → IsDue s r
      → IsDue (after R L cfg shards now run head.order_id s) r
  unfolding IsDue
  stays-IsDue run head s r c (inl d) =
      inl (stays-IsCancelled R L cfg shards now run head.order_id r.order_id s d)
  stays-IsDue run head s r c (inr o) = elim (Bool-cases (text_eq head.order_id r.order_id)) [
    | inl y ↦ inl (
        subst (λ id. IsCancelled id (after R L cfg shards now run head.order_id s).tables.orders)
          (eq_of_text_eq head.order_id r.order_id y) c)
    | inr n ↦ inr (stays-IsOpen R L cfg shards now run head.order_id s r n o)
  ]

  rest-IsDue :
      (run : TimeoutRun) (head : Row) (s : Site R) (rows : List Row)
      → IsCancelled head.order_id (after R L cfg shards now run head.order_id s).tables.orders
      → All (IsDue s) rows
      → All (IsDue (after R L cfg shards now run head.order_id s)) rows
  rest-IsDue run head s [] c h = tt
  rest-IsDue run head s (r ∷ rows) c h =
      (stays-IsDue run head s r c h.0, rest-IsDue run head s rows c h.1)

  reconcile_keeps :
      (runs : ℕ → TimeoutRun) (n : ℕ) (rows : List Row) (s : Site R) (id : Text)
      → IsCancelled id s.tables.orders
      → IsCancelled id (reconcile R cfg shards runs n rows s).1.tables.orders
  unfolding reconcile
  reconcile_keeps runs n [] s id c = c
  reconcile_keeps runs n (r ∷ rows) s id c =
      reconcile_keeps runs (suc n) rows (after R L cfg shards now (runs n) r.order_id s) id
        (stays-IsCancelled R L cfg shards now (runs n) r.order_id id s c)

  reconcile-IsCancelled :
      (runs : ℕ → TimeoutRun) (n : ℕ) (rows : List Row) (s : Site R)
      → ((i : ℕ) → IsMade R L cfg shards now (runs i))
      → All (IsDue s) rows
      → All
          (λ r. IsCancelled r.order_id (reconcile R cfg shards runs n rows s).1.tables.orders)
          rows
  unfolding reconcile IsDue
  reconcile-IsCancelled runs n [] s made h = tt
  reconcile-IsCancelled runs n (r ∷ rows) s made (due, h) =
      let s' = after R L cfg shards now (runs n) r.order_id s in
      let first : IsCancelled r.order_id s'.tables.orders = elim due [
        | inl c ↦ stays-IsCancelled R L cfg shards now (runs n) r.order_id r.order_id s c
        | inr o ↦ open-IsCancelled R L cfg shards now (runs n) s r (made n) o
      ] in
      (
        reconcile_keeps runs (suc n) rows s' r.order_id first,
        reconcile-IsCancelled runs (suc n) rows s' made (rest-IsDue (runs n) r s rows first h),
      )

  gather :
      (s : Site R) (rows : List Row)
      → All (λ r. exists (R.look s.world.db (cancel_key r.order_id)) ≡ false) rows
      → All (λ r. get_order r.order_id s.tables.orders ≡ some r) rows
      → All (IsExpired now) rows
      → All (IsDue s) rows
  unfolding IsDue IsOpen
  gather s [] e f x = tt
  gather s (r ∷ rows) (e, es) (f, fs) (x, xs) = (inr (e, f, x), gather s rows es fs xs)

  -- The leader's key is no guard.
  leads : Site R → ℕ → Site R
  leads s interval = record s {
    world = record s.world {
      db = R.set_nx s.world.db (leader_key R cfg shards) (codes "1") (interval / 2);
    };
  }

  unguarded :
      (s : Site R) (interval : ℕ) (rows : List Row)
      → All (λ r. exists (R.look s.world.db (cancel_key r.order_id)) ≡ false) rows
      → All (λ r. exists (R.look (leads s interval).world.db (cancel_key r.order_id)) ≡ false) rows
  unfolding leads cancel_key text_eq
  unguarded s interval [] h = tt
  unguarded s interval (r ∷ rows) h = (rw L.look-set_nx h.0, unguarded s interval rows h.1)

  -- A tick of the reconciler cancels every order that it fetches, the oldest hundred that are
  -- pending and have expired: afterwards the row of each says CANCELLED_TIMEOUT, however the trips
  -- of the compensations and the publications go. The tick takes the lead, and its other trips are
  -- made and answered: the one for the lock, the fetch, and for each order the SETNX of the guard,
  -- the lookup and the update. The order ids are unique, none of the orders has a guard yet, and
  -- the database's clock does not run backwards.
  pub tick_cancels :
      (interval : ℕ) (runs : ℕ → TimeoutRun) (s : Site R)
      → IsKeyed s.tables.orders
      → exists (R.look s.world.db (leader_key R cfg shards)) ≡ false
      → ((i : ℕ) → IsMade R L cfg shards now (runs i))
      → All
          (λ r. exists (R.look s.world.db (cancel_key r.order_id)) ≡ false)
          (fetch_expired_orders now 100 s.tables)
      → All
          (λ r.
            IsCancelled r.order_id
              (tick_once R cfg shards fine fine interval now runs s).1.tables.orders)
          (fetch_expired_orders now 100 s.tables)
  unfolding tick_once after_lock after_fetch call leads
  tick_cancels interval runs s k e made g =
      let rows = fetch_expired_orders now 100 s.tables in
      let found =
        fetch_expired_orders-All (λ r. get_order r.order_id s.tables.orders ≡ some r) now 100
          s.tables (keyed-found s.tables.orders k) in
      rw e (
        reconcile-IsCancelled runs 0 rows (leads s interval) made (
          gather (leads s interval) rows (unguarded s interval rows g) found
            (fetch_expired_orders_lem now 100 s.tables).0))
