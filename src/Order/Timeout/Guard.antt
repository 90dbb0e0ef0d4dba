-- ===== src/Order/Timeout/Guard.antt =====
-- The payment timeout: its guard, and what is left to restore once an order was handled.
use openwar.Common.{ℕ, ◌≡◌, ◌≢◌, refl, inl, inr, ap, ◌∙◌, Bool, true, false, Option, none, some}
use openwar.Common.Text.{Text, codes, text_eq, text_eq_self}
use openwar.Breaker.{Config}
use openwar.Redis.{
  Redis, IsLawful, Net, Net-cases, fine, lost, cut, call, str, absent, text_of, exists, set_missing,
  Value, num, zset, hash,
}
use openwar.Inventory.Keys.{inventory_key, reservation_key, cancel_key, cancel_ne}
use openwar.Inventory.Counts.{units, total, sum_ext}
use openwar.Inventory.Handled.{compensate_handled}
use openwar.Lua.Stock.{count}
use openwar.Store.{Row, Tables, affects, get_order, cancel_order_timeout}
use openwar.Store.Cancel.{cancel_rows_same}
use openwar.Order.{Event}
use openwar.Order.Worker.{Site, HandleRun, handled, handle_order}
use openwar.Order.Worker.Published.{IsPublished, handle_order-IsPublished}
use openwar.Order.Timeout.{
  TimeoutRun, duplicate, process_timeout, after_guard, after_lookup, after_cas, restored, set_guard,
}

module _ (R : Redis) (L : IsLawful R) (cfg : Config) (shards : ℕ) (run : TimeoutRun)
    (order : Text) where
  restored_same :
      (row : Row) (s : Site R)
      → IsPublished R L cfg order s.world.db
      → (restored R cfg shards run order row s).1.world.db ≡ s.world.db
  unfolding restored text_eq
  restored_same row s p =
      compensate_handled R cfg (reservation_key order) _ (codes "PUBLISHED") s.world.db run.refund
        run.clear s.world.redis_cb p refl

  after_cas_same :
      (row : Row) (r : Option Bool) (s : Site R)
      → IsPublished R L cfg order s.world.db
      → (after_cas R cfg shards run order row r s).1.world.db ≡ s.world.db
  unfolding after_cas
  after_cas_same row none s p = refl
  after_cas_same row (some true) s p = restored_same row s p
  after_cas_same row (some false) s p = refl

  after_lookup_same :
      (r : Option (Option Row)) (s : Site R)
      → IsPublished R L cfg order s.world.db
      → (after_lookup R cfg shards run order r s).1.world.db ≡ s.world.db
  unfolding after_lookup
  after_lookup_same none s p = refl
  after_lookup_same (some none) s p = refl
  after_lookup_same (some (some row)) s p = after_cas_same row _ _ p

  after_guard_same :
      (r : Option Bool) (s : Site R)
      → IsPublished R L cfg order s.world.db
      → (after_guard R cfg shards run order r s).1.world.db ≡ s.world.db
  unfolding after_guard
  after_guard_same none s p = refl
  after_guard_same (some true) s p = after_lookup_same _ _ p
  after_guard_same (some false) s p = refl

  abbrev guarded_db : R.Db → R.Db
  guarded_db d = (call run.guard (set_guard R cfg shards order) d).1

  -- The guard touches its own key only.
  pub look-guarded_db :
      (net : Net) (d : R.Db) (k : Text)
      → text_eq (cancel_key order) k ≡ false
      → R.look (call net (set_guard R cfg shards order) d).1 k ≡ R.look d k
  unfolding call
  look-guarded_db fine d k n = rw (L.look-set_nx, n) refl
  look-guarded_db lost d k n = refl
  look-guarded_db cut d k n = rw (L.look-set_nx, n) refl

  process_timeout_same :
      (s : Site R)
      → IsPublished R L cfg order s.world.db
      → (process_timeout R cfg shards run order s).1.world.db ≡ guarded_db s.world.db
  unfolding process_timeout
  process_timeout_same s p = after_guard_same _ _ (
      ap text_of
        (look-guarded_db run.guard s.world.db (reservation_key order) (cancel_ne order order 0).3)
      ∙ p)

  published_keeps :
      (s : Site R) (sku : Text)
      → IsPublished R L cfg order s.world.db
      → total R (process_timeout R cfg shards run order s).1.world.db sku shards
        ≡ total R s.world.db sku shards
  published_keeps s sku p =
      ap (λ x. total R x sku shards) (process_timeout_same s p)
      ∙ sum_ext (units R (guarded_db s.world.db) sku) (units R s.world.db sku) shards (λ j jl.
        ap count
          (look-guarded_db run.guard s.world.db (inventory_key sku j) (cancel_ne order sku j).1))

  -- Where no row is changed, neither are the tables, and the server has only the guard more.
  Unchanged : Site R → Site R → Type 0
  Unchanged s s' = (s'.tables ≡ s.tables) × (s'.world.db ≡ s.world.db)

  after_lookup-Unchanged :
      (r : Option (Option Row)) (s : Site R)
      → affects run.db_now order s.tables.orders ≡ false
      → Unchanged s (after_lookup R cfg shards run order r s).1
  unfolding after_lookup after_cas Unchanged call cancel_order_timeout
  after_lookup-Unchanged none s e = (refl, refl)
  after_lookup-Unchanged (some none) s e = (refl, refl)
  after_lookup-Unchanged (some (some row)) s e =
      let k =
        ap (λ rs. record s.tables { orders = rs })
          (cancel_rows_same run.db_now order s.tables.orders e) in
      elim (Net-cases run.cas) [
        | inl f ↦ rw (f, e) (k, refl)
        | inr (inl f) ↦ rw f (refl, refl)
        | inr (inr f) ↦ rw f (k, refl)
      ]

  pub read_only {κ} :
      {A : Type κ} (net : Net) (f : Tables → A) (t : Tables) → (call net (λ x. (f x, x)) t).1 ≡ t
  unfolding call
  read_only fine f t = refl
  read_only lost f t = refl
  read_only cut f t = refl

  after_guard-Unchanged :
      (r : Option Bool) (s : Site R)
      → affects run.db_now order s.tables.orders ≡ false
      → Unchanged s (after_guard R cfg shards run order r s).1
  unfolding after_guard Unchanged
  after_guard-Unchanged none s e = (refl, refl)
  after_guard-Unchanged (some false) s e = (refl, refl)
  after_guard-Unchanged (some true) s e =
      let q = read_only run.lookup (λ (x : Tables). get_order order x.orders) s.tables in
      let (t, d) =
        after_lookup-Unchanged _ _ (ap (λ (x : Tables). affects run.db_now order x.orders) q ∙ e) in
      (t ∙ q, d)

  early :
      (s : Site R)
      → affects run.db_now order s.tables.orders ≡ false
      → ((process_timeout R cfg shards run order s).1.tables ≡ s.tables)
        × ((process_timeout R cfg shards run order s).1.world.db ≡ guarded_db s.world.db)
  unfolding process_timeout Unchanged
  early s e = after_guard-Unchanged _ _ e

  exists-set_missing : (t : Text) (v : Value) → exists (set_missing t v) ≡ true
  exists-set_missing t absent = refl
  exists-set_missing t (str x) = refl
  exists-set_missing t (num n) = refl
  exists-set_missing t (zset xs) = refl
  exists-set_missing t (hash f) = refl

  pub guard_set :
      (d : R.Db) → run.guard ≢ lost → exists (R.look (guarded_db d) (cancel_key order)) ≡ true
  unfolding call
  guard_set d n = elim (Net-cases run.guard) [
    | inl f ↦ rw (f, L.look-set_nx, text_eq_self) (exists-set_missing _ _)
    | inr (inl f) ↦ absurd (n f)
    | inr (inr f) ↦ rw (f, L.look-set_nx, text_eq_self) (exists-set_missing _ _)
  ]

  pub blocked :
      (s : Site R)
      → run.guard ≡ fine
      → exists (R.look s.world.db (cancel_key order)) ≡ true
      → ((process_timeout R cfg shards run order s).0 ≡ duplicate)
        × ((process_timeout R cfg shards run order s).1.tables ≡ s.tables)
  unfolding process_timeout after_guard call
  blocked s f e = rw (f, e) (refl, refl)

-- Once the worker has handled an order, its payment timeout restores no stock, whatever becomes of the
-- order's row and however the trips go: the reservation is then PUBLISHED, which disarms `Compensate`.
pub handled_timeout_keeps_stock :
    (R : Redis) (L : IsLawful R) (cfg : Config) (shards window : ℕ) (hrun : HandleRun) (ev : Event)
    (run : TimeoutRun) (s : Site R) (sku : Text)
    → (handle_order R cfg window hrun (some ev) s).0 ≡ handled
    → let s' = (handle_order R cfg window hrun (some ev) s).1 in
      total R (process_timeout R cfg shards run ev.order_id s').1.world.db sku shards
      ≡ total R s'.world.db sku shards
handled_timeout_keeps_stock R L cfg shards window hrun ev run s sku h =
    published_keeps R L cfg shards run ev.order_id _ sku
      (handle_order-IsPublished R L cfg window hrun ev s h)

-- A timeout that comes while the order's row is not pending and expired, and whose guard reaches
-- Redis, changes no row and leaves its guard behind; a second timeout to which Redis answers is
-- then refused as a duplicate and changes no row either, whatever the time, as long as the guard
-- has not expired.
pub early_timeout_blocks :
    (R : Redis) (L : IsLawful R) (cfg : Config) (shards : ℕ) (run later : TimeoutRun) (order : Text)
    (s : Site R)
    → run.guard ≢ lost
    → affects run.db_now order s.tables.orders ≡ false
    → later.guard ≡ fine
    → let s' = (process_timeout R cfg shards run order s).1 in
      let r = process_timeout R cfg shards later order s' in
      (s'.tables ≡ s.tables) × (r.0 ≡ duplicate) × (r.1.tables ≡ s.tables)
early_timeout_blocks R L cfg shards run later order s n e f =
    let (t, d) = early R L cfg shards run order s e in
    let (r, t') = blocked R L cfg shards later order _ f (
      ap (λ x. exists (R.look x (cancel_key order))) d
      ∙ guard_set R L cfg shards run order s.world.db n) in
    (t, r, t' ∙ t)
