-- ===== src/Order/Timeout/Cancelled.antt =====
-- What one timeout leaves of the orders that are to be cancelled.
use openwar.Common.{
  ℕ, ◌≤◌, ◌≡◌, refl, ap, sym, subst, ◌∙◌, inl, inr, true, false, Bool-cases, some, List, arith,
}
use openwar.Common.Text.{Text, text_eq, eq_of_text_eq, text_eq_self}
use openwar.Breaker.{Config}
use openwar.Redis.{Redis, IsLawful, fine, exists}
use openwar.Inventory.Keys.{cancel_key}
use openwar.Store.{Row, Tables, cancelled, get_order, is_expired, cancel_rows}
use openwar.Store.Cancel.{IsExpired, cancelled_row, get_order-cancel_rows, cancelled_ne}
use openwar.Store.Found.{get_order-cancel_rows_self}
use openwar.Order.Worker.{Site}
use openwar.Order.Timeout.{TimeoutRun, process_timeout}
use openwar.Order.Timeout.Effect.{
  process_timeout_guards, process_timeout_tables, process_timeout_cancels,
}

-- The order's row says that it was cancelled.
abbrev pub IsCancelled : Text → List Row → Type 0
IsCancelled id rs = (r : Row) × (get_order id rs ≡ some r) × (r.status ≡ cancelled)

-- A row that is cancelled is not expired.
cancelled_stays : (now : ℕ) (r : Row) → r.status ≡ cancelled → cancelled_row now r ≡ r
cancelled_stays now r e =
    let no : is_expired now r ≡ false = rw (e, cancelled_ne) refl in rw no refl

cancel_rows-IsCancelled :
    (now : ℕ) (id order : Text) (rs : List Row)
    → IsCancelled id rs
    → IsCancelled id (cancel_rows now order rs)
cancel_rows-IsCancelled now id order rs (r, f, c) = elim (Bool-cases (text_eq order id)) [
  | inl y ↦
      let found = get_order-cancel_rows_self now id rs r f ∙ ap some (cancelled_stays now r c) in
      (
        r,
        subst (λ o. get_order id (cancel_rows now o rs) ≡ some r) (sym (eq_of_text_eq order id y))
            found,
        c,
      )
  | inr n ↦ (r, get_order-cancel_rows now order id rs n ∙ f, c)
]

module _ (R : Redis) (L : IsLawful R) (cfg : Config) (shards now : ℕ) where
  -- A call that gets through, and whose statement is not before the fetch.
  abbrev pub IsMade : TimeoutRun → Type 0
  IsMade run = (run.guard ≡ fine) × (run.lookup ≡ fine) × (run.cas ≡ fine) × (now ≤ run.db_now)

  -- An order that a call can still cancel.
  unfoldable pub IsOpen : Site R → Row → Type 0
  IsOpen s r =
      (exists (R.look s.world.db (cancel_key r.order_id)) ≡ false)
      × (get_order r.order_id s.tables.orders ≡ some r)
      × IsExpired now r

  abbrev pub after : TimeoutRun → Text → Site R → Site R
  after run order s = (process_timeout R cfg shards run order s).1

  pub stays-IsCancelled :
      (run : TimeoutRun) (order id : Text) (s : Site R)
      → IsCancelled id s.tables.orders
      → IsCancelled id (after run order s).tables.orders
  stays-IsCancelled run order id s c = elim (process_timeout_tables R L cfg shards run order s) [
    | inl e ↦ subst (λ (t : Tables). IsCancelled id t.orders) (sym e) c
    | inr e ↦
        subst (λ (t : Tables). IsCancelled id t.orders) (sym e)
          (cancel_rows-IsCancelled run.db_now id order s.tables.orders c)
  ]

  pub open-IsCancelled :
      (run : TimeoutRun) (s : Site R) (r : Row)
      → IsMade run
      → IsOpen s r
      → IsCancelled r.order_id (after run r.order_id s).tables.orders
  unfolding IsOpen
  open-IsCancelled run s r (g, l, c, le) (e, f, (st, ex)) =
      let late : is_expired run.db_now r ≡ true = rw (st, text_eq_self) (ground arith) in
      subst (λ (t : Tables). IsCancelled r.order_id t.orders)
        (sym (process_timeout_cancels R L cfg shards run r.order_id s r (g, l, c) e f))
        (
          cancelled_row run.db_now r,
          get_order-cancel_rows_self run.db_now r.order_id s.tables.orders r f,
          rw late refl,
        )

  pub stays-IsOpen :
      (run : TimeoutRun) (order : Text) (s : Site R) (r : Row)
      → text_eq order r.order_id ≡ false
      → IsOpen s r
      → IsOpen (after run order s) r
  unfolding IsOpen
  stays-IsOpen run order s r n (e, f, x) = (
    ap exists (process_timeout_guards R L cfg shards run order s r.order_id n) ∙ e,
    elim (process_timeout_tables R L cfg shards run order s) [
      | inl q ↦ ap (λ (t : Tables). get_order r.order_id t.orders) q ∙ f
      | inr q ↦
          ap (λ (t : Tables). get_order r.order_id t.orders) q
          ∙ get_order-cancel_rows run.db_now order r.order_id s.tables.orders n
          ∙ f
    ],
    x,
  )
