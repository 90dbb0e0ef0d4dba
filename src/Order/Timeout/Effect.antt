-- ===== src/Order/Timeout/Effect.antt =====
-- What a call of `ProcessTimeout` leaves of the orders and the guards.
use openwar.Common.{
  ℕ, ◌≡◌, refl, ap, sym, subst, ◌∙◌, ◌⊎◌, inl, inr, Bool, true, false, not, Bool-cases, Option,
  none, some, Option-cases,
}
use openwar.Common.Text.{Text, codes, text_eq}
use openwar.Breaker.{Config, Breaker}
use openwar.Redis.{Redis, IsLawful, Net, fine, call, text_of, exists}
use openwar.Lua.{release_stock}
use openwar.Inventory.{Trip, compensate}
use openwar.Inventory.Ends.{compensate-Ends}
use openwar.Inventory.Keys.{inventory_key, reservation_key, cancel_key, cancel_ne}
use openwar.Store.{Row, Tables, get_order, cancel_rows, cancel_order_timeout}
use openwar.Order.Worker.{Site}
use openwar.Order.Worker.Redelivery.{call_ends}
use openwar.Order.Timeout.{
  TimeoutRun, process_timeout, after_guard, after_lookup, after_cas, restored, set_guard,
}
use openwar.Order.Timeout.Guard.{look-guarded_db, read_only}

call_fine {ℓ κ} :
    {S : Type ℓ} {A : Type κ}
    → (net : Net) (f : S → A × S) (s : S) → net ≡ fine
    → call net f s ≡ (some (f s).0, (f s).1)
unfolding call
call_fine net f s e = rw e refl

module _ (R : Redis) (L : IsLawful R) (cfg : Config) where
  -- The script of a compensation changes its two keys only.
  look-release_stock :
      (res inv k : Text) (d : R.Db)
      → text_eq res k ≡ false
      → text_eq inv k ≡ false
      → R.look (release_stock R res inv d).1 k ≡ R.look d k
  unfolding release_stock
  look-release_stock res inv k d r i = elim (Option-cases (text_of (R.look d res))) [
    | inl e ↦ rw (e, release_stock)
    | inr (st, e) ↦ elim (Bool-cases (text_eq st (codes "RESERVED"))) [
      | inl y ↦ rw (e, y, release_stock) (rw (L.look-set, r, L.look-incr, i, L.look-set, r) refl)
      | inr y ↦ rw (e, y, release_stock)
    ]
  ]

  look-compensate :
      (t : Trip) (net : Net) (order sku other : Text) (i : ℕ) (b : Breaker) (d : R.Db)
      → R.look
          (compensate R cfg t net (reservation_key order) (inventory_key sku i) b d).2
          (cancel_key other)
        ≡ R.look d (cancel_key other)
  look-compensate t net order sku other i b d =
      let res = reservation_key order in
      let inv = inventory_key sku i in
      let script =
        look-release_stock res inv (cancel_key other) d (cancel_ne other order 0).2
          (cancel_ne other sku i).0 in
      elim (compensate-Ends R cfg res inv d t net b) [
        | inl e ↦ ap (λ x. R.look x (cancel_key other)) e
        | inr (inl e) ↦ ap (λ x. R.look x (cancel_key other)) e ∙ script
        | inr (inr (s, e)) ↦
            ap (λ x. R.look x (cancel_key other)) e
            ∙ rw (L.look-del, (cancel_ne other s 0).4) script
      ]

  module _ (shards : ℕ) (run : TimeoutRun) (order : Text) where
    after_cas_tables :
        (row : Row) (r : Option Bool) (s : Site R)
        → (after_cas R cfg shards run order row r s).1.tables ≡ s.tables
    unfolding after_cas restored
    after_cas_tables row none s = refl
    after_cas_tables row (some true) s = refl
    after_cas_tables row (some false) s = refl

    after_cas_guards :
        (row : Row) (r : Option Bool) (s : Site R) (other : Text)
        → R.look (after_cas R cfg shards run order row r s).1.world.db (cancel_key other)
          ≡ R.look s.world.db (cancel_key other)
    unfolding after_cas restored
    after_cas_guards row none s other = refl
    after_cas_guards row (some true) s other =
        look-compensate run.refund run.clear order row.sku other _ s.world.redis_cb s.world.db
    after_cas_guards row (some false) s other = refl

    after_lookup_guards :
        (r : Option (Option Row)) (s : Site R) (other : Text)
        → R.look (after_lookup R cfg shards run order r s).1.world.db (cancel_key other)
          ≡ R.look s.world.db (cancel_key other)
    unfolding after_lookup
    after_lookup_guards none s other = refl
    after_lookup_guards (some none) s other = refl
    after_lookup_guards (some (some row)) s other = after_cas_guards row _ _ other

    after_guard_guards :
        (r : Option Bool) (s : Site R) (other : Text)
        → R.look (after_guard R cfg shards run order r s).1.world.db (cancel_key other)
          ≡ R.look s.world.db (cancel_key other)
    unfolding after_guard
    after_guard_guards none s other = refl
    after_guard_guards (some false) s other = refl
    after_guard_guards (some true) s other = after_lookup_guards _ _ other

    -- The guard of another order stays as it was.
    pub process_timeout_guards :
        (s : Site R) (other : Text)
        → text_eq order other ≡ false
        → R.look (process_timeout R cfg shards run order s).1.world.db (cancel_key other)
          ≡ R.look s.world.db (cancel_key other)
    unfolding process_timeout cancel_key text_eq
    process_timeout_guards s other n =
        after_guard_guards _ _ other
        ∙ look-guarded_db R L cfg shards run order run.guard s.world.db (cancel_key other) n

    abbrev pub cancel_tables : Tables → Tables
    cancel_tables t = record t { orders = cancel_rows run.db_now order t.orders }

    after_lookup_tables :
        (r : Option (Option Row)) (s : Site R)
        → ((after_lookup R cfg shards run order r s).1.tables ≡ s.tables)
          ⊎ ((after_lookup R cfg shards run order r s).1.tables ≡ cancel_tables s.tables)
    unfolding after_lookup cancel_order_timeout
    after_lookup_tables none s = inl refl
    after_lookup_tables (some none) s = inl refl
    after_lookup_tables (some (some row)) s =
        elim (call_ends run.cas (cancel_order_timeout run.db_now order) s.tables) [
          | inl e ↦ inl (after_cas_tables row _ _ ∙ e)
          | inr e ↦ inr (after_cas_tables row _ _ ∙ e)
        ]

    after_guard_tables :
        (r : Option Bool) (s : Site R)
        → ((after_guard R cfg shards run order r s).1.tables ≡ s.tables)
          ⊎ ((after_guard R cfg shards run order r s).1.tables ≡ cancel_tables s.tables)
    unfolding after_guard
    after_guard_tables none s = inl refl
    after_guard_tables (some false) s = inl refl
    after_guard_tables (some true) s =
        let q =
          read_only R L cfg shards run order run.lookup (λ (t : Tables). get_order order t.orders)
            s.tables in
        elim (after_lookup_tables _ _) [
          | inl e ↦ inl (e ∙ q)
          | inr e ↦ inr (e ∙ ap cancel_tables q)
        ]

    -- A call leaves the tables, or cancels the order in them.
    pub process_timeout_tables :
        (s : Site R)
        → ((process_timeout R cfg shards run order s).1.tables ≡ s.tables)
          ⊎ ((process_timeout R cfg shards run order s).1.tables ≡ cancel_tables s.tables)
    unfolding process_timeout
    process_timeout_tables s = after_guard_tables _ _

    after_lookup_cancels :
        (row : Row) (s : Site R)
        → run.cas ≡ fine
        → (after_lookup R cfg shards run order (some (some row)) s).1.tables
          ≡ cancel_tables s.tables
    unfolding after_lookup cancel_order_timeout
    after_lookup_cancels row s c =
        after_cas_tables row _ _
        ∙ ap (λ x. x.1) (call_fine run.cas (cancel_order_timeout run.db_now order) s.tables c)

    after_guard_cancels :
        (row : Row) (s : Site R)
        → run.lookup ≡ fine
        → run.cas ≡ fine
        → get_order order s.tables.orders ≡ some row
        → (after_guard R cfg shards run order (some true) s).1.tables ≡ cancel_tables s.tables
    unfolding after_guard
    after_guard_cancels row s l c e =
        subst
          (λ x.
            (after_lookup R cfg shards run order x.0 (record s { tables = x.1 })).1.tables
            ≡ cancel_tables s.tables)
          (sym (
            call_fine run.lookup (λ (t : Tables). (get_order order t.orders, t)) s.tables l
            ∙ ap (λ (r : Option Row). (some r, s.tables)) e))
          (after_lookup_cancels row s c)

    -- It cancels the order if no guard was set, its statements are made, and the order is found.
    pub process_timeout_cancels :
        (s : Site R) (row : Row)
        → (run.guard ≡ fine) × (run.lookup ≡ fine) × (run.cas ≡ fine)
        → exists (R.look s.world.db (cancel_key order)) ≡ false
        → get_order order s.tables.orders ≡ some row
        → (process_timeout R cfg shards run order s).1.tables ≡ cancel_tables s.tables
    unfolding process_timeout
    process_timeout_cancels s row (g, l, c) e f =
        subst
          (λ x.
            (after_guard R cfg shards run order x.0
              (record s { world = record s.world { db = x.1 } })).1.tables
            ≡ cancel_tables s.tables)
          (sym (
            call_fine run.guard (set_guard R cfg shards order) s.world.db g
            ∙ ap (λ (b : Bool). (some (not b), (set_guard R cfg shards order s.world.db).1)) e))
          (after_guard_cancels row _ l c f)
