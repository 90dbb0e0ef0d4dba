-- ===== src/Order/Deliver/Once.antt =====
-- The rows that the order worker adds for one message, however often it is delivered.
use openwar.Common.{
  ℕ, zero, suc, ◌+◌, ◌≤◌, ◌<◌, ◌≡◌, refl, ap, sym, subst, ◌∙◌, ◌⊎◌, inl, inr, ◌≢◌, Bool, true,
  false, Bool-cases, ◌&&◌, some, [], ◌∷◌, ◌++◌, arith, if◌then◌else◌,
}
use openwar.Common.Text.{text_eq_self}
use openwar.Breaker.{Config}
use openwar.Redis.{Redis, IsLawful}
use openwar.Store.{
  Row, Tables, Inserted, inserted, row_exists, insert_error, any_text, has_order, has_user_event,
  insert_order, new_row,
}
use openwar.Store.Laws.{has_order-append}
use openwar.Order.{Event}
use openwar.Order.Worker.{Site, HandleRun, new_order, handle_order}
use openwar.Order.Worker.Published.{IsPublished}
use openwar.Order.Worker.Redelivery.{call_ends, after_insert_tables, insertion, handled_insertion}
use openwar.Order.Deliver.{
  Fate, acknowledged, given_up, deliver, deliver-suc, order_round, deliver_order,
}
use openwar.Order.Deliver.Delivered.{handled_of, deliver_order-IsStored}

module _ (R : Redis) (cfg : Config) (window : ℕ) (runs : ℕ → HandleRun) (ev : Event) where
  -- The row that a delivery stores.
  abbrev pub row_of : ℕ → Row
  row_of j = new_row (new_order ((runs j).now + window) ev) (runs j).db_now

  abbrev with_row : ℕ → Tables → Tables
  with_row j t = record t { orders = t.orders ++ row_of j ∷ [] }

  abbrev insertion_of : ℕ → Tables → Inserted × Tables
  insertion_of j = insertion R cfg window (runs j) ev

  insertion_new :
      (j : ℕ) (t : Tables)
      → has_order ev.order_id t.orders ≡ false
      → (insertion_of j t ≡ (insert_error, t)) ⊎ (insertion_of j t ≡ (inserted, with_row j t))
  unfolding insert_order
  insertion_new j t e = elim (Bool-cases (has_user_event ev.user_id ev.event_id t.orders)) [
    | inl u ↦ inl (rw (e, u) refl)
    | inr u ↦ elim (Bool-cases (any_text ev.user_id t.users && any_text ev.sku t.products)) [
      | inl f ↦ inr (rw (e, u, f) refl)
      | inr f ↦ inl (rw (e, u, f) refl)
    ]
  ]

  insertion_old :
      (j : ℕ) (t : Tables)
      → has_order ev.order_id t.orders ≡ true
      → insertion_of j t ≡ (row_exists, t)
  unfolding insert_order
  insertion_old j t e = rw e refl

  handle_tables :
      (j : ℕ) (s : Site R)
      → ((handle_order R cfg window (runs j) (some ev) s).1.tables ≡ s.tables)
        ⊎ ((handle_order R cfg window (runs j) (some ev) s).1.tables ≡ (insertion_of j s.tables).1)
  unfolding handle_order
  handle_tables j s = elim (call_ends (runs j).insert (insertion_of j) s.tables) [
    | inl e ↦ inl (after_insert_tables R cfg window (runs j) ev _ _ ∙ e)
    | inr e ↦ inr (after_insert_tables R cfg window (runs j) ev _ _ ∙ e)
  ]

  abbrev round : ℕ → Site R → Bool × Site R
  round = order_round R cfg window runs (some ev)

  round_old :
      (j : ℕ) (s : Site R)
      → has_order ev.order_id s.tables.orders ≡ true
      → (round j s).1.tables ≡ s.tables
  round_old j s e = elim (handle_tables j s) [
    | inl q ↦ q
    | inr q ↦ q ∙ ap (λ (x : Inserted × Tables). x.1) (insertion_old j s.tables e)
  ]

  -- A round that stored the order did all that its statement does.
  round_stored :
      (j : ℕ) (s : Site R)
      → (round j s).0 ≡ true
      → ((insertion_of j s.tables).0 ≢ insert_error)
        × ((round j s).1.tables ≡ (insertion_of j s.tables).1)
  round_stored j s y = handled_insertion R cfg window (runs j) ev s (handled_of _ y)

  round_new :
      (j : ℕ) (s : Site R)
      → has_order ev.order_id s.tables.orders ≡ false
      → (((round j s).0 ≡ false) × ((round j s).1.tables ≡ s.tables))
        ⊎ ((round j s).1.tables ≡ with_row j s.tables)
  round_new j s e = elim (insertion_new j s.tables e) [
    | inr i ↦ elim (Bool-cases (round j s).0) [
      | inl y ↦ inr ((round_stored j s y).1 ∙ ap (λ (x : Inserted × Tables). x.1) i)
      | inr n ↦ elim (handle_tables j s) [
        | inl q ↦ inl (n, q)
        | inr q ↦ inr (q ∙ ap (λ (x : Inserted × Tables). x.1) i)
      ]
    ]
    | inl i ↦ elim (Bool-cases (round j s).0) [
      | inl y ↦ absurd ((round_stored j s y).0 (ap (λ (x : Inserted × Tables). x.0) i))
      | inr n ↦ elim (handle_tables j s) [
        | inl q ↦ inl (n, q)
        | inr q ↦ inl (n, q ∙ ap (λ (x : Inserted × Tables). x.1) i)
      ]
    ]
  ]

  -- What holds of a loop by what its first round said.
  by_round :
      (P : Fate × Site R → Type 0) (left n : ℕ) (s : Site R) (ok : Bool)
      → (round n s).0 ≡ ok
      → P (if ok then (acknowledged n, (round n s).1) else deliver round left (suc n) (round n s).1)
      → P (deliver round (suc left) n s)
  by_round P left n s ok y p =
      subst P
        (sym
          (deliver-suc round left n s (round n s).1 ok (ap (λ (b : Bool). (b, (round n s).1)) y)))
        p

  -- An order that is there stays the only one.
  rounds_old :
      (left n : ℕ) (s : Site R)
      → has_order ev.order_id s.tables.orders ≡ true
      → (deliver round left n s).1.tables ≡ s.tables
  unfolding deliver
  rounds_old zero n s e = refl
  rounds_old (suc left) n s e =
      let same = round_old n s e in
      elim (Bool-cases (round n s).0) [
        | inl y ↦ by_round (λ r. r.1.tables ≡ s.tables) left n s true y same
        | inr y ↦
            by_round (λ r. r.1.tables ≡ s.tables) left n s false y
              (rounds_old left (suc n) (round n s).1
                  (ap (λ (t : Tables). has_order ev.order_id t.orders) same ∙ e)
                ∙ same)
      ]

  -- Nothing was stored and the message is given up, or one row of the event was stored.
  Once : Tables → ℕ → ℕ → Fate × Site R → Type 0
  Once t n left r =
      ((r.0 ≡ given_up) × (r.1.tables ≡ t))
      ⊎ ((j : ℕ) × (n ≤ j) × (j < n + left) × (r.1.tables ≡ with_row j t))

  with_row-has_order : (j : ℕ) (t : Tables) → has_order ev.order_id (with_row j t).orders ≡ true
  unfolding new_row
  with_row-has_order j t =
      has_order-append ev.order_id t.orders (row_of j) ∙ ground (arith, text_eq_self ev.order_id)

  -- A round that stores the row is the last one that changes the tables.
  rounds_stored :
      (left n : ℕ) (s : Site R) (t : Tables)
      → (round n s).1.tables ≡ with_row n t
      → (deliver round (suc left) n s).1.tables ≡ with_row n t
  rounds_stored left n s t q = elim (Bool-cases (round n s).0) [
    | inl y ↦ by_round (λ r. r.1.tables ≡ with_row n t) left n s true y q
    | inr y ↦
        by_round (λ r. r.1.tables ≡ with_row n t) left n s false y
          (rounds_old left (suc n) (round n s).1
              (ap (λ (x : Tables). has_order ev.order_id x.orders) q ∙ with_row-has_order n t)
            ∙ q)
  ]

  later :
      (t t' : Tables) (n left : ℕ) (r : Fate × Site R)
      → t' ≡ t
      → Once t' (suc n) left r
      → Once t n (suc left) r
  unfolding Once
  later t t' n left r e (inl (g, q)) = inl (g, q ∙ e)
  later t t' n left r e (inr (j, le, lt, q)) =
      inr (j, omega arith, omega arith, q ∙ ap (with_row j) e)

  rounds-Once :
      (left n : ℕ) (s : Site R)
      → has_order ev.order_id s.tables.orders ≡ false
      → Once s.tables n left (deliver round left n s)
  unfolding deliver Once
  rounds-Once zero n s e = inl (refl, refl)
  rounds-Once (suc left) n s e = elim (round_new n s e) [
    | inl (y, same) ↦ by_round (Once s.tables n (suc left)) left n s false y (
        later s.tables (round n s).1.tables n left (deliver round left (suc n) (round n s).1) same (
          rounds-Once left (suc n) (round n s).1
            (ap (λ (t : Tables). has_order ev.order_id t.orders) same ∙ e)))
    | inr q ↦ inr (n, omega arith, omega arith, rounds_stored left n s s.tables q)
  ]

  rows_once :
      (s : Site R)
      → has_order ev.order_id s.tables.orders ≡ false
      → let r = deliver_order R cfg window runs (some ev) s in
        ((r.0 ≡ given_up) × (r.1.tables ≡ s.tables))
        ⊎ ((j : ℕ) × (j < 5)
            × (r.1.tables ≡ record s.tables { orders = s.tables.orders ++ row_of j ∷ [] }))
  unfolding deliver_order Once
  rows_once s e = elim (rounds-Once 5 0 s e) [
    | inl g ↦ inl g
    | inr (j, le, lt, q) ↦ inr (j, omega arith, q)
  ]

  -- However an order's event is delivered to the order worker, the order not being stored before:
  -- either the message is given up and the tables are as they were, or exactly one row was added,
  -- with the event's content, pending, and with the times of one of its five deliveries. If a
  -- delivery is acknowledged, it is one of the five, and the reservation is then PUBLISHED.
  pub deliver_order_once :
      (L : IsLawful R) (s : Site R)
      → has_order ev.order_id s.tables.orders ≡ false
      → let r = deliver_order R cfg window runs (some ev) s in
        (((r.0 ≡ given_up) × (r.1.tables ≡ s.tables))
          ⊎ ((j : ℕ) × (j < 5)
              × (r.1.tables ≡ record s.tables { orders = s.tables.orders ++ row_of j ∷ [] })))
        × ((k : ℕ) → r.0 ≡ acknowledged k → (k < 5) × IsPublished R L cfg ev.order_id r.1.world.db)
  deliver_order_once L s e = (
    rows_once s e,
    λ k a. let (lt, st) = deliver_order-IsStored R L cfg window runs ev s k a in (lt, st.1),
  )
