-- ===== src/Store/Rows.antt =====
-- What holds of every row stays so through the statements that change or fetch rows.
use openwar.Common.{
  ℕ, ◌+◌, ◌≡◌, subst, inl, inr, ◌&&◌, some, List, [], ◌∷◌, All, keep, Bool-cases, arith,
}
use openwar.Common.Text.{Text, text_eq}
use openwar.Store.{Row, Tables, cancelled, get_order, is_expired, cancel_rows, fetch_expired_orders}
use openwar.Store.Cancel.{sort-All, take-All}

module _ (P : Row → Type 0) where
  pub get_order-All :
      (id : Text) (rs : List Row) (r : Row) → get_order id rs ≡ some r → All P rs → P r
  unfolding get_order
  get_order-All id [] r e h = cc
  get_order-All id (x ∷ rs) r e h = elim (Bool-cases (text_eq x.order_id id)) [
    | inl y ↦ subst P (ground (arith, e, y)) h.0
    | inr n ↦ get_order-All id rs r (ground (arith, e, n)) h.1
  ]

  pub cancel_rows-All :
      (now : ℕ) (id : Text) (rs : List Row)
      → ((r : Row) → P r → P (record r { status = cancelled; version = r.version + 1 }))
      → All P rs
      → All P (cancel_rows now id rs)
  unfolding cancel_rows
  cancel_rows-All now id [] keeps h = tt
  cancel_rows-All now id (x ∷ rs) keeps h =
      elim (Bool-cases (text_eq x.order_id id && is_expired now x)) [
        | inl y ↦ rw (y, cancel_rows) (keeps x h.0, cancel_rows-All now id rs keeps h.1)
        | inr n ↦ rw (n, cancel_rows) (h.0, cancel_rows-All now id rs keeps h.1)
      ]

  keep-All : (now : ℕ) (xs : List Row) → All P xs → All P (keep (is_expired now) xs)
  keep-All now [] h = tt
  keep-All now (x ∷ xs) h = elim (Bool-cases (is_expired now x)) [
    | inl e ↦ rw e (h.0, keep-All now xs h.1)
    | inr e ↦ rw e (keep-All now xs h.1)
  ]

  pub fetch_expired_orders-All :
      (now limit : ℕ) (t : Tables) → All P t.orders → All P (fetch_expired_orders now limit t)
  unfolding fetch_expired_orders
  fetch_expired_orders-All now limit t h =
      take-All P limit _ (sort-All P _ (keep-All now t.orders h))
