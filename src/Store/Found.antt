-- ===== src/Store/Found.antt =====
-- Which row is found for an order id.
use openwar.Common.{
  ℕ, ◌≡◌, refl, sym, ap, ◌∙◌, inl, inr, false, some, List, [], ◌∷◌, All, Bool-cases, arith,
}
use openwar.Common.Text.{Text, text_eq, text_eq_iff, text_eq_self}
use openwar.Store.{Row, has_order, get_order, is_expired, cancel_row, cancel_rows}
use openwar.Store.Laws.{IsKeyed}
use openwar.Store.Cancel.{cancelled_row}

-- The row that is found of an order after its cancellation.
pub get_order-cancel_rows_self :
    (now : ℕ) (id : Text) (rs : List Row) (r : Row)
    → get_order id rs ≡ some r
    → get_order id (cancel_rows now id rs) ≡ some (cancelled_row now r)
unfolding get_order cancel_rows cancel_row
get_order-cancel_rows_self now id [] r e = cc
get_order-cancel_rows_self now id (x ∷ xs) r e = elim (Bool-cases (text_eq x.order_id id)) [
  | inl y ↦
      let first : some x ≡ some r = sym (rw (y, get_order) refl) ∙ e in
      let same : x ≡ r = cc in
      elim (Bool-cases (is_expired now x)) [
        | inl p ↦ rw (y, p, y) refl ∙ ap (λ k. some (cancelled_row now k)) same
        | inr p ↦ rw (y, p, y) refl ∙ ap (λ k. some (cancelled_row now k)) same
      ]
  | inr y ↦ rw (y, y) (get_order-cancel_rows_self now id xs r (sym (rw (y, get_order) refl) ∙ e))
]

Found : List Row → Row → Type 0
Found rs r = get_order r.order_id rs ≡ some r

behind :
    (x : Row) (ys zs : List Row)
    → has_order x.order_id zs ≡ false
    → All (Found ys) zs
    → All (Found (x ∷ ys)) zs
unfolding get_order has_order Found
behind x ys [] n h = tt
behind x ys (z ∷ zs) n h = (
  ground (arith, h.0, text_eq_iff z.order_id x.order_id, text_eq_iff x.order_id z.order_id),
  behind x ys zs (ground arith) h.1,
)

-- Where the order ids are unique, each row is the one that is found.
pub keyed-found : (rs : List Row) → IsKeyed rs → All (λ r. get_order r.order_id rs ≡ some r) rs
unfolding get_order Found
keyed-found [] k = tt
keyed-found (x ∷ xs) (u, _, k) = (rw text_eq_self refl, behind x xs xs u (keyed-found xs k))
