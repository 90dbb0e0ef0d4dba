-- ===== src/Store/Laws.antt =====
-- What the statements keep of the tables, and when each changes them.
use openwar.Common.{
  ℕ, ◌≡◌, refl, ◌≢◌, ◌∙◌, true, false, ◌&&◌, ◌||◌, List, [], ◌∷◌, ◌++◌, arith, Bool-cases, inl, inr,
}
use openwar.Common.Text.{Text, text_eq, text_eq_iff, text_eq_self}
use openwar.Store.{
  Row, Tables, NewOrder, any_text, has_order, has_user_event, row_exists, insert_error,
  insert_order, new_row,
}

-- No order id stands in two rows, and no user has two orders of one event.
abbrev pub IsKeyed : List Row → Type 0
IsKeyed [] = Unit
IsKeyed (r ∷ rs) =
    (has_order r.order_id rs ≡ false)
    × (has_user_event r.user_id r.event_id rs ≡ false)
    × IsKeyed rs

pub has_order-append :
    (id : Text) (rs : List Row) (r : Row)
    → has_order id (rs ++ r ∷ []) ≡ (has_order id rs || text_eq r.order_id id)
unfolding has_order
has_order-append id [] r = ground arith
has_order-append id (x ∷ rs) r = ground (arith, has_order-append id rs r)

-- An insert that is no error leaves the order in the table.
pub insert_order-has_order :
    (now : ℕ) (o : NewOrder) (t : Tables)
    → (insert_order now o t).0 ≢ insert_error
    → has_order o.order_id (insert_order now o t).1.orders ≡ true
unfolding insert_order new_row
insert_order-has_order now o t n =
    ground (arith, n, has_order-append o.order_id t.orders (new_row o now), text_eq_self o.order_id)

has_user_event-append :
    (u e : Text) (rs : List Row) (r : Row)
    → has_user_event u e (rs ++ r ∷ [])
      ≡ (has_user_event u e rs || text_eq r.user_id u && text_eq r.event_id e)
unfolding has_user_event
has_user_event-append u e [] r = ground arith
has_user_event-append u e (x ∷ rs) r = ground (arith, has_user_event-append u e rs r)

has_order-other :
    (rs : List Row) (id id' : Text)
    → has_order id rs ≡ false
    → has_order id' rs ≡ true
    → text_eq id id' ≡ false
unfolding has_order
has_order-other [] id id' h h' = cc
has_order-other (r ∷ rs) id id' h h' = ground (
  arith,
  has_order-other rs id id',
  text_eq_iff id id',
  text_eq_iff r.order_id id,
  text_eq_iff r.order_id id',
)

append-IsKeyed :
    (rs : List Row) (r : Row)
    → IsKeyed rs
    → has_order r.order_id rs ≡ false
    → has_user_event r.user_id r.event_id rs ≡ false
    → IsKeyed (rs ++ r ∷ [])
unfolding has_order has_user_event
append-IsKeyed [] r k h u = (refl, refl, tt)
append-IsKeyed (x ∷ rs) r (a, b, k) h u = (
  has_order-append x.order_id rs r
      ∙ ground (arith, text_eq_iff r.order_id x.order_id, text_eq_iff x.order_id r.order_id),
  has_user_event-append x.user_id x.event_id rs r
      ∙ ground (
        arith,
        text_eq_iff r.user_id x.user_id,
        text_eq_iff x.user_id r.user_id,
        text_eq_iff r.event_id x.event_id,
        text_eq_iff x.event_id r.event_id,
      ),
  append-IsKeyed rs r k (ground arith) (ground arith),
)

-- `InsertOrder` keeps the order ids unique and at most one order of a user and event.
insert_order-IsKeyed :
    (now : ℕ) (o : NewOrder) (t : Tables)
    → IsKeyed t.orders
    → IsKeyed (insert_order now o t).1.orders
unfolding insert_order new_row
insert_order-IsKeyed now o t k = elim (Bool-cases (has_order o.order_id t.orders)) [
  | inl e ↦ rw (e, insert_order) k
  | inr e ↦ elim (Bool-cases (has_user_event o.user_id o.event_id t.orders)) [
    | inl u ↦ rw (e, u, insert_order) k
    | inr u ↦ elim (Bool-cases (any_text o.user_id t.users && any_text o.sku t.products)) [
      | inl f ↦ rw (e, u, f, insert_order) (append-IsKeyed t.orders _ k e u)
      | inr f ↦ rw (e, u, f, insert_order) k
    ]
  ]
]

-- A redelivered order is recognised: once an insert has been accepted, inserting the same order id
-- again, with whatever else, returns `ErrRowExists` and changes nothing.
pub insert_order_again :
    (now later : ℕ) (o o' : NewOrder) (t : Tables)
    → o'.order_id ≡ o.order_id
    → (insert_order now o t).0 ≢ insert_error
    → insert_order later o' (insert_order now o t).1 ≡ (row_exists, (insert_order now o t).1)
unfolding insert_order new_row
insert_order_again now later o o' t same ok =
    ground (arith, has_order-append o'.order_id t.orders (new_row o now), text_eq_self o.order_id)

-- A second order of one user for one event, under a new order id, is refused with an error that is
-- not `ErrRowExists`, and changes nothing.
insert_order_second :
    (now : ℕ) (o : NewOrder) (t : Tables)
    → has_order o.order_id t.orders ≡ false
    → has_user_event o.user_id o.event_id t.orders ≡ true
    → insert_order now o t ≡ (insert_error, t)
unfolding insert_order
insert_order_second now o t e u = ground arith
