-- ===== src/Store/Cancel.antt =====
-- `CancelOrderTimeout` as a compare-and-set on the status of one order, and the fetch of what expired.
use openwar.Common.{
  ℕ, zero, suc, ◌+◌, ◌≤◌, ◌≡◌, refl, subst, ap, ◌&&◌, true, false, none, some, List, [], ◌∷◌, leb,
  if◌then◌else◌, arith, All, take, keep, length, Bool-cases, inl, inr,
}
use openwar.Common.Text.{Text, text_eq, text_eq_iff}
use openwar.Store.{
  Row, Tables, pending, cancelled, has_order, get_order, is_expired, cancel_rows, affects,
  insert_by_created, sort_by_created, fetch_expired_orders,
}
use openwar.Store.Laws.{IsKeyed}

pub cancelled_ne : text_eq cancelled pending ≡ false
unfolding text_eq
cancelled_ne = refl

absent_affects :
    (now : ℕ) (id : Text) (rs : List Row) → has_order id rs ≡ false → affects now id rs ≡ false
unfolding affects has_order
absent_affects now id [] h = refl
absent_affects now id (r ∷ rs) h = ground (arith, absent_affects now id rs)

absent-cancel_rows :
    (now : ℕ) (id : Text) (rs : List Row) → has_order id rs ≡ false → cancel_rows now id rs ≡ rs
unfolding cancel_rows has_order
absent-cancel_rows now id [] h = refl
absent-cancel_rows now id (r ∷ rs) h = ground (arith, absent-cancel_rows now id rs)

-- The row of an order after a cancellation of that order.
abbrev pub cancelled_row : ℕ → Row → Row
cancelled_row now r =
    if is_expired now r then record r { status = cancelled; version = r.version + 1 } else r

has_order_eq :
    (a b : Text) (rs : List Row)
    → text_eq a b ≡ true
    → has_order a rs ≡ false
    → has_order b rs ≡ false
has_order_eq a b rs e h = subst (λ k. has_order k rs ≡ false) ((text_eq_iff a b).0 e) h

-- Where the order ids are unique, `CancelOrderTimeout` reports a change exactly when the order is
-- there, pending and expired; the row found afterwards is then the same with the status
-- CANCELLED_TIMEOUT and the version one higher, and else as it was.
cancel_order_timeout_lem :
    (now : ℕ) (id : Text) (rs : List Row)
    → IsKeyed rs
    → (affects now id rs ≡ elim (get_order id rs) [ none ↦ false | some r ↦ is_expired now r ])
      × (get_order id (cancel_rows now id rs)
          ≡ elim (get_order id rs) [ none ↦ none | some r ↦ some (cancelled_row now r) ])
unfolding affects get_order cancel_rows
cancel_order_timeout_lem now id [] k = (refl, refl)
cancel_order_timeout_lem now id (r ∷ rs) (u, _, k) = elim (Bool-cases (text_eq r.order_id id)) [
  | inl e ↦ ground (arith, absent_affects now id rs (has_order_eq r.order_id id rs e u))
  | inr e ↦
      let (a, g) = cancel_order_timeout_lem now id rs k in
      rw (e, affects, get_order, cancel_rows) (a, ground arith)
]

-- Another order's row stays as it was.
pub get_order-cancel_rows :
    (now : ℕ) (id other : Text) (rs : List Row)
    → text_eq id other ≡ false
    → get_order other (cancel_rows now id rs) ≡ get_order other rs
unfolding get_order cancel_rows
get_order-cancel_rows now id other [] ne = refl
get_order-cancel_rows now id other (r ∷ rs) ne = ground (
  arith,
  get_order-cancel_rows now id other rs,
  text_eq_iff r.order_id id,
  text_eq_iff r.order_id other,
  text_eq_iff id other,
)

-- Where the order ids are unique, an order is cancelled at most once: after a cancellation that
-- changed its row, no later one changes anything.
cancel_once :
    (now later : ℕ) (id : Text) (rs : List Row)
    → IsKeyed rs
    → affects now id rs ≡ true
    → affects later id (cancel_rows now id rs) ≡ false
unfolding affects cancel_rows
cancel_once now later id [] k h = cc
cancel_once now later id (r ∷ rs) (u, _, k) h = elim (Bool-cases (text_eq r.order_id id)) [
  | inl e ↦
      let none_left = has_order_eq r.order_id id rs e u in
      rw (absent-cancel_rows now id rs none_left) (
        ground (
          arith,
          absent_affects later id rs none_left,
          absent_affects now id rs none_left,
          cancelled_ne,
        ))
  | inr e ↦ ground (arith, cancel_once now later id rs k)
]

module _ (P : Row → Type 0) where
  insert-All : (r : Row) (xs : List Row) → P r → All P xs → All P (insert_by_created r xs)
  unfolding insert_by_created
  insert-All r [] p h = (p, tt)
  insert-All r (x ∷ xs) p h = elim (Bool-cases (leb r.created x.created)) [
    | inl e ↦ rw (e, insert_by_created) (p, h)
    | inr e ↦ rw (e, insert_by_created) (h.0, insert-All r xs p h.1)
  ]

  pub sort-All : (xs : List Row) → All P xs → All P (sort_by_created xs)
  unfolding sort_by_created
  sort-All [] h = tt
  sort-All (x ∷ xs) h = insert-All x (sort_by_created xs) h.0 (sort-All xs h.1)

  pub take-All : (n : ℕ) (xs : List Row) → All P xs → All P (take n xs)
  take-All zero xs h = tt
  take-All (suc n) [] h = tt
  take-All (suc n) (x ∷ xs) h = (h.0, take-All n xs h.1)

abbrev pub IsExpired : ℕ → Row → Type 0
IsExpired now r = (r.status ≡ pending) × (r.expires ≤ now)

keep-All : (now : ℕ) (xs : List Row) → All (IsExpired now) (keep (is_expired now) xs)
keep-All now [] = tt
keep-All now (x ∷ xs) = elim (Bool-cases (is_expired now x)) [
  | inl e ↦ rw e (ground (arith, text_eq_iff x.status pending), keep-All now xs)
  | inr e ↦ rw e (keep-All now xs)
]

-- The oldest come first.
abbrev pub IsSorted : List Row → Type 0
IsSorted [] = Unit
IsSorted (x ∷ xs) = All (λ y. x.created ≤ y.created) xs × IsSorted xs

le-All :
    (a b : ℕ) (xs : List Row) → a ≤ b → All (λ y. b ≤ y.created) xs → All (λ y. a ≤ y.created) xs
le-All a b [] h all = tt
le-All a b (x ∷ xs) h all = (omega arith, le-All a b xs h all.1)

insert-IsSorted : (r : Row) (xs : List Row) → IsSorted xs → IsSorted (insert_by_created r xs)
unfolding insert_by_created
insert-IsSorted r [] h = (tt, tt)
insert-IsSorted r (x ∷ xs) h = elim (Bool-cases (leb r.created x.created)) [
  | inl e ↦
      rw (e, insert_by_created)
        ((ground arith, le-All r.created x.created xs (ground arith) h.0), h)
  | inr e ↦
      rw (e, insert_by_created)
        (insert-All (λ y. x.created ≤ y.created) r xs (ground arith) h.0, insert-IsSorted r xs h.1)
]

sort-IsSorted : (xs : List Row) → IsSorted (sort_by_created xs)
unfolding sort_by_created
sort-IsSorted [] = tt
sort-IsSorted (x ∷ xs) = insert-IsSorted x (sort_by_created xs) (sort-IsSorted xs)

take-IsSorted : (n : ℕ) (xs : List Row) → IsSorted xs → IsSorted (take n xs)
take-IsSorted zero xs h = tt
take-IsSorted (suc n) [] h = tt
take-IsSorted (suc n) (x ∷ xs) h =
    (take-All (λ y. x.created ≤ y.created) n xs h.0, take-IsSorted n xs h.1)

take-le : (n : ℕ) (xs : List Row) → length (take n xs) ≤ n
take-le zero xs = omega arith
take-le (suc n) [] = omega arith
take-le (suc n) (x ∷ xs) = omega (arith, take-le n xs)

-- What the reconciler fetches: only pending orders that have expired, the oldest first, and no more
-- than the limit.
pub fetch_expired_orders_lem :
    (now limit : ℕ) (t : Tables)
    → let rows = fetch_expired_orders now limit t in
      All (IsExpired now) rows × IsSorted rows × (length rows ≤ limit)
unfolding fetch_expired_orders
fetch_expired_orders_lem now limit t =
    let rows = keep (is_expired now) t.orders in
    (
      take-All (IsExpired now) limit _ (sort-All (IsExpired now) rows (keep-All now t.orders)),
      take-IsSorted limit _ (sort-IsSorted rows),
      take-le limit _,
    )

-- A cancellation that changes no row leaves them all as they are.
pub cancel_rows_same :
    (now : ℕ) (id : Text) (rs : List Row) → affects now id rs ≡ false → cancel_rows now id rs ≡ rs
unfolding affects cancel_rows
cancel_rows_same now id [] e = refl
cancel_rows_same now id (r ∷ rs) e = elim (Bool-cases (text_eq r.order_id id && is_expired now r)) [
  | inl y ↦ ground arith
  | inr y ↦ rw y (ap (λ x. r ∷ x) (cancel_rows_same now id rs (ground arith)))
]
