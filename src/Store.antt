-- ===== src/Store.antt =====
-- internal/store/store.go: the statements on the tables of Postgres, as the SQL texts and the schema
-- in migrations/000001_initial_schema.sql say. A statement is one step; times are nanoseconds.
pub mod Laws
pub mod Cancel
pub mod Rows
pub mod Found
use openwar.Common.{
  ℕ, zero, suc, ◌+◌, Bool, true, false, not, ◌&&◌, ◌||◌, Option, none, some, List, [], ◌∷◌, ◌++◌,
  take, keep, leb, ltb, if◌then◌else◌,
}
use openwar.Common.Text.{Text, codes, text_eq, is_empty}

-- A row of `openwar.orders`.
pub record Row : Type 0 where
  pub order_id : Text
  pub user_id : Text
  pub event_id : Text
  pub sku : Text
  pub qty : ℕ
  pub status : Text
  pub expires : ℕ
  pub created : ℕ
  pub version : ℕ

-- The tables: the keys of the users and the products, and the orders in the order of their insertion.
pub record Tables : Type 0 where
  pub users : List Text
  pub products : List Text
  pub orders : List Row

abbrev pub pending : Text
pending = codes "PENDING_PAYMENT"

abbrev pub cancelled : Text
cancelled = codes "CANCELLED_TIMEOUT"

-- What `InsertOrder` is given.
pub record NewOrder : Type 0 where
  pub order_id : Text
  pub user_id : Text
  pub event_id : Text
  pub sku : Text
  pub qty : ℕ
  pub status : Text
  pub expires : ℕ

-- `defaultStatus`
unfoldable pub default_status : Text → Text
default_status s = if is_empty s then pending else s

unfoldable pub any_text : Text → List Text → Bool
any_text k [] = false
any_text k (x ∷ xs) = text_eq x k || any_text k xs

unfoldable pub has_order : Text → List Row → Bool
has_order id [] = false
has_order id (r ∷ rs) = text_eq r.order_id id || has_order id rs

-- The constraint `orders_user_event_once`.
unfoldable pub has_user_event : Text → Text → List Row → Bool
has_user_event user event [] = false
has_user_event user event (r ∷ rs) =
    text_eq r.user_id user && text_eq r.event_id event || has_user_event user event rs

-- What `InsertOrder` returns: nil, `ErrRowExists`, or another error.
pub data Inserted : Type 0 where
  inserted row_exists insert_error : Inserted

unfoldable pub new_row : NewOrder → ℕ → Row
new_row o now = record {
  order_id = o.order_id;
  user_id = o.user_id;
  event_id = o.event_id;
  sku = o.sku;
  qty = o.qty;
  status = default_status o.status;
  expires = o.expires;
  created = now;
  version = 1;
}

-- `InsertOrder` at the time `now`: a conflict on the order id does nothing, and any other constraint
-- that fails is an error.
unfoldable pub insert_order : ℕ → NewOrder → Tables → Inserted × Tables
unfolding new_row default_status
insert_order now o t =
    if has_order o.order_id t.orders
    then (row_exists, t)
    else if has_user_event o.user_id o.event_id t.orders
    then (insert_error, t)
    else if any_text o.user_id t.users && any_text o.sku t.products
    then (inserted, record t { orders = t.orders ++ new_row o now ∷ [] })
    else (insert_error, t)

-- `GetOrder`; `none` is `ErrNoRows`.
unfoldable pub get_order : Text → List Row → Option Row
get_order id [] = none
get_order id (r ∷ rs) = if text_eq r.order_id id then some r else get_order id rs

-- The WHERE clause of an expired order.
abbrev pub is_expired : ℕ → Row → Bool
is_expired now r = text_eq r.status pending && leb r.expires now

cancel_row : ℕ → Text → Row → Row
cancel_row now id r =
    if text_eq r.order_id id && is_expired now r
    then record r { status = cancelled; version = r.version + 1 }
    else r

unfoldable pub cancel_rows : ℕ → Text → List Row → List Row
unfolding cancel_row
cancel_rows now id [] = []
cancel_rows now id (r ∷ rs) = cancel_row now id r ∷ cancel_rows now id rs

unfoldable pub affects : ℕ → Text → List Row → Bool
affects now id [] = false
affects now id (r ∷ rs) = text_eq r.order_id id && is_expired now r || affects now id rs

-- `CancelOrderTimeout`: whether a row was changed.
unfoldable pub cancel_order_timeout : ℕ → Text → Tables → Bool × Tables
cancel_order_timeout now id t =
    (affects now id t.orders, record t { orders = cancel_rows now id t.orders })

-- ORDER BY created_at ASC
unfoldable pub insert_by_created : Row → List Row → List Row
insert_by_created r [] = r ∷ []
insert_by_created r (x ∷ xs) =
    if leb r.created x.created then r ∷ x ∷ xs else x ∷ insert_by_created r xs

unfoldable pub sort_by_created : List Row → List Row
unfolding insert_by_created
sort_by_created [] = []
sort_by_created (r ∷ rs) = insert_by_created r (sort_by_created rs)

-- `FetchExpiredOrders`
unfoldable pub fetch_expired_orders : ℕ → ℕ → Tables → List Row
unfolding sort_by_created
fetch_expired_orders now limit t = take limit (sort_by_created (keep (is_expired now) t.orders))

-- `ClearOrders`
unfoldable pub clear_orders : Tables → Tables
clear_orders t = record t { orders = [] }
