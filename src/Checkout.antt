-- ===== src/Checkout.antt =====
-- internal/proxy/proxy.go and cmd/backend-demo/main.go: the request that the gateway sends to the backend,
-- and the backend's handler of a checkout. Headers are a function from their names, empty where there is
-- none; what net/http/httputil keeps of the incoming ones is a parameter, and so is the JSON decoder.
pub mod Purchase
pub mod Outage
use openwar.Common.{ℕ, ◌≡◌, Option, none, some, if◌then◌else◌}
use openwar.Common.Int.{ℤ}
use openwar.Common.Text.{Text, codes, text_eq, is_empty}
use openwar.Breaker.{Config}
use openwar.Redis.{Redis}
use openwar.Order.{
  Order, World, Run, Placed, placed, order_sold_out, redis_error, publish_error, place,
}

abbrev pub Headers : Type 0
Headers = Text → Text

-- `Header.Set`
abbrev pub set_header : Text → Text → Headers → Headers
set_header k v h j = if text_eq k j then v else h j

-- What `Forward` reads of the request that came in; the user is the one that `JWT` has set.
pub record Incoming : Type 0 where
  pub host : Text
  pub remote_addr : Text
  pub tls : Option (Unit {0})
  pub headers : Headers
  pub user : Text
  pub session : Text

-- `scheme`
unfoldable pub scheme : Incoming → Text
scheme r = elim r.tls [
  | some t ↦ codes "https"
  | none ↦
      if is_empty (r.headers (codes "X-Forwarded-Proto"))
      then codes "http"
      else r.headers (codes "X-Forwarded-Proto")
]

abbrev set_nonempty : Text → Text → Headers → Headers
set_nonempty k v h = if is_empty v then h else set_header k v h

-- `Forward`: the path and the headers of the outgoing request.
unfoldable pub forward : (Headers → Headers) → Incoming → Text × Headers
unfolding scheme
forward outgoing r = (
  codes "/checkout",
  set_nonempty (codes "X-Session-ID") r.session (
      set_nonempty (codes "X-User-ID") r.user (
        set_header (codes "X-Forwarded-For") r.remote_addr (
          set_header (codes "X-Forwarded-Proto") (scheme r)
            (set_header (codes "X-Forwarded-Host") r.host (outgoing r.headers))))),
)

-- `PlaceRequest`
pub record PlaceRequest : Type 0 where
  pub sku : Text
  pub qty : ℤ

-- What the handler writes: an error with its code, or 201 with the order id.
pub data CheckoutReply : Type 0 where
  checkout_error : ℕ → CheckoutReply
  created : Text → CheckoutReply

unfoldable pub reply_of : Placed → CheckoutReply
reply_of (placed id) = created id
reply_of order_sold_out = checkout_error 410
reply_of redis_error = checkout_error 500
reply_of publish_error = checkout_error 500

abbrev pub default_sku : Text
default_sku = codes "flash-sale-001:ticket"

-- The order that the handler places.
abbrev pub order_of : Text → PlaceRequest → Order
order_of user req = record {
  user_id = user;
  event_id = codes "flash-sale-001";
  sku = if is_empty req.sku then default_sku else req.sku;
  qty = req.qty;
}

module _ (R : Redis) (cfg : Config) (shards ttl : ℕ) where
  unfoldable pub checkout_order : Run → Text → PlaceRequest → World R → CheckoutReply × World R
  unfolding reply_of
  checkout_order run user req w =
      let (r, w') = place R cfg shards ttl run (order_of user req) w in (reply_of r, w')

  -- The handler of `POST /checkout`; the body is `none` where it does not decode or is too large.
  unfoldable pub checkout : Run → Headers → Option PlaceRequest → World R → CheckoutReply × World R
  unfolding checkout_order
  checkout run headers body w =
      let user = headers (codes "X-User-ID") in
      if is_empty user
      then (checkout_error 401, w)
      else elim body [ none ↦ (checkout_error 400, w) | some req ↦ checkout_order run user req w ]
