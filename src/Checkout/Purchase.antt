-- ===== src/Checkout/Purchase.antt =====
-- A purchase from the check of its token to the order: `JWT` in front of the proxy and the backend.
use openwar.Common.{ℕ, ◌≡◌, refl, ap, ◌∙◌, false, Option, none, some, ◌++◌, Bool-cases, inl, inr}
use openwar.Common.Text.{Text, codes, text_eq, is_empty}
use openwar.Common.Text.Last.{cut_prefix, cut_prefix-append}
use openwar.Breaker.{Config}
use openwar.Redis.{Redis}
use openwar.Order.{World, Run}
use openwar.Gateway.{Request, Answer, answered, jwt}
use openwar.Checkout.{
  Headers, Incoming, forward, PlaceRequest, CheckoutReply, checkout_error, checkout, checkout_order,
}

-- The proxy names the user whom `JWT` has set, whatever the client's headers say.
pub forward-user :
    (outgoing : Headers → Headers) (r : Incoming)
    → is_empty r.user ≡ false
    → (forward outgoing r).1 (codes "X-User-ID") ≡ r.user
unfolding forward text_eq
forward-user outgoing r e = elim (Bool-cases (is_empty r.session)) [
  | inl s ↦ rw (e, s) refl
  | inr s ↦ rw (e, s) refl
]

module _ (R : Redis) (cfg : Config) (shards ttl : ℕ) (parse : Text → Option Text)
    (outgoing : Headers → Headers) where
  -- The request that the proxy reads, once `JWT` has passed it on.
  abbrev pub incoming : Incoming → Request → Incoming
  incoming r req = record r { user = req.user; session = req.session }

  -- The purchase behind `JWT`, with the backend's answer.
  unfoldable pub purchase :
      Run → Incoming → Option PlaceRequest → Request → World R → Answer CheckoutReply × World R
  purchase run r body = jwt parse (λ req w.
      let (reply, w') =
        checkout R cfg shards ttl run (forward outgoing (incoming r req)).1 body w in
      (answered reply, w'))

  checkout-user :
      (run : Run) (headers : Headers) (uid : Text) (place_req : PlaceRequest) (w : World R)
      → headers (codes "X-User-ID") ≡ uid
      → is_empty uid ≡ false
      → (checkout R cfg shards ttl run headers (some place_req) w
          ≡ checkout_order R cfg shards ttl run uid place_req w)
        × (checkout R cfg shards ttl run headers none w ≡ (checkout_error 400, w))
  unfolding checkout
  checkout-user run headers uid place_req w h u = (rw (h, u) refl, rw (h, u) refl)

  -- A purchase with a token that is signed and valid and names a user, and that the rest of the
  -- chain lets through, places its order for that user, whatever headers the client sends, an
  -- `X-User-ID` among them, and whatever the proxy keeps of them; with a body that does not decode
  -- it is answered 400 and nothing changes.
  pub purchase-user :
      (run : Run) (r : Incoming) (req : Request) (token uid : Text) (place_req : PlaceRequest)
      (w : World R)
      → req.authorization ≡ codes "Bearer " ++ token
      → is_empty token ≡ false
      → parse token ≡ some uid
      → is_empty uid ≡ false
      → let x = checkout_order R cfg shards ttl run uid place_req w in
        (purchase run r (some place_req) req w ≡ (answered x.0, x.1))
        × (purchase run r none req w ≡ (answered (checkout_error 400), w))
  unfolding purchase jwt
  purchase-user run r req token uid place_req w a t p u =
      let c =
        ap (λ x. cut_prefix x (codes "Bearer ")) a ∙ cut_prefix-append (codes "Bearer ") token in
      let f = forward-user outgoing (incoming r (record req { user = uid })) u in
      let (y, z) =
        checkout-user run (forward outgoing (incoming r (record req { user = uid }))).1 uid
          place_req w f u in
      (
        rw (c, t, p, u, jwt) (ap (λ v. (answered v.0, v.1)) y),
        rw (c, t, p, u, jwt) (ap (λ v. (answered v.0, v.1)) z),
      )
