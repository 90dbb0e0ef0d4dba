-- ===== src/Inventory/Compensate.antt =====
-- `Compensate`, retried any number of times over a network that fails as it likes.
use openwar.Common.{
  ℕ, ◌+◌, ◌≡◌, ◌⊎◌, inl, inr, ◌∙◌, ap, subst, sym, Option, none, some, List, [], ◌∷◌, Bool-cases,
}
use openwar.Common.Text.{Text, codes}
use openwar.Breaker.{Config, Breaker}
use openwar.Redis.{Redis, IsLawful, Net, fine, lost, cut, call, str, text_of}
use openwar.Lua.{Item, release_stock}
use openwar.Lua.Stock.{Holds, count}
use openwar.Lua.Release.{release_stock_reserved, release_stock_handled}
use openwar.Inventory.{Trip, compensate, settle, unlatch, parse_sku, is_one, to_int}
use openwar.Inventory.Keys.{
  inventory_key, soldout_key, reservation_key, soldout-inventory, soldout-reservation,
  reservation-inventory, inventory-reservation,
}
use openwar.Inventory.Effect.{guarded-Ends}

-- One retry: its trip, and the trip that clears the latch.
pub record Retry : Type 0 where
  pub trip : Trip
  pub clear : Net

module _ (R : Redis) (cfg : Config) (order sku : Text) (i : ℕ) where
  unfoldable pub retries : List Retry → Breaker → R.Db → R.Db
  retries [] b d = d
  retries (r ∷ rs) b d =
      let (reply, b', d') =
        compensate R cfg r.trip r.clear (reservation_key order) (inventory_key sku i) b d in
      retries rs b' d'

  -- Not refunded, with `n` units on the shard; or refunded, with one more.
  abbrev pub Refunds : ℕ → R.Db → Type 0
  Refunds n d =
      Holds (R.look d (inventory_key sku i))
      × ((R.look d (reservation_key order) ≡ str (codes "RESERVED"))
            × (count (R.look d (inventory_key sku i)) ≡ n)
          ⊎ (R.look d (reservation_key order) ≡ str (codes "COMPENSATED"))
            × (count (R.look d (inventory_key sku i)) ≡ n + 1))

  module _ (L : IsLawful R) (n : ℕ) where
    release-Refunds :
        (d : R.Db)
        → Refunds n d
        → Refunds n (release_stock R (reservation_key order) (inventory_key sku i) d).1
    release-Refunds d (h, inl (st, c)) =
        let (st', h', c', _) =
          release_stock_reserved R L (reservation_key order) (inventory_key sku i) d (ap text_of st)
            (reservation-inventory order sku i) (inventory-reservation order sku i) h in
        (h', inr (st', c' ∙ ap (λ (k : ℕ). k + 1) c))
    release-Refunds d (h, inr (st, c)) =
        subst (Refunds n)
          (sym (
            release_stock_handled R L (reservation_key order) (inventory_key sku i) d
              (λ e. not_reserved (sym (ap text_of st) ∙ e))))
          (h, inr (st, c))
      where
        not_reserved : ¬ (some (codes "COMPENSATED") ≡ some (codes "RESERVED"))
        not_reserved e = cc

    deleted-Refunds : (s : Text) (d : R.Db) → Refunds n d → Refunds n (R.del d (soldout_key s))
    deleted-Refunds s d h = simp (L.look-del, soldout-inventory, soldout-reservation) h

    unlatch-Refunds :
        (net : Net) (s : Option Text) (d : R.Db) → Refunds n d → Refunds n (unlatch R cfg net s d)
    unfolding unlatch call
    unlatch-Refunds net none d h = h
    unlatch-Refunds fine (some s) d h = deleted-Refunds s d h
    unlatch-Refunds lost (some s) d h = h
    unlatch-Refunds cut (some s) d h = deleted-Refunds s d h

    settle-Refunds :
        (net : Net) (inv : Text) (reply : List Item) (b : Breaker) (d : R.Db)
        → Refunds n d
        → Refunds n (settle R cfg net inv reply b d).2
    unfolding settle
    settle-Refunds net inv [] b d h = h
    settle-Refunds net inv (a ∷ []) b d h = h
    settle-Refunds net inv (a ∷ c ∷ rest) b d h = elim (Bool-cases (is_one (to_int a))) [
      | inl y ↦ rw (y, settle) (unlatch-Refunds net (parse_sku inv) d h)
      | inr y ↦ rw (y, settle) h
    ]

    compensate-Refunds :
        (r : Retry) (b : Breaker) (d : R.Db)
        → Refunds n d
        → Refunds n
            (compensate R cfg r.trip r.clear (reservation_key order) (inventory_key sku i) b d).2
    unfolding compensate
    compensate-Refunds r b d h =
        elim (guarded-Ends R cfg (release_stock R (reservation_key order) (inventory_key sku i)) d
          r.trip b) [
            | inl (_, e, d') ↦
                rw (e, compensate)
                  (settle-Refunds r.clear (inventory_key sku i)
                    (release_stock R (reservation_key order) (inventory_key sku i) d).0 _ _
                    (rw d' (release-Refunds d h)))
            | inr (inl (e, inl d')) ↦ rw (e, d', compensate) h
            | inr (inl (e, inr d')) ↦ rw (e, d', compensate) (release-Refunds d h)
            | inr (inr (e, d')) ↦ rw (e, d', compensate) h
          ]

    -- From a reservation that is RESERVED with n units on its shard, or COMPENSATED with n + 1:
    -- however often it is compensated, and whether the trips succeed, are lost or lose their
    -- replies, it is again one of the two. At most one unit goes back.
    pub retries-Refunds :
        (rs : List Retry) (b : Breaker) (d : R.Db) → Refunds n d → Refunds n (retries rs b d)
    unfolding retries
    retries-Refunds [] b d h = h
    retries-Refunds (r ∷ rs) b d h = retries-Refunds rs _ _ (compensate-Refunds r b d h)
