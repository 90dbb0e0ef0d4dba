-- ===== src/Order/Worker/Published.antt =====
-- What `handleOrder` leaves of a reservation.
use openwar.Common.{ℕ, ◌≡◌, refl, inl, inr, subst, Option, none, some}
use openwar.Common.Text.{Text, codes, text_eq_self}
use openwar.Breaker.{Config}
use openwar.Redis.{Redis, IsLawful, Net-cases, call, text_of}
use openwar.Inventory.Keys.{reservation_key}
use openwar.Store.{Inserted, inserted, row_exists, insert_error}
use openwar.Order.{Event}
use openwar.Order.Worker.{
  Site, HandleRun, Handled, handled, handle_error, handle_order, after_insert, flipped, after_flip,
  armed,
}

module _ (R : Redis) (L : IsLawful R) (cfg : Config) where
  -- What a reservation is once its order was handled.
  abbrev pub IsPublished : Text → R.Db → Type 0
  IsPublished order d = text_of (R.look d (reservation_key order)) ≡ some (codes "PUBLISHED")

  After : Text → Handled → R.Db → Type 0
  After order handled d = IsPublished order d
  After order handle_error d = Unit

  module _ (window : ℕ) (run : HandleRun) (ev : Event) where
    flipped-After :
        (s : Site R) → let r = flipped R cfg window run ev s in After ev.order_id r.0 r.1.world.db
    unfolding flipped after_flip armed After call
    flipped-After s = elim (Net-cases run.flip) [
      | inl f ↦ rw f (rw (L.look-set, text_eq_self) refl)
      | inr (inl f) ↦ rw f tt
      | inr (inr f) ↦ rw f tt
    ]

    after_insert-After :
        (i : Option Inserted) (s : Site R)
        → let r = after_insert R cfg window run ev i s in After ev.order_id r.0 r.1.world.db
    unfolding after_insert After
    after_insert-After none s = tt
    after_insert-After (some inserted) s = flipped-After s
    after_insert-After (some row_exists) s = flipped-After s
    after_insert-After (some insert_error) s = tt

    handle_order-After :
        (s : Site R)
        → let r = handle_order R cfg window run (some ev) s in After ev.order_id r.0 r.1.world.db
    unfolding handle_order
    handle_order-After s = after_insert-After _ _

    -- An order that was handled has its reservation marked as published.
    pub handle_order-IsPublished :
        (s : Site R)
        → (handle_order R cfg window run (some ev) s).0 ≡ handled
        → IsPublished ev.order_id (handle_order R cfg window run (some ev) s).1.world.db
    unfolding After
    handle_order-IsPublished s h =
        subst (λ r. After ev.order_id r (handle_order R cfg window run (some ev) s).1.world.db) h
          (handle_order-After s)
