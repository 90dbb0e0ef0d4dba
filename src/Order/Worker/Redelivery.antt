-- ===== src/Order/Worker/Redelivery.antt =====
-- An order's event that is delivered again.
use openwar.Common.{ℕ, ◌+◌, ◌≡◌, ◌≢◌, refl, ap, sym, ◌∙◌, subst, ◌⊎◌, inl, inr, Option, none, some}
use openwar.Breaker.{Config}
use openwar.Redis.{Redis, Net, fine, lost, cut, call}
use openwar.Store.{Tables, Inserted, inserted, row_exists, insert_error, insert_order}
use openwar.Store.Laws.{insert_order_again}
use openwar.Order.{Event}
use openwar.Order.Worker.{
  Site, HandleRun, handled, handle_order, new_order, after_insert, flipped, after_flip, armed,
}

pub call-some {κ} :
    {A : Type κ} (net : Net) (f : Tables → A × Tables) (t : Tables) (a : A)
    → (call net f t).0 ≡ some a
    → ((f t).0 ≡ a) × ((call net f t).1 ≡ (f t).1)
unfolding call
call-some fine f t a e = (cc, refl)
call-some lost f t a e = cc
call-some cut f t a e = cc

call_same {κ} :
    {A : Type κ} (net : Net) (f : Tables → A × Tables) (t : Tables)
    → (f t).1 ≡ t
    → (call net f t).1 ≡ t
unfolding call
call_same fine f t e = e
call_same lost f t e = refl
call_same cut f t e = e

pub call_ends {κ} :
    {A : Type κ} (net : Net) (f : Tables → A × Tables) (t : Tables)
    → ((call net f t).1 ≡ t) ⊎ ((call net f t).1 ≡ (f t).1)
unfolding call
call_ends fine f t = inr refl
call_ends lost f t = inl refl
call_ends cut f t = inr refl

module _ (R : Redis) (cfg : Config) (window : ℕ) (run : HandleRun) (ev : Event) where
  after_flip_tables :
      (u : Option (Unit {0})) (s : Site R)
      → (after_flip R cfg window run ev u s).1.tables ≡ s.tables
  unfolding after_flip armed
  after_flip_tables none s = refl
  after_flip_tables (some u) s = refl

  pub after_insert_tables :
      (i : Option Inserted) (s : Site R)
      → (after_insert R cfg window run ev i s).1.tables ≡ s.tables
  unfolding after_insert flipped
  after_insert_tables none s = refl
  after_insert_tables (some inserted) s = after_flip_tables _ _
  after_insert_tables (some row_exists) s = after_flip_tables _ _
  after_insert_tables (some insert_error) s = refl

  accepted :
      (i : Option Inserted) (s : Site R)
      → (after_insert R cfg window run ev i s).0 ≡ handled
      → (i ≡ some inserted) ⊎ (i ≡ some row_exists)
  unfolding after_insert
  accepted none s h = cc
  accepted (some inserted) s h = inl refl
  accepted (some row_exists) s h = inr refl
  accepted (some insert_error) s h = cc

  abbrev pub insertion : Tables → Inserted × Tables
  insertion t = insert_order run.db_now (new_order (run.now + window) ev) t

  pub handled_insertion :
      (s : Site R)
      → (handle_order R cfg window run (some ev) s).0 ≡ handled
      → ((insertion s.tables).0 ≢ insert_error)
        × ((handle_order R cfg window run (some ev) s).1.tables ≡ (insertion s.tables).1)
  unfolding handle_order
  handled_insertion s h = elim (accepted _ _ h) [
    | inl e ↦
        let (r, t) = call-some run.insert insertion s.tables inserted e in
        (λ q. cc, after_insert_tables _ _ ∙ t)
    | inr e ↦
        let (r, t) = call-some run.insert insertion s.tables row_exists e in
        (λ q. cc, after_insert_tables _ _ ∙ t)
  ]

-- Once an order's event was handled, handling it again, however its trips and statements go, leaves the
-- tables as they are.
handle_order_again :
    (R : Redis) (cfg : Config) (window : ℕ) (run run' : HandleRun) (ev : Event) (s : Site R)
    → (handle_order R cfg window run (some ev) s).0 ≡ handled
    → let s' = (handle_order R cfg window run (some ev) s).1 in
      (handle_order R cfg window run' (some ev) s').1.tables ≡ s'.tables
unfolding handle_order
handle_order_again R cfg window run run' ev s h =
    let s' = (handle_order R cfg window run (some ev) s).1 in
    let (n, t) = handled_insertion R cfg window run ev s h in
    let again =
      insert_order_again run.db_now run'.db_now (new_order (run.now + window) ev)
        (new_order (run'.now + window) ev) s.tables refl n in
    after_insert_tables R cfg window run' ev _ _
    ∙ call_same run'.insert (insertion R cfg window run' ev) s'.tables (
        subst (λ x. (insertion R cfg window run' ev x).1 ≡ x) (sym t)
          (ap (λ (x : Inserted × Tables). x.1) again))
