-- ===== src/Order/Deliver/Dropped.antt =====
-- Dead letters whose unit is not given back.
use openwar.Common.{ℕ, ◌≡◌, refl, ◌⊎◌, inl, inr, Bool-cases, Option, none, some}
use openwar.Common.Text.{Text}
use openwar.Breaker.{Config, Breaker, circuit_open, failed, begin, execute}
use openwar.Redis.{Redis, Net, lost, call}
use openwar.Lua.{release_stock}
use openwar.Inventory.{Trip, guarded, compensate}
use openwar.Order.{Event}
use openwar.Order.Timeout.{handle_dlq_msg}
use openwar.Order.Deliver.{acknowledged, deliver, deliver_dead}

module _ (R : Redis) (cfg : Config) where
  -- A request that is lost, or refused by the breaker, does nothing.
  guarded_lost {κ} :
      {A : Type κ} (t : Trip) (f : R.Db → A × R.Db) (b : Breaker) (d : R.Db)
      → t.net ≡ lost
      → (((guarded R cfg t f b d).0 ≡ failed) ⊎ ((guarded R cfg t f b d).0 ≡ circuit_open))
        × ((guarded R cfg t f b d).2 ≡ d)
  unfolding guarded execute call
  guarded_lost t f b d l = elim (Bool-cases (begin cfg t.start b).0) [
    | inl go ↦ rw l (rw (go, execute) (inl refl, refl))
    | inr no_go ↦ rw l (rw (no_go, execute) (inr refl, refl))
  ]

  compensate_lost :
      (t : Trip) (net : Net) (res inv : Text) (b : Breaker) (d : R.Db)
      → t.net ≡ lost
      → (compensate R cfg t net res inv b d).2 ≡ d
  unfolding compensate
  compensate_lost t net res inv b d l =
      let (r, same) = guarded_lost t (release_stock R res inv) b d l in
      elim r [ inl e ↦ rw (e, compensate) same | inr e ↦ rw (e, compensate) same ]

  -- A dead letter whose compensation does not reach Redis is acknowledged at its first delivery, with
  -- nothing given back, whatever its further deliveries would do.
  dead_letter_dropped :
      (left shards : ℕ) (runs : ℕ → Trip × Net) (ev : Option Event) (b : Breaker) (d : R.Db)
      → (runs 0).0.net ≡ lost
      → let r = deliver_dead R cfg left shards runs ev (b, d) in
        (r.0 ≡ acknowledged 0) × (r.1.1 ≡ d)
  unfolding deliver_dead deliver handle_dlq_msg
  dead_letter_dropped left shards runs none b d l = (refl, refl)
  dead_letter_dropped left shards runs (some ev) b d l =
      (refl, compensate_lost (runs 0).0 (runs 0).1 _ _ b d l)
