-- ===== src/Inventory/Effect.antt =====
-- What one trip through the breaker does to the server, whichever way it goes.
use openwar.Common.{ℕ, ◌≡◌, refl, ◌⊎◌, inl, inr, arith, Bool-cases}
use openwar.Breaker.{
  Config, Breaker, Outcome, closed, circuit_open, failed, done, execute, begin, finish,
}
use openwar.Redis.{Redis, Net, fine, lost, cut, call}
use openwar.Inventory.{Trip, guarded}

module _ {κ} {A : Type κ} (R : Redis) (cfg : Config) (f : R.Db → A × R.Db) (d : R.Db) where
  -- The reply and the data after a trip that ends in each of the three ways.
  abbrev pub Ends : Net → Outcome A → R.Db → Type κ
  Ends net r d' =
      (net ≡ fine) × (r ≡ done (f d).0) × (d' ≡ (f d).1)
      ⊎ (r ≡ failed) × ((d' ≡ d) ⊎ (d' ≡ (f d).1))
      ⊎ (r ≡ circuit_open) × (d' ≡ d)

  execute-Ends :
      (net : Net) (now later : ℕ) (b : Breaker)
      → Ends net
          (execute cfg now later (call net f) b d).0
          (execute cfg now later (call net f) b d).2
  unfolding execute call
  execute-Ends fine now later b = elim (Bool-cases (begin cfg now b).0) [
    | inl go ↦ rw (go, execute) (inl (refl, refl, refl))
    | inr no_go ↦ rw (no_go, execute) (inr (inr (refl, refl)))
  ]
  execute-Ends lost now later b = elim (Bool-cases (begin cfg now b).0) [
    | inl go ↦ rw (go, execute) (inr (inl (refl, inl refl)))
    | inr no_go ↦ rw (no_go, execute) (inr (inr (refl, refl)))
  ]
  execute-Ends cut now later b = elim (Bool-cases (begin cfg now b).0) [
    | inl go ↦ rw (go, execute) (inr (inl (refl, inr refl)))
    | inr no_go ↦ rw (no_go, execute) (inr (inr (refl, refl)))
  ]

  pub guarded-Ends :
      (t : Trip) (b : Breaker) → Ends t.net (guarded R cfg t f b d).0 (guarded R cfg t f b d).2
  unfolding guarded
  guarded-Ends t b = execute-Ends t.net t.start t.stop b

  -- With Redis at hand a closed breaker makes the trip and stays closed.
  pub guarded_fine :
      (t : Trip) (b : Breaker)
      → t.net ≡ fine
      → b.state ≡ closed
      → ((guarded R cfg t f b d).0 ≡ done (f d).0)
        × ((guarded R cfg t f b d).1.state ≡ closed)
        × ((guarded R cfg t f b d).2 ≡ (f d).1)
  unfolding guarded execute call begin finish
  guarded_fine t b e c = rw (e, c) (ground arith)
