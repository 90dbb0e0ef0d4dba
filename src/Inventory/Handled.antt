-- ===== src/Inventory/Handled.antt =====
-- `Compensate` on a reservation that is not RESERVED.
use openwar.Common.{◌≡◌, refl, ap, ◌∙◌, inl, inr, false, some, List, [], ◌∷◌}
use openwar.Common.Int.{pos}
use openwar.Common.Text.{Text, codes, text_eq}
use openwar.Breaker.{Config, Breaker}
use openwar.Redis.{Redis, Net, text_of}
use openwar.Lua.{Item, int, bulk, release_stock}
use openwar.Inventory.{Trip, compensate, settle}
use openwar.Inventory.Effect.{guarded-Ends}

module _ (R : Redis) (cfg : Config) (res inv st : Text) (d : R.Db) where
  handled_reply :
      text_of (R.look d res) ≡ some st
      → text_eq st (codes "RESERVED") ≡ false
      → release_stock R res inv d ≡ (int (pos 0) ∷ bulk st ∷ [], d)
  unfolding release_stock
  handled_reply e n = rw (e, n, release_stock) refl

  -- However the trip goes, it leaves everything as it is.
  pub compensate_handled :
      (t : Trip) (net : Net) (b : Breaker)
      → text_of (R.look d res) ≡ some st
      → text_eq st (codes "RESERVED") ≡ false
      → (compensate R cfg t net res inv b d).2 ≡ d
  unfolding compensate settle
  compensate_handled t net b e n =
      let k = handled_reply e n in
      elim (guarded-Ends R cfg (release_stock R res inv) d t b) [
        | inl (_, r, d') ↦ rw (r, compensate) (rw k (rw d' (ap (λ (x : List Item × R.Db). x.1) k)))
        | inr (inl (r, inl d')) ↦ rw (r, compensate) d'
        | inr (inl (r, inr d')) ↦ rw (r, compensate) (d' ∙ ap (λ (x : List Item × R.Db). x.1) k)
        | inr (inr (r, d')) ↦ rw (r, compensate) d'
      ]
