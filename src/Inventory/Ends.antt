-- ===== src/Inventory/Ends.antt =====
-- The three ways a compensation leaves the server.
use openwar.Common.{◌≡◌, refl, ◌⊎◌, inl, inr, Bool-cases, Option, none, some, List, [], ◌∷◌}
use openwar.Common.Text.{Text}
use openwar.Breaker.{Config, Breaker}
use openwar.Redis.{Redis, Net, fine, lost, cut, call}
use openwar.Lua.{Item, release_stock}
use openwar.Inventory.{Trip, guarded, compensate, settle, unlatch, is_one, to_int, parse_sku}
use openwar.Inventory.Effect.{guarded-Ends}
use openwar.Inventory.Keys.{soldout_key}

module _ (R : Redis) (cfg : Config) (res inv : Text) (d : R.Db) where
  -- Untouched; as the script left it; or besides with the latch of some sku cleared.
  abbrev pub Ends : R.Db → Type 0
  Ends d' =
      (d' ≡ d)
      ⊎ (d' ≡ (release_stock R res inv d).1)
      ⊎ ((sku : Text) × (d' ≡ R.del (release_stock R res inv d).1 (soldout_key sku)))

  unlatch_ends :
      (net : Net) (s : Option Text) (e : R.Db)
      → (unlatch R cfg net s e ≡ e)
        ⊎ ((sku : Text) × (unlatch R cfg net s e ≡ R.del e (soldout_key sku)))
  unfolding unlatch call
  unlatch_ends net none e = inl refl
  unlatch_ends fine (some s) e = inr (s, refl)
  unlatch_ends lost (some s) e = inl refl
  unlatch_ends cut (some s) e = inr (s, refl)

  settle_ends :
      (net : Net) (reply : List Item) (b : Breaker) (e : R.Db)
      → ((settle R cfg net inv reply b e).2 ≡ e)
        ⊎ ((sku : Text) × ((settle R cfg net inv reply b e).2 ≡ R.del e (soldout_key sku)))
  unfolding settle
  settle_ends net [] b e = inl refl
  settle_ends net (x ∷ []) b e = inl refl
  settle_ends net (x ∷ y ∷ rest) b e = elim (Bool-cases (is_one (to_int x))) [
    | inl y ↦ rw (y, settle) (unlatch_ends net (parse_sku inv) e)
    | inr y ↦ rw (y, settle) (inl refl)
  ]

  pub compensate-Ends :
      (t : Trip) (net : Net) (b : Breaker) → Ends (compensate R cfg t net res inv b d).2
  unfolding compensate
  compensate-Ends t net b = elim (guarded-Ends R cfg (release_stock R res inv) d t b) [
    | inl (_, r, d') ↦
        rw (r, d', compensate)
          (inr (
            settle_ends net (release_stock R res inv d).0
              (guarded R cfg t (release_stock R res inv) b d).1 _))
    | inr (inl (r, inl d')) ↦ rw (r, compensate) (inl d')
    | inr (inl (r, inr d')) ↦ rw (r, compensate) (inr (inl d'))
    | inr (inr (r, d')) ↦ rw (r, compensate) (inl d')
  ]
