-- ===== src/Lua/Release.antt =====
-- release_stock.lua: the state of a reservation guards the refund.
use openwar.Common.{
  ◌+◌, ◌≡◌, refl, ◌≢◌, ◌∙◌, false, Option, none, some, arith, ap, Bool-cases, inl, inr,
}
use openwar.Common.Int.{pos, negsuc, ◌+ℤ◌}
use openwar.Common.Text.{Text, codes, text_eq, text_eq_self, eq_of_text_eq}
use openwar.Redis.{Redis, IsLawful, Value, absent, str, num, zset, hash, text_of, add_value}
use openwar.Lua.{release_stock}
use openwar.Lua.Stock.{Holds, count}

module _ (R : Redis) (L : IsLawful R) (res inv : Text) (d : R.Db) where
  count-incr :
      (v : Value)
      → Holds v
      → (Holds (add_value (pos 1) v)) × (count (add_value (pos 1) v) ≡ count v + 1)
  unfolding ◌+ℤ◌
  count-incr absent h = (tt, refl)
  count-incr (num (pos n)) h = ground arith
  count-incr (num (negsuc n)) h = elim h [ ]
  count-incr (str t) h = elim h [ ]
  count-incr (zset xs) h = elim h [ ]
  count-incr (hash f) h = elim h [ ]

  -- A reservation that is RESERVED is refunded: one unit goes back to the counter, the reservation
  -- becomes COMPENSATED, and no other key changes.
  pub release_stock_reserved :
      text_of (R.look d res) ≡ some (codes "RESERVED")
      → text_eq res inv ≡ false
      → text_eq inv res ≡ false
      → Holds (R.look d inv)
      → let d' = (release_stock R res inv d).1 in
        (R.look d' res ≡ str (codes "COMPENSATED"))
        × Holds (R.look d' inv)
        × (count (R.look d' inv) ≡ count (R.look d inv) + 1)
        × ((j : Text) → text_eq res j ≡ false → text_eq inv j ≡ false → R.look d' j ≡ R.look d j)
  unfolding release_stock text_eq
  release_stock_reserved e ri ir h =
      let (h', c) = count-incr (R.look d inv) h in
      rw (e, release_stock)
        (
          rw (L.look-set, text_eq_self),
          rw (L.look-set, ri, L.look-incr, text_eq_self, L.look-set, ri) h',
          rw (L.look-set, ri, L.look-incr, text_eq_self, L.look-set, ri) c,
          λ j rj ij. rw (L.look-set, rj, L.look-incr, ij, L.look-set, rj),
        )

  -- In any other state the script changes nothing.
  pub release_stock_handled :
      text_of (R.look d res) ≢ some (codes "RESERVED") → (release_stock R res inv d).1 ≡ d
  unfolding release_stock
  release_stock_handled n = go (text_of (R.look d res)) refl
    where
      go : (o : Option Text) → text_of (R.look d res) ≡ o → (release_stock R res inv d).1 ≡ d
      go none e = rw (e, release_stock)
      go (some st) e = elim (Bool-cases (text_eq st (codes "RESERVED"))) [
        | inl y ↦ absurd (n (e ∙ ap some (eq_of_text_eq st (codes "RESERVED") y)))
        | inr y ↦ rw (e, y, release_stock)
      ]
