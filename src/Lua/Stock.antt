-- ===== src/Lua/Stock.antt =====
-- reserve_stock.lua on a counter that is not negative.
use openwar.Common.{
  ℕ, zero, suc, ◌-◌, ◌≡◌, refl, false, arith, ◌==◌, if◌then◌else◌, Bool-cases, inl, inr,
}
use openwar.Common.Int.{is_neg, ℤ, pos, negsuc, ◌+ℤ◌}
use openwar.Common.Text.{Text, text_eq, text_eq_self}
use openwar.Redis.{Redis, IsLawful, Value, absent, str, num, zset, hash, add_value, int_of}
use openwar.Lua.{reserve_stock}

-- A key that holds a count of units, or is missing.
abbrev pub Holds : Value → Type 0
Holds absent = Unit
Holds (num (pos n)) = Unit
Holds _ = ⊥

abbrev pub count : Value → ℕ
count (num (pos n)) = n
count _ = 0

module _ (R : Redis) (L : IsLawful R) (key : Text) (d : R.Db) where
  decr_then : R.look (R.decr d key) key ≡ add_value (negsuc 0) (R.look d key)
  decr_then = rw (L.look-decr, text_eq_self key)

  decr_incr :
      R.look (R.incr (R.decr d key) key) key
      ≡ add_value (pos 1) (add_value (negsuc 0) (R.look d key))
  decr_incr = rw (L.look-incr, text_eq_self key, decr_then)

  after_decr :
      (w : ℤ)
      → R.look (R.decr d key) key ≡ num w
      → ((reserve_stock R key d).0.0 ≡ (if is_neg w then pos 0 else pos 1))
        × (R.look (reserve_stock R key d).1 key ≡ (if is_neg w then num (w +ℤ pos 1) else num w))
  unfolding reserve_stock
  after_decr (pos m) e = rw e (refl, e)
  after_decr (negsuc m) e = rw e (refl, rw (L.look-incr, text_eq_self key, e))

  on_key :
      (v : Value)
      → R.look d key ≡ v
      → Holds v
      → ((reserve_stock R key d).0.0 ≡ (if count v == 0 then pos 0 else pos 1))
        × (R.look (reserve_stock R key d).1 key ≡ num (pos (count v - 1)))
  unfolding ◌+ℤ◌
  on_key absent e h = after_decr (negsuc 0) (rw (decr_then, e))
  on_key (num (pos zero)) e h = after_decr (negsuc 0) (rw (decr_then, e))
  on_key (num (pos (suc n))) e h =
      ground (arith, after_decr (pos n) (rw (decr_then, e) (ground arith)))
  on_key (num (negsuc n)) e h = elim h [ ]
  on_key (str t) e h = elim h [ ]
  on_key (zset xs) e h = elim h [ ]
  on_key (hash f) e h = elim h [ ]

  on_other : (j : Text) → text_eq key j ≡ false → R.look (reserve_stock R key d).1 j ≡ R.look d j
  unfolding reserve_stock
  on_other j ne = elim (Bool-cases (is_neg (int_of (R.look (R.decr d key) key)))) [
    | inl e ↦ rw (e, L.look-incr, ne, L.look-decr, ne)
    | inr e ↦ rw (e, L.look-decr, ne)
  ]

  -- On a counter the script takes a unit exactly when there is one: its reply says so, the counter
  -- goes down by one if it can and stays if not, and no other key changes.
  pub reserve_stock_lem :
      Holds (R.look d key)
      → ((reserve_stock R key d).0.0 ≡ (if count (R.look d key) == 0 then pos 0 else pos 1))
        × (R.look (reserve_stock R key d).1 key ≡ num (pos (count (R.look d key) - 1)))
        × ((j : Text) → text_eq key j ≡ false → R.look (reserve_stock R key d).1 j ≡ R.look d j)
  reserve_stock_lem h = let (reply, left) = on_key (R.look d key) refl h in (reply, left, on_other)
