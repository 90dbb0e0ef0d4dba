-- ===== src/Sale/Balance.antt =====
-- No interleaving makes units: what is in stock, in hand and in reservations never adds up to more.
use openwar.Common.{
  ℕ, ◌+◌, ◌≤◌, ◌<◌, ◌≡◌, refl, ap, sym, subst, ◌∙◌, ◌⊎◌, inl, inr, Bool, true, false, Option, none,
  some, List, [], ◌∷◌, arith, if◌then◌else◌, Bool-cases, ◌==◌,
}
use openwar.Common.Int.{pos}
use openwar.Common.Text.{Text, codes, text_eq, text_eq_self, text_eq_iff}
use openwar.Breaker.{new_config, default_config}
use openwar.Redis.{Redis, IsLawful, text_of}
use openwar.Lua.{reserve_stock, release_stock}
use openwar.Lua.Stock.{count, reserve_stock_lem}
use openwar.Lua.Release.{release_stock_reserved, release_stock_handled}
use openwar.Inventory.Keys.{
  inventory_key, reservation_key, reservation-inventory, inventory-reservation,
}
use openwar.Inventory.Counts.{
  units, total, IsStocked, sum_ext, reserve_stock-IsStocked, reserve_stock-total,
  reserve_stock-reply,
}
use openwar.Inventory.Refund.{released_reserved}
use openwar.Store.{any_text}
use openwar.Sale.{
  says_reserved, System, sys, reserved_units, Step, take, miss, enter, compensate_marked,
  compensate_held, retire, other, Reach, here, next,
}

reservation_key_eq : (a b : Text) → text_eq (reservation_key a) (reservation_key b) ≡ text_eq a b
unfolding reservation_key text_eq
reservation_key_eq a b = refl

says_reserved-true : (o : Option Text) → says_reserved o ≡ true → o ≡ some (codes "RESERVED")
says_reserved-true none e = cc
says_reserved-true (some st) e = ap some ((text_eq_iff st (codes "RESERVED")).0 e)

text_eq_sym : (a b : Text) → text_eq a b ≡ false → text_eq b a ≡ false
text_eq_sym a b e = ground (arith, text_eq_iff a b, text_eq_iff b a)

module _ (R : Redis) where
  abbrev is_reserved : R.Db → Text → Bool
  is_reserved d id = says_reserved (text_of (R.look d (reservation_key id)))

  -- Two servers that agree on every reservation but one.
  abbrev Apart : Text → R.Db → R.Db → Type 0
  Apart id d d' =
      (x : Text)
      → text_eq id x ≡ false
      → R.look d' (reservation_key x) ≡ R.look d (reservation_key x)

  -- Two servers that agree on the listed reservations.
  reserved_same :
      (d d' : R.Db) (ids : List Text)
      → ((id : Text)
          → any_text id ids ≡ true
          → R.look d' (reservation_key id) ≡ R.look d (reservation_key id))
      → reserved_units R d' ids ≡ reserved_units R d ids
  unfolding any_text
  reserved_same d d' [] h = refl
  reserved_same d d' (x ∷ ids) h =
      let here = h x (rw (text_eq_self x) refl) in
      rw (here, reserved_same d d' ids (λ id m. h id (ground (arith, m)))) refl

  -- Where one reservation has changed to something else than RESERVED, no more units are reserved, and
  -- one fewer if it was listed and RESERVED.
  reserved_fewer :
      (id : Text) (d d' : R.Db) (ids : List Text)
      → is_reserved d' id ≡ false
      → Apart id d d'
      → reserved_units R d' ids
          + (if any_text id ids then (if is_reserved d id then 1 else 0) else 0)
        ≤ reserved_units R d ids
  unfolding any_text
  reserved_fewer id d d' [] gone same = omega arith
  reserved_fewer id d d' (x ∷ ids) gone same = elim (Bool-cases (text_eq x id)) [
    | inl e ↦
        let q : x ≡ id = (text_eq_iff x id).0 e in
        ground (
          arith,
          e,
          reserved_fewer id d d' ids gone same,
          subst (λ k. is_reserved d' k ≡ false) (sym q) gone,
          ap (is_reserved d) q,
        )
    | inr e ↦
        let q : R.look d' (reservation_key x) ≡ R.look d (reservation_key x) =
          same x (text_eq_sym x id e) in
        rw (q, e) (omega (arith, reserved_fewer id d d' ids gone same))
  ]

  -- A change of one reservation that is not listed.
  reserved-Apart :
      (id : Text) (d d' : R.Db) (ids : List Text)
      → any_text id ids ≡ false
      → Apart id d d'
      → reserved_units R d' ids ≡ reserved_units R d ids
  unfolding any_text
  reserved-Apart id d d' [] a same = refl
  reserved-Apart id d d' (x ∷ ids) a same =
      let e : text_eq x id ≡ false = ground (arith, a) in
      let q : R.look d' (reservation_key x) ≡ R.look d (reservation_key x) =
        same x (text_eq_sym x id e) in
      rw (q, reserved-Apart id d d' ids (ground (arith, a)) same) refl

module _ (R : Redis) (sku : Text) (shards : ℕ) where
  -- What a step may not change for the stock to be as before.
  abbrev Agrees : R.Db → R.Db → Type 0
  Agrees d d' =
      (i : ℕ) → i < shards → R.look d' (inventory_key sku i) ≡ R.look d (inventory_key sku i)

  stock_same :
      (d d' : R.Db)
      → Agrees d d'
      → IsStocked R d sku shards
      → IsStocked R d' sku shards × (total R d' sku shards ≡ total R d sku shards)
  stock_same d d' a ok = (
    λ i lt. rw (a i lt) (ok i lt),
    sum_ext (units R d' sku) (units R d sku) shards (λ i lt. ap count (a i lt)),
  )

  -- At most `n` units in stock, in hand and in reservations, and no counter is negative.
  abbrev pub IsBalanced : ℕ → System R → Type 0
  IsBalanced n s =
      IsStocked R s.db sku shards
      × (total R s.db sku shards + s.held + reserved_units R s.db s.marked ≤ n)

  module _ (L : IsLawful R) where
    probe_balance :
        (d : R.Db) (ids : List Text) (i : ℕ)
        → i < shards
        → IsStocked R d sku shards
        → let r = reserve_stock R (inventory_key sku i) d in
          IsStocked R r.1 sku shards
          × (total R r.1 sku shards + (if units R d sku i == 0 then 0 else 1)
              ≡ total R d sku shards)
          × (r.0.0 ≡ (if units R d sku i == 0 then pos 0 else pos 1))
          × (reserved_units R r.1 ids ≡ reserved_units R d ids)
    probe_balance d ids i lt ok =
        let (_, _, others) = reserve_stock_lem R L (inventory_key sku i) d (ok i lt) in
        (
          reserve_stock-IsStocked R L d sku i shards lt ok,
          reserve_stock-total R L d sku i shards lt ok,
          reserve_stock-reply R L d sku i shards lt ok,
          reserved_same R d _ ids
              (λ id m. others (reservation_key id) (inventory-reservation id sku i)),
        )

    reserved_gives :
        (d : R.Db) (ids : List Text) (id : Text) (i : ℕ)
        → i < shards
        → IsStocked R d sku shards
        → is_reserved R d id ≡ true
        → let d' = (release_stock R (reservation_key id) (inventory_key sku i) d).1 in
          IsStocked R d' sku shards
          × (total R d' sku shards ≡ total R d sku shards + 1)
          × (reserved_units R d' ids + (if any_text id ids then 1 else 0) ≤ reserved_units R d ids)
    unfolding text_eq
    reserved_gives d ids id i lt ok e =
        let o = says_reserved-true (text_of (R.look d (reservation_key id))) e in
        let d' = (release_stock R (reservation_key id) (inventory_key sku i) d).1 in
        let (ok', t) =
          released_reserved R L (new_config default_config) id sku i shards lt d ok o in
        let (c, _, _, others) =
          release_stock_reserved R L (reservation_key id) (inventory_key sku i) d o
            (reservation-inventory id sku i) (inventory-reservation id sku i) (ok i lt) in
        let f = reserved_fewer R id d d' ids (ap (λ v. says_reserved (text_of v)) c) (λ x n.
          others (reservation_key x) (reservation_key_eq id x ∙ n)
            (inventory-reservation x sku i)) in
        (
          ok',
          t,
          subst
              (λ (b : Bool).
                reserved_units R d' ids + (if any_text id ids then (if b then 1 else 0) else 0)
                ≤ reserved_units R d ids)
              e f,
        )

    -- In any other state the script leaves everything.
    handled_gives :
        (d : R.Db) (id : Text) (i : ℕ)
        → is_reserved R d id ≡ false
        → (release_stock R (reservation_key id) (inventory_key sku i) d).1 ≡ d
    handled_gives d id i e =
        release_stock_handled R L (reservation_key id) (inventory_key sku i) d
          (λ q. cc (sym e ∙ ap says_reserved q ∙ text_eq_self (codes "RESERVED")))

    compensate_balance :
        (n : ℕ) (s : System R) (id : Text) (i held : ℕ)
        → i < shards
        → (held + 1 ≤ s.held) ⊎ (any_text id s.marked ≡ true) × (held ≡ s.held)
        → IsBalanced n s
        → IsBalanced n (
            sys R (release_stock R (reservation_key id) (inventory_key sku i) s.db).1 held s.marked)
    compensate_balance n s id i held lt h (ok, le) = elim (Bool-cases (is_reserved R s.db id)) [
      | inl e ↦
          let (ok', t, f) = reserved_gives s.db s.marked id i lt ok e in
          (ok', ground (arith, t, f, le, h))
      | inr e ↦ let q = handled_gives s.db id i e in rw q (ok, ground (arith, le, h))
    ]

    -- Every step keeps the balance.
    Step-IsBalanced :
        (n : ℕ) {s t : System R} → Step R sku shards s t → IsBalanced n s → IsBalanced n t
    Step-IsBalanced n {s} (take i lt r e) (ok, le) =
        let (ok', t, reply, m) = probe_balance s.db s.marked i lt ok in
        rw e (ok', ground (arith, t, m, le, sym r ∙ reply))
    Step-IsBalanced n {s} (miss i lt e) (ok, le) =
        let (ok', t, _, m) = probe_balance s.db s.marked i lt ok in
        rw e (ok', ground (arith, t, m, le))
    Step-IsBalanced n {s} (enter id k ttl h new e) (ok, le) =
        let d' = R.set s.db (reservation_key id) (codes "RESERVED") ttl in
        let (ok', t) =
          stock_same s.db d' (λ i lt. rw (L.look-set, reservation-inventory id sku i) refl) ok in
        let f =
          reserved-Apart R id s.db d' s.marked new
            (λ x m. rw (L.look-set, reservation_key_eq id x, m) refl) in
        rw e (ok', ground (arith, t, f, le, h))
    Step-IsBalanced n {s} (compensate_marked id i lt m e) b =
        rw e (compensate_balance n s id i s.held lt (inr (m, refl)) b)
    Step-IsBalanced n {s} (compensate_held id i k lt h e) b =
        rw e (compensate_balance n s id i k lt (inl (omega arith)) b)
    Step-IsBalanced n {s} (retire id d g same e) (ok, le) =
        let (ok', t) =
          stock_same s.db d (λ i lt. same (inventory_key sku i) (reservation-inventory id sku i))
            ok in
        let f =
          reserved_fewer R id s.db d s.marked g
            (λ x m. same (reservation_key x) (reservation_key_eq id x ∙ m)) in
        rw e (ok', omega (arith, t, f, le))
    Step-IsBalanced n {s} (other d a b e) (ok, le) =
        let (ok', t) = stock_same s.db d a ok in
        rw e (ok', omega (arith, t, reserved_same R s.db d s.marked b, le))

    -- From counters that are not negative, with nothing in hand and nothing reserved, and whatever
    -- steps of a sale follow one another, the units in stock, in hand and in RESERVED reservations
    -- never add up to more than there were in stock, and no counter becomes negative: no retry, lost
    -- reply or race makes a unit.
    pub Reach-IsBalanced :
        (d : R.Db) {t : System R}
        → IsStocked R d sku shards
        → Reach R sku shards (sys R d 0 []) t
        → IsStocked R t.db sku shards
          × (total R t.db sku shards + t.held + reserved_units R t.db t.marked
              ≤ total R d sku shards)
    Reach-IsBalanced d ok here = (ok, omega arith)
    Reach-IsBalanced d ok (next r st) =
        Step-IsBalanced (total R d sku shards) st (Reach-IsBalanced d ok r)
