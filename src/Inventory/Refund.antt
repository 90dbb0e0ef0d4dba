-- ===== src/Inventory/Refund.antt =====
-- What a compensation does to the stock of a sku.
use openwar.Common.{
  ℕ, ◌+◌, ◌≤◌, ◌<◌, ◌≡◌, ◌≢◌, refl, ◌⊎◌, inl, inr, ap, ◌∙◌, subst, Option, none, some, List, [],
  ◌∷◌, arith, ◌==◌, ==_iff, Bool-cases,
}
use openwar.Common.Text.{Text, codes, text_eq, text_eq_iff}
use openwar.Common.Int.{ℤ}
use openwar.Breaker.{Outcome, Config, Breaker, closed, circuit_open, failed, done}
use openwar.Redis.{Redis, IsLawful, Net, fine, lost, cut, call, text_of}
use openwar.Lua.{Item, release_stock}
use openwar.Lua.Stock.{Holds, count}
use openwar.Lua.Release.{release_stock_reserved, release_stock_handled}
use openwar.Inventory.{Trip, guarded, compensate, settle, unlatch, parse_sku, is_one, to_int}
use openwar.Inventory.Keys.{
  inventory_key, inventory_key_ne, reservation_key, soldout-inventory, reservation-inventory,
  inventory-reservation,
}
use openwar.Inventory.Effect.{guarded-Ends, guarded_fine}
use openwar.Inventory.Counts.{units, total, IsStocked, sum_ext, sum_put}

module _ (R : Redis) (L : IsLawful R) (cfg : Config) (order sku : Text) (i shards : ℕ)
    (lt : i < shards) where
  -- Nothing is put back, or one unit is.
  abbrev pub Returns : ℕ → R.Db → R.Db → Type 0
  Returns n d d' = IsStocked R d' sku shards × (total R d' sku shards ≡ total R d sku shards + n)

  abbrev pub released : R.Db → R.Db
  released d = (release_stock R (reservation_key order) (inventory_key sku i) d).1

  -- A reservation in the state RESERVED gives its unit back.
  pub released_reserved :
      (d : R.Db)
      → IsStocked R d sku shards
      → text_of (R.look d (reservation_key order)) ≡ some (codes "RESERVED")
      → Returns 1 d (released d)
  released_reserved d ok e =
      let (_, h, c, others) =
        release_stock_reserved R L (reservation_key order) (inventory_key sku i) d e
          (reservation-inventory order sku i) (inventory-reservation order sku i) (ok i lt) in
      (
        λ j jl. elim (Bool-cases (i == j)) [
          | inl here ↦
              subst (λ k. Holds (R.look (released d) (inventory_key sku k))) ((==_iff i j).0 here) h
          | inr there ↦
              rw
                (others (inventory_key sku j) (reservation-inventory order sku j)
                  (inventory_key_ne sku i j (ground arith)))
                (ok j jl)
        ],
        sum_put (units R d sku) (units R (released d) sku) i shards lt (λ j.
            elim (Bool-cases (i == j)) [
              | inl here ↦ rw here (
                  subst (λ k. units R (released d) sku k ≡ units R d sku k + 1)
                    ((==_iff i j).0 here) c)
              | inr there ↦ rw there (
                  ap count (
                    others (inventory_key sku j) (reservation-inventory order sku j)
                      (inventory_key_ne sku i j (ground arith))))
            ]),
      )

  -- In any other state it gives nothing back.
  pub released_handled :
      (d : R.Db)
      → IsStocked R d sku shards
      → text_of (R.look d (reservation_key order)) ≢ some (codes "RESERVED")
      → Returns 0 d (released d)
  released_handled d ok n =
      rw (release_stock_handled R L (reservation_key order) (inventory_key sku i) d n)
        (ok, omega arith)

  abbrev pub Keeps : R.Db → R.Db → Type 0
  Keeps d d' = (j : ℕ) → R.look d' (inventory_key sku j) ≡ R.look d (inventory_key sku j)

  pub Returns-Keeps : (n : ℕ) (d e e' : R.Db) → Keeps e e' → Returns n d e → Returns n d e'
  Returns-Keeps n d e e' k (ok, t) = (
    λ j jl. rw (k j) (ok j jl),
    sum_ext (units R e' sku) (units R e sku) shards (λ j jl. ap count (k j)) ∙ t,
  )

  unlatch-Keeps : (net : Net) (s : Option Text) (d : R.Db) → Keeps d (unlatch R cfg net s d)
  unfolding unlatch call
  unlatch-Keeps net none d j = refl
  unlatch-Keeps fine (some s) d j = rw (L.look-del, soldout-inventory)
  unlatch-Keeps lost (some s) d j = refl
  unlatch-Keeps cut (some s) d j = rw (L.look-del, soldout-inventory)

  settle-Keeps :
      (net : Net) (reply : List Item) (b : Breaker) (d : R.Db)
      → Keeps d (settle R cfg net (inventory_key sku i) reply b d).2
  unfolding settle
  settle-Keeps net [] b d j = refl
  settle-Keeps net (a ∷ []) b d j = refl
  settle-Keeps net (a ∷ c ∷ rest) b d j = elim (Bool-cases (is_one (to_int a))) [
    | inl y ↦ rw (y, settle) (unlatch-Keeps net (parse_sku (inventory_key sku i)) d j)
    | inr y ↦ rw (y, settle)
  ]

  abbrev tripped : Trip → Breaker → R.Db → Outcome (List Item) × Breaker × R.Db
  tripped t b d =
      guarded R cfg t (release_stock R (reservation_key order) (inventory_key sku i)) b d

  compensate_done :
      (t : Trip) (net : Net) (b : Breaker) (d : R.Db) (reply : List Item)
      → (tripped t b d).0 ≡ done reply
      → compensate R cfg t net (reservation_key order) (inventory_key sku i) b d
        ≡ settle R cfg net (inventory_key sku i) reply (tripped t b d).1 (tripped t b d).2
  unfolding compensate
  compensate_done t net b d reply e = rw (e, compensate)

  compensate_error :
      (t : Trip) (net : Net) (b : Breaker) (d : R.Db)
      → ((tripped t b d).0 ≡ failed) ⊎ ((tripped t b d).0 ≡ circuit_open)
      → (compensate R cfg t net (reservation_key order) (inventory_key sku i) b d).2
        ≡ (tripped t b d).2
  unfolding compensate
  compensate_error t net b d (inl e) = rw (e, compensate)
  compensate_error t net b d (inr e) = rw (e, compensate)

  abbrev pub compensated : Trip → Net → Breaker → R.Db → R.Db
  compensated t net b d =
      (compensate R cfg t net (reservation_key order) (inventory_key sku i) b d).2

  settled :
      (t : Trip) (net : Net) (b : Breaker) (d : R.Db)
      → (tripped t b d).0 ≡ done (release_stock R (reservation_key order) (inventory_key sku i) d).0
      → (tripped t b d).2 ≡ released d
      → Keeps (released d) (compensated t net b d)
  settled t net b d e d' j =
      ap (λ (x : Option ℤ × Breaker × R.Db). R.look x.2 (inventory_key sku j))
        (compensate_done t net b d _ e)
      ∙ settle-Keeps net (release_stock R (reservation_key order) (inventory_key sku i) d).0 _ _ j
      ∙ ap (λ x. R.look x (inventory_key sku j)) d'

  -- However the trip goes, the data is as before or as the script left it, but for the latch.
  pub compensated_cases :
      (t : Trip) (net : Net) (b : Breaker) (d : R.Db)
      → (compensated t net b d ≡ d) ⊎ Keeps (released d) (compensated t net b d)
  unfolding compensate
  compensated_cases t net b d =
      elim (guarded-Ends R cfg (release_stock R (reservation_key order) (inventory_key sku i)) d t
        b) [
          | inl (_, e, d') ↦ inr (settled t net b d e d')
          | inr (inl (e, inl d')) ↦ inl (compensate_error t net b d (inl e) ∙ d')
          | inr (inl (e, inr d')) ↦ inr (λ j.
              ap (λ x. R.look x (inventory_key sku j)) (compensate_error t net b d (inl e) ∙ d'))
          | inr (inr (e, d')) ↦ inl (compensate_error t net b d (inr e) ∙ d')
        ]

  -- With Redis at hand and its breaker closed the script runs.
  pub compensated_fine :
      (t : Trip) (net : Net) (b : Breaker) (d : R.Db)
      → t.net ≡ fine
      → b.state ≡ closed
      → Keeps (released d) (compensated t net b d)
  compensated_fine t net b d f c =
      let (e, _, d') =
        guarded_fine R cfg (release_stock R (reservation_key order) (inventory_key sku i)) d t b f
          c in
      settled t net b d e d'

  reserved_or_not :
      (o : Option Text) → (o ≡ some (codes "RESERVED")) ⊎ (o ≢ some (codes "RESERVED"))
  reserved_or_not none = inr (λ e. cc)
  reserved_or_not (some t) = elim (Bool-cases (text_eq t (codes "RESERVED"))) [
    | inl e ↦ inl (ap some ((text_eq_iff t (codes "RESERVED")).0 e))
    | inr e ↦ inr (λ p. ground (arith, text_eq_iff t (codes "RESERVED")))
  ]

  -- Whatever happens, a compensation puts back at most one unit.
  pub compensated_bound :
      (t : Trip) (net : Net) (b : Breaker) (d : R.Db)
      → IsStocked R d sku shards
      → (n : ℕ) × (n ≤ 1) × Returns n d (compensated t net b d)
  compensated_bound t net b d ok = elim (compensated_cases t net b d) [
    | inl same ↦ (0, omega arith, rw same (ok, omega arith))
    | inr k ↦ elim (reserved_or_not (text_of (R.look d (reservation_key order)))) [
      | inl e ↦ (1, omega arith, Returns-Keeps 1 d (released d) _ k (released_reserved d ok e))
      | inr n ↦ (0, omega arith, Returns-Keeps 0 d (released d) _ k (released_handled d ok n))
    ]
  ]
