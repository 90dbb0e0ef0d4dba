-- ===== src/Sale/Runs.antt =====
-- `Reserve` and `Place` are runs of the steps of a sale, however their trips go.
use openwar.Common.{
  ℕ, zero, suc, ◌+◌, ◌%◌, ◌<◌, ◌≡◌, refl, ap, subst, ◌⊎◌, inl, inr, Bool, true, false, List, arith,
  Bool-cases,
}
use native.Mathlib.Nat.{mod-lt}
use openwar.Common.Int.{ℤ, pos, negsuc}
use openwar.Common.Text.{Text, codes, text_eq}
use openwar.Breaker.{Config, Breaker}
use openwar.Redis.{Redis, IsLawful}
use openwar.Lua.{reserve_stock}
use openwar.Inventory.{
  Trip, Swept, took, stopped, exhausted, Verdict, verdict, guarded, is_one, sweep, latch_if,
  probe_if, latch_sold_out, is_sold_out, reserve, Reserved, reserved,
}
use openwar.Inventory.Effect.{guarded-Ends}
use openwar.Inventory.Hash.{shard_for}
use openwar.Inventory.Keys.{
  inventory_key, soldout_key, reservation_key, soldout-inventory, soldout-reservation,
}
use openwar.Inventory.Reserve.{is_sold_out_reads}
use openwar.Sale.{System, sys, Step, take, miss, other, Reach, here, next}

module _ (R : Redis) (sku : Text) (shards : ℕ) where
  pub Reach-trans :
      {s t u : System R} → Reach R sku shards s t → Reach R sku shards t u → Reach R sku shards s u
  Reach-trans r here = r
  Reach-trans r (next q st) = next (Reach-trans r q) st

  pub one : {s t : System R} → Step R sku shards s t → Reach R sku shards s t
  one st = next here st

  pub stays :
      (d d' : R.Db) (h : ℕ) (m : List Text)
      → d' ≡ d
      → Reach R sku shards (sys R d h m) (sys R d' h m)
  stays d d' h m e = rw e here

module _ (R : Redis) (L : IsLawful R) (cfg : Config) (sku : Text) (shards : ℕ) (m : List Text) where
  -- Setting or clearing a latch changes neither the stock nor a reservation.
  pub latch_other :
      (t : Text) (d d' : R.Db) (h : ℕ)
      → ((k : Text) → text_eq (soldout_key t) k ≡ false → R.look d' k ≡ R.look d k)
      → Reach R sku shards (sys R d h m) (sys R d' h m)
  latch_other t d d' h same = one R sku shards (
      other d' (λ i lt. same (inventory_key sku i) (soldout-inventory t sku i))
        (λ id a. same (reservation_key id) (soldout-reservation t id)) refl)

  -- The units in hand after a probe, a sweep and a reservation.
  abbrev in_hand : Verdict → ℕ → ℕ
  in_hand Verdict.take h = suc h
  in_hand _ h = h

  abbrev swept_hand : Swept → ℕ → ℕ
  swept_hand (took key) h = suc h
  swept_hand _ h = h

  abbrev pub reserved_hand : Reserved → ℕ → ℕ
  reserved_hand (reserved key) h = suc h
  reserved_hand _ h = h

  Verdict-cases : (v : Verdict) → (v ≡ Verdict.take) ⊎ (v ≡ Verdict.stop) ⊎ (v ≡ Verdict.go_on)
  Verdict-cases Verdict.take = inl refl
  Verdict-cases Verdict.stop = inr (inl refl)
  Verdict-cases Verdict.go_on = inr (inr refl)

  is_one-true : (z : ℤ) → is_one z ≡ true → z ≡ pos 1
  is_one-true (pos n) e = ap pos (ground arith)
  is_one-true (negsuc n) e = cc

  probe-Reach :
      (i : ℕ) (t : Trip) (b : Breaker) (d : R.Db) (h : ℕ)
      → i < shards
      → let r = guarded R cfg t (reserve_stock R (inventory_key sku i)) b d in
        Reach R sku shards (sys R d h m) (sys R r.2 (in_hand (verdict r.0) h) m)
  unfolding verdict
  probe-Reach i t b d h lt =
      elim (guarded-Ends R cfg (reserve_stock R (inventory_key sku i)) d t b) [
        | inl (_, r, d') ↦
            elim (Bool-cases (is_one (reserve_stock R (inventory_key sku i) d).0.0)) [
              | inl y ↦ rw (r, d', y, verdict) (one R sku shards (take i lt (is_one-true _ y) refl))
              | inr y ↦ rw (r, d', y, verdict) (one R sku shards (miss i lt refl))
            ]
        | inr (inl (r, inl d')) ↦ rw (r, d') here
        | inr (inl (r, inr d')) ↦ rw (r, d') (one R sku shards (miss i lt refl))
        | inr (inr (r, d')) ↦ rw (r, d') here
      ]

  module _ (trips : ℕ → Trip) (home : ℕ) (pos_shards : 0 < shards) where
    sweep-Reach :
        (left offset : ℕ) (b : Breaker) (d : R.Db) (h : ℕ)
        → let r = sweep R cfg trips sku home shards left offset b d in
          Reach R sku shards (sys R d h m) (sys R r.2 (swept_hand r.0 h) m)
    unfolding sweep
    sweep-Reach zero offset b d h = here
    sweep-Reach (suc left) offset b d h =
        let i : ℕ = (home + offset) % shards in
        let r = guarded R cfg (trips (suc offset)) (reserve_stock R (inventory_key sku i)) b d in
        let p = λ (v : Verdict) (e : verdict r.0 ≡ v).
          subst (λ x. Reach R sku shards (sys R d h m) (sys R r.2 (in_hand x h) m)) e
            (probe-Reach i (trips (suc offset)) b d h (mod-lt (home + offset) pos_shards)) in
        elim (Verdict-cases (verdict r.0)) [
          | inl e ↦ rw (e, sweep) (p Verdict.take e)
          | inr (inl e) ↦ rw (e, sweep) (p Verdict.stop e)
          | inr (inr e) ↦
              rw (e, sweep)
                (Reach-trans R sku shards (p Verdict.go_on e)
                  (sweep-Reach left (suc offset) r.1 r.2 h))
        ]

    latch_if-Reach :
        (r : Swept) (b : Breaker) (d : R.Db) (h : ℕ)
        → let x = latch_if R cfg trips sku shards (r, b, d) in
          Reach R sku shards (sys R d (swept_hand r h) m) (sys R x.2 (reserved_hand x.0 h) m)
    unfolding latch_if latch_sold_out
    latch_if-Reach (took key) b d h = here
    latch_if-Reach stopped b d h = here
    latch_if-Reach exhausted b d h =
        elim (guarded-Ends {A = Unit {0}} R cfg (λ x. (tt, R.set x (soldout_key sku) (codes "1") 0))
          d (trips (suc shards)) b) [
            | inl (_, r, d') ↦ latch_other sku d _ h (λ k n. rw (d', L.look-set, n) refl)
            | inr (inl (r, inl d')) ↦ stays R sku shards d _ h m d'
            | inr (inl (r, inr d')) ↦ latch_other sku d _ h (λ k n. rw (d', L.look-set, n) refl)
            | inr (inr (r, d')) ↦ stays R sku shards d _ h m d'
          ]

  -- However its trips go, `Reserve` is a run of steps after which one more unit is in hand if it
  -- returns a key, and none if not.
  pub reserve-Reach :
      (trips : ℕ → Trip) (user : Text) (b : Breaker) (d : R.Db) (h : ℕ)
      → 0 < shards
      → let x = reserve R cfg trips sku user shards b d in
        Reach R sku shards (sys R d h m) (sys R x.2 (reserved_hand x.0 h) m)
  unfolding reserve probe_if
  reserve-Reach trips user b d h pos_shards =
      let s = is_sold_out R cfg (trips 0) sku b d in
      Reach-trans R sku shards
        (stays R sku shards d s.2 h m (is_sold_out_reads R cfg trips sku user shards (trips 0) b d))
        (probed s.0 s.1 s.2)
    where
      probed :
          (x : Bool) (b' : Breaker) (d' : R.Db)
          → let y = probe_if R cfg trips sku user shards (x, b', d') in
            Reach R sku shards (sys R d' h m) (sys R y.2 (reserved_hand y.0 h) m)
      probed true b' d' = here
      probed false b' d' =
          let home = shard_for user shards in
          let w = sweep R cfg trips sku home shards shards 0 b' d' in
          Reach-trans R sku shards (sweep-Reach trips home pos_shards shards 0 b' d' h)
            (latch_if-Reach trips home pos_shards w.0 w.1 w.2 h)
