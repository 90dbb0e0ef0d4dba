-- ===== src/Inventory/Fine.antt =====
-- `Reserve` while Redis answers every trip: the sweep against a plain search.
use native.Mathlib.Nat.{mod-lt}
use openwar.Common.{
  ℕ, zero, suc, ◌+◌, ◌-◌, ◌%◌, ◌^◌, ◌<◌, ◌≡◌, ◌↔◌, refl, ◌==◌, inl, inr, Bool-cases, false, arith,
  if◌then◌else◌, ◌∙◌, ap, subst, Option, none, some, Option-cases,
}
use openwar.Common.Text.{Text, codes, text_eq_self}
use openwar.Breaker.{Config, Breaker, closed}
use openwar.Redis.{Redis, IsLawful, absent, str, fine, exists}
use openwar.Lua.{reserve_stock}
use openwar.Inventory.{
  Trip, Swept, took, exhausted, Reserved, reserved, sold_out, guarded, sweep, is_sold_out,
  latch_sold_out, latch_if, probe_if, reserve, verdict, take, go_on,
}
use openwar.Inventory.Hash.{shard_for, shard_for-lt}
use openwar.Inventory.Keys.{inventory_key, soldout_key}
use openwar.Inventory.Effect.{guarded_fine}
use openwar.Inventory.Counts.{
  units, total, IsStocked, reserve_stock-units, reserve_stock-IsStocked, reserve_stock-total,
  reserve_stock-reply,
}
use openwar.Inventory.Search.{
  first_stocked, first_stocked-none, first_stocked-some, covered, sum_zero, sum_pos,
}

module _ (R : Redis) (cfg : Config) (trips : ℕ → Trip) (sku : Text) (home shards : ℕ) where
  -- The search's answer as the sweep gives it.
  abbrev pub answer : Option ℕ → Swept
  answer none = exhausted
  answer (some o) = took (inventory_key sku ((home + o) % shards))

  abbrev pub units_taken : Option ℕ → ℕ
  units_taken none = 0
  units_taken (some o) = 1

  module _ (L : IsLawful R) (fine_trips : (n : ℕ) → (trips n).net ≡ fine)
      (pos_shards : 0 < shards) where
    -- On what a shard holds, one probe takes a unit or goes on, and the breaker stays closed.
    Probed : ℕ → Breaker → R.Db → Trip → Type 0
    Probed i b d t =
        let r = guarded R cfg t (reserve_stock R (inventory_key sku i)) b d in
        (verdict r.0 ≡ (if units R d sku i == 0 then go_on else take))
        × (r.1.state ≡ closed)
        × IsStocked R r.2 sku shards
        × ((j : ℕ) → units R r.2 sku j ≡ (if i == j then units R d sku j - 1 else units R d sku j))
        × (total R r.2 sku shards + (if units R d sku i == 0 then 0 else 1) ≡ total R d sku shards)

    probed :
        (i : ℕ) (t : Trip) (b : Breaker) (d : R.Db)
        → t.net ≡ fine
        → b.state ≡ closed
        → i < shards
        → IsStocked R d sku shards
        → Probed i b d t
    unfolding Probed verdict
    probed i t b d f c lt ok =
        let (r, c', d') = guarded_fine R cfg (reserve_stock R (inventory_key sku i)) d t b f c in
        rw (r, d')
          (
            ground (arith, reserve_stock-reply R L d sku i shards lt ok),
            c',
            reserve_stock-IsStocked R L d sku i shards lt ok,
            reserve_stock-units R L d sku i shards lt ok,
            reserve_stock-total R L d sku i shards lt ok,
          )

    -- While every trip succeeds and the breaker is closed, the sweep finds what the plain search
    -- finds, and takes exactly that unit.
    pub sweep-first_stocked :
        (f : ℕ → ℕ) (left offset : ℕ) (b : Breaker) (d : R.Db)
        → b.state ≡ closed
        → IsStocked R d sku shards
        → ((o : ℕ) → units R d sku ((home + o) % shards) ≡ f o)
        → let r = sweep R cfg trips sku home shards left offset b d in
          (r.0 ≡ answer (first_stocked f left offset))
          × (r.1.state ≡ closed)
          × (total R r.2 sku shards + units_taken (first_stocked f left offset)
              ≡ total R d sku shards)
    unfolding sweep first_stocked Probed
    sweep-first_stocked f zero offset b d c ok h = (refl, c, omega arith)
    sweep-first_stocked f (suc left) offset b d c ok h =
        let i : ℕ = (home + offset) % shards in
        let t = trips (suc offset) in
        let (v, c', ok', u, tot) =
          probed i t b d (fine_trips (suc offset)) c (mod-lt (home + offset) pos_shards) ok in
        elim (Bool-cases (f offset == 0)) [
          | inl empty ↦
              let none_here : units R d sku i ≡ 0 = ground (arith, h offset) in
              let go : verdict (guarded R cfg t (reserve_stock R (inventory_key sku i)) b d).0
                  ≡ go_on =
                v ∙ ground arith in
              let (r, c'', tot') =
                sweep-first_stocked f left (suc offset)
                  (guarded R cfg t (reserve_stock R (inventory_key sku i)) b d).1
                  (guarded R cfg t (reserve_stock R (inventory_key sku i)) b d).2 c' ok'
                  (λ o. u ((home + o) % shards) ∙ ground (arith, h o)) in
              rw (empty, go, sweep) (r, c'', tot' ∙ ground arith)
          | inr found ↦
              let go : verdict (guarded R cfg t (reserve_stock R (inventory_key sku i)) b d).0
                  ≡ take =
                v ∙ ground (arith, h offset) in
              rw (found, go, sweep) (refl, c', ground (arith, h offset))
        ]

reserved_ne : (k : Text) → ¬ (reserved k ≡ sold_out)
reserved_ne k e = cc

module _ (R : Redis) (cfg : Config) (trips : ℕ → Trip) (sku user : Text) (shards : ℕ) where
  -- The units at an offset from the user's home shard.
  abbrev pub at_offset : R.Db → ℕ → ℕ
  at_offset d o = units R d sku ((shard_for user shards + o) % shards)

  abbrev pub first_for : R.Db → Option ℕ
  first_for d = first_stocked (at_offset d) shards 0

  abbrev pub reply_for : Option ℕ → Reserved
  reply_for none = sold_out
  reply_for (some o) = reserved (inventory_key sku ((shard_for user shards + o) % shards))

  is_sold_out_fine :
      (t : Trip) (b : Breaker) (d : R.Db)
      → t.net ≡ fine
      → b.state ≡ closed
      → let r = is_sold_out R cfg t sku b d in
        (r.0 ≡ exists (R.look d (soldout_key sku))) × (r.1.state ≡ closed) × (r.2 ≡ d)
  unfolding is_sold_out
  is_sold_out_fine t b d f c =
      let (r, c', d') =
        guarded_fine R cfg (λ x. (exists (R.look x (soldout_key sku)), x)) d t b f c in
      rw (r, is_sold_out) (refl, c', d')

  latch_fine :
      (L : IsLawful R) (t : Trip) (b : Breaker) (d : R.Db)
      → t.net ≡ fine
      → b.state ≡ closed
      → R.look (latch_sold_out R cfg t sku b d).1 (soldout_key sku) ≡ str (codes "1")
  unfolding latch_sold_out
  latch_fine L t b d f c =
      let (r, c', d') =
        guarded_fine {A = Unit {0}} R cfg (λ x. (tt, R.set x (soldout_key sku) (codes "1") 0)) d t b
          f c in
      rw (d', L.look-set, text_eq_self)

  module _ (L : IsLawful R) (fine_trips : (n : ℕ) → (trips n).net ≡ fine)
      (pos_shards : 0 < shards) where
    latch_if_reply :
        (o : Option ℕ) (s : Swept) (b : Breaker) (d : R.Db)
        → s ≡ answer R cfg trips sku (shard_for user shards) shards o
        → (latch_if R cfg trips sku shards (s, b, d)).0 ≡ reply_for o
    unfolding latch_if
    latch_if_reply none s b d e = rw (e, latch_if)
    latch_if_reply (some o) s b d e = rw (e, latch_if)

    -- While Redis answers every trip, the breaker is closed, the latch is clear, no counter is
    -- negative and there is a shard, `Reserve` returns the first shard that has a unit, in the
    -- order that starts at the user's home shard, and `ErrSoldOut` if none has.
    pub reserve-first_for :
        (b : Breaker) (d : R.Db)
        → b.state ≡ closed
        → IsStocked R d sku shards
        → R.look d (soldout_key sku) ≡ absent
        → (reserve R cfg trips sku user shards b d).0 ≡ reply_for (first_for d)
    unfolding reserve probe_if
    reserve-first_for b d c ok clear =
        let (x, c', d') = is_sold_out_fine (trips 0) b d (fine_trips 0) c in
        let e : (is_sold_out R cfg (trips 0) sku b d).0 ≡ false = x ∙ ap exists clear in
        let (r, _, _) =
          sweep-first_stocked R cfg trips sku (shard_for user shards) shards L fine_trips pos_shards
            (at_offset d) shards 0 (is_sold_out R cfg (trips 0) sku b d).1 d c' ok (λ o. refl) in
        rw (e, d') (latch_if_reply (first_for d) _ _ _ r)

    first_for_iff :
        (d : R.Db)
        → shards < 2 ^ 32
        → (reply_for (first_for d) ≡ sold_out) ↔ (total R d sku shards ≡ 0)
    first_for_iff d w = elim (Option-cases (first_for d)) [
      | inl e ↦
          let empty : (i : ℕ) → i < shards → units R d sku i ≡ 0 = λ i lt.
            let (o, ol, oe) =
              covered (shard_for user shards) shards i (shard_for-lt user shards pos_shards w) lt in
            subst (λ k. units R d sku k ≡ 0) oe
              (first_stocked-none (at_offset d) shards 0 o e (omega arith) (omega arith)) in
          (λ r. sum_zero (units R d sku) shards empty, λ t. rw e)
      | inr (o, e) ↦
          let (_, _, p) = first_stocked-some (at_offset d) shards 0 o e in
          let some_left =
            sum_pos (units R d sku) shards _ (mod-lt (shard_for user shards + o) pos_shards) p in
          (λ r. absurd (reserved_ne _ (rw e at r)), λ t. absurd (omega arith))
    ]

    -- While Redis answers every trip, the breaker is closed, the latch is clear, no counter is
    -- negative, and there are at least one and fewer than 2^32 shards, `Reserve` returns
    -- `ErrSoldOut` exactly when no shard has a unit left.
    reserve-sold_out_iff :
        (b : Breaker) (d : R.Db)
        → shards < 2 ^ 32
        → b.state ≡ closed
        → IsStocked R d sku shards
        → R.look d (soldout_key sku) ≡ absent
        → ((reserve R cfg trips sku user shards b d).0 ≡ sold_out) ↔ (total R d sku shards ≡ 0)
    reserve-sold_out_iff b d w c ok clear =
        rw (reserve-first_for b d c ok clear) (first_for_iff d w)
