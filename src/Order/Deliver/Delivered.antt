-- ===== src/Order/Deliver/Delivered.antt =====
-- Messages that are acknowledged: what the order worker then leaves.
use openwar.Common.{
  ℕ, zero, suc, ◌+◌, ◌<◌, ◌≡◌, refl, ap, sym, subst, ◌∙◌, inl, inr, Bool, true, false, Bool-cases,
  some, arith, if◌then◌else◌,
}
use openwar.Breaker.{Config}
use openwar.Redis.{Redis, IsLawful}
use openwar.Store.{Tables, has_order}
use openwar.Store.Laws.{insert_order-has_order}
use openwar.Order.{Event}
use openwar.Order.Worker.{Site, HandleRun, Handled, handled, handle_error, new_order}
use openwar.Order.Worker.Published.{IsPublished, handle_order-IsPublished}
use openwar.Order.Worker.Redelivery.{handled_insertion}
use openwar.Order.Deliver.{
  Fate, acknowledged, given_up, deliver, deliver-suc, is_handled, order_round, deliver_order,
}

abbrev fate_count : Fate → ℕ
fate_count (acknowledged k) = k
fate_count given_up = 0

pub handled_of : (r : Handled) → is_handled r ≡ true → r ≡ handled
handled_of handled e = refl
handled_of handle_error e = cc

module _ (R : Redis) (L : IsLawful R) (cfg : Config) (window : ℕ) (runs : ℕ → HandleRun)
    (ev : Event) where
  abbrev pub IsStored : Site R → Type 0
  IsStored s =
      (has_order ev.order_id s.tables.orders ≡ true) × IsPublished R L cfg ev.order_id s.world.db

  order_round-IsStored :
      (n : ℕ) (s : Site R)
      → (order_round R cfg window runs (some ev) n s).0 ≡ true
      → IsStored (order_round R cfg window runs (some ev) n s).1
  order_round-IsStored n s e =
      let h = handled_of _ e in
      let (ok, t) = handled_insertion R cfg window (runs n) ev s h in
      (
        ap (λ (x : Tables). has_order ev.order_id x.orders) t
            ∙ insert_order-has_order (runs n).db_now (new_order ((runs n).now + window) ev) s.tables
                ok,
        handle_order-IsPublished R L cfg window (runs n) ev s h,
      )

  abbrev round : ℕ → Site R → Bool × Site R
  round = order_round R cfg window runs (some ev)

  -- One round of a loop that acknowledges, by what its handler said.
  after_round :
      (left n k : ℕ) (s : Site R) (ok : Bool)
      → (round n s).0 ≡ ok
      → (deliver round (suc left) n s).0 ≡ acknowledged k
      → (let r =
            if ok
            then (acknowledged n, (round n s).1)
            else deliver round left (suc n) (round n s).1 in
          r.0 ≡ acknowledged k → (k < n + suc left) × IsStored r.1)
      → (k < n + suc left) × IsStored (deliver round (suc left) n s).1
  after_round left n k s ok y e h =
      let q =
        deliver-suc round left n s (round n s).1 ok (ap (λ (b : Bool). (b, (round n s).1)) y) in
      let (lt, st) = h (ap (λ v. v.0) (sym q) ∙ e) in (lt, subst (λ v. IsStored v.1) (sym q) st)

  -- A loop that acknowledges does so within its rounds.
  rounds-IsStored :
      (left n k : ℕ) (s : Site R)
      → (deliver (order_round R cfg window runs (some ev)) left n s).0 ≡ acknowledged k
      → (k < n + left) × IsStored (deliver (order_round R cfg window runs (some ev)) left n s).1
  unfolding deliver
  rounds-IsStored zero n k s e = cc
  rounds-IsStored (suc left) n k s e =
      elim (Bool-cases (order_round R cfg window runs (some ev) n s).0) [
        | inl y ↦
            after_round left n k s true y e
              (λ q. (omega (arith, ap fate_count q), order_round-IsStored n s y))
        | inr y ↦
            after_round left n k s false y e
              (λ q. let (lt, st) = rounds-IsStored left (suc n) k _ q in (omega (arith, lt), st))
      ]

  -- When the order worker acknowledges an order's event, it does so within five deliveries, and
  -- then the order is in the table and its reservation is PUBLISHED, however the deliveries before
  -- it went.
  pub deliver_order-IsStored :
      (s : Site R) (k : ℕ)
      → (deliver_order R cfg window runs (some ev) s).0 ≡ acknowledged k
      → (k < 5) × IsStored (deliver_order R cfg window runs (some ev) s).1
  unfolding deliver_order
  deliver_order-IsStored s k e = rounds-IsStored 5 0 k s e
