-- ===== src/Order/Deliver/Given.antt =====
-- Messages that end without an effect: an order that no delivery stores, a timeout that fails half-way.
use openwar.Common.{
  ℕ, zero, suc, ◌+◌, ◌≡◌, ◌≢◌, inl, inr, refl, ap, ◌∙◌, Bool, true, false, some, arith,
}
use openwar.Common.Text.{Text}
use openwar.Breaker.{Config}
use openwar.Redis.{Redis, IsLawful, Net-cases, absent, Net, fine, lost, cut, call}
use openwar.Inventory.Keys.{cancel_key}
use openwar.Store.{Tables, Inserted, insert_error, insert_order, has_order, any_text}
use openwar.Order.{Event}
use openwar.Order.Worker.{Site, HandleRun, handle_error, handle_order, after_insert, new_order}
use openwar.Order.Timeout.{
  TimeoutRun, timeout_error, process_timeout, after_guard, after_lookup, set_guard,
}
use openwar.Order.Timeout.Guard.{blocked, guard_set}
use openwar.Order.Deliver.{
  acknowledged, given_up, is_handled, is_settled, deliver, order_round, deliver_order,
  timeout_round, deliver_timeout, deliver-suc,
}

module _ (R : Redis) (cfg : Config) (window : ℕ) (ev : Event) (s : Site R)
    (unknown : any_text ev.user_id s.tables.users ≡ false)
    (absent : has_order ev.order_id s.tables.orders ≡ false) where
  insert_refused :
      (now expires : ℕ)
      → insert_order now (new_order expires ev) s.tables ≡ (insert_error, s.tables)
  unfolding insert_order
  insert_refused now expires = ground (arith, unknown, absent)

  after_refused :
      (run : HandleRun) (net : Net) (f : Tables → Inserted × Tables)
      → f s.tables ≡ (insert_error, s.tables)
      → let r = call net f s.tables in
        after_insert R cfg window run ev r.0 (record s { tables = r.1 }) ≡ (handle_error, s)
  unfolding call after_insert
  after_refused run fine f e = rw e refl
  after_refused run lost f e = refl
  after_refused run cut f e = rw e refl

  refused_round : (run : HandleRun) → handle_order R cfg window run (some ev) s ≡ (handle_error, s)
  unfolding handle_order
  refused_round run =
      after_refused run run.insert (insert_order run.db_now (new_order (run.now + window) ev))
        (insert_refused run.db_now (run.now + window))

  refused_rounds :
      (runs : ℕ → HandleRun) (left n : ℕ)
      → deliver (order_round R cfg window runs (some ev)) left n s ≡ (given_up, s)
  unfolding deliver
  refused_rounds runs zero n = refl
  refused_rounds runs (suc left) n =
      let h : order_round R cfg window runs (some ev) n s ≡ (false, s) =
        ap (λ r. (is_handled r.0, r.1)) (refused_round (runs n)) in
      deliver-suc (order_round R cfg window runs (some ev)) left n s s false h
      ∙ refused_rounds runs left (suc n)

  -- An order of a user who has no row in `users`, and which is not stored yet, is delivered to the
  -- order worker five times and given up, however each delivery goes; the servers and the tables
  -- are then exactly as they were: nothing is refunded, and no message is published.
  pub unknown_user_given_up :
      (runs : ℕ → HandleRun) → deliver_order R cfg window runs (some ev) s ≡ (given_up, s)
  unfolding deliver_order
  unknown_user_given_up runs = refused_rounds runs 5 0

module _ (R : Redis) (L : IsLawful R) (cfg : Config) (shards : ℕ) (runs : ℕ → TimeoutRun)
    (order : Text) (s : Site R) where
  -- What a failed first delivery leaves: the guard.
  abbrev guarded_site : Site R
  guarded_site = record s {
    world = record s.world {
      db = (call (runs 0).guard (set_guard R cfg shards order) s.world.db).1;
    };
  }

  failed_first :
      (runs 0).guard ≡ fine
      → (runs 0).lookup ≢ fine
      → R.look s.world.db (cancel_key order) ≡ absent
      → process_timeout R cfg shards (runs 0) order s ≡ (timeout_error, guarded_site)
  unfolding process_timeout after_guard after_lookup call
  failed_first g n e = elim (Net-cases (runs 0).lookup) [
    | inl f ↦ absurd (n f)
    | inr (inl f) ↦ rw (g, e, f) refl
    | inr (inr f) ↦ rw (g, e, f) refl
  ]

  failed_round :
      (runs 0).guard ≡ fine
      → (runs 0).lookup ≢ fine
      → R.look s.world.db (cancel_key order) ≡ absent
      → timeout_round R cfg shards runs order 0 s ≡ (false, guarded_site)
  failed_round g n e = ap (λ r. (is_settled r.0, r.1)) (failed_first g n e)

  blocked_round :
      (runs 0).guard ≡ fine
      → (runs 1).guard ≡ fine
      → ((timeout_round R cfg shards runs order 1 guarded_site).0 ≡ true)
        × ((timeout_round R cfg shards runs order 1 guarded_site).1.tables ≡ s.tables)
  blocked_round g h =
      let (r, t) =
        blocked R L cfg shards (runs 1) order guarded_site h
          (guard_set R L cfg shards (runs 0) order s.world.db (λ q. cc)) in
      (ap is_settled r, t)

  -- A payment timeout whose first delivery sets the guard and then does not get the order's row is
  -- acknowledged at the second, to which Redis answers, and the tables stay as they were: the
  -- order is not cancelled, whatever its expiry and whatever the further deliveries would do. No
  -- guard was there before.
  pub failed_timeout_dropped :
      (runs 0).guard ≡ fine
      → (runs 0).lookup ≢ fine
      → R.look s.world.db (cancel_key order) ≡ absent
      → (runs 1).guard ≡ fine
      → let r = deliver_timeout R cfg shards runs order s in
        (r.0 ≡ acknowledged 1) × (r.1.tables ≡ s.tables)
  unfolding deliver_timeout
  failed_timeout_dropped g n e h =
      let round = timeout_round R cfg shards runs order in
      let x = round 1 guarded_site in
      let (ok, t) = blocked_round g h in
      let q : deliver round 5 0 s ≡ (acknowledged 1, x.1) =
        deliver-suc round 4 0 s guarded_site false (failed_round g n e)
        ∙ deliver-suc round 3 1 guarded_site x.1 true (ap (λ (b : Bool). (b, x.1)) ok) in
      (ap (λ v. v.0) q, ap (λ v. v.1.tables) q ∙ t)
