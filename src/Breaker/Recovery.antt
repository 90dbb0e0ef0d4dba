-- ===== src/Breaker/Recovery.antt =====
-- How an open breaker refuses calls, and how it closes again.
use openwar.Common.{
  ℕ, ◌+◌, ◌≤◌, ◌<◌, ◌≡◌, refl, sym, subst, true, Option, none, List, [], ◌∷◌, arith, All, length,
}
use openwar.Breaker.{
  closed, half_open, open_state, Config, Breaker, circuit_open, begin, finish, execute,
}
use openwar.Breaker.Window.{Attempt, attempt, run}

-- Until the cooldown since the last failure has passed, an open breaker refuses every call: the
-- operation is not run, whatever it is, and neither the breaker nor the state it works on changes.
pub execute_refuses {ℓ κ} :
    {S : Type ℓ} {A : Type κ} (cfg : Config) (now later : ℕ) (fn : S → Option A × S) (b : Breaker)
    (s : S)
    → b.state ≡ open_state
    → now < b.last_failed_at + cfg.cooldown
    → execute cfg now later fn b s ≡ (circuit_open, b, s)
unfolding execute
execute_refuses cfg now later fn b s o h = ground arith

attempt_half_open :
    (cfg : Config) (b : Breaker) (a : Attempt)
    → b.state ≡ half_open
    → a.ok ≡ true
    → b.successes + 1 < cfg.max_success
    → ((attempt cfg b a).state ≡ half_open) × ((attempt cfg b a).successes ≡ b.successes + 1)
unfolding attempt begin finish
attempt_half_open cfg b a s o h = ground arith

attempt_last :
    (cfg : Config) (b : Breaker) (a : Attempt)
    → b.state ≡ half_open
    → a.ok ≡ true
    → cfg.max_success ≤ b.successes + 1
    → ((attempt cfg b a).state ≡ closed) × ((attempt cfg b a).failures ≡ 0)
unfolding attempt begin finish
attempt_last cfg b a s o h = ground arith

abbrev pub Succeeds : List Attempt → Type 0
Succeeds = All (λ a. a.ok ≡ true)

half_open_recovers :
    (cfg : Config) (a : Attempt) (l : List Attempt) (b : Breaker)
    → b.state ≡ half_open
    → Succeeds (a ∷ l)
    → b.successes + length (a ∷ l) ≡ cfg.max_success
    → ((run cfg b (a ∷ l)).state ≡ closed) × ((run cfg b (a ∷ l)).failures ≡ 0)
unfolding run
half_open_recovers cfg a [] b s o h = attempt_last cfg b a s o.0 (omega arith)
half_open_recovers cfg a (a' ∷ l) b s o h =
    let (s', n) = attempt_half_open cfg b a s o.0 (omega arith) in
    half_open_recovers cfg a' l (attempt cfg b a) s' o.1 (omega arith)

-- The first call after the cooldown acts as if the breaker were half-open.
abbrev probed : Breaker → Breaker
probed b = record b { state = half_open; successes = 0; failures = 0 }

attempt-probed :
    (cfg : Config) (b : Breaker) (a : Attempt)
    → b.state ≡ open_state
    → b.last_failed_at + cfg.cooldown ≤ a.now
    → attempt cfg b a ≡ attempt cfg (probed b) a
unfolding attempt begin finish
attempt-probed cfg b a o h = ground arith

-- An open breaker closes after as many successful calls in a row as its threshold of successes, the
-- first of them once the cooldown has passed, and then counts no failures.
pub open_recovers :
    (cfg : Config) (b : Breaker) (a : Attempt) (l : List Attempt)
    → b.state ≡ open_state
    → b.last_failed_at + cfg.cooldown ≤ a.now
    → Succeeds (a ∷ l)
    → length (a ∷ l) ≡ cfg.max_success
    → ((run cfg b (a ∷ l)).state ≡ closed) × ((run cfg b (a ∷ l)).failures ≡ 0)
unfolding run
open_recovers cfg b a l o h ok n =
    subst (λ x. ((run cfg x l).state ≡ closed) × ((run cfg x l).failures ≡ 0))
      (sym (attempt-probed cfg b a o h))
      (half_open_recovers cfg a l (probed b) refl ok (omega arith))

-- One failed call in the half-open state opens the breaker for a whole further cooldown, counted
-- from the end of the failed operation.
half_open_fails {ℓ κ} :
    {S : Type ℓ} {A : Type κ} (cfg : Config) (now later then_ : ℕ) (fn : S → Option A × S)
    (next : S → Option A × S) (b : Breaker) (s : S)
    → b.state ≡ half_open
    → (fn s).0 ≡ none
    → then_ < later + cfg.cooldown
    → let b' = (execute cfg now later fn b s).1 in
      (b'.state ≡ open_state) × (execute cfg then_ then_ next b' s ≡ (circuit_open, b', s))
unfolding execute
half_open_fails cfg now later then_ fn next b s o f h = ground arith
