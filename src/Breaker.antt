-- ===== src/Breaker.antt =====
-- internal/resilience/circuitbreaker.go. Times are nanoseconds since some origin; each reading of
-- the clock is an argument, and the zero time is 0. The mutex makes the part of `Execute` before
-- the operation and the part after it one step each.
pub mod Invariant
pub mod Window
pub mod Recovery
pub mod Steps
use openwar.Common.{ℕ, ◌+◌, ◌*◌, Bool, true, false, Option, none, some, leb, ◌==◌, if◌then◌else◌}
use openwar.Common.Int.{ℤ, pos, negsuc}

pub data State : Type 0 where
  closed half_open open_state : State

-- The configuration as it is given: Go integers, of either sign.
pub record RawConfig : Type 0 where
  pub max_consecutive_failures : ℤ
  pub cooldown_given : ℤ
  pub half_open_max_success : ℤ

-- The configuration once what is not positive is replaced.
pub record Config : Type 0 where
  pub max_failures : ℕ
  pub cooldown : ℕ
  pub max_success : ℕ

pub record Breaker : Type 0 where
  pub state : State
  pub failures : ℕ
  pub successes : ℕ
  pub last_failed_at : ℕ

abbrev pub second : ℕ
second = 1000000000

abbrev pub default_config : RawConfig
default_config = record {
  max_consecutive_failures = pos 5;
  cooldown_given = pos (5 * second);
  half_open_max_success = pos 2;
}

-- `if n <= 0 { n = d }`
abbrev pub positive_or : ℤ → ℕ → ℕ
positive_or (pos n) d = if n == 0 then d else n
positive_or (negsuc n) d = d

unfoldable pub new_config : RawConfig → Config
new_config c = record {
  max_failures = positive_or c.max_consecutive_failures 5;
  cooldown = positive_or c.cooldown_given (5 * second);
  max_success = positive_or c.half_open_max_success 2;
}

abbrev pub new_breaker : Breaker
new_breaker = record { state = closed; failures = 0; successes = 0; last_failed_at = 0 }

-- The switches on the state, one clause for each.
check_open : State → Config → ℕ → Breaker → Breaker
check_open open_state cfg now b =
    if leb (b.last_failed_at + cfg.cooldown) now
    then record b { state = half_open; successes = 0; failures = 0 }
    else b
check_open _ cfg now b = b

-- `checkStateLocked`
unfoldable pub check_state : Config → ℕ → Breaker → Breaker
unfolding check_open
check_state cfg now b = check_open b.state cfg now b

failed_in : State → Config → Breaker → Breaker
failed_in closed cfg b =
    let n = b.failures + 1 in
    if leb cfg.max_failures n
    then record b { state = open_state; failures = n }
    else record b { failures = n }
failed_in half_open cfg b = record b {
  state = open_state;
  failures = cfg.max_failures;
  successes = 0;
}
failed_in open_state cfg b = b

-- `onFailureLocked`
unfoldable pub on_failure : Config → ℕ → Breaker → Breaker
unfolding failed_in
on_failure cfg now b = failed_in b.state cfg (record b { last_failed_at = now })

succeeded_in : State → Config → Breaker → Breaker
succeeded_in closed cfg b = record b { failures = 0 }
succeeded_in half_open cfg b =
    let n = b.successes + 1 in
    if leb cfg.max_success n
    then record b { state = closed; failures = 0; successes = 0 }
    else record b { successes = n }
succeeded_in open_state cfg b = b

-- `onSuccessLocked`
unfoldable pub on_success : Config → Breaker → Breaker
unfolding succeeded_in
on_success cfg b = succeeded_in b.state cfg b

-- `Reset`
unfoldable pub reset : Breaker → Breaker
reset b = record { state = closed; failures = 0; successes = 0; last_failed_at = 0 }

abbrev pub is_open : State → Bool
is_open open_state = true
is_open _ = false

-- `Execute` up to the call of the operation: the breaker afterwards, and whether to make the call.
unfoldable pub begin : Config → ℕ → Breaker → Bool × Breaker
unfolding check_state
begin cfg now b = let b' = check_state cfg now b in (if is_open b'.state then false else true, b')

-- `Execute` from the return of the operation.
unfoldable pub finish : Config → ℕ → Bool → Breaker → Breaker
unfolding on_failure on_success
finish cfg now true b = on_success cfg b
finish cfg now false b = on_failure cfg now b

-- What `Execute` returns: `ErrCircuitOpen`, the operation's error, or its value.
pub data Outcome {ℓ} (A : Type ℓ) : Type ℓ where
  circuit_open : Outcome A
  failed : Outcome A
  done : A → Outcome A

-- `Execute` with no other call between the two steps. The operation works on a state `s`; it starts
-- at `now` and ends at `later`.
unfoldable pub execute {ℓ κ} :
    {S : Type ℓ} {A : Type κ}
    → Config
    → ℕ
    → ℕ
    → (S → Option A × S)
    → Breaker
    → S
    → Outcome A × Breaker × S
unfolding begin finish
execute cfg now later fn b s =
    let (go, b') = begin cfg now b in
    elim go [
      | false ↦ (circuit_open, b', s)
      | true ↦
          let (r, s') = fn s in
          elim r [
            | none ↦ (failed, finish cfg later false b', s')
            | some a ↦ (done a, finish cfg later true b', s')
          ]
    ]

-- `State`: the state that a caller sees, and the breaker afterwards.
unfoldable pub read_state : Config → ℕ → Breaker → State × Breaker
unfolding check_state
read_state cfg now b = let b' = check_state cfg now b in (b'.state, b')
