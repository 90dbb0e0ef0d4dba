-- ===== src/Tests/Breaker.antt =====
-- Short runs of the breaker.
use openwar.Common.{
  ℕ, ◌+◌, ◌*◌, ◌≡◌, ◌↔◌, refl, arith, true, false, some, none, Option, List, [], ◌∷◌, ◌++◌,
}
use openwar.Breaker.{
  closed, half_open, open_state, Breaker, new_breaker, begin, second, new_config, default_config,
}
use openwar.Breaker.Invariant.{IsValid, new_config-IsConfig}
use openwar.Breaker.Window.{Attempt, run, streak, opens_iff}
use openwar.Breaker.Recovery.{open_recovers}
use openwar.Breaker.Steps.{System, here, next, enter, Reach-IsValid}
use openwar.Tests.Fixtures.{limits}

abbrev good : ℕ → Attempt
good n = record { now = n; later = n + 1; ok = true }

abbrev bad : ℕ → Attempt
bad n = record { now = n; later = n + 1; ok = false }

abbrev four : List Attempt
four = bad 1 ∷ bad 2 ∷ bad 3 ∷ bad 4 ∷ []

opens_iff_example :
    ((run limits new_breaker (four ++ bad 5 ∷ [])).state ≡ open_state)
    ↔ ((false ≡ false) × (streak 0 four + 1 ≡ limits.max_failures))
unfolding new_config
opens_iff_example =
    opens_iff limits four new_breaker (bad 5) refl
      (omega arith, (omega arith, (omega arith, (omega arith, omega arith))))

abbrev tripped : Breaker
tripped = record { state = open_state; failures = 5; successes = 0; last_failed_at = 6 }

open_recovers_example :
    let b' = run limits tripped (good (6 * second) ∷ good (7 * second) ∷ []) in
    (b'.state ≡ closed) × (b'.failures ≡ 0)
unfolding new_config
open_recovers_example =
    open_recovers limits tripped (good (6 * second)) (good (7 * second) ∷ []) refl (omega arith)
      (refl, (refl, tt)) refl

abbrev counting : ℕ → Option ℕ × ℕ
counting n = (some n, n + 1)

abbrev probing : Breaker
probing = record { state = half_open; failures = 0; successes = 1; last_failed_at = 6 }

abbrev failing : ℕ → Option ℕ × ℕ
failing n = (none, n + 1)

abbrev one_inside : System
one_inside = record { breaker = new_breaker; running = 1 }

Reach-IsValid_example : IsValid limits new_breaker
unfolding begin
Reach-IsValid_example =
    Reach-IsValid limits {s = one_inside} (new_config-IsConfig default_config)
      (next here (enter 0 refl refl))
