-- ===== src/Breaker/Invariant.antt =====
-- What holds of a breaker between two steps: how the counters go with the state.
use openwar.Common.{ℕ, ◌<◌, ◌≡◌, Bool, true, false, arith}
use openwar.Breaker.{
  State, closed, half_open, open_state, RawConfig, Config, Breaker, new_config, new_breaker, reset,
  begin, finish,
}

pub record IsConfig (cfg : Config) : Type 0 where
  pub failures_pos : 0 < cfg.max_failures
  pub cooldown_pos : 0 < cfg.cooldown
  pub success_pos : 0 < cfg.max_success

-- Whatever is configured, the thresholds and the cooldown in use are positive.
pub new_config-IsConfig : (c : RawConfig) → IsConfig (new_config c)
unfolding new_config
new_config-IsConfig c = ground arith

abbrev pub Counts : State → Config → Breaker → Type 0
Counts closed cfg b = (b.failures < cfg.max_failures) × (b.successes ≡ 0)
Counts half_open cfg b = (b.failures ≡ 0) × (b.successes < cfg.max_success)
Counts open_state cfg b = (b.failures ≡ cfg.max_failures) × (b.successes ≡ 0)

abbrev pub IsValid : Config → Breaker → Type 0
IsValid cfg b = Counts b.state cfg b

pub new_breaker-IsValid : (cfg : Config) → IsConfig cfg → IsValid cfg new_breaker
new_breaker-IsValid cfg c = omega arith

pub reset-IsValid : (cfg : Config) (b : Breaker) → IsConfig cfg → IsValid cfg (reset b)
unfolding reset
reset-IsValid cfg b c = omega arith

pub begin-IsValid :
    (cfg : Config) (now : ℕ) (b : Breaker)
    → IsConfig cfg
    → IsValid cfg b
    → IsValid cfg (begin cfg now b).1
unfolding begin
begin-IsValid cfg now b c v = ground arith

pub finish-IsValid :
    (cfg : Config) (now : ℕ) (ok : Bool) (b : Breaker)
    → IsConfig cfg
    → IsValid cfg b
    → IsValid cfg (finish cfg now ok b)
unfolding finish
finish-IsValid cfg now true b c v = ground arith
finish-IsValid cfg now false b c v = ground arith
