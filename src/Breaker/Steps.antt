-- ===== src/Breaker/Steps.antt =====
-- Many callers at once: any interleaving of the two atomic parts of `Execute`, `State` and `Reset`.
use openwar.Common.{ℕ, ◌+◌, ◌≤◌, ◌≡◌, refl, Bool, true, false, ◌⊎◌, inl, inr, arith}
use openwar.Breaker.{
  closed, half_open, open_state, Config, Breaker, new_breaker, begin, finish, reset, read_state,
}
use openwar.Breaker.Invariant.{
  IsConfig, IsValid, new_breaker-IsValid, begin-IsValid, finish-IsValid, reset-IsValid,
}

-- The breaker, and how many operations are running.
pub record System : Type 0 where
  pub breaker : Breaker
  pub running : ℕ

-- One caller enters, is refused, or returns; or the state is read or reset.
pub data Step (cfg : Config) (s : System) (t : System) : Type 0 where
  enter :
      (now : ℕ)
      → (begin cfg now s.breaker).0 ≡ true
      → t ≡ record { breaker = (begin cfg now s.breaker).1; running = s.running + 1 }
      → Step cfg s t
  refuse :
      (now : ℕ)
      → (begin cfg now s.breaker).0 ≡ false
      → t ≡ record { breaker = (begin cfg now s.breaker).1; running = s.running }
      → Step cfg s t
  leave :
      (now n : ℕ) (ok : Bool)
      → s.running ≡ n + 1
      → t ≡ record { breaker = finish cfg now ok s.breaker; running = n }
      → Step cfg s t
  look :
      (now : ℕ)
      → t ≡ record { breaker = (read_state cfg now s.breaker).1; running = s.running }
      → Step cfg s t
  clear : t ≡ record { breaker = reset s.breaker; running = s.running } → Step cfg s t

pub data Reach (cfg : Config) (s : System) : System → Type 0 where
  here : Reach cfg s s
  next : {t u : System} → Reach cfg s t → Step cfg t u → Reach cfg s u

abbrev pub idle : System
idle = record { breaker = new_breaker; running = 0 }

read_state-begin :
    (cfg : Config) (now : ℕ) (b : Breaker) → (read_state cfg now b).1 ≡ (begin cfg now b).1
unfolding read_state begin
read_state-begin cfg now b = refl

Step-IsValid :
    {cfg : Config} {s t : System}
    → IsConfig cfg
    → Step cfg s t
    → IsValid cfg s.breaker
    → IsValid cfg t.breaker
Step-IsValid {cfg} {s} c (enter now go e) v = rw e (begin-IsValid cfg now s.breaker c v)
Step-IsValid {cfg} {s} c (refuse now go e) v = rw e (begin-IsValid cfg now s.breaker c v)
Step-IsValid {cfg} {s} c (leave now n ok r e) v = rw e (finish-IsValid cfg now ok s.breaker c v)
Step-IsValid {cfg} {s} c (look now e) v =
    rw (e, read_state-begin) (begin-IsValid cfg now s.breaker c v)
Step-IsValid {cfg} {s} c (clear e) v = rw e (reset-IsValid cfg s.breaker c)

-- With positive thresholds, in every state that any interleaving of callers reaches from a new
-- breaker, the counters agree with the state: a closed breaker has counted fewer failures than the
-- threshold, a half-open one fewer successes than needed and no failure, an open one exactly the
-- threshold of failures.
pub Reach-IsValid :
    (cfg : Config) {s : System} → IsConfig cfg → Reach cfg idle s → IsValid cfg s.breaker
Reach-IsValid cfg c here = new_breaker-IsValid cfg c
Reach-IsValid cfg c (next r st) = Step-IsValid c st (Reach-IsValid cfg c r)

-- The moves that the state machine allows besides a reset.
pub data Edge (cfg : Config) (b : Breaker) (b' : Breaker) : Type 0 where
  stay : b'.state ≡ b.state → Edge cfg b b'
  trip :
      b.state ≡ closed → b.failures + 1 ≡ cfg.max_failures → b'.state ≡ open_state → Edge cfg b b'
  probe :
      (now : ℕ)
      → b.state ≡ open_state
      → b.last_failed_at + cfg.cooldown ≤ now
      → b'.state ≡ half_open
      → Edge cfg b b'
  retrip : b.state ≡ half_open → b'.state ≡ open_state → Edge cfg b b'
  recover :
      b.state ≡ half_open → b.successes + 1 ≡ cfg.max_success → b'.state ≡ closed → Edge cfg b b'
  cleared : b' ≡ new_breaker → Edge cfg b b'

begin_cases :
    (cfg : Config) (now : ℕ) (b : Breaker)
    → let b' = (begin cfg now b).1 in
      (b'.state ≡ b.state)
      ⊎ ((b.state ≡ open_state) × (b.last_failed_at + cfg.cooldown ≤ now) × (b'.state ≡ half_open))
unfolding begin
begin_cases cfg now b = ground arith

begin-Edge : (cfg : Config) (now : ℕ) (b : Breaker) → Edge cfg b (begin cfg now b).1
begin-Edge cfg now b = elim (begin_cases cfg now b) [
  | inl e ↦ stay e
  | inr (o, h, e) ↦ probe now o h e
]

finish-Edge :
    (cfg : Config) (now : ℕ) (ok : Bool) (b : Breaker)
    → IsValid cfg b
    → Edge cfg b (finish cfg now ok b)
unfolding finish
finish-Edge cfg now true b v = grind (arith, stay, recover)
finish-Edge cfg now false b v = grind (arith, stay, trip, retrip)

-- Whatever the callers do, one step takes the breaker along an edge of its diagram: it opens from
-- closed only at the threshold, is probed only from open once the
-- cooldown since the last failure has passed, and closes again only from half-open with
-- enough successes, or by a reset.
Step-Edge :
    {cfg : Config} {s t : System}
    → IsValid cfg s.breaker
    → Step cfg s t
    → Edge cfg s.breaker t.breaker
unfolding reset
Step-Edge {cfg} {s} v (enter now go e) = rw e (begin-Edge cfg now s.breaker)
Step-Edge {cfg} {s} v (refuse now go e) = rw e (begin-Edge cfg now s.breaker)
Step-Edge {cfg} {s} v (leave now n ok r e) = rw e (finish-Edge cfg now ok s.breaker v)
Step-Edge {cfg} {s} v (look now e) = rw (e, read_state-begin) (begin-Edge cfg now s.breaker)
Step-Edge {cfg} {s} v (clear e) = cleared (rw e)
