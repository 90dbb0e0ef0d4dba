-- ===== src/Breaker/Window.antt =====
-- Calls made one after another: the breaker against the plain count of consecutive failures.
use openwar.Common.{
  ℕ, ◌+◌, ◌<◌, ◌≡◌, ◌↔◌, refl, Bool, true, false, List, [], ◌∷◌, ◌++◌, if◌then◌else◌, arith,
}
use openwar.Breaker.{closed, open_state, Config, Breaker, begin, finish}

-- One call: when it starts, when its operation ends, and whether that succeeds.
pub record Attempt : Type 0 where
  pub now : ℕ
  pub later : ℕ
  pub ok : Bool

abbrev pub settle : Config → Attempt → Bool × Breaker → Breaker
settle cfg a (true, b) = finish cfg a.later a.ok b
settle cfg a (false, b) = b

-- The breaker after one whole call of `Execute`.
unfoldable pub attempt : Config → Breaker → Attempt → Breaker
attempt cfg b a = settle cfg a (begin cfg a.now b)

unfoldable pub run : Config → Breaker → List Attempt → Breaker
run cfg b [] = b
run cfg b (a ∷ rest) = run cfg (attempt cfg b a) rest

-- How many failures end the list, after `n` failures before it.
abbrev pub streak : ℕ → List Attempt → ℕ
streak n [] = n
streak n (a ∷ rest) = streak (if a.ok then 0 else n + 1) rest

-- Fewer than `m` failures in a row, all along the list.
abbrev pub Quiet : ℕ → ℕ → List Attempt → Type 0
Quiet m n [] = n < m
Quiet m n (a ∷ rest) = (n < m) × Quiet m (if a.ok then 0 else n + 1) rest

Quiet-lt : (m n : ℕ) (l : List Attempt) → Quiet m n l → n < m
Quiet-lt m n [] q = q
Quiet-lt m n (a ∷ l) q = q.0

Quiet-streak : (m n : ℕ) (l : List Attempt) → Quiet m n l → streak n l < m
Quiet-streak m n [] q = q
Quiet-streak m n (a ∷ l) q = Quiet-streak m (if a.ok then 0 else n + 1) l q.1

attempt_closed :
    (cfg : Config) (b : Breaker) (a : Attempt)
    → b.state ≡ closed
    → (if a.ok then 0 else b.failures + 1) < cfg.max_failures
    → ((attempt cfg b a).state ≡ closed)
      × ((attempt cfg b a).failures ≡ (if a.ok then 0 else b.failures + 1))
unfolding attempt begin finish
attempt_closed cfg b a c h = ground arith

-- While fewer than the threshold of calls fail in a row, a closed breaker stays closed and counts
-- exactly the failures at the end of the run.
pub run-Quiet :
    (cfg : Config) (l : List Attempt) (b : Breaker)
    → b.state ≡ closed
    → Quiet cfg.max_failures b.failures l
    → ((run cfg b l).state ≡ closed) × ((run cfg b l).failures ≡ streak b.failures l)
unfolding run
run-Quiet cfg [] b c q = (c, refl)
run-Quiet cfg (a ∷ l) b c q =
    let (c', f) = attempt_closed cfg b a c (Quiet-lt _ _ l q.1) in
    rw (← f) (run-Quiet cfg l (attempt cfg b a) c' (rw f q.1))

run-append :
    (cfg : Config) (l : List Attempt) (b : Breaker) (a : Attempt)
    → run cfg b (l ++ a ∷ []) ≡ attempt cfg (run cfg b l) a
unfolding run
run-append cfg [] b a = refl
run-append cfg (x ∷ l) b a = run-append cfg l (attempt cfg b x) a

attempt_next :
    (cfg : Config) (b : Breaker) (a : Attempt)
    → b.state ≡ closed
    → b.failures < cfg.max_failures
    → ((attempt cfg b a).state ≡ open_state)
      ↔ ((a.ok ≡ false) × (b.failures + 1 ≡ cfg.max_failures))
unfolding attempt begin finish
attempt_next cfg b a c h = ground arith

-- After a run that starts at a closed breaker and never has as many failures in a row as the
-- threshold, the next call opens the breaker exactly when it fails and is the last of as many
-- failures in a row as the threshold says.
pub opens_iff :
    (cfg : Config) (l : List Attempt) (b : Breaker) (a : Attempt)
    → b.state ≡ closed
    → Quiet cfg.max_failures b.failures l
    → ((run cfg b (l ++ a ∷ [])).state ≡ open_state)
      ↔ ((a.ok ≡ false) × (streak b.failures l + 1 ≡ cfg.max_failures))
opens_iff cfg l b a c q =
    let (c', f) = run-Quiet cfg l b c q in
    rw (run-append, ← f) (attempt_next cfg (run cfg b l) a c' (rw f (Quiet-streak _ _ l q)))
