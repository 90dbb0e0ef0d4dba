-- ===== src/Order/Publish.antt =====
-- The retries of a publication.
use mathlib.Core.List.{append-nil, append_assoc}
use native.Mathlib.Nat.{zero-add, suc-add}
use openwar.Common.{
  ℕ, zero, suc, ◌+◌, ◌*◌, ◌≤◌, ◌<◌, ◌≡◌, refl, ap, ◌∙◌, Bool, true, false, List, ◌∷◌, ◌++◌, ◌==◌,
  arith, replicate, Bool-cases, inl, inr,
}
use openwar.Order.{
  Message, Sent, acked, no_ack, refused, ack_lost, stored, is_acked, Line, publish_loop,
}

-- The longest that the waits between `left` attempts can take.
wait_limit : ℕ → ℕ → ℕ
wait_limit zero backoff = 0
wait_limit (suc zero) backoff = 0
wait_limit (suc (suc left)) backoff = backoff + wait_limit (suc left) (backoff * 2)

wait_limit-grows : (left backoff : ℕ) → 0 ≤ wait_limit left backoff
wait_limit-grows left backoff = omega arith

-- What the loop ends with, from a stream and a wait.
Retries : Message → List Message → ℕ → ℕ → ℕ → Bool × ℕ × List Message → Type 0
Retries m stream left backoff waited r =
    (n : ℕ) × (r.2 ≡ stream ++ replicate n m)
    × (n ≤ left)
    × (r.0 ≡ true → 0 < n)
    × (r.1 ≤ waited + wait_limit left backoff)

-- The copies that one attempt stores.
copies : Sent → ℕ
copies acked = 1
copies no_ack = 0
copies refused = 0
copies ack_lost = 1

stored-copies :
    (s : Sent) (m : Message) (stream : List Message)
    → stored s m stream ≡ stream ++ replicate (copies s) m
unfolding copies
stored-copies acked m stream = refl
stored-copies no_ack m stream = rw append-nil
stored-copies refused m stream = rw append-nil
stored-copies ack_lost m stream = refl

replicate-add : (a b : ℕ) (m : Message) → replicate a m ++ replicate b m ≡ replicate (a + b) m
replicate-add zero b m = rw zero-add
replicate-add (suc a) b m = rw suc-add (ap (λ l. m ∷ l) (replicate-add a b m))

copies-le : (s : Sent) → (copies s ≤ 1) × (is_acked s ≡ true → copies s ≡ 1)
unfolding copies
copies-le acked = ground arith
copies-le no_ack = ground arith
copies-le refused = ground arith
copies-le ack_lost = ground arith

stops :
    (s : Sent) (m : Message) (stream : List Message) (left backoff waited : ℕ)
    → Retries m stream (suc left) backoff waited (is_acked s, waited, stored s m stream)
unfolding Retries
stops s m stream left backoff waited = (
  copies s,
  stored-copies s m stream,
  omega (arith, (copies-le s).0),
  λ a. omega (arith, (copies-le s).1 a),
  omega arith,
)

-- One more attempt in front of those that are left.
goes_on :
    (s : Sent) (m : Message) (stream : List Message) (left backoff waited : ℕ)
    (r : Bool × ℕ × List Message)
    → Retries m (stored s m stream) (suc left) (backoff * 2) (waited + backoff) r
    → Retries m stream (suc (suc left)) backoff waited r
unfolding Retries wait_limit
goes_on s m stream left backoff waited r (n, e, le, ok, w) = (
  copies s + n,
  e ∙ rw (stored-copies s m stream, append_assoc, replicate-add),
  omega (arith, (copies-le s).0),
  λ a. omega (arith, ok a),
  omega arith,
)

loop-Retries :
    (line : Line) (m : Message) (left i backoff waited : ℕ) (stream : List Message)
    → i + left ≡ 3
    → Retries m stream left backoff waited (publish_loop line m left i backoff waited stream)
unfolding Retries publish_loop
loop-Retries line m zero i backoff waited stream e =
    (0, rw append-nil, omega arith, λ a. cc, omega arith)
loop-Retries line m (suc zero) i backoff waited stream e =
    let last : (i == 2) ≡ true = ground arith in
    elim (Bool-cases (is_acked (line.sent i))) [
      | inl a ↦ rw (a, publish_loop) (rw a at (stops (line.sent i) m stream 0 backoff waited))
      | inr a ↦ rw (a, last, publish_loop) (rw a at (stops (line.sent i) m stream 0 backoff waited))
    ]
loop-Retries line m (suc (suc left)) i backoff waited stream e =
    let more : (i == 2) ≡ false = ground arith in
    let here = stops (line.sent i) m stream (suc left) backoff waited in
    elim (Bool-cases (is_acked (line.sent i))) [
      | inl a ↦ rw (a, publish_loop) (rw a at here)
      | inr a ↦ elim (Bool-cases (line.context_done i)) [
        | inl ends ↦ rw (a, more, ends, publish_loop) (rw a at here)
        | inr waits ↦
            rw (a, more, waits, publish_loop)
              (goes_on (line.sent i) m stream left backoff waited _ (
                loop-Retries line m (suc left) (suc i) (backoff * 2) (waited + backoff)
                  (stored (line.sent i) m stream) (omega arith)))
      ]
    ]

-- A publication that succeeds is in the stream; whether or not it succeeds, at most three copies were
-- stored, nothing else, and the waits took at most 300 ms.
pub publish_loop_lem :
    (line : Line) (m : Message) (stream : List Message)
    → let r = publish_loop line m 3 0 100 0 stream in
      (n : ℕ) × (r.2 ≡ stream ++ replicate n m) × (n ≤ 3) × (r.0 ≡ true → 0 < n) × (r.1 ≤ 300)
unfolding Retries wait_limit
publish_loop_lem line m stream =
    let (n, e, le, ok, w) = loop-Retries line m 3 0 100 0 stream refl in (n, e, le, ok, w)
