-- ===== src/Streams/Routes.antt =====
-- Which streams take a message.
use openwar.Common.{
  ℕ, ◌≡◌, refl, ap, inl, inr, Bool, true, false, Bool-cases, not, ◌||◌, ◌&&◌, List, [], ◌∷◌, ◌++◌,
  ◌==◌, map, arith,
}
use openwar.Common.Text.{Text, codes, text_eq, is_empty}
use openwar.Streams.{
  Stream, Subject, created, cancelled, timeout, dlq, notify, schedule, subject_text, defs,
}

-- A text without wildcards.
abbrev pub plain : Text → Bool
plain [] = true
plain (c ∷ s) = not (c == b'*') && not (c == b'>') && plain s

abbrev pub in_token : Text → Bool
in_token [] = true
in_token (x ∷ xs) =
    not (x == b'.') && not (x == b' ') && not (x == b'*') && not (x == b'>') && in_token xs

-- One part of a subject.
abbrev pub is_token : Text → Bool
is_token t = not (is_empty t) && in_token t

-- What NATS documents of matching a pattern.
pub record IsMatching (covers : Text → Text → Bool) : Type 0 where
  pub literal : (p s : Text) → plain p ≡ true → covers p s ≡ text_eq p s
  pub tail :
      (p t : Text)
      → plain p ≡ true
      → is_token t ≡ true
      → covers (p ++ codes ".>") (p ++ codes "." ++ t) ≡ true
  pub tail_only :
      (p s : Text)
      → plain p ≡ true
      → covers (p ++ codes ".>") s ≡ true
      → (t : Text) × (s ≡ p ++ codes "." ++ t)

module _ (covers : Text → Text → Bool) where
  abbrev any_covers : List Text → Text → Bool
  any_covers [] s = false
  any_covers (p ∷ ps) s = covers p s || any_covers ps s

  -- Whether a stream takes a subject.
  abbrev pub takes : Subject → Stream → Bool
  takes s d = any_covers d.subjects (subject_text s)

-- The stream that is meant to keep a subject.
abbrev pub home : Subject → Text
home created = codes "ORDERS"
home cancelled = codes "ORDERS"
home timeout = codes "ORDERS_TIMEOUT"
home dlq = codes "ORDERS_DLQ"
home notify = codes "QUEUE_NOTIFY"
home (schedule order) = codes "ORDERS_TIMEOUT"

-- The order id of a schedule is one part of its subject.
abbrev pub IsNamed : Subject → Type 0
IsNamed (schedule order) = is_token order ≡ true
IsNamed _ = Unit

module _ (covers : Text → Text → Bool) (M : IsMatching covers) where
  abbrev prefix : Text
  prefix = codes "schedules.timeout"

  head : Text → ℕ
  head [] = 0
  head (c ∷ s) = c

  -- Only a subject that begins as the prefix does matches the pattern.
  other :
      (c : ℕ) (s : Text)
      → (c == b's') ≡ false
      → covers (codes "schedules.timeout.>") (c ∷ s) ≡ false
  unfolding head
  other c s n = elim (Bool-cases (covers (codes "schedules.timeout.>") (c ∷ s))) [
    | inl y ↦
        let (t, e) = M.tail_only prefix (c ∷ s) refl y in
        let first : c ≡ b's' = ap (λ (x : Text). head x) e in ground arith
    | inr y ↦ y
  ]

  -- The tests of the four streams, by that of the only pattern.
  shape :
      (s : Subject) (b : Bool)
      → covers (codes "schedules.timeout.>") (subject_text s) ≡ b
      → map (takes covers s) defs
        ≡ (text_eq (codes "orders.created") (subject_text s)
            || (text_eq (codes "orders.cancelled") (subject_text s) || false))
          ∷ (b || (text_eq (codes "orders.timeout") (subject_text s) || false))
          ∷ (text_eq (codes "orders.dlq") (subject_text s) || false)
          ∷ (text_eq (codes "queue.notify") (subject_text s) || false)
          ∷ []
  unfolding defs
  shape s b e =
      rw
        (
          M.literal (codes "orders.created") (subject_text s) refl,
          M.literal (codes "orders.cancelled") (subject_text s) refl,
          e,
          M.literal (codes "orders.timeout") (subject_text s) refl,
          M.literal (codes "orders.dlq") (subject_text s) refl,
          M.literal (codes "queue.notify") (subject_text s) refl,
        )
        refl

  -- Every subject that the program names is taken by exactly the one of its four streams that is
  -- meant for it: the created and the cancelled orders by ORDERS, the scheduled and the due
  -- timeouts by ORDERS_TIMEOUT, and dead letters and notices by theirs. NATS matches as
  -- documented: a text without wildcards only itself, and a final `>` whatever follows; the order
  -- id of a schedule is one part of a subject.
  pub taken_once :
      (s : Subject)
      → IsNamed s
      → map (takes covers s) defs ≡ map (λ d. text_eq d.name (home s)) defs
  unfolding defs subject_text text_eq
  taken_once created n = shape created false (other _ _ refl)
  taken_once cancelled n = shape cancelled false (other _ _ refl)
  taken_once timeout n = shape timeout false (other _ _ refl)
  taken_once dlq n = shape dlq false (other _ _ refl)
  taken_once notify n = shape notify false (other _ _ refl)
  taken_once (schedule order) n =
      shape (schedule order) true (M.tail (codes "schedules.timeout") order refl n)
