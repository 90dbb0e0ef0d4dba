-- ===== src/Room/Scan.antt =====
-- `tickOnce` of the admission `Worker` (worker.go): the rooms that one tick of `*` reaches. KEYS reports
-- the keys that match `room:*:queue`; how the trips of the rooms go is an argument.
use openwar.Common.{
  ℕ, suc, ◌+◌, ◌-◌, ◌≡◌, refl, ap, ◌∙◌, inl, inr, Bool, ◌||◌, Option, none, some, List, [], ◌∷◌,
  ◌++◌, ◌==◌, map, keep, length, arith, if◌then◌else◌, Bool-cases,
}
use openwar.Common.Text.{Text, codes, text_eq, is_empty}
use openwar.Common.Text.Split.{
  split_from, count_of, length-split_from, split_from-append, count_of-append,
}
use openwar.Redis.{Redis, Net}
use openwar.Room.{tick_once_for_event}
use openwar.Room.Keys.{queue_key}

-- The second of three parts.
unfoldable pub middle_of : List Text → Option Text
middle_of (a ∷ b ∷ c ∷ []) = some b
middle_of _ = none

unfoldable pub scan_events : List Text → List Text
unfolding middle_of
scan_events [] = []
scan_events (k ∷ ks) =
    let rest = scan_events ks in
    elim (middle_of (split_from b':' [] k)) [ none ↦ rest | some e ↦ e ∷ rest ]

-- The events of a tick, for a worker of one event or of all, and what KEYS replied.
unfoldable pub tick_events : Text → Option (List Text) → List Text
unfolding scan_events
tick_events event keys =
    if text_eq event (codes "*") || is_empty event
    then elim keys [ none ↦ [] | some ks ↦ scan_events ks ]
    else event ∷ []

-- The loop over the events: the sessions that `onAdmit` is called for, with their event.
unfoldable pub tick_rooms :
    (R : Redis) → (ℕ → Net) → ℕ → ℕ → ℕ → List Text → R.Db → Option (List (Text × List Text) × R.Db)
tick_rooms R nets n rate ttl [] d = some ([], d)
tick_rooms R nets n rate ttl (e ∷ es) d = elim (tick_once_for_event R e (nets n) rate ttl d) [
  | none ↦ none
  | some (out, d') ↦ elim (tick_rooms R nets (suc n) rate ttl es d') [
    | none ↦ none
    | some (outs, d'') ↦ some ((e, out) ∷ outs, d'')
  ]
]

abbrev pub has_no_colon : Text → Bool
has_no_colon event = count_of b':' event == 0

colons : (event : Text) → length (split_from b':' [] (queue_key event)) ≡ 3 + count_of b':' event
unfolding queue_key
colons event =
    length-split_from b':' [] (codes "room:" ++ (event ++ codes ":queue"))
    ∙ omega (arith, count_of-append b':' event (codes ":queue"))

middle_of-long : (ps : List Text) (n : ℕ) → length ps ≡ 3 + suc n → middle_of ps ≡ none
unfolding middle_of
middle_of-long [] n h = refl
middle_of-long (a ∷ []) n h = refl
middle_of-long (a ∷ b ∷ []) n h = refl
middle_of-long (a ∷ b ∷ c ∷ []) n h = absurd (omega arith)
middle_of-long (a ∷ b ∷ c ∷ d ∷ ps) n h = refl

-- The parts of the key of an event without a colon.
three_parts :
    (event : Text)
    → count_of b':' event ≡ 0
    → split_from b':' [] (queue_key event) ≡ codes "room" ∷ event ∷ codes "queue" ∷ []
unfolding queue_key split_from
three_parts event h =
    split_from-append b':' [] (codes "room") (event ++ codes ":queue") refl
    ∙ ap (λ x. codes "room" ∷ x) (split_from-append b':' [] event (codes "queue") h)

middle_of-queue_key :
    (event : Text)
    → middle_of (split_from b':' [] (queue_key event))
      ≡ (if has_no_colon event then some event else none)
unfolding middle_of
middle_of-queue_key event = elim (Bool-cases (has_no_colon event)) [
  | inl e ↦ rw e (ap middle_of (three_parts event (ground arith)))
  | inr e ↦ rw e (middle_of-long _ (count_of b':' event - 1) (colons event ∙ ground arith))
]

scan_events-queue_key :
    (events : List Text) → scan_events (map queue_key events) ≡ keep has_no_colon events
unfolding scan_events
scan_events-queue_key [] = refl
scan_events-queue_key (e ∷ es) = elim (Bool-cases (has_no_colon e)) [
  | inl y ↦ rw (middle_of-queue_key e, y, scan_events) (ap (λ x. e ∷ x) (scan_events-queue_key es))
  | inr n ↦ rw (middle_of-queue_key e, n, scan_events) (scan_events-queue_key es)
]

-- Where KEYS reports the queues of some events, a tick of the worker of all rooms reaches exactly
-- those events whose id has no colon, in that order; where KEYS fails it reaches none.
pub tick_events_lem :
    (events : List Text)
    → (tick_events (codes "*") (some (map queue_key events)) ≡ keep has_no_colon events)
      × (tick_events (codes "*") none ≡ [])
unfolding tick_events text_eq
tick_events_lem events = (scan_events-queue_key events, refl)
