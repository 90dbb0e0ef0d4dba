-- ===== src/Room.antt =====
-- internal/waitingroom: the `Room` (room.go) and the admission `Worker` (worker.go) of one event. A
-- pipeline is one step. The score of a join is the time of the call as the float64 that Redis keeps.
pub mod Keys
pub mod Admission
pub mod Batch
pub mod Tokens
pub mod Position
pub mod Scan
pub mod Turn
use openwar.Common.{
  ℕ, ◌/◌, Bool, true, false, Option, none, some, List, [], ◌∷◌, ◌++◌, ◌==◌, if◌then◌else◌, length,
}
use openwar.Common.Int.{ℤ, pos, negsuc}
use openwar.Common.Text.{Text, codes, text_eq}
use openwar.Redis.{Redis, Net, call, Value, Entry, entries_of, exists, rank}
use openwar.Breaker.{second}
use openwar.Lua.{BatchReply, replied, aborted, admit_batch, consume_admit}
use Keys.{queue_key, hb_key, admit_key, hb_prefix, admit_prefix}

-- What a call returns besides an error.
abbrev pub Position : Type 0
Position = ℤ × Bool

-- A rank as the position that is reported, -1 if there is none.
abbrev pub position : Option ℕ → ℤ
position none = negsuc 0
position (some n) = pos n

module _ (R : Redis) (event : Text) where
  abbrev pub queue : R.Db → List Entry
  queue d = entries_of (R.look d (queue_key event))

  abbrev pub has_token : R.Db → Text → Bool
  has_token d sid = exists (R.look d (admit_key event sid))

  -- `Join`
  unfoldable pub join : Net → ℕ → ℕ → Text → R.Db → Option (Option ℕ) × R.Db
  join net hb_ttl score sid = call net λ d.
      let d1 = R.set d (hb_key event sid) (codes "1") hb_ttl in
      let d2 = R.zadd_nx d1 (queue_key event) score sid in (rank sid (queue d2), d2)

  -- `Status`: the second trip is made only for a session in the queue.
  unfoldable pub status : Net → Net → Text → R.Db → Option Position × R.Db
  status net net' sid d =
      let (r, d') = call net (λ x. (rank sid (queue x), x)) d in
      elim r [
        | none ↦ (none, d')
        | some none ↦ (some (negsuc 0, false), d')
        | some (some n) ↦
            let (a, d'') = call net' (λ x. (has_token x sid, x)) d' in
            (elim a [ none ↦ none | some t ↦ some (pos n, t) ], d'')
      ]

  -- `Heartbeat`
  unfoldable pub heartbeat : Net → ℕ → Text → R.Db → Option Position × R.Db
  heartbeat net hb_ttl sid = call net λ d.
      let d1 = R.set d (hb_key event sid) (codes "1") hb_ttl in
      ((position (rank sid (queue d1)), has_token d1 sid), d1)

  -- `Admit`: the second trip is made only for a live session.
  unfoldable pub admit : Net → Net → ℕ → Text → R.Db → Option Bool × R.Db
  admit net net' ttl sid d =
      let (r, d') = call net (λ x. (exists (R.look x (hb_key event sid)), x)) d in
      elim r [
        | none ↦ (none, d')
        | some false ↦ (some false, d')
        | some true ↦
            let (u, d'') =
              call {A = Unit {0}} net' (λ x. (tt, R.set x (admit_key event sid) (codes "1") ttl))
                d' in
            (elim u [ none ↦ none | some v ↦ some true ], d'')
      ]

  -- `HasAdmission`
  unfoldable pub has_admission : Net → Text → R.Db → Option Bool × R.Db
  has_admission net sid = call net (λ x. (has_token x sid, x))

  is_int_one : ℤ → Bool
  is_int_one (pos n) = n == 1
  is_int_one (negsuc n) = false

  -- `ConsumeAdmission`
  unfoldable pub consume_admission : Net → Text → R.Db → Option Bool × R.Db
  unfolding is_int_one
  consume_admission net sid d =
      let (r, d') = call net (consume_admit R (admit_key event sid)) d in
      (elim r [ none ↦ none | some n ↦ some (is_int_one n) ], d')

  sessions_of : BatchReply → List Text
  sessions_of (replied admitted) = admitted
  sessions_of aborted = []

  -- `tickOnceForEvent`: the sessions that `onAdmit` is called for. The script gets the admission TTL in
  -- whole seconds. A batch whose reply is lost admits without calls, and after an error of the script
  -- there are none either. A rate below 0 acts as 0, and so does a TTL below 0: SET refuses either age.
  unfoldable pub tick_once_for_event : Net → ℕ → ℕ → R.Db → Option (List Text × R.Db)
  unfolding sessions_of
  tick_once_for_event net rate ttl d =
      elim (admit_batch R (queue_key event) (hb_prefix event) (admit_prefix event) rate
        (ttl / second) d) [
          | none ↦ none
          | some (b, d') ↦
              let (r, e) = call net (λ x. (b, d')) d in
              some (elim r [ none ↦ [] | some x ↦ sessions_of x ], e)
        ]

  -- The rounds of `loop`, for a worker of this event, each with its trip.
  unfoldable pub ticks : List Net → ℕ → ℕ → R.Db → Option R.Db
  ticks [] rate ttl d = some d
  ticks (net ∷ nets) rate ttl d = elim (tick_once_for_event net rate ttl d) [
    | none ↦ none
    | some (admitted, d') ↦ ticks nets rate ttl d'
  ]
