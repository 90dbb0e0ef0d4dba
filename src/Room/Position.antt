-- ===== src/Room/Position.antt =====
-- Positions in the queue: joining, joining again, and what `Status` and `Heartbeat` report.
use openwar.Common.{
  ℕ, suc, ◌+◌, ◌<◌, ◌≡◌, refl, ap, ◌∙◌, true, false, none, some, ◌∷◌, [], ◌++◌, List, arith, All,
  length,
}
use openwar.Common.Int.{negsuc}
use openwar.Common.Text.{Text, codes, text_eq_self}
use openwar.Redis.{
  Redis, IsLawful, Value, absent, str, num, zset, hash, Entry, fine, call, rank, rank_from,
  add_entry, insert_entry, add_to, entries_of,
}
use openwar.Room.{queue, has_token, join, status, heartbeat}
use openwar.Room.Keys.{queue_key, hb_key, queue-hb, hb-queue, hb-admit}

-- A key of a queue holds a sorted set or nothing.
abbrev pub IsQueue : Value → Type 0
IsQueue absent = Unit
IsQueue (zset xs) = Unit
IsQueue _ = ⊥

entries-add_to :
    (e : Entry) (v : Value) → IsQueue v → entries_of (add_to e v) ≡ add_entry e (entries_of v)
unfolding add_entry insert_entry rank_from
entries-add_to e absent h = refl
entries-add_to e (zset xs) h = refl
entries-add_to e (str t) h = elim h [ ]
entries-add_to e (num n) h = elim h [ ]
entries-add_to e (hash f) h = elim h [ ]

insert-last :
    (e : Entry) (xs : List Entry)
    → All (λ x. x.score < e.score) xs
    → insert_entry e xs ≡ xs ++ e ∷ []
unfolding insert_entry
insert-last e [] h = refl
insert-last e (x ∷ xs) h = ground (arith, insert-last e xs h.1)

rank_from-last :
    (n : ℕ) (e : Entry) (xs : List Entry)
    → rank_from n e.member xs ≡ none
    → rank_from n e.member (xs ++ e ∷ []) ≡ some (n + length xs)
unfolding rank_from
rank_from-last n e [] h = rw text_eq_self (ground arith)
rank_from-last n e (x ∷ xs) h = ground (arith, rank_from-last (suc n) e xs)

module _ (R : Redis) (L : IsLawful R) (event sid : Text) (hb_ttl score : ℕ) (d : R.Db) where
  entry : Entry
  entry = record { score = score; member = sid }

  joined : R.Db
  joined = (join R event fine hb_ttl score sid d).1

  queue-joined :
      IsQueue (R.look d (queue_key event))
      → queue R event joined ≡ add_entry entry (queue R event d)
  unfolding joined join call entry
  queue-joined h = rw (L.look-zadd_nx, text_eq_self, L.look-set, hb-queue) (entries-add_to _ _ h)

  reply-joined : (join R event fine hb_ttl score sid d).0 ≡ some (rank sid (queue R event joined))
  unfolding joined join call
  reply-joined = refl

  hb-joined : R.look joined (hb_key event sid) ≡ str (codes "1")
  unfolding joined join call
  hb-joined = rw (L.look-zadd_nx, queue-hb, L.look-set, text_eq_self)

  -- A session that joins later than all who wait goes to the end of the queue: its position is the
  -- number of sessions before it, nobody else moves, and its heartbeat is set.
  join_new :
      IsQueue (R.look d (queue_key event))
      → rank sid (queue R event d) ≡ none
      → All (λ x. x.score < score) (queue R event d)
      → let r = join R event fine hb_ttl score sid d in
        (r.0 ≡ some (some (length (queue R event d))))
        × (queue R event r.1 ≡ queue R event d ++ record { score = score; member = sid } ∷ [])
        × (R.look r.1 (hb_key event sid) ≡ str (codes "1"))
  unfolding joined add_entry entry
  join_new h n later =
      let q : queue R event joined ≡ queue R event d ++ entry ∷ [] =
        queue-joined h ∙ rw (n, add_entry) (insert-last entry (queue R event d) later) in
      (
        reply-joined ∙ ap some (rw q (rank_from-last 0 entry (queue R event d) n ∙ ground arith)),
        q,
        hb-joined,
      )

  -- A session that joins again keeps its place: the queue is the same, the position reported is the
  -- one it has, and its heartbeat is set.
  join_again :
      (n : ℕ)
      → IsQueue (R.look d (queue_key event))
      → rank sid (queue R event d) ≡ some n
      → let r = join R event fine hb_ttl score sid d in
        (r.0 ≡ some (some n))
        × (queue R event r.1 ≡ queue R event d)
        × (R.look r.1 (hb_key event sid) ≡ str (codes "1"))
  unfolding joined add_entry entry
  join_again n h e =
      let q : queue R event joined ≡ queue R event d = queue-joined h ∙ rw (e, add_entry) in
      (reply-joined ∙ ap some (rw q e), q, hb-joined)

  -- A session that is no longer queued but holds a token, as after its admission, is told apart by
  -- `Heartbeat` and not by `Status`: both report position -1, and only `Heartbeat` that it is admitted.
  status_misses_admission :
      rank sid (queue R event d) ≡ none
      → has_token R event d sid ≡ true
      → ((status R event fine fine sid d).0 ≡ some (negsuc 0, false))
        × ((heartbeat R event fine hb_ttl sid d).0 ≡ some (negsuc 0, true))
  unfolding status heartbeat call
  status_misses_admission e t =
      (rw (e, status), rw (L.look-set, L.look-set, hb-queue, hb-admit, e, t))
