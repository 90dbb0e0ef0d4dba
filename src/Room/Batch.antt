-- ===== src/Room/Batch.antt =====
-- The rounds of admit_batch.lua on the queue of an event.
use openwar.Common.{
  ℕ, zero, suc, ◌*◌, ◌<◌, ◌≡◌, refl, ◌∙◌, ap, Bool, true, false, Option, some, List, [], ◌∷◌,
  length, if◌then◌else◌, arith, Bool-cases, inl, inr,
}
use openwar.Common.Text.{Text, codes, text_eq, text_eq_self}
use openwar.Redis.{
  Redis, IsLawful, Value, absent, str, num, zset, hash, Entry, entries_of, exists, pop_from,
  rest_of,
}
use openwar.Breaker.{second}
use openwar.Lua.{BatchReply, replied, aborted, admit_loop, admit_batch}
use openwar.Room.{queue}
use openwar.Room.Admission.{members, left_over, contains, Admits, Aborts, is_live}
use openwar.Room.Keys.{
  queue_key, hb_key, admit_key, hb_prefix, admit_prefix, queue-hb, admit-queue, queue-admit,
  admit-hb, admit_key-eq,
}

entries-pop : (v : Value) → entries_of (pop_from v) ≡ rest_of (entries_of v)
entries-pop absent = refl
entries-pop (str t) = refl
entries-pop (num n) = refl
entries-pop (hash f) = refl
entries-pop (zset []) = refl
entries-pop (zset (x ∷ [])) = refl
entries-pop (zset (x ∷ y ∷ xs)) = refl

module _ (R : Redis) (L : IsLawful R) (event : Text) (live : Text → Bool) where
  popped : R.Db → R.Db
  popped d = R.zpopmin d (queue_key event)

  queue-popped : (d : R.Db) → queue R event (popped d) ≡ rest_of (queue R event d)
  unfolding popped
  queue-popped d = rw (L.look-zpopmin, text_eq_self) (entries-pop (R.look d (queue_key event)))

  hb-popped : (d : R.Db) (s : Text) → R.look (popped d) (hb_key event s) ≡ R.look d (hb_key event s)
  unfolding popped
  hb-popped d s = rw (L.look-zpopmin, queue-hb)

  admit-popped :
      (d : R.Db) (s : Text) → R.look (popped d) (admit_key event s) ≡ R.look d (admit_key event s)
  unfolding popped
  admit-popped d s = rw (L.look-zpopmin, queue-admit)

  tokened : ℕ → Text → R.Db → R.Db
  tokened n sid d = R.set d (admit_key event sid) (codes "1") (suc n * second)

  queue-tokened :
      (n : ℕ) (sid : Text) (d : R.Db) → queue R event (tokened n sid d) ≡ queue R event d
  unfolding tokened
  queue-tokened n sid d = rw (L.look-set, admit-queue)

  hb-tokened :
      (n : ℕ) (sid : Text) (d : R.Db) (s : Text)
      → R.look (tokened n sid d) (hb_key event s) ≡ R.look d (hb_key event s)
  unfolding tokened
  hb-tokened n sid d s = rw (L.look-set, admit-hb)

  admit-tokened :
      (n : ℕ) (sid : Text) (d : R.Db) (s : Text)
      → R.look (tokened n sid d) (admit_key event s)
        ≡ (if text_eq sid s then str (codes "1") else R.look d (admit_key event s))
  unfolding tokened
  admit-tokened n sid d s = rw (L.look-set, admit_key-eq)

  loop_from : ℕ → ℕ → ℕ → R.Db → Option (BatchReply × R.Db)
  loop_from seconds fuel left d =
      admit_loop R (queue_key event) (hb_prefix event) (admit_prefix event) seconds fuel left d

  admitted_round :
      (n fuel left : ℕ) (d : R.Db) (x : Entry) (xs : List Entry)
      → queue R event d ≡ x ∷ xs
      → exists (R.look d (hb_key event x.member)) ≡ true
      → (d' : R.Db) (out : List Text)
      → loop_from (suc n) fuel left (tokened n x.member (popped d)) ≡ some (replied out, d')
      → loop_from (suc n) (suc fuel) (suc left) d ≡ some (replied (x.member ∷ out), d')
  unfolding loop_from admit_loop tokened popped
  admitted_round n fuel left d x xs q e d' out r =
      let alive : exists (R.look (R.zpopmin d (queue_key event)) (hb_key event x.member)) ≡ true =
        ap exists (hb-popped d x.member) ∙ e in
      rw (q, alive, r, admit_loop)

  aborted_round :
      (fuel left : ℕ) (d : R.Db) (x : Entry) (xs : List Entry)
      → queue R event d ≡ x ∷ xs
      → exists (R.look d (hb_key event x.member)) ≡ true
      → loop_from 0 (suc fuel) (suc left) d ≡ some (aborted, popped d)
  unfolding loop_from admit_loop popped
  aborted_round fuel left d x xs q e =
      let alive : exists (R.look (R.zpopmin d (queue_key event)) (hb_key event x.member)) ≡ true =
        ap exists (hb-popped d x.member) ∙ e in
      rw (q, alive, admit_loop)

  skipped_round :
      (seconds fuel left : ℕ) (d : R.Db) (x : Entry) (xs : List Entry)
      → queue R event d ≡ x ∷ xs
      → exists (R.look d (hb_key event x.member)) ≡ false
      → loop_from seconds (suc fuel) (suc left) d ≡ loop_from seconds fuel (suc left) (popped d)
  unfolding loop_from admit_loop popped
  skipped_round seconds fuel left d x xs q e =
      let dead : exists (R.look (R.zpopmin d (queue_key event)) (hb_key event x.member)) ≡ false =
        ap exists (hb-popped d x.member) ∙ e in
      rw (q, dead, admit_loop)

  loop-Admits :
      (n : ℕ) (xs : List Entry) (fuel left : ℕ) (d : R.Db)
      → length xs < fuel
      → queue R event d ≡ xs
      → ((s : Text) → exists (R.look d (hb_key event s)) ≡ live s)
      → Admits R event live left (members xs) d (loop_from (suc n) fuel left d)
  unfolding loop_from admit_loop left_over contains
  loop-Admits n xs zero left d h q l = absurd (omega arith)
  loop-Admits n xs (suc fuel) zero d h q l = (d, refl, ap members q, λ s. refl, λ s. refl)
  loop-Admits n [] (suc fuel) (suc left) d h q l =
      (d, rw (q, admit_loop), ap members q, λ s. refl, λ s. refl)
  loop-Admits n (x ∷ xs) (suc fuel) (suc left) d h q l = elim (Bool-cases (live x.member)) [
    | inl alive ↦
        let (d', r, q', a, hb) =
          loop-Admits n xs fuel left (tokened n x.member (popped d)) (omega arith)
            (queue-tokened n x.member (popped d) ∙ queue-popped d ∙ ap rest_of q)
            (λ s. ap exists (hb-tokened n x.member (popped d) s ∙ hb-popped d s) ∙ l s) in
        rw (alive, left_over)
          (
            d',
            admitted_round n fuel left d x xs q (l x.member ∙ alive) d' _ r,
            q',
            λ s. a s ∙ rw (admit-tokened n x.member (popped d) s, admit-popped d s) (ground arith),
            λ s. hb s ∙ hb-tokened n x.member (popped d) s ∙ hb-popped d s,
          )
    | inr dead ↦
        let (d', r, q', a, hb) =
          loop-Admits n xs fuel (suc left) (popped d) (omega arith) (queue-popped d ∙ ap rest_of q)
            (λ s. ap exists (hb-popped d s) ∙ l s) in
        rw (dead, left_over)
          (
            d',
            skipped_round (suc n) fuel left d x xs q (l x.member ∙ dead) ∙ r,
            q',
            λ s. a s ∙ rw (admit-popped d s),
            λ s. hb s ∙ hb-popped d s,
          )
  ]

  -- The same for tokens that are refused.
  loop-Aborts :
      (xs : List Entry) (fuel left : ℕ) (d : R.Db)
      → length xs < fuel
      → queue R event d ≡ xs
      → ((s : Text) → exists (R.look d (hb_key event s)) ≡ live s)
      → Aborts R event live left (members xs) d (loop_from 0 fuel left d)
  unfolding loop_from admit_loop left_over
  loop-Aborts xs zero left d h q l = absurd (omega arith)
  loop-Aborts xs (suc fuel) zero d h q l = (d, refl, ap members q, λ s. refl, λ s. refl)
  loop-Aborts [] (suc fuel) (suc left) d h q l =
      (d, rw (q, admit_loop), ap members q, λ s. refl, λ s. refl)
  loop-Aborts (x ∷ xs) (suc fuel) (suc left) d h q l = elim (Bool-cases (live x.member)) [
    | inl alive ↦
        rw (alive, left_over)
          (
            popped d,
            aborted_round fuel left d x xs q (l x.member ∙ alive),
            ap members (queue-popped d ∙ ap rest_of q),
            admit-popped d,
            hb-popped d,
          )
    | inr dead ↦
        let (d', r, q', a, hb) =
          loop-Aborts xs fuel (suc left) (popped d) (omega arith) (queue-popped d ∙ ap rest_of q)
            (λ s. ap exists (hb-popped d s) ∙ l s) in
        rw (dead, left_over)
          (
            d',
            skipped_round 0 fuel left d x xs q (l x.member ∙ dead) ∙ r,
            q',
            λ s. a s ∙ admit-popped d s,
            λ s. hb s ∙ hb-popped d s,
          )
  ]

module _ (R : Redis) (L : IsLawful R) (event : Text) where
  -- A batch always ends. With a TTL of a second or more it admits exactly the first live sessions
  -- of the queue, in their order and at most `rate` of them; each gets an admission token, no
  -- other token changes, nor any heartbeat. The queue keeps what stood behind the last session
  -- that the batch looked at, so the sessions without a heartbeat that it passed are gone and took
  -- no place of the batch. With a TTL of 0 seconds instead, the first live session that it meets
  -- ends the script with an error: it is gone from the queue with all before it, and gets no
  -- token.
  pub admit_batch_lem :
      (rate seconds : ℕ) (d : R.Db)
      → 0 < seconds
      → let sids = members (queue R event d) in
        let batch = λ (age : ℕ).
          admit_batch R (queue_key event) (hb_prefix event) (admit_prefix event) rate age d in
        Admits R event (is_live R event d) rate sids d (batch seconds)
        × Aborts R event (is_live R event d) rate sids d (batch 0)
  unfolding admit_batch loop_from
  admit_batch_lem rate zero d lt = absurd (omega arith)
  admit_batch_lem rate (suc n) d lt =
      let xs = queue R event d in
      (
        loop-Admits R L event (is_live R event d) n xs (suc (length xs)) rate d (omega arith) refl
            (λ s. refl),
        loop-Aborts R L event (is_live R event d) xs (suc (length xs)) rate d (omega arith) refl
            (λ s. refl),
      )
