-- ===== src/Room/Turn.antt =====
-- How long a session waits: the rounds of the worker's loop until its turn comes.
use native.Mathlib.Nat.{zero-add, suc-mul}
use openwar.Common.{
  ℕ, zero, suc, ◌+◌, ◌*◌, ◌/◌, ◌≤◌, ◌<◌, ◌≡◌, refl, ap, sym, subst, ◌∙◌, ◌⊎◌, inl, inr, Bool, true,
  false, Bool-cases, Option, some, List, [], ◌∷◌, take, keep, if◌then◌else◌, arith,
}
use openwar.Common.Text.{Text, codes, text_eq, text_eq_iff, text_eq_self}
use openwar.Redis.{Redis, IsLawful, str, Entry, exists, rank_from, Net, fine, lost, cut, call}
use openwar.Breaker.{second}
use openwar.Lua.{BatchReply, replied, admit_batch}
use openwar.Room.{queue, join, tick_once_for_event, ticks, consume_admission}
use openwar.Room.Keys.{queue_key, admit_key, hb_prefix, admit_prefix, queue-hb}
use openwar.Room.Admission.{members, left_over, contains, is_live}
use openwar.Room.Batch.{admit_batch_lem}
use openwar.Room.Tokens.{consume_admission_lem}

-- A session that stands at a place of a list.
abbrev At : Text → List Text → ℕ → Type 0
At s [] n = ⊥
At s (x ∷ xs) zero = text_eq x s ≡ true
At s (x ∷ xs) (suc n) = At s xs n

-- A trip on which the server gets the request.
abbrev pub arrives : Net → Bool
arrives fine = true
arrives lost = false
arrives cut = true

abbrev pub arrived : List Net → ℕ
arrived [] = 0
arrived (n ∷ ns) = let rest = arrived ns in if arrives n then suc rest else rest

-- The place that a rank names.
rank-At :
    (xs : List Entry) (n k : ℕ) (s : Text)
    → rank_from n s xs ≡ some k
    → (q : ℕ) × At s (members xs) q × (n + q ≡ k)
unfolding rank_from
rank-At [] n k s e = cc
rank-At (x ∷ xs) n k s e = elim (Bool-cases (text_eq x.member s)) [
  | inl y ↦ (0, y, ground arith)
  | inr y ↦ let (q, a, p) = rank-At xs (suc n) k s (ground arith) in (suc q, a, omega arith)
]

-- One batch admits a session or brings it forward.
batch_moves :
    (live : Text → Bool) (s : Text) (xs : List Text) (left p : ℕ)
    → live s ≡ true
    → At s xs p
    → (contains (take left (keep live xs)) s ≡ true)
      ⊎ ((q : ℕ) × At s (left_over live left xs) q × (q + left ≤ p))
unfolding left_over contains
batch_moves live s xs zero p l e = inr (p, e, omega arith)
batch_moves live s [] (suc left) p l e = elim e [ ]
batch_moves live s (x ∷ xs) (suc left) zero l e =
    let alive : live x ≡ true = ap live ((text_eq_iff x s).0 e) ∙ l in inl (rw alive (rw e refl))
batch_moves live s (x ∷ xs) (suc left) (suc p) l e = elim (Bool-cases (live x)) [
  | inl y ↦ elim (batch_moves live s xs left p l e) [
    | inl c ↦ inl (rw y (ground arith))
    | inr (q, a, le) ↦ inr (q, rw (y, left_over) a, omega arith)
  ]
  | inr y ↦ elim (batch_moves live s xs (suc left) p l e) [
    | inl c ↦ inl (rw y c)
    | inr (q, a, le) ↦ inr (q, rw (y, left_over) a, omega arith)
  ]
]

module _ (R : Redis) (L : IsLawful R) (event : Text) (rate ttl : ℕ) (s : Text)
    (whole : 0 < ttl / second) where
  -- A session that has its token, or is alive and has a place before this bound.
  Waits : ℕ → R.Db → Type 0
  Waits bound d =
      (R.look d (admit_key event s) ≡ str (codes "1"))
      ⊎ ((is_live R event d s ≡ true) × (p : ℕ) × At s (members (queue R event d)) p × (p < bound))

  batch : R.Db → Option (BatchReply × R.Db)
  batch d =
      admit_batch R (queue_key event) (hb_prefix event) (admit_prefix event) rate (ttl / second) d

  batch-Waits :
      (bound : ℕ) (d : R.Db)
      → Waits (rate + bound) d
      → (out : List Text) × (d' : R.Db) × (batch d ≡ some (replied out, d')) × Waits bound d'
  unfolding Waits batch
  batch-Waits bound d w =
      let (d', r, q, a, hb) = (admit_batch_lem R L event rate (ttl / second) d whole).0 in
      let sids = members (queue R event d) in
      let out = take rate (keep (is_live R event d) sids) in
      (
        out,
        d',
        r,
        elim w [
          | inl t ↦ inl (a s ∙ rw t (ground arith))
          | inr (l, p, at, lt) ↦ elim (batch_moves (is_live R event d) s sids rate p l at) [
            | inl c ↦ inl (a s ∙ rw c refl)
            | inr (p', at', le) ↦
                inr (ap exists (hb s) ∙ l, p', subst (λ xs. At s xs p') (sym q) at', omega arith)
          ]
        ],
      )

  -- How far a round brings the queue forward.
  gain : Net → ℕ
  gain net = if arrives net then rate else 0

  tick-Waits :
      (net : Net) (bound : ℕ) (d : R.Db)
      → Waits (gain net + bound) d
      → (out : List Text) × (d' : R.Db) × (tick_once_for_event R event net rate ttl d
          ≡ some (out, d'))
        × Waits bound d'
  unfolding gain tick_once_for_event call batch
  tick-Waits fine bound d w =
      let (out, d', r, w') = batch-Waits bound d w in
      (out, d', rw (r, tick_once_for_event) refl, w')
  tick-Waits cut bound d w =
      let (out, d', r, w') = batch-Waits bound d w in ([], d', rw (r, tick_once_for_event) refl, w')
  tick-Waits lost bound d w =
      let r = (admit_batch_lem R L event rate (ttl / second) d whole).0.1 in
      ([], d, rw (r, tick_once_for_event) refl, subst (λ n. Waits n d) (zero-add bound) w)

  gained :
      (net : Net) (nets : List Net) → arrived (net ∷ nets) * rate ≡ gain net + arrived nets * rate
  unfolding gain
  gained fine nets = suc-mul (arrived nets) rate ∙ omega arith
  gained cut nets = suc-mul (arrived nets) rate ∙ omega arith
  gained lost nets = sym (zero-add _)

  ticks-Waits :
      (nets : List Net) (d : R.Db)
      → Waits (arrived nets * rate) d
      → (d' : R.Db) × (ticks R event nets rate ttl d ≡ some d')
        × (R.look d' (admit_key event s) ≡ str (codes "1"))
  unfolding ticks Waits
  ticks-Waits [] d (inl t) = (d, refl, t)
  ticks-Waits [] d (inr (l, p, at, lt)) = absurd (omega arith)
  ticks-Waits (net ∷ nets) d w =
      let (out, d', r, w') =
        tick-Waits net (arrived nets * rate) d (subst (λ n. Waits n d) (gained net nets) w) in
      let (d'', r', t) = ticks-Waits nets d' w' in (d'', rw (r, ticks) r', t)

  join-Waits :
      (net : Net) (hb_ttl score p bound : ℕ) (d : R.Db)
      → (join R event net hb_ttl score s d).0 ≡ some (some p)
      → p < bound
      → Waits bound (join R event net hb_ttl score s d).1
  unfolding join call Waits
  join-Waits fine hb_ttl score p bound d e lt =
      let (q, a, n) = rank-At _ 0 p s (ground arith) in
      inr (rw (L.look-zadd_nx, queue-hb, L.look-set, text_eq_self) refl, q, a, omega arith)
  join-Waits lost hb_ttl score p bound d e lt = cc
  join-Waits cut hb_ttl score p bound d e lt = cc

  -- A session that joins and is told its position is admitted in its turn, if the admission TTL is
  -- at least a second: once as many rounds of the admission worker have reached Redis as, times
  -- the rate, exceed that position, however many others were lost, and whether or not the replies
  -- arrive, each round has ended and `ConsumeAdmission` finds the session's token. Between the
  -- join and the last round nothing else changes the room, and no key of it expires.
  pub turn_comes :
      (net : Net) (hb_ttl score p : ℕ) (nets : List Net) (d : R.Db)
      → (join R event net hb_ttl score s d).0 ≡ some (some p)
      → p < arrived nets * rate
      → (d' : R.Db) × (ticks R event nets rate ttl (join R event net hb_ttl score s d).1 ≡ some d')
        × ((consume_admission R event fine s d').0 ≡ some true)
  turn_comes net hb_ttl score p nets d e lt =
      let (d', r, t) = ticks-Waits nets _ (join-Waits net hb_ttl score p _ d e lt) in
      let (c, gone) = consume_admission_lem R L event s d' (rw t tt) in
      (d', r, c ∙ ap (λ v. some (exists v)) t)
