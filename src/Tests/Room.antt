-- ===== src/Tests/Room.antt =====
-- A short queue: ada waits and has left, bob waits, and cleo holds a token.
use openwar.Common.{ℕ, ◌*◌, refl, true, arith, ◌≡◌, none, some, [], ◌∷◌, if◌then◌else◌}
use openwar.Common.Text.{Text, codes, text_eq}
use openwar.Redis.{fine, lost, cut, call, rank_from, add_entry, Value, absent, str, zset}
use openwar.Redis.Memory.{memory, memory-IsLawful}
use openwar.Breaker.{second}
use openwar.Lua.{admit_batch, admit_loop}
use openwar.Room.{queue, join, tick_once_for_event, ticks, consume_admission}
use openwar.Room.Turn.{turn_comes}
use openwar.Room.Keys.{queue_key, hb_key, hb_prefix, admit_key, admit_prefix}
use openwar.Room.Admission.{members, Admits, Aborts, is_live}
use openwar.Room.Batch.{admit_batch_lem}
use openwar.Room.Scan.{tick_events, tick_events_lem}
use openwar.Tests.Fixtures.{ada, bob}

abbrev sale : Text
sale = codes "sale"

abbrev cleo : Text
cleo = codes "cleo"

abbrev waiting : Text → Value
waiting k =
    if text_eq k (queue_key sale)
    then zset (record { score = 1; member = ada } ∷ record { score = 2; member = bob } ∷ [])
    else if text_eq k (hb_key sale bob)
    then str (codes "1")
    else if text_eq k (admit_key sale cleo)
    then str (codes "1")
    else absent

admit_batch_lem_example :
    let live = is_live memory sale waiting in
    let sids = members (queue memory sale waiting) in
    let batch = λ (age : ℕ).
      admit_batch memory (queue_key sale) (hb_prefix sale) (admit_prefix sale) 1 age waiting in
    Admits memory sale live 1 sids waiting (batch 60)
    × Aborts memory sale live 1 sids waiting (batch 0)
admit_batch_lem_example = admit_batch_lem memory memory-IsLawful sale 1 60 waiting (omega arith)

-- Without a time to live the batch takes bob out of the queue and gives no token.
lost_turn :
    (d' : memory.Db) × (tick_once_for_event memory sale fine 1 999999999 waiting ≡ some ([], d'))
    × (members (queue memory sale d') ≡ [])
    × (d' (admit_key sale bob) ≡ absent)
unfolding tick_once_for_event call admit_batch admit_loop queue_key hb_prefix admit_prefix text_eq
lost_turn = (_, refl, refl, refl)

tick_events_lem_example :
    (tick_events (codes "*") (some (queue_key sale ∷ queue_key (codes "a:b") ∷ [])) ≡ sale ∷ [])
    × (tick_events (codes "*") none ≡ [])
tick_events_lem_example = tick_events_lem (sale ∷ codes "a:b" ∷ [])

-- bob asks for his position behind ada; the first round is lost, and so is the reply of the last.
turn_comes_example :
    (d' : memory.Db) × (ticks memory sale
        (lost ∷ fine ∷ cut ∷ [])
        1
        (60 * second)
        (join memory sale fine 45 3 bob waiting).1
      ≡ some d')
    × ((consume_admission memory sale fine bob d').0 ≡ some true)
unfolding join rank_from add_entry text_eq call queue_key hb_prefix
turn_comes_example =
    turn_comes memory memory-IsLawful sale 1 (60 * second) bob (omega arith) fine 45 3 1
      (lost ∷ fine ∷ cut ∷ []) waiting refl (omega arith)
