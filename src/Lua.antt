-- ===== src/Lua.antt =====
-- internal/lua: the scripts that Redis runs, each as one step on the server's data. `redis.call`
-- is a command of the interface; a reply is a Lua array of numbers and texts.
pub mod Stock
pub mod Claim
pub mod Release
use openwar.Common.{
  ℕ, zero, suc, ◌+◌, ◌*◌, Bool, true, false, Option, none, some, List, [], ◌∷◌, ◌++◌, length,
  if◌then◌else◌, not, ◌&&◌,
}
use openwar.Common.Int.{ℤ, pos, negsuc, is_neg}
use openwar.Common.Text.{Text, codes, text_eq}
use openwar.Breaker.{second}
use openwar.Redis.{Redis, Value, Entry, zset, text_of, int_of, exists, entries_of, fields_of}

-- What a batch of admissions ends with: the sessions of the reply, or the error that SET raises.
pub data BatchReply : Type 0 where
  replied : List Text → BatchReply
  aborted : BatchReply

abbrev with_session : Text → BatchReply → BatchReply
with_session sid (replied out) = replied (sid ∷ out)
with_session sid aborted = aborted

-- An item of a reply: Go's `int64` or `string`.
pub data Item : Type 0 where
  int : ℤ → Item
  bulk : Text → Item

module _ (R : Redis) where
  -- reserve_stock.lua: both numbers of the reply.
  unfoldable pub reserve_stock : Text → R.Db → (ℤ × ℤ) × R.Db
  reserve_stock key d =
      let d1 = R.decr d key in
      let remaining = int_of (R.look d1 key) in
      if is_neg remaining then ((pos 0, negsuc 0), R.incr d1 key) else ((pos 1, remaining), d1)

  refund : Text → Text → R.Db → List Item × R.Db
  refund res inv d =
      let d1 = R.set d res (codes "COMPENSATING") 0 in
      let d2 = R.incr d1 inv in
      let remaining = int_of (R.look d2 inv) in
      (int (pos 1) ∷ int remaining ∷ [], R.set d2 res (codes "COMPENSATED") 0)

  -- release_stock.lua; the quantity and the reason are not used by the script.
  unfoldable pub release_stock : Text → Text → R.Db → List Item × R.Db
  unfolding refund
  release_stock res inv d = elim (text_of (R.look d res)) [
    | none ↦ (int (pos 0) ∷ bulk (codes "NO_RESERVATION") ∷ [], d)
    | some st ↦
        if text_eq st (codes "RESERVED") then refund res inv d else (int (pos 0) ∷ bulk st ∷ [], d)
  ]

  -- consume_admit.lua
  unfoldable pub consume_admit : Text → R.Db → ℤ × R.Db
  consume_admit key d = elim (text_of (R.look d key)) [
    | none ↦ (pos 0, d)
    | some t ↦ (pos 1, R.del d key)
  ]

  -- The loop of admit_batch.lua: `left` sessions may still be admitted. A session whose heartbeat is
  -- gone is dropped, and does not count. SET refuses an age of 0 seconds; its error ends the script,
  -- and what it has done so far stays. `none` means that the fuel ran out.
  unfoldable pub admit_loop : Text → Text → Text → ℕ → ℕ → ℕ → R.Db → Option (BatchReply × R.Db)
  admit_loop queue hb adm seconds zero left d = none
  admit_loop queue hb adm seconds (suc fuel) zero d = some (replied [], d)
  admit_loop queue hb adm seconds (suc fuel) (suc left) d = elim (entries_of (R.look d queue)) [
    | [] ↦ some (replied [], d)
    | top ∷ others ↦
        let sid = top.member in
        let d1 = R.zpopmin d queue in
        elim (exists (R.look d1 (hb ++ sid))) [
          | true ↦ elim seconds [
            | zero ↦ some (aborted, d1)
            | suc n ↦
                let d2 = R.set d1 (adm ++ sid) (codes "1") (suc n * second) in
                elim (admit_loop queue hb adm seconds fuel left d2) [
                  | none ↦ none
                  | some (b, d3) ↦ some (with_session sid b, d3)
                ]
          ]
          | false ↦ admit_loop queue hb adm seconds fuel (suc left) d1
        ]
  ]

  -- admit_batch.lua, with one round for each member of the queue and one to see that it is empty.
  unfoldable pub admit_batch : Text → Text → Text → ℕ → ℕ → R.Db → Option (BatchReply × R.Db)
  admit_batch queue hb adm rate seconds d =
      admit_loop queue hb adm seconds (suc (length (entries_of (R.look d queue)))) rate d

  unfoldable pub same_text : Option Text → Text → Bool
  same_text none t = false
  same_text (some s) t = text_eq s t

  unfoldable pub accept_claim : Text → ℕ → Text → Text → R.Db → (ℤ × Text) × R.Db
  accept_claim key ttl print ms d =
      let d1 = R.hset d key (codes "status") (codes "PENDING") in
      let d2 = R.hset d1 key (codes "fingerprint") print in
      let d3 = R.hset d2 key (codes "createdAt") ms in
      ((pos 1, codes "ACCEPTED"), R.expire d3 key (ttl * second))

  -- claim_idem.lua: the code and the word that it returns.
  unfoldable pub claim_idem : Text → ℕ → Text → Text → R.Db → (ℤ × Text) × R.Db
  unfolding accept_claim
  claim_idem key ttl print ms d = elim (fields_of (R.look d key) (codes "status")) [
    | none ↦ accept_claim key ttl print ms d
    | some st ↦
        if text_eq st (codes "FAILED")
        then accept_claim key ttl print ms d
        else if same_text (fields_of (R.look d key) (codes "fingerprint")) print
        then ((pos 0, codes "DUPLICATE"), d)
        else ((pos 0, codes "MISMATCH"), d)
  ]
