-- ===== src/Inventory.antt =====
-- internal/inventory/router.go: the `ShardRouter`. Its state is the breaker and the server's data.
-- Every trip to Redis goes through the breaker; an environment says how the n-th trip goes and when
-- it starts and ends. Metrics are left out.
pub mod Keys
pub mod Hash
pub mod Effect
pub mod Counts
pub mod Sweep
pub mod Reserve
pub mod Search
pub mod Fine
pub mod Parse
pub mod Compensate
pub mod Refund
pub mod Handled
pub mod Latch
pub mod Ends
use openwar.Common.{
  ℕ, zero, suc, ◌+◌, ◌%◌, Bool, true, false, Option, none, some, List, [], ◌∷◌, ◌++◌, if◌then◌else◌,
  ◌==◌,
}
use openwar.Common.Int.{ℤ, pos, negsuc}
use openwar.Common.Text.{Text, codes, text_eq, is_empty}
use openwar.Common.Text.Last.{trim_prefix, before_last}
use openwar.Breaker.{Config, Breaker, Outcome, circuit_open, failed, done, execute}
use openwar.Redis.{Redis, Net, call, exists}
use openwar.Lua.{Item, int, bulk, reserve_stock, release_stock}
use Hash.{shard_for}
use Keys.{inventory_key, soldout_key}

-- How one trip to a server goes, and when it starts and ends.
pub record Trip : Type 0 where
  pub net : Net
  pub start : ℕ
  pub stop : ℕ

abbrev pub is_one : ℤ → Bool
is_one (pos n) = n == 1
is_one (negsuc n) = false

-- What the sweep over the shards ends with.
pub data Swept : Type 0 where
  took : Text → Swept
  stopped : Swept
  exhausted : Swept

-- What the loop does after a trip: return the key, return the breaker's error, or go on.
pub data Verdict : Type 0 where
  take stop go_on : Verdict

unfoldable pub verdict : Outcome (ℤ × ℤ) → Verdict
verdict circuit_open = stop
verdict failed = go_on
verdict (done (ok, remaining)) = if is_one ok then take else go_on

-- What `Reserve` returns: the key, `ErrSoldOut`, or `ErrCircuitOpen`.
pub data Reserved : Type 0 where
  reserved : Text → Reserved
  sold_out : Reserved
  breaker_open : Reserved

-- `toInt` of an item of a reply; a text reads as the number that `Sscanf` finds in it, and none of
-- the texts that the script replies with begins with a digit.
abbrev pub to_int : Item → ℤ
to_int (int n) = n
to_int (bulk t) = pos 0

-- `v.(int64)` with the zero value if it is something else.
abbrev pub as_int : Item → ℤ
as_int (int n) = n
as_int (bulk t) = pos 0

-- `parseSKUFromInvKey`; `none` is the empty text.
unfoldable pub parse_sku : Text → Option Text
parse_sku key = elim (before_last (trim_prefix key (codes "inventory:")) (codes ":shard:")) [
  | none ↦ none
  | some sku ↦ if is_empty sku then none else some sku
]

module _ (R : Redis) (cfg : Config) where
  -- One command inside the breaker.
  unfoldable pub guarded {κ} :
      {A : Type κ} → Trip → (R.Db → A × R.Db) → Breaker → R.Db → Outcome A × Breaker × R.Db
  guarded t f b d = execute cfg t.start t.stop (call t.net f) b d

  -- The loop of `Reserve` over the offsets from `offset` on, `left` of them.
  unfoldable pub sweep : (ℕ → Trip) → Text → ℕ → ℕ → ℕ → ℕ → Breaker → R.Db → Swept × Breaker × R.Db
  sweep trips sku home shards zero offset b d = (exhausted, b, d)
  sweep trips sku home shards (suc left) offset b d =
      let key = inventory_key sku ((home + offset) % shards) in
      let (r, b', d') = guarded (trips (suc offset)) (reserve_stock R key) b d in
      elim (verdict r) [
        | stop ↦ (stopped, b', d')
        | go_on ↦ sweep trips sku home shards left (suc offset) b' d'
        | take ↦ (took key, b', d')
      ]

  -- `isSoldOut`: the latch reads as clear when Redis cannot be asked.
  unfoldable pub is_sold_out : Trip → Text → Breaker → R.Db → Bool × Breaker × R.Db
  is_sold_out t sku b d =
      let (r, b', d') = guarded t (λ x. (exists (R.look x (soldout_key sku)), x)) b d in
      elim r [ circuit_open ↦ (false, b', d') | failed ↦ (false, b', d') | done e ↦ (e, b', d') ]

  -- `latchSoldOut`: an error is ignored.
  unfoldable pub latch_sold_out : Trip → Text → Breaker → R.Db → Breaker × R.Db
  latch_sold_out t sku b d =
      let (r, b', d') =
        guarded {A = Unit {0}} t (λ x. (tt, R.set x (soldout_key sku) (codes "1") 0)) b d in
      (b', d')

  unfoldable pub latch_if :
      (ℕ → Trip) → Text → ℕ → Swept × Breaker × R.Db → Reserved × Breaker × R.Db
  latch_if trips sku shards (took key, b, d) = (reserved key, b, d)
  latch_if trips sku shards (stopped, b, d) = (breaker_open, b, d)
  latch_if trips sku shards (exhausted, b, d) =
      let (b', d') = latch_sold_out (trips (suc shards)) sku b d in (sold_out, b', d')

  unfoldable pub probe_if :
      (ℕ → Trip) → Text → Text → ℕ → Bool × Breaker × R.Db → Reserved × Breaker × R.Db
  probe_if trips sku user shards (true, b, d) = (sold_out, b, d)
  probe_if trips sku user shards (false, b, d) =
      latch_if trips sku shards (sweep trips sku (shard_for user shards) shards shards 0 b d)

  -- `Reserve`: trip 0 asks for the latch, trip n + 1 probes offset n, the last sets the latch.
  unfoldable pub reserve : (ℕ → Trip) → Text → Text → ℕ → Breaker → R.Db → Reserved × Breaker × R.Db
  unfolding latch_if probe_if
  reserve trips sku user shards b d = probe_if trips sku user shards (is_sold_out (trips 0) sku b d)

  -- The `Del` of the latch, outside the breaker; its error is ignored.
  unlatch : Net → Option Text → R.Db → R.Db
  unlatch net none d = d
  unlatch net (some sku) d = (call {A = Unit {0}} net (λ x. (tt, R.del x (soldout_key sku))) d).1

  settle : Net → Text → List Item → Breaker → R.Db → Option ℤ × Breaker × R.Db
  settle net inv (restored ∷ remaining ∷ rest) b d = (
    some (as_int remaining),
    b,
    if is_one (to_int restored) then unlatch net (parse_sku inv) d else d,
  )
  settle net inv other b d = (none, b, d)

  -- `Compensate`: the remaining count, or an error. The script does not read the quantity.
  unfoldable pub compensate : Trip → Net → Text → Text → Breaker → R.Db → Option ℤ × Breaker × R.Db
  unfolding unlatch settle
  compensate t net res inv b d =
      let (r, b', d') = guarded t (release_stock R res inv) b d in
      elim r [
        | circuit_open ↦ (none, b', d')
        | failed ↦ (none, b', d')
        | done reply ↦ settle net inv reply b' d'
      ]
