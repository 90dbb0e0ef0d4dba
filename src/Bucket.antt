-- ===== src/Bucket.antt =====
-- internal/lua/token_bucket.lua and internal/ratelimiter/limiter.go: a bucket of tokens for each key. Lua
-- counts in floating point: its numbers are an interface. The clock of each call is the caller's.
pub mod Level
pub mod Burst
pub mod Skew
use openwar.Common.{
  ℕ, suc, ◌+◌, ◌-◌, ◌*◌, ◌^◌, ◌≤◌, ◌<◌, ◌≡◌, Bool, true, Option, none, some, List, [], ◌∷◌, leb,
  if◌then◌else◌,
}
use openwar.Common.Int.{ℤ, pos, negsuc}
use openwar.Common.Text.{Text, codes}
use openwar.Breaker.{second}
use openwar.Redis.{Redis, Net, fine, call, fields_of}
use openwar.Lua.{Item, int}
use openwar.Gateway.{Result, FailStrategy, allow}

-- What the script uses of Lua's numbers; `print` is how Redis hands a number on, with 17 digits.
pub record Floats : Type 1 where
  pub W : Type 0
  pub of_nat : ℕ → W
  pub add : W → W → W
  pub sub : W → W → W
  pub mul : W → W → W
  pub div : W → W → W
  pub min : W → W → W
  pub max : W → W → W
  pub le : W → W → Bool
  pub floor : W → ℤ
  pub ceil : W → ℤ
  pub parse : Text → Option W
  pub print : W → Text

-- The operations round, and keep the order; 17 digits tell doubles apart. No value is a NaN, and none is
-- near the largest double.
pub record IsRounded (F : Floats) : Type 0 where
  pub le_trans : (a b c : F.W) → F.le a b ≡ true → F.le b c ≡ true → F.le a c ≡ true
  pub min_le : (a b : F.W) → F.le (F.min a b) a ≡ true
  pub min_pos :
      (a b : F.W)
      → F.le (F.of_nat 0) a ≡ true
      → F.le (F.of_nat 0) b ≡ true
      → F.le (F.of_nat 0) (F.min a b) ≡ true
  pub max_pos : (a : F.W) → F.le (F.of_nat 0) (F.max (F.of_nat 0) a) ≡ true
  pub mul_pos :
      (a b : F.W)
      → F.le (F.of_nat 0) a ≡ true
      → F.le (F.of_nat 0) b ≡ true
      → F.le (F.of_nat 0) (F.mul a b) ≡ true
  pub add_pos :
      (a b : F.W)
      → F.le (F.of_nat 0) a ≡ true
      → F.le (F.of_nat 0) b ≡ true
      → F.le (F.of_nat 0) (F.add a b) ≡ true
  pub sub_pos : (a b : F.W) → F.le b a ≡ true → F.le (F.of_nat 0) (F.sub a b) ≡ true
  pub sub_le : (a b : F.W) → F.le (F.of_nat 0) b ≡ true → F.le (F.sub a b) a ≡ true
  pub le_refl : (a : F.W) → F.le a a ≡ true
  pub parse-print : (a : F.W) → F.parse (F.print a) ≡ some a

-- IEEE doubles are exact on integers below 2^53.
pub record IsExact (F : Floats) : Type 0 where
  pub add_exact : (a b : ℕ) → a + b < 2 ^ 53 → F.add (F.of_nat a) (F.of_nat b) ≡ F.of_nat (a + b)
  pub sub_exact :
      (a b : ℕ) → b ≤ a → a < 2 ^ 53 → F.sub (F.of_nat a) (F.of_nat b) ≡ F.of_nat (a - b)
  pub mul_exact : (a b : ℕ) → a * b < 2 ^ 53 → F.mul (F.of_nat a) (F.of_nat b) ≡ F.of_nat (a * b)
  pub min_exact :
      (a b : ℕ)
      → a < 2 ^ 53
      → b < 2 ^ 53
      → F.min (F.of_nat a) (F.of_nat b) ≡ F.of_nat (if leb a b then a else b)
  pub le_exact : (a b : ℕ) → a < 2 ^ 53 → b < 2 ^ 53 → F.le (F.of_nat a) (F.of_nat b) ≡ leb a b
  pub max_exact : (a : ℕ) → a < 2 ^ 53 → F.max (F.of_nat 0) (F.of_nat a) ≡ F.of_nat a
  pub max_back : (a b : F.W) → F.le a b ≡ true → F.max (F.of_nat 0) (F.sub a b) ≡ F.of_nat 0
  pub mul_zero : (a : F.W) → F.le (F.of_nat 0) a ≡ true → F.mul (F.of_nat 0) a ≡ F.of_nat 0

module _ (F : Floats) where
  -- `Limiter`, as `New` makes it.
  pub record Limiter : Type 0 where
    pub fail_strategy : FailStrategy
    pub capacity : F.W
    pub refill_rate : F.W

  -- `Capacity`: the conversion to int64 cuts the fraction off.
  unfoldable pub capacity_int : Limiter → ℤ
  capacity_int l = F.floor l.capacity

  -- `tonumber` of a field; of a missing one it is nil.
  abbrev pub number : Option Text → Option F.W
  number none = none
  number (some s) = F.parse s

  -- The tokens before the request.
  abbrev pub refilled : F.W → F.W → F.W → Option F.W → Option F.W → F.W
  refilled cap rate now (some tokens) (some last) =
      F.min cap (F.add tokens (F.mul (F.max (F.of_nat 0) (F.sub now last)) rate))
  refilled cap rate now _ _ = cap

  abbrev pub natural : ℤ → ℕ
  natural (pos n) = n
  natural (negsuc n) = 0

  -- The time to live, in nanoseconds.
  abbrev pub idle_ttl : F.W → F.W → ℕ
  idle_ttl cap rate = natural (F.ceil (F.div cap rate)) * 2 * second

  module _ (R : Redis) (l : Limiter) where
    unfoldable pub keep_tokens : Text → F.W → F.W → R.Db → R.Db
    keep_tokens key now tokens d =
        R.expire
          (R.hset (R.hset d key (codes "tokens") (F.print tokens)) key (codes "last_updated")
            (F.print now))
          key (idle_ttl l.capacity l.refill_rate)

    abbrev pub level : Text → F.W → R.Db → F.W
    level key now d =
        refilled l.capacity l.refill_rate now (number (fields_of (R.look d key) (codes "tokens")))
          (number (fields_of (R.look d key) (codes "last_updated")))

    unfoldable pub serve : Text → F.W → F.W → F.W → R.Db → List Item × R.Db
    serve key now requested tokens d =
        if F.le requested tokens
        then (
          int (pos 1) ∷ int (F.floor (F.sub tokens requested)) ∷ int (pos 0) ∷ [],
          keep_tokens key now (F.sub tokens requested) d,
        )
        else (
          int (pos 0)
              ∷ int (F.floor tokens)
              ∷ int (F.ceil (F.div (F.sub requested tokens) l.refill_rate))
              ∷ [],
          keep_tokens key now tokens d,
        )

    -- token_bucket.lua
    unfoldable pub token_bucket_script : Text → F.W → F.W → R.Db → List Item × R.Db
    unfolding serve
    token_bucket_script key now requested d = serve key now requested (level key now d) d

    -- `Allow`: one token is requested.
    unfoldable pub allow_key : Net → Text → F.W → R.Db → Result × R.Db
    allow_key net key now d =
        let (reply, d1) = call net (token_bucket_script key now (F.of_nat 1)) d in
        (allow l.fail_strategy reply, d1)

    -- Calls one after another at these clocks, every trip made: how many of them are allowed.
    unfoldable pub allow_all : Text → List F.W → R.Db → ℕ × R.Db
    allow_all key [] d = (0, d)
    allow_all key (now ∷ nows) d =
        let (r, d1) = allow_key fine key now d in
        let (n, d2) = allow_all key nows d1 in (if r.allowed then suc n else n, d2)
