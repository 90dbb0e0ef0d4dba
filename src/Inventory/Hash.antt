-- ===== src/Inventory/Hash.antt =====
-- `hash/fnv`'s New32a over the bytes of a text, and `shardFor`.
use Prim.Native.Nat.{bit_xor}
use openwar.Common.{ℕ, ◌*◌, ◌%◌, ◌^◌, ◌<◌, ◌≡◌, [], ◌∷◌, arith, refl}
use openwar.Common.Text.{Text, codes}

fnv_from : ℕ → Text → ℕ
fnv_from h [] = h
fnv_from h (c ∷ s) = fnv_from (bit_xor h c * 16777619 % 2 ^ 32) s

unfoldable pub fnv32a : Text → ℕ
unfolding fnv_from
fnv32a = fnv_from 2166136261

-- The number of shards is converted to uint32 before the remainder; by 0 Go would panic.
unfoldable pub shard_for : Text → ℕ → ℕ
shard_for user shards = fnv32a user % (shards % 2 ^ 32)

pub shard_for-lt :
    (user : Text) (shards : ℕ) → 0 < shards → shards < 2 ^ 32 → shard_for user shards < shards
unfolding shard_for
shard_for-lt user shards h w = grind (arith)

fnv32a-user-1 : fnv32a (codes "a") ≡ 0xe40c292c
unfolding fnv32a
fnv32a-user-1 = refl
