-- ===== src/Tests/Bucket.antt =====
-- A bucket of three tokens that refills five a second, with natural numbers for the floats.
use Prim.Native.Nat.{min, max}
use openwar.Common.{ℕ, ◌*◌, ◌-◌, ◌/◌, ◌+◌, ◌≡◌, refl, ap, false, some, [], ◌∷◌, leb, arith}
use openwar.Common.Int.{pos}
use openwar.Common.Text.{Text, codes, text_eq}
use openwar.Common.Text.Decimal.{decimal, value, value-decimal}
use openwar.Redis.{fields_of}
use openwar.Redis.Memory.{memory, memory-IsLawful, empty}
use openwar.Gateway.{fail_open}
use openwar.Bucket.{Floats, IsRounded, IsExact, Limiter, token_bucket_script, allow_all}
use openwar.Bucket.Level.{IsHash, IsFilling, token_bucket_script-IsFilling}
use openwar.Bucket.Burst.{allow_all_lem}
use openwar.Bucket.Skew.{rounds, skewed_clocks_unlimited}

abbrev pub naturals : Floats
naturals = record {
  W = ℕ;
  of_nat = λ n. n;
  add = λ a b. a + b;
  sub = λ a b. a - b;
  mul = λ a b. a * b;
  div = λ a b. (a + b - 1) / b;
  min = min;
  max = max;
  le = leb;
  floor = pos;
  ceil = pos;
  parse = λ t. some (value 0 t);
  print = decimal;
}

pub naturals-IsRounded : IsRounded naturals
naturals-IsRounded = record {
  le_trans = λ a b c p q. ground arith;
  min_le = λ a b. ground arith;
  min_pos = λ a b p q. ground arith;
  max_pos = λ a. ground arith;
  mul_pos = λ a b p q. ground arith;
  add_pos = λ a b p q. ground arith;
  sub_pos = λ a b p. ground arith;
  sub_le = λ a b p. ground arith;
  le_refl = λ a. ground arith;
  parse-print = λ a. ap some (value-decimal a);
}

pub naturals-IsExact : IsExact naturals
naturals-IsExact = record {
  add_exact = λ a b h. refl;
  sub_exact = λ a b p q. refl;
  mul_exact = λ a b h. refl;
  min_exact = λ a b p q. ground arith;
  le_exact = λ a b p q. refl;
  max_exact = λ a h. omega arith;
  max_back = λ a b h. ground arith;
  mul_zero = λ a h. omega arith;
}

abbrev pub limiter : Limiter naturals
limiter = record { fail_strategy = fail_open; capacity = 3; refill_rate = 5 }

abbrev bucket : Text
bucket = codes "{event:sale}:bucket:ada"

token_bucket_script-IsFilling_example :
    let r = token_bucket_script naturals memory limiter bucket 7 1 empty in
    IsHash (r.1 bucket)
    × IsFilling naturals naturals-IsRounded limiter (fields_of (r.1 bucket) (codes "tokens"))
    × ((j : Text) → text_eq bucket j ≡ false → r.1 j ≡ empty j)
token_bucket_script-IsFilling_example =
    token_bucket_script-IsFilling naturals naturals-IsRounded limiter refl refl memory
      memory-IsLawful bucket (omega arith) 7 1 empty refl tt tt

allow_all_lem_example : (allow_all naturals memory limiter bucket (9 ∷ 9 ∷ 8 ∷ 8 ∷ []) empty).0 ≡ 3
allow_all_lem_example =
    allow_all_lem naturals naturals-IsRounded naturals-IsExact memory memory-IsLawful limiter bucket
      (omega arith) 3 (omega arith) refl refl 9 (9 ∷ 8 ∷ 8 ∷ []) empty refl
      (refl, (refl, (refl, tt)))

skewed_clocks_unlimited_example :
    (allow_all naturals memory limiter bucket (rounds 100 101 100) empty).0 ≡ 200
skewed_clocks_unlimited_example =
    skewed_clocks_unlimited naturals naturals-IsRounded naturals-IsExact memory memory-IsLawful
      limiter bucket (omega arith) 3 5 100 1 (omega arith) refl refl (omega arith) (omega arith)
      (omega arith) (omega arith) (omega arith) 100 empty refl
