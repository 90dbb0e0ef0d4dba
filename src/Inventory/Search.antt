-- ===== src/Inventory/Search.antt =====
-- The search that a sweep carries out: the first offset at which there is a unit.
use openwar.Common.{
  ℕ, zero, suc, ◌+◌, ◌-◌, ◌%◌, ◌≤◌, ◌<◌, ◌≡◌, refl, ◌==◌, if◌then◌else◌, Option, none, some, arith,
  Bool-cases, inl, inr, subst, dec_lt,
}
use openwar.Inventory.Counts.{sum}

-- Among `left` offsets from `offset` on, the first at which `f` is not 0.
unfoldable pub first_stocked : (ℕ → ℕ) → ℕ → ℕ → Option ℕ
first_stocked f zero offset = none
first_stocked f (suc left) offset =
    let rest = first_stocked f left (suc offset) in if f offset == 0 then rest else some offset

pub first_stocked-none :
    (f : ℕ → ℕ) (left offset j : ℕ)
    → first_stocked f left offset ≡ none
    → offset ≤ j
    → j < offset + left
    → f j ≡ 0
unfolding first_stocked
first_stocked-none f zero offset j e h lt = absurd (omega arith)
first_stocked-none f (suc left) offset j e h lt = elim (dec_lt offset j) [
  | yes later ↦ ground (arith, first_stocked-none f left (suc offset) j)
  | no here ↦ let same : offset ≡ j = omega arith in rw (← same) (ground arith)
]

-- What the search finds is the first: it is in range, there is a unit, and none before it.
pub first_stocked-some :
    (f : ℕ → ℕ) (left offset j : ℕ)
    → first_stocked f left offset ≡ some j
    → (offset ≤ j) × (j < offset + left) × (0 < f j)
unfolding first_stocked
first_stocked-some f zero offset j e = cc
first_stocked-some f (suc left) offset j e = elim (Bool-cases (f offset == 0)) [
  | inl empty ↦ ground (arith, first_stocked-some f left (suc offset) j)
  | inr found ↦ ground arith
]

-- Every shard is met by some offset of a full sweep, wherever it starts.
pub covered :
    (home shards i : ℕ)
    → home < shards
    → i < shards
    → (o : ℕ) × (o < shards) × ((home + o) % shards ≡ i)
covered home shards i h lt = elim (dec_lt i home) [
  | yes below ↦ (i + shards - home, omega arith, grind arith)
  | no above ↦ (i - home, omega arith, grind arith)
]

pub sum_zero : (f : ℕ → ℕ) (n : ℕ) → ((j : ℕ) → j < n → f j ≡ 0) → sum f n ≡ 0
sum_zero f zero h = refl
sum_zero f (suc n) h = omega (arith, sum_zero f n (λ j lt. h j (omega arith)), h n (omega arith))

pub sum_pos : (f : ℕ → ℕ) (n j : ℕ) → j < n → 0 < f j → 0 < sum f n
sum_pos f zero j lt h = elim lt [ ]
sum_pos f (suc n) j lt h = elim (dec_lt j n) [
  | yes below ↦ omega (arith, sum_pos f n j below h)
  | no above ↦
      let same : j ≡ n = omega arith in
      let here : 0 < f n = subst (λ k. 0 < f k) same h in omega arith
]
