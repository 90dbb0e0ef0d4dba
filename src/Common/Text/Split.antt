-- ===== src/Common/Text/Split.antt =====
-- `strings.Split` at a separator of one byte.
use openwar.Common.Tests.{◌==◌, if◌then◌else◌, Bool-cases}
use Prim.Native.Nat.{ℕ, suc, ◌+◌}
use mathlib.Core.Path.{◌≡◌, refl, ap, ◌∙◌}
use mathlib.Core.Logic.{inl, inr}
use mathlib.Core.List.{List, [], ◌∷◌, ◌++◌, append_assoc, append-nil}
use native.Mathlib.Omega.{arith}
use openwar.Common.Lists.{length}

-- The parts, with the one that is being read.
unfoldable pub split_from : ℕ → List ℕ → List ℕ → List (List ℕ)
split_from sep part [] = part ∷ []
split_from sep part (c ∷ s) =
    let rest = split_from sep (part ++ c ∷ []) s in
    let next = split_from sep [] s in if c == sep then part ∷ next else rest

-- How many separators a text has.
abbrev pub count_of : ℕ → List ℕ → ℕ
count_of sep [] = 0
count_of sep (c ∷ s) = if c == sep then suc (count_of sep s) else count_of sep s

pub length-split_from :
    (sep : ℕ) (part s : List ℕ) → length (split_from sep part s) ≡ suc (count_of sep s)
unfolding split_from
length-split_from sep part [] = refl
length-split_from sep part (c ∷ s) =
    ground (arith, length-split_from sep [] s, length-split_from sep (part ++ c ∷ []) s)

-- A text without the separator is one part.
pub split_from-append :
    (sep : ℕ) (part s t : List ℕ)
    → count_of sep s ≡ 0
    → split_from sep part (s ++ sep ∷ t) ≡ (part ++ s) ∷ split_from sep [] t
unfolding split_from
split_from-append sep part [] t h = ground (arith, append-nil part)
split_from-append sep part (c ∷ s) t h = elim (Bool-cases (c == sep)) [
  | inl e ↦ absurd (ground arith)
  | inr e ↦ rw e (
      split_from-append sep (part ++ c ∷ []) s t (ground arith)
      ∙ ap (λ x. x ∷ split_from sep [] t) (append_assoc part (c ∷ []) s))
]

pub count_of-append :
    (sep : ℕ) (s t : List ℕ) → count_of sep (s ++ t) ≡ count_of sep s + count_of sep t
count_of-append sep [] t = omega arith
count_of-append sep (c ∷ s) t = ground (arith, count_of-append sep s t)
