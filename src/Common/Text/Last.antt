-- ===== src/Common/Text/Last.antt =====
-- `strings.HasPrefix`, `strings.TrimPrefix`, `strings.LastIndex` with the slice up to it.
use openwar.Common.Tests.{◌==◌, if◌then◌else◌}
use Prim.Native.Nat.{ℕ}
use mathlib.Core.Path.{◌≡◌, refl}
use mathlib.Core.Bool.{Bool, true, false, ◌&&◌}
use mathlib.Core.Option.{Option, none, some}
use mathlib.Core.List.{List, [], ◌∷◌, ◌++◌}
use native.Mathlib.Omega.{arith}

unfoldable pub has_prefix : List ℕ → List ℕ → Bool
has_prefix s [] = true
has_prefix [] (p ∷ ps) = false
has_prefix (c ∷ s) (p ∷ ps) = c == p && has_prefix s ps

-- The text behind a prefix, if it has that prefix (`strings.CutPrefix`).
unfoldable pub cut_prefix : List ℕ → List ℕ → Option (List ℕ)
cut_prefix s [] = some s
cut_prefix [] (p ∷ ps) = none
cut_prefix (c ∷ s) (p ∷ ps) = if c == p then cut_prefix s ps else none

-- `strings.TrimPrefix`
unfoldable pub trim_prefix : List ℕ → List ℕ → List ℕ
unfolding cut_prefix
trim_prefix s p = elim (cut_prefix s p) [ none ↦ s | some r ↦ r ]

pub cut_prefix-append : (p s : List ℕ) → cut_prefix (p ++ s) p ≡ some s
unfolding cut_prefix
cut_prefix-append [] s = refl
cut_prefix-append (c ∷ p) s = ground (arith, cut_prefix-append p s)

pub trim_prefix-append : (p s : List ℕ) → trim_prefix (p ++ s) p ≡ s
unfolding trim_prefix
trim_prefix-append p s = ground (arith, cut_prefix-append p s)

-- The text before the last occurrence of a pattern.
unfoldable pub before_last : List ℕ → List ℕ → Option (List ℕ)
before_last [] p = if has_prefix [] p then some [] else none
before_last (c ∷ s) p = elim (before_last s p) [
  | none ↦ if has_prefix (c ∷ s) p then some [] else none
  | some r ↦ some (c ∷ r)
]

-- An occurrence that is the last in what follows a text is the last in the whole.
pub before_last-append :
    (s t p : List ℕ) → before_last t p ≡ some [] → before_last (s ++ t) p ≡ some s
unfolding before_last
before_last-append [] t p h = h
before_last-append (c ∷ s) t p h = rw (before_last-append s t p h)
