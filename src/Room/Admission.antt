-- ===== src/Room/Admission.antt =====
-- What an admission batch is to do: who is admitted, who stays, and what is written.
use openwar.Common.{
  ℕ, zero, suc, ◌≡◌, Bool, true, false, Option, some, List, [], ◌∷◌, map, take, keep, if◌then◌else◌,
  ◌||◌,
}
use openwar.Common.Text.{Text, codes, text_eq}
use openwar.Redis.{Redis, str, Entry, exists}
use openwar.Lua.{BatchReply, replied, aborted}
use openwar.Room.{queue}
use openwar.Room.Keys.{hb_key, admit_key}

abbrev pub members : List Entry → List Text
members = map (λ e. e.member)

-- Who is still queued when `left` live sessions have been admitted from the front.
unfoldable pub left_over : (Text → Bool) → ℕ → List Text → List Text
left_over live zero xs = xs
left_over live (suc left) [] = []
left_over live (suc left) (x ∷ xs) = elim (live x) [
  | true ↦ left_over live left xs
  | false ↦ left_over live (suc left) xs
]

unfoldable pub contains : List Text → Text → Bool
contains [] s = false
contains (x ∷ xs) s = text_eq x s || contains xs s

-- The answer where the first session is refused its token.
abbrev first_refused : List Text → BatchReply
first_refused [] = replied []
first_refused (x ∷ xs) = aborted

abbrev one_at_most : ℕ → ℕ
one_at_most zero = 0
one_at_most (suc n) = 1

module _ (R : Redis) (event : Text) (live : Text → Bool) where
  -- What a batch from `d` on ends with.
  abbrev pub Admits : ℕ → List Text → R.Db → Option (BatchReply × R.Db) → Type 0
  Admits left sids d r =
      (d' : R.Db) × (r ≡ some (replied (take left (keep live sids)), d'))
      × (members (queue R event d') ≡ left_over live left sids)
      × ((s : Text)
          → R.look d' (admit_key event s) ≡ (
              if contains (take left (keep live sids)) s
              then str (codes "1")
              else R.look d (admit_key event s)))
      × ((s : Text) → R.look d' (hb_key event s) ≡ R.look d (hb_key event s))

  -- What a batch from `d` on ends with whose tokens would have no time to live.
  abbrev pub Aborts : ℕ → List Text → R.Db → Option (BatchReply × R.Db) → Type 0
  Aborts left sids d r =
      (d' : R.Db) × (r ≡ some (first_refused (take left (keep live sids)), d'))
      × (members (queue R event d') ≡ left_over live (one_at_most left) sids)
      × ((s : Text) → R.look d' (admit_key event s) ≡ R.look d (admit_key event s))
      × ((s : Text) → R.look d' (hb_key event s) ≡ R.look d (hb_key event s))

module _ (R : Redis) (event : Text) where
  -- Whether a session's heartbeat is there.
  abbrev pub is_live : R.Db → Text → Bool
  is_live d s = exists (R.look d (hb_key event s))
