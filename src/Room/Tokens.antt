-- ===== src/Room/Tokens.antt =====
-- The admission token of a session is good for one use.
use openwar.Common.{
  ◌≡◌, refl, ◌⊎◌, inl, inr, ap, ◌∙◌, true, false, some, arith, if◌then◌else◌, Option-cases,
}
use openwar.Common.Int.{pos}
use openwar.Common.Text.{Text, text_eq, text_eq_self}
use openwar.Redis.{
  Redis, IsLawful, Value, absent, str, num, zset, hash, Net, fine, lost, cut, call, text_of, exists,
}
use openwar.Lua.{consume_admit}
use openwar.Room.{has_token, consume_admission}
use openwar.Room.Keys.{admit_key, admit_key-eq}

-- A key of tokens holds a text or nothing.
abbrev pub IsToken : Value → Type 0
IsToken absent = Unit
IsToken (str t) = Unit
IsToken _ = ⊥

module _ (R : Redis) (L : IsLawful R) (event sid : Text) where
  -- The script's answer by what the key holds.
  on_value :
      (v : Value) (d : R.Db)
      → R.look d (admit_key event sid) ≡ v
      → IsToken v
      → ((consume_admit R (admit_key event sid) d).0 ≡ (if exists v then pos 1 else pos 0))
        × (R.look (consume_admit R (admit_key event sid) d).1 (admit_key event sid) ≡ absent)
  unfolding consume_admit
  on_value absent d e t = rw (e, consume_admit) (refl, e)
  on_value (str x) d e t = rw (e, consume_admit) (refl, rw (L.look-del, text_eq_self))
  on_value (num n) d e t = elim t [ ]
  on_value (zset xs) d e t = elim t [ ]
  on_value (hash f) d e t = elim t [ ]

  -- A call that gets its answer reports whether there was a token, and leaves none.
  pub consume_admission_lem :
      (d : R.Db)
      → IsToken (R.look d (admit_key event sid))
      → ((consume_admission R event fine sid d).0 ≡ some (has_token R event d sid))
        × (R.look (consume_admission R event fine sid d).1 (admit_key event sid) ≡ absent)
  unfolding consume_admission call
  consume_admission_lem d t =
      let (reply, gone) = on_value (R.look d (admit_key event sid)) d refl t in
      (rw (reply, consume_admission) (ground arith), gone)

  pub no_answer :
      (net : Net) (d : R.Db)
      → (net ≡ lost) ⊎ (net ≡ cut)
      → ¬ ((consume_admission R event net sid d).0 ≡ some true)
  unfolding consume_admission call
  no_answer fine d n e = ground arith
  no_answer lost d n e = cc
  no_answer cut d n e = cc

  -- However the first call's trip goes, two calls never both report a token: once a call has reported
  -- one, the next that gets an answer reports none.
  consume_admission_once :
      (net : Net) (d : R.Db)
      → IsToken (R.look d (admit_key event sid))
      → (consume_admission R event net sid d).0 ≡ some true
      → (consume_admission R event fine sid (consume_admission R event net sid d).1).0 ≡ some false
  consume_admission_once fine d t e =
      let gone = (consume_admission_lem d t).1 in
      let d' = (consume_admission R event fine sid d).1 in
      (consume_admission_lem d' (rw gone tt)).0 ∙ ap (λ v. some (exists v)) gone
  consume_admission_once lost d t e = absurd (no_answer lost d (inl refl) e)
  consume_admission_once cut d t e = absurd (no_answer cut d (inr refl) e)

  -- A token that `Admit` or a batch has issued to one session serves no other.
  pub consume_admission_other :
      (net : Net) (d : R.Db) (other : Text)
      → text_eq sid other ≡ false
      → R.look (consume_admission R event net sid d).1 (admit_key event other)
        ≡ R.look d (admit_key event other)
  unfolding consume_admission call consume_admit
  consume_admission_other lost d other ne = refl
  consume_admission_other fine d other ne =
      elim (Option-cases (text_of (R.look d (admit_key event sid)))) [
        | inl e ↦ rw (e, consume_admit)
        | inr (t, e) ↦ rw (e, consume_admit) (rw (L.look-del, admit_key-eq, ne))
      ]
  consume_admission_other cut d other ne =
      elim (Option-cases (text_of (R.look d (admit_key event sid)))) [
        | inl e ↦ rw (e, consume_admit)
        | inr (t, e) ↦ rw (e, consume_admit) (rw (L.look-del, admit_key-eq, ne))
      ]
