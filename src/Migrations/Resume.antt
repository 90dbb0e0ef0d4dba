-- ===== src/Migrations/Resume.antt =====
-- A start that fails in `Migrate` and the next one.
use openwar.Common.{
  ℕ, suc, ◌≡◌, refl, sym, ap, ◌⊎◌, ◌∙◌, inl, inr, Bool, true, false, Bool-cases, Option, none, some,
  Option-cases, List, [], ◌∷◌, ◌++◌, not, if◌then◌else◌, arith,
}
use openwar.Common.Text.{Text, text_eq_self}
use openwar.Redis.{Net, fine, lost, cut, call}
use openwar.Store.{any_text}
use openwar.Migrations.{
  is_migrated, Entry, sql_files, Stage, beginning, executing, recording, checking, reading_file,
  committing, committed, after_file, Migrated, migrated, migrate_error, FileRun, Catalog, listed,
  migrate_file, apply_file, migrate_files, migrate,
}

-- A start on which nothing fails.
abbrev pub all_made : ℕ → FileRun
all_made n = record {
  check = true;
  begin_tx = true;
  execute = true;
  record_version = true;
  commit = fine;
}

any_text-last : (k : Text) (xs : List Text) → any_text k (xs ++ k ∷ []) ≡ true
unfolding any_text
any_text-last k [] = ground (arith, text_eq_self k)
any_text-last k (x ∷ xs) = ground (arith, any_text-last k xs)

any_text-snoc :
    (k f : Text) (xs : List Text) → any_text k xs ≡ true → any_text k (xs ++ f ∷ []) ≡ true
unfolding any_text
any_text-snoc k f [] p = cc
any_text-snoc k f (x ∷ xs) p = ground (arith, any_text-snoc k f xs)

module _ {ℓ} {S : Type ℓ} (read : Text → Option Text) (exec : Text → S → Option S) where
  -- A round's end: nothing was done, or all that a round without failures does, and the file is listed.
  data Round (f : Text) (st : S × List Text) : Migrated × (S × List Text) → Type ℓ where
    untouched : (stage : Stage) → Round f st (migrate_error stage f, st)
    made :
        (r : Migrated) (st1 : S × List Text)
        → migrate_file read exec (all_made 0) f st ≡ (migrated, st1)
        → any_text f st1.1 ≡ true
        → ((k : Text) → any_text k st.1 ≡ true → any_text k st1.1 ≡ true)
        → Round f st (r, st1)

  applied_round :
      (c b x v : Bool) (net : Net) (f content : Text) (st : S × List Text)
      → any_text f st.1 ≡ false
      → read f ≡ some content
      → Round f st (
          apply_file read exec
            (record { check = c; begin_tx = b; execute = x; record_version = v; commit = net })
            f
            content
            st)
  unfolding apply_file call migrate_file
  applied_round c false x v net f content st new rd = untouched beginning
  applied_round c true false v net f content st new rd = untouched executing
  applied_round c true true v net f content st new rd = elim (Option-cases (exec content st.0)) [
    | inl n ↦ rw n (untouched executing)
    | inr (s', e) ↦
        let all : migrate_file read exec (all_made 0) f st ≡ (migrated, (s', st.1 ++ f ∷ [])) =
          rw (migrate_file, new, rd, apply_file, e) refl in
        rw e (committed_round v net s' all)
  ]
    where
      committed_round :
          (v : Bool) (net : Net) (s' : S)
          → migrate_file read exec (all_made 0) f st ≡ (migrated, (s', st.1 ++ f ∷ []))
          → Round f st
              (if not v then (migrate_error recording f, st) else committed read exec net f s' st)
      committed_round false net s' all = untouched recording
      committed_round true fine s' all =
          made migrated _ all (any_text-last f st.1) (λ k. any_text-snoc k f st.1)
      committed_round true cut s' all =
          made (migrate_error committing f) _ all (any_text-last f st.1)
            (λ k. any_text-snoc k f st.1)
      committed_round true lost s' all = untouched committing

  round :
      (run : FileRun) (f : Text) (st : S × List Text) → Round f st (migrate_file read exec run f st)
  unfolding migrate_file
  round run f st = elim (Bool-cases run.check) [
    | inr n ↦ rw n (untouched checking)
    | inl y ↦ elim (Bool-cases (any_text f st.1)) [
      | inl old ↦ rw (y, old) (made migrated st (rw (migrate_file, old) refl) old (λ k p. p))
      | inr new ↦ elim (Option-cases (read f)) [
        | inl n ↦ rw (y, new, n) (untouched reading_file)
        | inr (content, rd) ↦
            rw (y, new, rd)
              (applied_round run.check run.begin_tx run.execute run.record_version run.commit f
                content st new rd)
      ]
    ]
  ]

  files_grow :
      (k : Text) (runs : ℕ → FileRun) (n : ℕ) (fs : List Text) (st : S × List Text)
      → any_text k st.1 ≡ true
      → any_text k (migrate_files read exec runs n fs st).1.1 ≡ true
  unfolding migrate_files
  files_grow k runs n [] st p = p
  files_grow k runs n (f ∷ fs) st p =
      after (λ st1. files_grow k runs (suc n) fs st1) _ (round (runs n) f st)
    where
      after :
          ((st1 : S × List Text)
            → any_text k st1.1 ≡ true
            → any_text k (migrate_files read exec runs (suc n) fs st1).1.1 ≡ true)
          → (x : Migrated × (S × List Text)) → Round f st x
          → any_text k
              (after_file read exec (λ st1. migrate_files read exec runs (suc n) fs st1) x).1.1
            ≡ true
      after grow _ (untouched stage) = p
      after grow _ (made migrated st1 all new more) = grow st1 (more k p)
      after grow _ (made (migrate_error stage g) st1 all new more) = more k p

  listed_file :
      (f : Text) (st : S × List Text)
      → any_text f st.1 ≡ true
      → migrate_file read exec (all_made 0) f st ≡ (migrated, st)
  unfolding migrate_file
  listed_file f st p = rw p refl

  -- The loop without failures over the first file.
  files_head :
      (n : ℕ) (f : Text) (fs : List Text) (st st1 : S × List Text)
      → migrate_file read exec (all_made 0) f st ≡ (migrated, st1)
      → migrate_files read exec all_made n (f ∷ fs) st
        ≡ migrate_files read exec all_made (suc n) fs st1
  unfolding migrate_files
  files_head n f fs st st1 e =
      ap (after_file read exec (λ x. migrate_files read exec all_made (suc n) fs x)) e

  -- How a loop that ended in `y` relates to the loop from `st` on which nothing fails: after it, that
  -- loop has the same end, and `y` is that end or an error.
  abbrev pub IsAgain : ℕ → List Text → S × List Text → Migrated × (S × List Text) → Type ℓ
  IsAgain n fs st y =
      (migrate_files read exec all_made n fs y.1 ≡ migrate_files read exec all_made n fs st)
      × ((y ≡ migrate_files read exec all_made n fs st) ⊎ (is_migrated y.0 ≡ false))

  -- The loop over the same files, after one that may have failed.
  pub files-IsAgain :
      (runs : ℕ → FileRun) (m n : ℕ) (fs : List Text) (st : S × List Text)
      → IsAgain n fs st (migrate_files read exec runs m fs st)
  unfolding migrate_files
  files-IsAgain runs m n [] st = (refl, inl refl)
  files-IsAgain runs m n (f ∷ fs) st =
      after (λ st1. files-IsAgain runs (suc m) (suc n) fs st1) _ (round (runs m) f st)
    where
      after :
          ((st1 : S × List Text)
            → IsAgain (suc n) fs st1 (migrate_files read exec runs (suc m) fs st1))
          → (x : Migrated × (S × List Text)) → Round f st x
          → IsAgain n
              (f ∷ fs)
              st
              (after_file read exec (λ st1. migrate_files read exec runs (suc m) fs st1) x)
      after again _ (untouched stage) = (refl, inr refl)
      after again _ (made migrated st1 all new more) =
          let st2 = (migrate_files read exec runs (suc m) fs st1).1 in
          let listed2 = listed_file f st2 (files_grow f runs (suc m) fs st1 new) in
          let whole = sym (files_head n f fs st st1 all) in
          (
            files_head n f fs st2 st2 listed2 ∙ (again st1).0 ∙ whole,
            elim (again st1).1 [ inl p ↦ inl (p ∙ whole) | inr p ↦ inr p ],
          )
      after again _ (made (migrate_error stage g) st1 all new more) = (
        files_head n f fs st1 st1 (listed_file f st1 new) ∙ sym (files_head n f fs st st1 all),
        inr refl,
      )

  -- `Migrate` can be repeated, whatever the files, their order and their SQL are, and whatever
  -- fails in it, each statement and a lost reply to a commit included. After it, a run in which
  -- nothing fails has the same result and leaves the same database as such a run would have from
  -- the start; and it is itself that run, result and database, or returns an error.
  pub migrate_again :
      (sort : List Text → List Text) (create : Net) (runs : ℕ → FileRun)
      (entries : Option (List Entry)) (c : Catalog S)
      → let y = migrate read exec sort create runs entries c in
        let whole = migrate read exec sort fine all_made entries c in
        (migrate read exec sort fine all_made entries y.1 ≡ whole)
        × ((y ≡ whole) ⊎ (is_migrated y.0 ≡ false))
  unfolding migrate call
  migrate_again sort lost runs entries c = (refl, inr refl)
  migrate_again sort cut runs entries c = (refl, inr refl)
  migrate_again sort fine runs none c = (refl, inr refl)
  migrate_again sort fine runs (some es) c =
      let (same, done) =
        files-IsAgain runs 0 0 (sort (sql_files es)) (c.schema, listed c.versions) in
      (ap as_catalog same, elim done [ inl p ↦ inl (ap as_catalog p) | inr p ↦ inr p ])
    where
      as_catalog : Migrated × (S × List Text) → Migrated × Catalog S
      as_catalog (r, st) = (r, record { schema = st.0; versions = some st.1 })
