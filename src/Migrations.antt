-- ===== src/Migrations.antt =====
-- migrations/migrations.go: `Migrate`. The files are embedded; what a file's SQL does to the rest of the
-- database is a parameter, and so is `sort.Strings`. Each statement is made or fails; a commit may
-- also have been made when its reply is lost. What is not committed is rolled back.
pub mod Resume
use openwar.Common.{
  ℕ, suc, Bool, true, false, not, ◌&&◌, ◌||◌, Option, none, some, List, [], ◌∷◌, ◌++◌, keep, map,
  if◌then◌else◌,
}
use openwar.Common.Text.{Text, codes, text_eq, is_empty}
use openwar.Redis.{Net, call}
use openwar.Store.{any_text}

-- An entry of the embedded directory.
pub record Entry : Type 0 where
  pub name : Text
  pub is_dir : Bool

-- `strings.HasSuffix`
unfoldable pub has_suffix : Text → Text → Bool
has_suffix [] suffix = is_empty suffix
has_suffix (c ∷ cs) suffix = text_eq (c ∷ cs) suffix || has_suffix cs suffix

abbrev pub sql_files : List Entry → List Text
sql_files es =
    map (λ (e : Entry). e.name) (keep (λ e. not e.is_dir && has_suffix e.name (codes ".sql")) es)

-- Where `Migrate` returns an error.
pub data Stage : Type 0 where
  creating reading_dir checking reading_file beginning executing recording committing : Stage

pub data Migrated : Type 0 where
  migrated : Migrated
  migrate_error : Stage → Text → Migrated

abbrev pub is_migrated : Migrated → Bool
is_migrated migrated = true
is_migrated (migrate_error stage f) = false

-- How the statements for one file go.
pub record FileRun : Type 0 where
  pub check : Bool
  pub begin_tx : Bool
  pub execute : Bool
  pub record_version : Bool
  pub commit : Net

-- The database: the table `schema_migrations`, where there is one, and the rest.
pub record Catalog {ℓ} (S : Type ℓ) : Type ℓ where
  pub schema : S
  pub versions : Option (List Text)

abbrev pub listed : Option (List Text) → List Text
listed none = []
listed (some vs) = vs

-- CREATE TABLE IF NOT EXISTS
abbrev pub ensured {ℓ} : {S : Type ℓ} → Catalog S → Catalog S
ensured c = record c { versions = some (listed c.versions) }

module _ {ℓ} {S : Type ℓ} (read : Text → Option Text) (exec : Text → S → Option S) where
  abbrev pub committed : Net → Text → S → S × List Text → Migrated × (S × List Text)
  committed net f s' st =
      let (u, st') = call {A = Unit {0}} net (λ x. (tt, (s', x.1 ++ f ∷ []))) st in
      (elim u [ none ↦ migrate_error committing f | some u' ↦ migrated ], st')

  -- The transaction of one file.
  unfoldable pub apply_file : FileRun → Text → Text → S × List Text → Migrated × (S × List Text)
  apply_file run f content st =
      if not run.begin_tx
      then (migrate_error beginning f, st)
      else elim (if run.execute then exec content st.0 else none) [
        | none ↦ (migrate_error executing f, st)
        | some s' ↦
            if not run.record_version
            then (migrate_error recording f, st)
            else committed run.commit f s' st
      ]

  -- One round of the loop.
  unfoldable pub migrate_file : FileRun → Text → S × List Text → Migrated × (S × List Text)
  unfolding apply_file
  migrate_file run f st =
      if not run.check
      then (migrate_error checking f, st)
      else if any_text f st.1
      then (migrated, st)
      else elim (read f) [
        | none ↦ (migrate_error reading_file f, st)
        | some content ↦ apply_file run f content st
      ]

  -- An error ends the loop.
  abbrev pub after_file :
      (S × List Text → Migrated × (S × List Text))
      → Migrated × (S × List Text)
      → Migrated × (S × List Text)
  after_file others (migrated, st) = others st
  after_file others (migrate_error stage g, st) = (migrate_error stage g, st)

  unfoldable pub migrate_files :
      (ℕ → FileRun) → ℕ → List Text → S × List Text → Migrated × (S × List Text)
  unfolding migrate_file
  migrate_files runs n [] st = (migrated, st)
  migrate_files runs n (f ∷ fs) st =
      after_file (λ st1. migrate_files runs (suc n) fs st1) (migrate_file (runs n) f st)

  -- After the table is there.
  abbrev pub migrate_listed :
      (List Text → List Text)
      → (ℕ → FileRun)
      → Option (List Entry)
      → Catalog S
      → Migrated × Catalog S
  migrate_listed sort runs entries c = elim entries [
    | none ↦ (migrate_error reading_dir [], c)
    | some es ↦
        let (r, st) = migrate_files runs 0 (sort (sql_files es)) (c.schema, listed c.versions) in
        (r, record { schema = st.0; versions = some st.1 })
  ]

  -- `Migrate`
  unfoldable pub migrate :
      (List Text → List Text)
      → Net
      → (ℕ → FileRun)
      → Option (List Entry)
      → Catalog S
      → Migrated × Catalog S
  unfolding migrate_files
  migrate sort create runs entries c =
      let (u, c1) = call {A = Unit {0}} create (λ x. (tt, ensured x)) c in
      elim u [
        | none ↦ (migrate_error creating [], c1)
        | some u' ↦ migrate_listed sort runs entries c1
      ]

-- `Open` of internal/store/store.go with `EnsureSchema`: whether there is a store. A pool can be made or
-- not, and the server answers a ping or not.
unfoldable pub open_store {ℓ} : {C : Type ℓ} → Bool → Bool → (C → Migrated × C) → C → Bool × C
open_store connects ping ensure_schema c =
    if connects && ping then (let (r, c') = ensure_schema c in (is_migrated r, c')) else (false, c)
