-- ===== src/Tests/Migrations.antt =====
-- Starts over two SQL files and a file that is none.
use openwar.Common.{
  ℕ, ◌≡◌, ◌⊎◌, refl, ◌==◌, false, Option, none, some, List, [], ◌∷◌, ◌++◌, if◌then◌else◌,
}
use openwar.Common.Text.{Text, codes, is_empty, text_eq}
use openwar.Redis.{fine, cut, call}
use openwar.Store.{any_text}
use openwar.Migrations.{
  is_migrated, Entry, has_suffix, migrate_error, committing, FileRun, Catalog, migrate,
  migrate_files, migrate_file, apply_file,
}
use openwar.Migrations.Resume.{all_made, migrate_again}

abbrev entry : Text → Entry
entry n = record { name = n; is_dir = false }

abbrev pub directory : List Entry
directory = entry (codes "1.sql") ∷ entry (codes "migrations.go") ∷ entry (codes "2.sql") ∷ []

abbrev pub new_catalog : Catalog (List Text)
new_catalog = record { schema = []; versions = none }

-- The SQL of a file is its name, and is kept.
abbrev pub read_name : Text → Option Text
read_name f = some f

abbrev pub keep_sql : Text → List Text → Option (List Text)
keep_sql content s = if is_empty content then none else some (s ++ content ∷ [])

-- The reply to the second file's commit does not arrive.
abbrev cut_second : ℕ → FileRun
cut_second n = record (all_made 0) { commit = if n == 1 then cut else fine }

migrate_cut : migrate read_name keep_sql (λ fs. fs) fine cut_second (some directory) new_catalog ≡ (
  migrate_error committing (codes "2.sql"),
  record {
    schema = codes "1.sql" ∷ codes "2.sql" ∷ [];
    versions = some (codes "1.sql" ∷ codes "2.sql" ∷ []);
  },
)
unfolding migrate migrate_files migrate_file apply_file call has_suffix text_eq any_text
migrate_cut = refl

migrate_again_example :
    let y = migrate read_name keep_sql (λ fs. fs) fine cut_second (some directory) new_catalog in
    let whole = migrate read_name keep_sql (λ fs. fs) fine all_made (some directory) new_catalog in
    (migrate read_name keep_sql (λ fs. fs) fine all_made (some directory) y.1 ≡ whole)
    × ((y ≡ whole) ⊎ (is_migrated y.0 ≡ false))
migrate_again_example =
    migrate_again read_name keep_sql (λ fs. fs) fine cut_second (some directory) new_catalog
