-- ===== src/Store/Migration.antt =====
-- runMigrations of internal/store/migration.go, once the table schema_version is there. What a
-- script does to the schema is SQLite's: the schema and `exec` are parameters.
pub mod Runs
use huginn_messenger.Prelude.{
  ℕ, String, Bool, true, false, Option, none, some, List, [], ◌∷◌, ◌++◌, ◌||◌, str_eq,
  if◌then◌else◌, any,
}
use huginn_messenger.Store.Clock.{Time, unix}

pub record Migration : Type 0 where
  pub id : String
  pub author : String
  pub description : String
  pub sqlite : String

-- A row of schema_version.
pub record AppliedMigration : Type 0 where
  pub id : String
  pub author : String
  pub description : String
  pub applied_at : ℕ
  pub checksum : String

-- How a script ends: all of it ran, or it stopped at an error, whose text may speak of a duplicate
-- column name.
pub data Outcome : Type 0 where
  done duplicate_column failed : Outcome

pub data MigrationError : Type 0 where
  script_failed : String → MigrationError
  not_recorded : String → MigrationError

pub record Database (Schema : Type 0) : Type 0 where
  pub schema : Schema
  pub schema_version : List AppliedMigration

abbrev pub is_applied : List AppliedMigration → String → Bool
is_applied rows id = any (λ r. str_eq r.id id) rows

module _ {Schema : Type 0} (exec : String → Schema → Outcome × Schema)
    (checksum : Migration → String) where
  -- What stays in the database when a run stops early stays: there is no transaction.
  abbrev pub Run : Type 0
  Run = Database Schema × Option MigrationError

  abbrev pub applied_row : Migration → Time → AppliedMigration
  applied_row m now = record {
    id = m.id;
    author = m.author;
    description = m.description;
    applied_at = unix now;
    checksum = checksum m;
  }

  -- The INSERT INTO schema_version, whose primary key is the id.
  abbrev pub record_migration : Migration → Time → Schema → List AppliedMigration → Run
  record_migration m now schema rows =
      if is_applied rows m.id
      then (record { schema = schema; schema_version = rows }, some (not_recorded m.id))
      else (record { schema = schema; schema_version = rows ++ applied_row m now ∷ [] }, none)

  abbrev pub after_script : Migration → Time → List AppliedMigration → Outcome × Schema → Run
  after_script m now rows (done, schema) = record_migration m now schema rows
  after_script m now rows (duplicate_column, schema) = record_migration m now schema rows
  after_script m now rows (failed, schema) =
      (record { schema = schema; schema_version = rows }, some (script_failed m.id))

  -- One round of the loop; `applied` was read before it.
  unfoldable pub apply_migration : List AppliedMigration → Time → Migration → Database Schema → Run
  apply_migration applied now m db =
      if is_applied applied m.id || str_eq m.sqlite ""
      then (db, none)
      else after_script m now db.schema_version (exec m.sqlite db.schema)

  -- An error ends the loop.
  unfoldable pub apply_migrations :
      List AppliedMigration → Time → List Migration → Database Schema → Run
  apply_migrations applied now [] db = (db, none)
  apply_migrations applied now (m ∷ ms) db =
      let step = apply_migration applied now m db in
      let rest = apply_migrations applied now ms step.0 in
      elim step.1 [ none ↦ rest | some e ↦ step ]

  unfoldable pub run_migrations : List Migration → Time → Database Schema → Run
  run_migrations migrations now db = apply_migrations db.schema_version now migrations db
