-- ===== src/Examples/Downloads.antt =====
-- Tests of the downloads, the configuration and the migrations.
use huginn_messenger.Prelude.{◌≡◌, refl, String, true, none, some, List, [], ◌∷◌, ◌++◌, All}
use huginn_messenger.Prelude.Int.{pos}
use huginn_messenger.Prelude.Result.{ok, err}
use huginn_messenger.Store.Sql.{
  lookup, has, update, upsert, file_download_not_found, download_not_active,
}
use huginn_messenger.Store.Rows.{Db}
use huginn_messenger.Store.Downloads.{
  update_if, new_download, cancel_file_download, mark_file_download_completed,
}
use huginn_messenger.Store.Downloads.Lifecycle.{
  DownloadEvent, track, complete, reset, handle_all, IsExclusive, handle_all-IsExclusive,
  is_cancelled,
}
use huginn_messenger.Store.Downloads.Cancel.{cancel_is_final}
use huginn_messenger.Store.Config.{
  Config, load_app_config, save_app_config, save_values, save_value, set_config_value,
  get_config_value, get_keys_json,
}
use huginn_messenger.Store.Config.RoundTrip.{merged, load-save}
use huginn_messenger.Store.Migration.{
  Migration, Database, Outcome, run_migrations, apply_migrations, apply_migration,
}
use huginn_messenger.Store.Migration.Runs.{AllSettled, run_migrations_idempotent}
use huginn_messenger.Examples.Data.{empty_db}

abbrev tracked_db : Db
tracked_db = record empty_db {
  file_downloads = new_download "f" "photo" (pos 2) 1000000000 (pos 60000000000) ∷ [];
}

abbrev cancelled_db : Db
cancelled_db = record empty_db {
  file_downloads =
      record (new_download "f" "photo" (pos 2) 1000000000 (pos 60000000000)) {
        cancelled_at = some 2;
        stopped_at = some 2;
      }
      ∷ [];
}

cancel_runs : cancel_file_download "f" 2000000000 tracked_db ≡ ok cancelled_db
unfolding cancel_file_download update_if
cancel_runs = refl

-- What may come after the cancellation.
abbrev late_events : List DownloadEvent
late_events =
    reset "f"
    ∷ track "f" "photo" (pos 2) 3000000000 (pos 60000000000)
    ∷ complete "f" "/p" 4000000000
    ∷ []

cancel_is_final_example :
    (mark_file_download_completed "f" "/p" 5000000000 (handle_all late_events cancelled_db)
      ≡ err file_download_not_found)
    × (cancel_file_download "f" 5000000000 (handle_all late_events cancelled_db)
        ≡ err download_not_active)
    × (is_cancelled "f" (handle_all late_events cancelled_db) ≡ true)
unfolding has
cancel_is_final_example =
    cancel_is_final "f" 2000000000 tracked_db cancelled_db late_events "/p" 5000000000 (refl, tt)
      cancel_runs

handle_all-IsExclusive_example :
    All IsExclusive (handle_all late_events cancelled_db).file_downloads
handle_all-IsExclusive_example = handle_all-IsExclusive late_events cancelled_db (refl, tt)

abbrev old_config : Config
old_config = record {
  muninn_addr = "http://m";
  username = "alice";
  peer_id = "";
  db_path = "";
  chunk_ttl = "";
  peer_flag = "";
  turn_addr = "";
  turn_username = "";
  turn_password = "";
}

abbrev new_config : Config
new_config = record {
  muninn_addr = "";
  username = "alicia";
  peer_id = "a";
  db_path = "";
  chunk_ttl = "60";
  peer_flag = "";
  turn_addr = "";
  turn_username = "";
  turn_password = "";
}

abbrev config_db : Db
config_db = record empty_db {
  config_values =
      record { name = "username"; value = "alice" }
      ∷ record { name = "muninn"; value = "http://m" }
      ∷ [];
}

abbrev saved_db : Db
saved_db = record empty_db {
  config_values =
      record { name = "username"; value = "alicia" }
      ∷ record { name = "muninn"; value = "http://m" }
      ∷ record { name = "peer_id"; value = "a" }
      ∷ record { name = "chunk_ttl"; value = "60" }
      ∷ [];
}

config_loads : load_app_config config_db ≡ ok old_config
unfolding load_app_config get_config_value lookup
config_loads = refl

config_saves : save_app_config (some new_config) config_db ≡ ok saved_db
unfolding save_app_config save_values save_value set_config_value upsert update has
config_saves = refl

load-save_example :
    (load_app_config saved_db ≡ ok (merged new_config old_config))
    × (get_keys_json saved_db ≡ get_keys_json config_db)
load-save_example = load-save new_config old_config config_db saved_db config_loads config_saves

-- A schema that is the list of the scripts that ran.
abbrev exec : String → List String → Outcome × List String
exec script schema = (Outcome.done, schema ++ script ∷ [])

abbrev checksum : Migration → String
checksum m = m.sqlite

abbrev migrations : List Migration
migrations =
    record { id = "1"; author = "k"; description = "first"; sqlite = "CREATE TABLE t (a)" }
    ∷ record { id = "2"; author = "k"; description = "none"; sqlite = "" }
    ∷ []

abbrev fresh : Database (List String)
fresh = record { schema = []; schema_version = [] }

migrations_run : (run_migrations exec checksum migrations 9000000000 fresh).1 ≡ none
unfolding run_migrations apply_migrations apply_migration
migrations_run = refl

run_migrations_idempotent_example :
    AllSettled exec checksum (run_migrations exec checksum migrations 9000000000 fresh).0 migrations
    × (run_migrations exec checksum migrations 10000000000
          (run_migrations exec checksum migrations 9000000000 fresh).0
        ≡ ((run_migrations exec checksum migrations 9000000000 fresh).0, none))
run_migrations_idempotent_example =
    run_migrations_idempotent exec checksum migrations 9000000000 10000000000 fresh migrations_run
