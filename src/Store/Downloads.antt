-- ===== src/Store/Downloads.antt =====
-- internal/store/fileDownloadStore.go: the state of each file download.
pub mod Lifecycle
pub mod Cancel
use huginn_messenger.Prelude.{
  ℕ, ◌+◌, String, Bool, true, false, Option, none, some, List, map, ◌&&◌, not, str_eq, leb, ltb,
  str_leb, if◌then◌else◌, select, adjust, any, length, ◌==◌,
}
use huginn_messenger.Prelude.Int.{ℤ, pos, le_zero, lt_zero, leb_ℤ, pos_part}
use huginn_messenger.Prelude.Sort.{sort_by}
use huginn_messenger.Prelude.Result.{Result, ok, err, ◌>>=◌, ◌>>◌, fail_if, of_option}
use huginn_messenger.Store.Sql.{
  Error, no_rows, empty_file_id, bad_ttl, file_download_not_found, download_not_active, lookup,
  update, upsert,
}
use huginn_messenger.Store.Clock.{Time, unix}
use huginn_messenger.Store.Rows.{Chunk, FileDownload, download_pk, Db}

-- Times are read back in Unix seconds. FileDownloadState has the row's fields but the last two.
pub record FileDownloadState : Type 0 where
  pub file_id : String
  pub first_seen_at : ℕ
  pub expires_at : ℕ
  pub completed_at : Option ℕ
  pub stopped_at : Option ℕ
  pub cancelled_at : Option ℕ
  pub local_path : String

abbrev pub state_of : FileDownload → FileDownloadState
state_of d = record {
  file_id = d.file_id;
  first_seen_at = d.first_seen_at;
  expires_at = d.expires_at;
  completed_at = d.completed_at;
  stopped_at = d.stopped_at;
  cancelled_at = d.cancelled_at;
  local_path = d.local_path;
}

abbrev pub read_file_download_state : Option FileDownload → Result Error FileDownloadState
read_file_download_state none = err no_rows
read_file_download_state (some d) = ok (state_of d)

unfoldable pub get_file_download : String → Db → Result Error FileDownloadState
get_file_download file_id db =
    read_file_download_state (lookup download_pk file_id db.file_downloads)

-- The SET of ON CONFLICT: a call that knows the number of chunks also has the name.
abbrev pub retrack : FileDownload → FileDownload → FileDownload
retrack old excluded = record old {
  filename = if le_zero excluded.total_chunks then old.filename else excluded.filename;
  total_chunks = if le_zero excluded.total_chunks then old.total_chunks else excluded.total_chunks;
}

-- The VALUES of the INSERT. `ttl` is in nanoseconds.
abbrev pub new_download : String → String → ℤ → Time → ℤ → FileDownload
new_download file_id filename total_chunks first_seen_at ttl = record {
  file_id = file_id;
  first_seen_at = unix first_seen_at;
  expires_at = unix (first_seen_at + pos_part ttl);
  completed_at = none;
  stopped_at = none;
  local_path = "";
  cancelled_at = none;
  filename = filename;
  total_chunks = total_chunks;
}

unfoldable pub track_file_download :
    String → String → ℤ → Time → ℤ → Db → Result Error (FileDownloadState × Db)
track_file_download file_id filename total_chunks first_seen_at ttl db = do
  fail_if (str_eq file_id "") empty_file_id
  fail_if (le_zero ttl) bad_ttl
  let db' = record db {
    file_downloads =
        upsert download_pk retrack (new_download file_id filename total_chunks first_seen_at ttl)
          db.file_downloads;
  }
  state ← get_file_download file_id db'
  ok (state, db')

pub ensure_file_download : String → Time → ℤ → Db → Result Error (FileDownloadState × Db)
ensure_file_download file_id first_seen_at ttl db =
    track_file_download file_id "" (pos 0) first_seen_at ttl db

abbrev pub is_null : Option ℕ → Bool
is_null none = true
is_null (some t) = false

-- UPDATE … WHERE file_id = ? AND test: an error if no row is affected.
unfoldable pub update_if :
    String → (FileDownload → Bool) → (FileDownload → FileDownload) → Error → Db → Result Error Db
update_if file_id test f e db =
    if any (λ d. str_eq d.file_id file_id && test d) db.file_downloads
    then ok (record db {
      file_downloads = adjust (λ d. str_eq d.file_id file_id && test d) f db.file_downloads;
    })
    else err e

unfoldable pub mark_file_download_completed : String → String → Time → Db → Result Error Db
mark_file_download_completed file_id local_path completed_at =
    update_if file_id (λ d. is_null d.cancelled_at)
      (λ d. record d {
        completed_at = some (unix completed_at);
        stopped_at = none;
        local_path = local_path;
      })
      file_download_not_found

unfoldable pub cancel_file_download : String → Time → Db → Result Error Db
cancel_file_download file_id now =
    update_if file_id (λ d. is_null d.completed_at && is_null d.cancelled_at)
      (λ d. record d { cancelled_at = some (unix now); stopped_at = some (unix now) })
      download_not_active

unfoldable pub reset_file_download_completion : String → Db → Db
reset_file_download_completion file_id db = record db {
  file_downloads =
      update download_pk file_id (λ d. record d { completed_at = none; local_path = "" })
        db.file_downloads;
}

-- WHERE file_id = ? AND completed_at IS NULL
unfoldable pub mark_file_download_stopped : String → Time → Db → Db
mark_file_download_stopped file_id stopped_at db = record db {
  file_downloads =
      adjust (λ d. str_eq d.file_id file_id && is_null d.completed_at)
        (λ d. record d { stopped_at = some (unix stopped_at) }) db.file_downloads;
}

pub record FileDownloadProgress : Type 0 where
  pub file_id : String
  pub filename : String
  pub total_chunks : ℤ
  pub received_chunks : ℕ

-- The subquery: chunks of the file with 0 <= chunk_index < total_chunks.
unfoldable pub received_chunks : FileDownload → Db → ℕ
received_chunks d db = length (
    select
      (λ c.
        str_eq c.file_id d.file_id
        && (not (lt_zero c.chunk_index) && not (leb_ℤ d.total_chunks c.chunk_index)))
      db.chunks)

abbrev pub is_active : Time → FileDownload → Bool
is_active now d =
    is_null d.completed_at
    && (is_null d.stopped_at
        && (is_null d.cancelled_at
            && (ltb (unix now) d.expires_at && not (le_zero d.total_chunks))))

-- ORDER BY first_seen_at, file_id
abbrev pub first_seen_first : FileDownload → FileDownload → Bool
first_seen_first a b =
    if a.first_seen_at == b.first_seen_at
    then str_leb a.file_id b.file_id
    else leb a.first_seen_at b.first_seen_at

unfoldable pub list_active_file_downloads : Time → Db → List FileDownloadProgress
list_active_file_downloads now db =
    map
      (λ (d : FileDownload). record {
        file_id = d.file_id;
        filename = d.filename;
        total_chunks = d.total_chunks;
        received_chunks = received_chunks d db;
      })
      (sort_by first_seen_first (select (is_active now) db.file_downloads))
