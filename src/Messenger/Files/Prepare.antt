-- ===== src/Messenger/Files/Prepare.antt =====
-- prepareFileDownload and fileMatchesMeta of internal/messenger/messenger.go, the contexts of
-- internal/messenger/downloads.go, and the operations on the pending downloads and on the disk.
pub mod Same
use huginn_messenger.Prelude.{
  ℕ, String, Bool, true, false, not, ◌&&◌, ◌||◌, Option, none, some, List, [], ◌∷◌, str_eq,
  if◌then◌else◌, reject, find,
}
use huginn_messenger.Prelude.Int.{ℤ, pos}
use huginn_messenger.Prelude.Result.{Result, ok, err, ◌>>=◌, ◌>>◌}
use huginn_messenger.Crypto.{Primitives}
use huginn_messenger.Chunk.{compute_hash}
use huginn_messenger.Store.Sql.{Error, download_not_active}
use huginn_messenger.Store.Rows.{Bytes, Db}
use huginn_messenger.Store.Downloads.{
  FileDownloadState, track_file_download, get_file_download, mark_file_download_completed,
  reset_file_download_completion,
}
use huginn_messenger.Messenger.Session.{
  FileMeta, PendingFileDownload, FileReadyEvent, notify_file_ready, Session, Env, db, with_db, emit,
  member, remove,
}

-- 7 * 24 * time.Hour
abbrev pub file_download_ttl : ℤ
file_download_ttl = pos 604800000000000

unfoldable pub write_file : String → Bytes → Session → Session
write_file path body s = record s {
  disk = (path, body) ∷ reject (λ (e : String × Bytes). str_eq e.0 path) s.disk;
}

unfoldable pub read_file : String → Session → Option (String × Bytes)
read_file path s = find (λ (e : String × Bytes). str_eq e.0 path) s.disk

abbrev pub without_entry :
    String → List (String × PendingFileDownload) → List (String × PendingFileDownload)
without_entry file_id entries =
    reject (λ (e : String × PendingFileDownload). str_eq e.0 file_id) entries

unfoldable pub remove_pending_file_download : String → Session → Session
remove_pending_file_download file_id s = record s {
  pending_downloads = without_entry file_id s.pending_downloads;
}

unfoldable pub set_pending : String → PendingFileDownload → Session → Session
set_pending file_id pd s = record s {
  pending_downloads = (file_id, pd) ∷ without_entry file_id s.pending_downloads;
}

abbrev pub not_cancelled : Option ℕ → Result Error (Unit {0})
not_cancelled none = ok tt
not_cancelled (some t) = err download_not_active

-- GetFileDownload, and the test of CancelledAt.
unfoldable pub check_not_cancelled : String → Session → Result Error (Unit {0})
check_not_cancelled file_id s = do
  state ← get_file_download file_id (db s)
  not_cancelled state.cancelled_at

abbrev pub open_context : String → Session → Session
open_context file_id s =
    if member file_id s.download_contexts
    then s
    else record s { download_contexts = file_id ∷ s.download_contexts }

unfoldable pub begin_file_download : String → Session → Result Error Session
begin_file_download file_id s = do check_not_cancelled file_id s; ok (open_context file_id s)

unfoldable pub end_file_download : String → Session → Session
end_file_download file_id s = record s { download_contexts = remove file_id s.download_contexts }

abbrev pub same_hash : Primitives → String → Bool → Option (String × Bytes) → Bool
same_hash prim expected_hash require_hash none = false
same_hash prim expected_hash require_hash (some e) =
    str_eq expected_hash "" || str_eq (compute_hash prim e.1) expected_hash

-- Whether there is a file at the path, with the hash if one is known.
unfoldable pub file_matches_meta : Primitives → String → String → Bool → Session → Bool
file_matches_meta prim path expected_hash require_hash s =
    not (str_eq path "" || (require_hash && str_eq expected_hash ""))
    && same_hash prim expected_hash require_hash (read_file path s)

abbrev pub file_ready : FileMeta → String → String → FileReadyEvent
file_ready f path sender = record {
  file_id = f.file_id;
  file_path = path;
  filename = f.filename;
  sender_id = sender;
}

module _ (env : Env) where
  abbrev pub candidate_path : FileMeta → String
  candidate_path f =
      env.join_path env.downloads_dir (if str_eq f.filename "" then f.file_id else f.filename)

  -- The file is there: the download is over.
  abbrev pub already_there :
      FileMeta → String → String → Session → Option FileDownloadState × Session
  already_there f sender path s = (
    none,
    emit (notify_file_ready (file_ready f path sender)) (remove_pending_file_download f.file_id s),
  )

  abbrev pub after_mark :
      FileMeta → String → Session → Result Error Db → Option FileDownloadState × Session
  after_mark f sender s (err e) = (none, s)
  after_mark f sender s (ok d) = already_there f sender (candidate_path f) (with_db d s)

  abbrev pub unless_stopped :
      FileMeta → FileDownloadState → Option ℕ → Session → Option FileDownloadState × Session
  unless_stopped f state (some t) s = (none, remove_pending_file_download f.file_id s)
  unless_stopped f state none s = (some state, s)

  unfoldable pub try_candidate :
      FileMeta → String → FileDownloadState → Session → Option FileDownloadState × Session
  try_candidate f sender state s =
      if file_matches_meta env.prim (candidate_path f) f.file_hash true s
      then after_mark f sender s
          (mark_file_download_completed f.file_id (candidate_path f) env.now (db s))
      else unless_stopped f state state.stopped_at s

  unfoldable pub if_completed :
      FileMeta
      → String
      → FileDownloadState
      → Option ℕ
      → Session
      → Option FileDownloadState × Session
  if_completed f sender state none s = try_candidate f sender state s
  if_completed f sender state (some t) s =
      if file_matches_meta env.prim state.local_path f.file_hash false s
      then already_there f sender state.local_path s
      else try_candidate f sender (record state { completed_at = none; local_path = "" })
          (with_db (reset_file_download_completion f.file_id (db s)) s)

  unfoldable pub if_cancelled :
      FileMeta
      → String
      → FileDownloadState
      → Option ℕ
      → Session
      → Option FileDownloadState × Session
  if_cancelled f sender state (some t) s = (none, remove_pending_file_download f.file_id s)
  if_cancelled f sender state none s = if_completed f sender state state.completed_at s

  abbrev pub after_track :
      FileMeta
      → String
      → Session
      → Result Error (FileDownloadState × Db)
      → Option FileDownloadState × Session
  after_track f sender s (err e) = (none, s)
  after_track f sender s (ok (state, d)) =
      if_cancelled f sender state state.cancelled_at (with_db d s)

  -- `none` is not to proceed.
  unfoldable pub prepare_file_download :
      FileMeta → String → Session → Option FileDownloadState × Session
  prepare_file_download f sender s =
      after_track f sender s
        (track_file_download f.file_id f.filename f.total_chunks env.now file_download_ttl (db s))
