-- ===== src/Messenger/Files.antt =====
-- The download of a received file: internal/messenger/messenger.go (processReceivedFile,
-- prepareFileDownload, checkPendingFileDownloads) and internal/messenger/downloads.go. A handler
-- runs by itself here, so nothing cancels its context meanwhile; the disk does not fail.
pub mod Prepare
pub mod Same
pub mod Open
use huginn_messenger.Prelude.{
  ℕ, zero, suc, ◌*◌, String, Bool, true, false, not, ◌||◌, Option, none, some, List, [], ◌∷◌, map,
  str_eq, if◌then◌else◌, ltb, length, any, find,
}
use huginn_messenger.Prelude.Int.{ℤ, pos, negsuc, leb_ℤ, ◌==ℤ◌}
use huginn_messenger.Prelude.Result.{Result, ok, err}
use huginn_messenger.Prelude.Strings.{str_append}
use huginn_messenger.Store.Sql.{Error}
use huginn_messenger.Store.Rows.{Bytes, Db}
use huginn_messenger.Store.Chunks.{list_chunks}
use huginn_messenger.Store.Downloads.{
  FileDownloadState, mark_file_download_completed, mark_file_download_stopped, cancel_file_download,
}
use huginn_messenger.Messenger.Session.{
  FileMeta, PendingFileDownload, notify_file_ready, panic, Session, Env, db, with_db, emit, remove,
  try_process_msg, release_process_msg,
}
use huginn_messenger.Messenger.Fetch.{request_missing_chunk_from_peer}
use huginn_messenger.Messenger.Files.Prepare.{
  write_file, remove_pending_file_download, set_pending, check_not_cancelled, begin_file_download,
  end_file_download, candidate_path, prepare_file_download, file_ready,
}
use huginn_messenger.Messenger.Files.Open.{Opened, panics, rejected, opened, open_file}

abbrev pub cancelled : String → Session → Result Error Db → Result Error Session
cancelled file_id s (err e) = err e
cancelled file_id s (ok d) =
    ok (remove_pending_file_download file_id (end_file_download file_id (with_db d s)))

unfoldable pub cancel_download : String → Env → Session → Result Error Session
cancel_download file_id env s = cancelled file_id s (cancel_file_download file_id env.now (db s))

module _ (env : Env) where
  -- The call of requestMissingChunkFromPeer for each index from i on that the store does not have.
  unfoldable pub request_missing :
      FileMeta → String → String → List (ℤ × Bytes) → ℕ → ℕ → Session → Session
  request_missing f sender preferred chunk_map zero i s = s
  request_missing f sender preferred chunk_map (suc left) i s =
      request_missing f sender preferred chunk_map left (suc i) (
        if any (λ (c : ℤ × Bytes). c.0 ==ℤ pos i) chunk_map
        then s
        else request_missing_chunk_from_peer env f.file_id (pos i) sender preferred s)

  abbrev pub count : ℤ → ℕ
  count (pos n) = n
  count (negsuc n) = 0

  abbrev pub is_some : Option ℕ → Bool
  is_some none = false
  is_some (some t) = true

  abbrev pub stop_if_active : FileMeta → FileDownloadState → Session → Session
  stop_if_active f state s =
      if is_some state.stopped_at
      then s
      else with_db (mark_file_download_stopped f.file_id env.now (db s)) s

  -- What is done while chunks are missing.
  unfoldable pub wait_for_chunks :
      FileMeta → String → String → FileDownloadState → List (ℤ × Bytes) → Session → Session
  wait_for_chunks f sender preferred state chunk_map s =
      if is_some state.stopped_at || not (ltb env.now (state.expires_at * 1000000000))
      then end_file_download f.file_id
          (remove_pending_file_download f.file_id (stop_if_active f state s))
      else request_missing f sender preferred chunk_map (count f.total_chunks) 0 (
          set_pending f.file_id
            (record { file_meta = f; sender_id = sender; preferred_peer_id = preferred }) s)

  abbrev pub marked : Session → Result Error Db → Result Error (Unit {0}) × Session
  marked s (err e) = (err e, s)
  marked s (ok d) = (ok tt, with_db d s)

  abbrev pub publish_file :
      String
      → String
      → Bytes
      → Session
      → Result Error (Unit {0})
      → Result Error (Unit {0}) × Session
  publish_file file_id path body s (err e) = (err e, s)
  publish_file file_id path body s (ok active) =
      let s' = write_file path body s in
      marked s' (mark_file_download_completed file_id path env.now (db s'))

  unfoldable pub complete_file_download :
      String → String → Bytes → Session → Result Error (Unit {0}) × Session
  complete_file_download file_id path body s =
      publish_file file_id path body s (check_not_cancelled file_id s)

  abbrev pub announce : FileMeta → String → String → Result Error (Unit {0}) × Session → Session
  announce f sender path (err e, s) = s
  announce f sender path (ok done, s) =
      emit (notify_file_ready (file_ready f path sender))
        (remove_pending_file_download f.file_id (end_file_download f.file_id s))

  unfoldable pub save_opened : FileMeta → String → Opened × Session → Session
  save_opened f sender (panics, s) = emit panic s
  save_opened f sender (rejected, s) = s
  save_opened f sender (opened body, s) =
      announce f sender (candidate_path env f)
        (complete_file_download f.file_id (candidate_path env f) body s)

  unfoldable pub with_chunks :
      FileMeta → String → String → FileDownloadState → List (ℤ × Bytes) → Session → Session
  with_chunks f sender preferred state chunk_map s =
      if leb_ℤ f.total_chunks (pos (length chunk_map))
      then save_opened f sender (open_file env f sender chunk_map s)
      else wait_for_chunks f sender preferred state chunk_map s

  abbrev pub after_begin :
      FileMeta → String → String → FileDownloadState → Session → Result Error Session → Session
  after_begin f sender preferred state s (err e) = s
  after_begin f sender preferred state s (ok s') =
      with_chunks f sender preferred state (list_chunks f.file_id (db s')) s'

  abbrev pub after_prepare :
      FileMeta → String → String → Option FileDownloadState × Session → Session
  after_prepare f sender preferred (none, s) = end_file_download f.file_id s
  after_prepare f sender preferred (some state, s) =
      after_begin f sender preferred state s (begin_file_download f.file_id s)

  -- The name under which the download is marked as being processed.
  abbrev pub file_tag : FileMeta → String
  file_tag f = str_append "file:" f.file_id

  abbrev pub if_taken : FileMeta → String → String → Bool × Session → Session
  if_taken f sender preferred (false, s) = s
  if_taken f sender preferred (true, s) =
      release_process_msg (file_tag f)
        (after_prepare f sender preferred (prepare_file_download env f sender s))

  unfoldable pub process_received_file_from_peer : FileMeta → String → String → Session → Session
  process_received_file_from_peer f sender preferred s =
      if_taken f sender preferred (try_process_msg (file_tag f) s)

  unfoldable pub process_received_file : FileMeta → String → Session → Session
  process_received_file f sender s = process_received_file_from_peer f sender "" s

  abbrev pub process_pending : Option (String × PendingFileDownload) → Session → Session
  process_pending none s = s
  process_pending (some (file_id, pd)) s =
      process_received_file_from_peer pd.file_meta pd.sender_id pd.preferred_peer_id s

  unfoldable pub check_files : List String → Session → Session
  check_files [] s = s
  check_files (id ∷ ids) s = check_files ids (
      process_pending
        (find (λ (e : String × PendingFileDownload). str_eq e.0 id) s.pending_downloads) s)

  -- Go does not fix the order of the keys; here it is that of the list.
  unfoldable pub check_pending_file_downloads : Session → Session
  check_pending_file_downloads s =
      check_files (map (λ (e : String × PendingFileDownload). e.0) s.pending_downloads) s
