-- ===== src/Messenger/Files/Same.antt =====
-- The download of a file changes neither the messages, nor the retry rows, nor the cursors.
use huginn_messenger.Prelude.{
  ℕ, zero, suc, refl, String, Bool, true, false, ◌||◌, not, Option, none, some, List, ◌∷◌,
  if◌then◌else◌, any, ltb, ◌*◌, length,
}
use huginn_messenger.Prelude.Int.{ℤ, pos, ◌==ℤ◌, leb_ℤ}
use huginn_messenger.Prelude.Result.{Result, ok, err, ◌>>=◌, IfOk}
use huginn_messenger.Store.Sql.{Error}
use huginn_messenger.Store.Rows.{Bytes, Db}
use huginn_messenger.Store.Chunks.{list_chunks}
use huginn_messenger.Store.Downloads.{
  FileDownloadState, mark_file_download_completed, mark_file_download_stopped,
}
use huginn_messenger.Messenger.Session.{
  FileMeta, PendingFileDownload, Session, Env, db, with_db, try_process_msg, release_process_msg,
  member,
}
use huginn_messenger.Messenger.Session.Same.{
  Same, SameDb, Same-trans, Same-if, try_process_msg-Same,
}
use huginn_messenger.Messenger.Fetch.{request_missing_chunk_from_peer}
use huginn_messenger.Messenger.Fetch.Same.{request_missing_chunk_from_peer-Same}
use huginn_messenger.Messenger.Files.Prepare.{
  write_file, remove_pending_file_download, set_pending, check_not_cancelled, begin_file_download,
  end_file_download, candidate_path, prepare_file_download,
}
use huginn_messenger.Messenger.Files.Open.{Opened, panics, rejected, opened, open_file}
use huginn_messenger.Messenger.Files.Prepare.Same.{mark_completed-SameDb, prepare-Same}
use huginn_messenger.Messenger.Files.Open.Same.{open_file-Same}
use huginn_messenger.Messenger.Files.{
  request_missing, stop_if_active, is_some, wait_for_chunks, count, publish_file, marked,
  complete_file_download, announce, save_opened, with_chunks, after_begin, after_prepare, file_tag,
  if_taken, process_received_file_from_peer, process_received_file,
}

module _ (env : Env) where
  request_missing-Same :
      (f : FileMeta) (sender preferred : String) (chunk_map : List (ℤ × Bytes)) (left i : ℕ)
      (s : Session)
      → Same s (request_missing env f sender preferred chunk_map left i s)
  unfolding request_missing
  request_missing-Same f sender preferred chunk_map zero i s = (refl, refl, refl)
  request_missing-Same f sender preferred chunk_map (suc left) i s =
      let here = any (λ (c : ℤ × Bytes). c.0 ==ℤ pos i) chunk_map in
      let asked = request_missing_chunk_from_peer env f.file_id (pos i) sender preferred s in
      let s' = if here then s else asked in
      Same-trans s s' (request_missing env f sender preferred chunk_map left (suc i) s')
        (Same-if here s s asked (refl, refl, refl)
          (request_missing_chunk_from_peer-Same env f.file_id (pos i) sender preferred s))
        (request_missing-Same f sender preferred chunk_map left (suc i) s')

  wait_for_chunks-Same :
      (f : FileMeta) (sender preferred : String) (state : FileDownloadState)
      (chunk_map : List (ℤ × Bytes)) (s : Session)
      → Same s (wait_for_chunks env f sender preferred state chunk_map s)
  unfolding wait_for_chunks end_file_download remove_pending_file_download set_pending
      mark_file_download_stopped
  wait_for_chunks-Same f sender preferred state chunk_map s =
      let pd : PendingFileDownload = record {
        file_meta = f;
        sender_id = sender;
        preferred_peer_id = preferred;
      } in
      Same-if (is_some env state.stopped_at || not (ltb env.now (state.expires_at * 1000000000))) s
        (end_file_download f.file_id
          (remove_pending_file_download f.file_id (stop_if_active env f state s)))
        (request_missing env f sender preferred chunk_map (count env f.total_chunks) 0
          (set_pending f.file_id pd s))
        (Same-if (is_some env state.stopped_at) s s
          (with_db (mark_file_download_stopped f.file_id env.now (db s)) s) (refl, refl, refl)
          (refl, refl, refl))
        (request_missing-Same f sender preferred chunk_map (count env f.total_chunks) 0
          (set_pending f.file_id pd s))

  marked-Same :
      (s : Session) (r : Result Error Db) → IfOk (SameDb (db s)) r → Same s (marked env s r).1
  marked-Same s (err e) h = (refl, refl, refl)
  marked-Same s (ok d) h = h

  complete-Same :
      (file_id path : String) (body : Bytes) (s : Session)
      → Same s (complete_file_download env file_id path body s).1
  unfolding complete_file_download write_file
  complete-Same file_id path body s = by_result (check_not_cancelled file_id s)
    where
      by_result : (r : Result Error (Unit {0})) → Same s (publish_file env file_id path body s r).1
      by_result (err e) = (refl, refl, refl)
      by_result (ok u) =
          let s' = write_file path body s in
          marked-Same s' (mark_file_download_completed file_id path env.now (db s'))
            (mark_completed-SameDb file_id path env.now (db s'))

  announce-Same :
      (f : FileMeta) (sender path : String) (s : Session) (r : Result Error (Unit {0}) × Session)
      → Same s r.1
      → Same s (announce env f sender path r)
  unfolding end_file_download remove_pending_file_download
  announce-Same f sender path s (err e, s') h = h
  announce-Same f sender path s (ok u, s') h = h

  save_opened-Same :
      (f : FileMeta) (sender : String) (s : Session) (o : Opened × Session)
      → Same s o.1
      → Same s (save_opened env f sender o)
  unfolding save_opened
  save_opened-Same f sender s (panics, s') h = h
  save_opened-Same f sender s (rejected, s') h = h
  save_opened-Same f sender s (opened body, s') h =
      let completed = complete_file_download env f.file_id (candidate_path env f) body s' in
      announce-Same f sender (candidate_path env f) s completed
        (Same-trans s s' completed.1 h (complete-Same f.file_id (candidate_path env f) body s'))

  with_chunks-Same :
      (f : FileMeta) (sender preferred : String) (state : FileDownloadState)
      (chunk_map : List (ℤ × Bytes)) (s : Session)
      → Same s (with_chunks env f sender preferred state chunk_map s)
  unfolding with_chunks
  with_chunks-Same f sender preferred state chunk_map s =
      let o = open_file env f sender chunk_map s in
      Same-if (leb_ℤ f.total_chunks (pos (length chunk_map))) s (save_opened env f sender o)
        (wait_for_chunks env f sender preferred state chunk_map s)
        (save_opened-Same f sender s o (open_file-Same env f sender chunk_map s))
        (wait_for_chunks-Same f sender preferred state chunk_map s)

  after_begin-Same :
      (f : FileMeta) (sender preferred : String) (state : FileDownloadState) (s : Session)
      → Same s (after_begin env f sender preferred state s (begin_file_download f.file_id s))
  unfolding begin_file_download
  after_begin-Same f sender preferred state s =
      by_result (check_not_cancelled f.file_id s) (member f.file_id s.download_contexts)
    where
      by_result :
          (r : Result Error (Unit {0})) (b : Bool)
          → Same s (
              after_begin env f sender preferred state s (
                r >>= λ u. ok (
                  if b
                  then s
                  else record s { download_contexts = f.file_id ∷ s.download_contexts })))
      by_result (err e) b = (refl, refl, refl)
      by_result (ok u) true =
          with_chunks-Same f sender preferred state (list_chunks f.file_id (db s)) s
      by_result (ok u) false =
          with_chunks-Same f sender preferred state (list_chunks f.file_id (db s))
            (record s { download_contexts = f.file_id ∷ s.download_contexts })

  after_prepare-Same :
      (f : FileMeta) (sender preferred : String) (s : Session)
      (p : Option FileDownloadState × Session)
      → Same s p.1
      → Same s (after_prepare env f sender preferred p)
  unfolding end_file_download
  after_prepare-Same f sender preferred s (none, s') h = h
  after_prepare-Same f sender preferred s (some state, s') h =
      Same-trans s s' (after_prepare env f sender preferred (some state, s')) h
        (after_begin-Same f sender preferred state s')

  if_taken-Same :
      (f : FileMeta) (sender preferred : String) (s : Session) (t : Bool × Session)
      → Same s t.1
      → Same s (if_taken env f sender preferred t)
  unfolding release_process_msg
  if_taken-Same f sender preferred s (false, s') h = h
  if_taken-Same f sender preferred s (true, s') h =
      let prepared = prepare_file_download env f sender s' in
      Same-trans s s' (after_prepare env f sender preferred prepared) h
        (after_prepare-Same f sender preferred s' prepared (prepare-Same env f sender s'))

  pub process_received_file-Same :
      (f : FileMeta) (sender : String) (s : Session) → Same s (process_received_file env f sender s)
  unfolding process_received_file process_received_file_from_peer
  process_received_file-Same f sender s =
      if_taken-Same f sender "" s (try_process_msg (file_tag env f) s)
        (try_process_msg-Same (file_tag env f) s)
