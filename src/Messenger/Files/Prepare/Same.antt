-- ===== src/Messenger/Files/Prepare/Same.antt =====
-- Preparing a download changes neither the messages, nor the retry rows, nor the cursors.
use huginn_messenger.Prelude.{
  ℕ, refl, String, true, false, ◌&&◌, Option, none, some, any, str_eq, Bool-cases, inl, inr,
}
use huginn_messenger.Prelude.Int.{ℤ, le_zero}
use huginn_messenger.Prelude.Result.{Result, ok, err, fail_if, ◌>>=◌, IfOk, IfOk-after, IfOk-if}
use huginn_messenger.Store.Sql.{Error, empty_file_id, bad_ttl, file_download_not_found, upsert}
use huginn_messenger.Store.Clock.{Time}
use huginn_messenger.Store.Rows.{download_pk, Db}
use huginn_messenger.Store.Downloads.{
  FileDownloadState, track_file_download, get_file_download, update_if,
  mark_file_download_completed, reset_file_download_completion, retrack, new_download, is_null,
}
use huginn_messenger.Messenger.Session.{FileMeta, Session, Env, db, with_db}
use huginn_messenger.Messenger.Session.Same.{Same, SameDb, Same-trans}
use huginn_messenger.Messenger.Files.Prepare.{
  file_download_ttl, remove_pending_file_download, file_matches_meta, candidate_path, after_mark,
  unless_stopped, try_candidate, if_completed, if_cancelled, after_track, prepare_file_download,
}

track-SameDb :
    (file_id filename : String) (total : ℤ) (now : Time) (ttl : ℤ) (d : Db)
    → IfOk
        (λ (r : FileDownloadState × Db). SameDb d r.1)
        (track_file_download file_id filename total now ttl d)
unfolding track_file_download
track-SameDb file_id filename total now ttl d =
    let Q = λ (r : FileDownloadState × Db). SameDb d r.1 in
    let d' = record d {
      file_downloads =
          upsert download_pk retrack (new_download file_id filename total now ttl) d.file_downloads;
    } in
    let rest = get_file_download file_id d' >>= λ state. ok (state, d') in
    IfOk-after Q (fail_if (str_eq file_id "") empty_file_id)
      (λ u. fail_if (le_zero ttl) bad_ttl >>= λ v. rest)
      (λ u.
        IfOk-after Q (fail_if (le_zero ttl) bad_ttl) (λ v. rest)
          (λ v.
            IfOk-after Q (get_file_download file_id d') (λ state. ok (state, d'))
              (λ state. (refl, refl, refl))))

pub mark_completed-SameDb :
    (file_id path : String) (now : Time) (d : Db)
    → IfOk (SameDb d) (mark_file_download_completed file_id path now d)
unfolding mark_file_download_completed update_if
mark_completed-SameDb file_id path now d =
    IfOk-if (SameDb d)
      (any (λ r. str_eq r.file_id file_id && is_null r.cancelled_at) d.file_downloads) (ok _)
      (err file_download_not_found) (refl, refl, refl) tt

module _ (env : Env) where
  after_mark-Same :
      (f : FileMeta) (sender : String) (s : Session) (r : Result Error Db)
      → IfOk (SameDb (db s)) r
      → Same s (after_mark env f sender s r).1
  unfolding remove_pending_file_download
  after_mark-Same f sender s (err e) h = (refl, refl, refl)
  after_mark-Same f sender s (ok d) h = h

  unless_stopped-Same :
      (f : FileMeta) (state : FileDownloadState) (t : Option ℕ) (s : Session)
      → Same s (unless_stopped env f state t s).1
  unfolding remove_pending_file_download
  unless_stopped-Same f state (some t) s = (refl, refl, refl)
  unless_stopped-Same f state none s = (refl, refl, refl)

  try_candidate-Same :
      (f : FileMeta) (sender : String) (state : FileDownloadState) (s : Session)
      → Same s (try_candidate env f sender state s).1
  unfolding try_candidate
  try_candidate-Same f sender state s =
      elim (Bool-cases (file_matches_meta env.prim (candidate_path env f) f.file_hash true s)) [
        | inl e ↦ rw e (
            after_mark-Same f sender s
              (mark_file_download_completed f.file_id (candidate_path env f) env.now (db s))
              (mark_completed-SameDb f.file_id (candidate_path env f) env.now (db s)))
        | inr e ↦ rw e (unless_stopped-Same f state state.stopped_at s)
      ]

  if_completed-Same :
      (f : FileMeta) (sender : String) (state : FileDownloadState) (t : Option ℕ) (s : Session)
      → Same s (if_completed env f sender state t s).1
  unfolding if_completed remove_pending_file_download reset_file_download_completion
  if_completed-Same f sender state none s = try_candidate-Same f sender state s
  if_completed-Same f sender state (some t) s =
      elim (Bool-cases (file_matches_meta env.prim state.local_path f.file_hash false s)) [
        | inl e ↦ rw e (refl, refl, refl)
        | inr e ↦ rw e (
            try_candidate-Same f sender (record state { completed_at = none; local_path = "" })
              (with_db (reset_file_download_completion f.file_id (db s)) s))
      ]

  if_cancelled-Same :
      (f : FileMeta) (sender : String) (state : FileDownloadState) (t : Option ℕ) (s : Session)
      → Same s (if_cancelled env f sender state t s).1
  unfolding if_cancelled remove_pending_file_download
  if_cancelled-Same f sender state (some t) s = (refl, refl, refl)
  if_cancelled-Same f sender state none s = if_completed-Same f sender state state.completed_at s

  after_track-Same :
      (f : FileMeta) (sender : String) (s : Session) (r : Result Error (FileDownloadState × Db))
      → IfOk (λ (p : FileDownloadState × Db). SameDb (db s) p.1) r
      → Same s (after_track env f sender s r).1
  after_track-Same f sender s (err e) h = (refl, refl, refl)
  after_track-Same f sender s (ok (state, d)) h =
      Same-trans s (with_db d s)
        (if_cancelled env f sender state state.cancelled_at (with_db d s)).1 h
        (if_cancelled-Same f sender state state.cancelled_at (with_db d s))

  pub prepare-Same :
      (f : FileMeta) (sender : String) (s : Session)
      → Same s (prepare_file_download env f sender s).1
  unfolding prepare_file_download
  prepare-Same f sender s =
      after_track-Same f sender s
        (track_file_download f.file_id f.filename f.total_chunks env.now file_download_ttl (db s))
        (track-SameDb f.file_id f.filename f.total_chunks env.now file_download_ttl (db s))
