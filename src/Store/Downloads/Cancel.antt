-- ===== src/Store/Downloads/Cancel.antt =====
-- Cancelling a download is final.
use mathlib.Core.Option
use huginn_messenger.Prelude.{
  ℕ, ◌≡◌, refl, String, Bool, true, false, Option, none, some, List, [], ◌∷◌, arith, ◌&&◌, str_eq,
  eq_iff, eq_refl, if◌then◌else◌,
}
use huginn_messenger.Prelude.Int.{ℤ}
use huginn_messenger.Prelude.Result.{ok, err}
use huginn_messenger.Store.Sql.{Error, file_download_not_found, download_not_active, lookup}
use huginn_messenger.Store.Sql.Laws.{lookup-update, lookup-upsert, lookup-adjust_if}
use huginn_messenger.Store.Sql.Unique.{
  IsUnique, any-and, row_passes, adjust-IsUnique, update-IsUnique, upsert-IsUnique,
}
use huginn_messenger.Store.Clock.{Time, unix}
use huginn_messenger.Store.Rows.{FileDownload, download_pk, Db}
use huginn_messenger.Store.Downloads.{
  track_file_download, get_file_download, mark_file_download_completed, cancel_file_download,
  reset_file_download_completion, mark_file_download_stopped, update_if, is_null, retrack,
  new_download,
}
use huginn_messenger.Store.Downloads.Lifecycle.{
  DownloadEvent, track, complete, cancel, reset, stop, or_same, handle, handle_all, is_cancelled,
  is_cancelled_row,
}

abbrev HasUniqueKeys : Db → Type 0
HasUniqueKeys db = IsUnique download_pk db.file_downloads

module _ (f : String) (test : FileDownload → Bool) (g : FileDownload → FileDownload)
    (keeps : (d : FileDownload) → (g d).file_id ≡ d.file_id) (e : Error) where
  update_if-HasUniqueKeys :
      (db : Db) → HasUniqueKeys db → HasUniqueKeys (or_same db (update_if f test g e db))
  unfolding update_if
  update_if-HasUniqueKeys db u = ground (
    arith,
    adjust-IsUnique download_pk (λ (d : FileDownload). str_eq d.file_id f && test d) g keeps
        db.file_downloads u,
  )

  module _ (refuses : (d : FileDownload) → is_cancelled_row (some d) ≡ true → test d ≡ false) where
    unchanged_row :
        (o : Option FileDownload)
        → is_cancelled_row o ≡ true
        → is_cancelled_row (Option.map (λ d. if test d then g d else d) o) ≡ true
    unchanged_row none c = cc
    unchanged_row (some d) c = rw (refuses d c) c

    -- An UPDATE whose test a cancelled row fails does not touch it.
    update_if-is_cancelled :
        (j : String) (db : Db)
        → is_cancelled j db ≡ true
        → is_cancelled j (or_same db (update_if f test g e db)) ≡ true
    unfolding update_if
    update_if-is_cancelled j db c = ground (
      arith,
      lookup-adjust_if download_pk f test g keeps j db.file_downloads,
      unchanged_row (lookup download_pk j db.file_downloads) c,
    )

reset_cancelled :
    (o : Option FileDownload)
    → is_cancelled_row o ≡ true
    → is_cancelled_row
        (Option.map {A = FileDownload} (λ d. record d { completed_at = none; local_path = "" }) o)
      ≡ true
reset_cancelled none c = cc
reset_cancelled (some d) c = ground arith

stop_cancelled :
    (t : ℕ) (o : Option FileDownload)
    → is_cancelled_row o ≡ true
    → is_cancelled_row (
        Option.map {A = FileDownload}
          (λ d. if is_null d.completed_at then record d { stopped_at = some t } else d)
          o)
      ≡ true
stop_cancelled t none c = cc
stop_cancelled t (some d) c = ground arith

track_cancelled :
    (f n : String) (c : ℤ) (t : Time) (ttl : ℤ) (j : String) (db : Db)
    → is_cancelled j db ≡ true
    → is_cancelled j (handle (track f n c t ttl) db) ≡ true
unfolding handle track_file_download get_file_download
track_cancelled f n c t ttl j db h = ground (
  arith,
  lookup-upsert download_pk retrack (λ o e. refl) (new_download f n c t ttl) j db.file_downloads,
  eq_iff f j,
)

-- Whatever happens next, a cancelled download stays cancelled and is not completed.
handle-is_cancelled :
    (e : DownloadEvent) (j : String) (db : Db)
    → is_cancelled j db ≡ true
    → is_cancelled j (handle e db) ≡ true
unfolding handle mark_file_download_completed cancel_file_download reset_file_download_completion
    mark_file_download_stopped
handle-is_cancelled (track f n c t ttl) j db h = track_cancelled f n c t ttl j db h
handle-is_cancelled (complete f p t) j db h =
    update_if-is_cancelled f _ _ (λ d. refl) file_download_not_found (λ d c. ground arith) j db h
handle-is_cancelled (cancel f t) j db h =
    update_if-is_cancelled f _ _ (λ d. refl) download_not_active (λ d c. ground arith) j db h
handle-is_cancelled (reset f) j db h = ground (
  arith,
  lookup-update download_pk f
      (λ (d : FileDownload). record d { completed_at = none; local_path = "" }) (λ d. refl) j
      db.file_downloads,
  reset_cancelled (lookup download_pk j db.file_downloads) h,
)
handle-is_cancelled (stop f t) j db h = ground (
  arith,
  lookup-adjust_if download_pk f (λ (d : FileDownload). is_null d.completed_at)
      (λ (d : FileDownload). record d { stopped_at = some (unix t) }) (λ d. refl) j
      db.file_downloads,
  stop_cancelled (unix t) (lookup download_pk j db.file_downloads) h,
)

handle-HasUniqueKeys :
    (e : DownloadEvent) (db : Db) → HasUniqueKeys db → HasUniqueKeys (handle e db)
unfolding handle mark_file_download_completed cancel_file_download reset_file_download_completion
    mark_file_download_stopped track_file_download get_file_download
handle-HasUniqueKeys (track f n c t ttl) db u = ground (
  arith,
  upsert-IsUnique download_pk retrack (λ o e. refl) (new_download f n c t ttl) db.file_downloads u,
)
handle-HasUniqueKeys (complete f p t) db u =
    update_if-HasUniqueKeys f _ _ (λ d. refl) file_download_not_found db u
handle-HasUniqueKeys (cancel f t) db u =
    update_if-HasUniqueKeys f _ _ (λ d. refl) download_not_active db u
handle-HasUniqueKeys (reset f) db u =
    update-IsUnique download_pk f _ (λ d. refl) db.file_downloads u
handle-HasUniqueKeys (stop f t) db u =
    adjust-IsUnique download_pk _ _ (λ d. refl) db.file_downloads u

handle_all-stays :
    (es : List DownloadEvent) (j : String) (db : Db)
    → HasUniqueKeys db
    → is_cancelled j db ≡ true
    → HasUniqueKeys (handle_all es db) × (is_cancelled j (handle_all es db) ≡ true)
unfolding handle_all
handle_all-stays [] j db u c = (u, c)
handle_all-stays (e ∷ es) j db u c =
    handle_all-stays es j (handle e db) (handle-HasUniqueKeys e db u) (handle-is_cancelled e j db c)

-- What a row says of later calls.
refused :
    (f p : String) (t : Time) (db : Db)
    → HasUniqueKeys db
    → is_cancelled f db ≡ true
    → (mark_file_download_completed f p t db ≡ err file_download_not_found)
      × (cancel_file_download f t db ≡ err download_not_active)
unfolding mark_file_download_completed cancel_file_download update_if
refused f p t db u c = ground (
  arith,
  any-and download_pk f (λ (d : FileDownload). is_null d.cancelled_at) db.file_downloads u,
  any-and download_pk f (λ (d : FileDownload). is_null d.completed_at && is_null d.cancelled_at)
      db.file_downloads u,
)

abbrev cancellable : FileDownload → Bool
cancellable d = is_null d.completed_at && is_null d.cancelled_at

cancelled_row :
    (t : ℕ) (o : Option FileDownload)
    → row_passes download_pk cancellable o ≡ true
    → is_cancelled_row (
        Option.map {A = FileDownload}
          (λ d.
            if cancellable d then record d { cancelled_at = some t; stopped_at = some t } else d)
          o)
      ≡ true
cancelled_row t none h = cc
cancelled_row t (some d) h = ground arith

cancel-is_cancelled :
    (f : String) (now : Time) (db db' : Db)
    → HasUniqueKeys db
    → cancel_file_download f now db ≡ ok db'
    → is_cancelled f db' ≡ true
unfolding cancel_file_download update_if
cancel-is_cancelled f now db db' u h = ground (
  arith,
  any-and download_pk f cancellable db.file_downloads u,
  lookup-adjust_if download_pk f cancellable
      (λ (d : FileDownload). record d {
        cancelled_at = some (unix now);
        stopped_at = some (unix now);
      })
      (λ d. refl) f db.file_downloads,
  cancelled_row (unix now) (lookup download_pk f db.file_downloads),
  eq_refl f,
)

cancel-HasUniqueKeys :
    (f : String) (now : Time) (db db' : Db)
    → HasUniqueKeys db
    → cancel_file_download f now db ≡ ok db'
    → HasUniqueKeys db'
unfolding handle
cancel-HasUniqueKeys f now db db' u h = rw h at (handle-HasUniqueKeys (cancel f now) db u)

-- After CancelFileDownload has succeeded, and whatever of tracking, completing, cancelling, resetting
-- and stopping follows: completing the download is refused, cancelling it again is refused, and its
-- row says cancelled and not completed.
pub cancel_is_final :
    (f : String) (now : Time) (db db' : Db) (es : List DownloadEvent) (path : String) (later : Time)
    → IsUnique download_pk db.file_downloads
    → cancel_file_download f now db ≡ ok db'
    → (mark_file_download_completed f path later (handle_all es db') ≡ err file_download_not_found)
      × (cancel_file_download f later (handle_all es db') ≡ err download_not_active)
      × (is_cancelled f (handle_all es db') ≡ true)
cancel_is_final f now db db' es path later u h =
    let (unique, stays) =
      handle_all-stays es f db' (cancel-HasUniqueKeys f now db db' u h)
        (cancel-is_cancelled f now db db' u h) in
    let (no_complete, no_cancel) = refused f path later (handle_all es db') unique stays in
    (no_complete, no_cancel, stays)
