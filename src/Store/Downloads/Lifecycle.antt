-- ===== src/Store/Downloads/Lifecycle.antt =====
-- The life of a download: cancelling is final, and no download is both cancelled and completed.
use huginn_messenger.Prelude.{
  ◌≡◌, refl, String, Bool, true, false, Option, none, some, List, [], ◌∷◌, arith, All, ◌&&◌, ◌||◌,
  not, str_eq,
}
use huginn_messenger.Prelude.Int.{ℤ}
use huginn_messenger.Prelude.Result.{Result, ok, err, ◌>>=◌}
use huginn_messenger.Store.Sql.{
  Error, file_download_not_found, download_not_active, lookup, update, upsert,
}
use huginn_messenger.Store.Sql.Laws.{All-adjust, All-append_one}
use huginn_messenger.Store.Clock.{Time, unix}
use huginn_messenger.Store.Rows.{FileDownload, download_pk, Db}
use huginn_messenger.Store.Downloads.{
  track_file_download, get_file_download, mark_file_download_completed, cancel_file_download,
  reset_file_download_completion, mark_file_download_stopped, update_if, is_null, retrack,
  new_download,
}

-- The methods that write the table, as events.
pub data DownloadEvent : Type 0 where
  track : String → String → ℤ → Time → ℤ → DownloadEvent
  complete : String → String → Time → DownloadEvent
  cancel : String → Time → DownloadEvent
  reset : String → DownloadEvent
  stop : String → Time → DownloadEvent

-- An error leaves the database as it was.
abbrev pub or_same : Db → Result Error Db → Db
or_same db (ok db') = db'
or_same db (err e) = db

unfoldable pub handle : DownloadEvent → Db → Db
handle (track f n c t ttl) db =
    or_same db (do result ← track_file_download f n c t ttl db; ok (result.1))
handle (complete f p t) db = or_same db (mark_file_download_completed f p t db)
handle (cancel f t) db = or_same db (cancel_file_download f t db)
handle (reset f) db = reset_file_download_completion f db
handle (stop f t) db = mark_file_download_stopped f t db

unfoldable pub handle_all : List DownloadEvent → Db → Db
handle_all [] db = db
handle_all (e ∷ es) db = handle_all es (handle e db)

-- Not both cancelled and completed.
abbrev pub IsExclusive : FileDownload → Type 0
IsExclusive d = (is_null d.cancelled_at || is_null d.completed_at) ≡ true

complete-IsExclusive :
    (f p : String) (t : Time) (d : FileDownload)
    → (str_eq d.file_id f && is_null d.cancelled_at) ≡ true
    → IsExclusive d
    → IsExclusive (record d { completed_at = some (unix t); stopped_at = none; local_path = p })
complete-IsExclusive f p t d h e = ground arith

cancel-IsExclusive :
    (f : String) (t : Time) (d : FileDownload)
    → (str_eq d.file_id f && (is_null d.completed_at && is_null d.cancelled_at)) ≡ true
    → IsExclusive d
    → IsExclusive (record d { cancelled_at = some (unix t); stopped_at = some (unix t) })
cancel-IsExclusive f t d h e = ground arith

upsert-IsExclusive :
    (r : FileDownload) (t : List FileDownload)
    → IsExclusive r
    → All IsExclusive t
    → All IsExclusive (upsert download_pk retrack r t)
unfolding upsert update
upsert-IsExclusive r t h a = ground (
  arith,
  All-append_one IsExclusive t r a h,
  All-adjust IsExclusive (λ (d : FileDownload). str_eq d.file_id r.file_id)
      (λ (d : FileDownload). retrack d r) (λ d e x. x) t a,
)

update_if-IsExclusive :
    (f : String) (test : FileDownload → Bool) (g : FileDownload → FileDownload)
    → ((d : FileDownload)
        → (str_eq d.file_id f && test d) ≡ true
        → IsExclusive d
        → IsExclusive (g d))
    → (e : Error) (db : Db) → All IsExclusive db.file_downloads
    → All IsExclusive (or_same db (update_if f test g e db)).file_downloads
unfolding update_if
update_if-IsExclusive f test g keeps e db a =
    let same = λ (d : FileDownload). str_eq d.file_id f && test d in
    ground (arith, All-adjust IsExclusive same g keeps db.file_downloads a)

track-IsExclusive :
    (f n : String) (c : ℤ) (t : Time) (ttl : ℤ) (db : Db)
    → All IsExclusive db.file_downloads
    → All IsExclusive (handle (track f n c t ttl) db).file_downloads
unfolding handle track_file_download get_file_download
track-IsExclusive f n c t ttl db a =
    ground (arith, upsert-IsExclusive (new_download f n c t ttl) db.file_downloads refl a)

handle-IsExclusive :
    (e : DownloadEvent) (db : Db)
    → All IsExclusive db.file_downloads
    → All IsExclusive (handle e db).file_downloads
unfolding handle mark_file_download_completed cancel_file_download reset_file_download_completion
    mark_file_download_stopped update
handle-IsExclusive (track f n c t ttl) db a = track-IsExclusive f n c t ttl db a
handle-IsExclusive (complete f p t) db a =
    update_if-IsExclusive f _ _ (complete-IsExclusive f p t) file_download_not_found db a
handle-IsExclusive (cancel f t) db a =
    update_if-IsExclusive f _ _ (cancel-IsExclusive f t) download_not_active db a
handle-IsExclusive (reset f) db a =
    All-adjust IsExclusive _ (λ d. record d { completed_at = none; local_path = "" })
      (λ d e x. ground arith) db.file_downloads a
handle-IsExclusive (stop f t) db a =
    All-adjust IsExclusive (λ d. str_eq d.file_id f && is_null d.completed_at)
      (λ d. record d { stopped_at = some (unix t) }) (λ d e x. x) db.file_downloads a

-- If no download is both cancelled and completed, then none is after any sequence of tracking,
-- completing, cancelling, resetting and stopping.
pub handle_all-IsExclusive :
    (es : List DownloadEvent) (db : Db)
    → All IsExclusive db.file_downloads
    → All IsExclusive (handle_all es db).file_downloads
unfolding handle_all
handle_all-IsExclusive [] db a = a
handle_all-IsExclusive (e ∷ es) db a =
    handle_all-IsExclusive es (handle e db) (handle-IsExclusive e db a)

-- The row of the file says that it is cancelled and not completed.
abbrev pub is_cancelled_row : Option FileDownload → Bool
is_cancelled_row none = false
is_cancelled_row (some d) = not (is_null d.cancelled_at) && is_null d.completed_at

abbrev pub is_cancelled : String → Db → Bool
is_cancelled f db = is_cancelled_row (lookup download_pk f db.file_downloads)
