-- ===== src/Store/Invariant/Loops.antt =====
-- The loops inside the transactions, and the helpers that several operations share, keep the keys
-- unique.
use huginn_messenger.Prelude.{
  ℕ, ◌≡◌, refl, String, Bool, false, Option, none, some, List, [], ◌∷◌, arith, Bool-cases, inl, inr,
  str_eq, ◌&&◌, adjust,
}
use huginn_messenger.Prelude.Int.{ℤ}
use huginn_messenger.Prelude.Result.{IfOk, IfOk-bind}
use huginn_messenger.Store.Sql.{Error, insert_or_ignore, upsert}
use huginn_messenger.Store.Sql.Unique.{
  IsUnique, adjust-IsUnique, insert-IsUnique, insert_or_ignore-IsUnique, upsert-IsUnique,
}
use huginn_messenger.Store.Rows.{
  Message, PeerRow, GroupChat, PendingChunk, FileDownload, chunk_pk, pending_pk, message_pk,
  peer_pk, group_pk, config_pk, download_pk, state_check_pk, Db,
}
use huginn_messenger.Store.Pending.{chunk_of, queue_chunk, queue_chunks}
use huginn_messenger.Store.Config
use huginn_messenger.Store.Config.{Config, save_value, save_values, config_pairs}
use huginn_messenger.Store.Downloads
use huginn_messenger.Store.Downloads.{retrack, new_download, update_if}
use huginn_messenger.Store.Clock.{Time, unix_micro}
use huginn_messenger.Store.Sync
use huginn_messenger.Store.Sync.{import_messages, ReplicatedMessage, message_of, latest_check}
use huginn_messenger.Store.Replication
use huginn_messenger.Store.Replication.{
  import_replicated_messages, import_replicated_peers, import_replicated_groups, merge_message,
  merge_peer, merge_group, ReplicationSnapshot,
}
use huginn_messenger.Store.Op.{Op, run}
use huginn_messenger.Store.Invariant.Tables.{
  IsValid, IsOkValid, with_config_values, with_file_downloads, with_last_state_check,
}

pub queue_chunk-IsValid :
    (c : PendingChunk) (db : Db) → IsValid db → IfOk IsValid (queue_chunk c db)
unfolding queue_chunk
queue_chunk-IsValid c db v = ground (
  arith,
  insert-IsUnique chunk_pk (chunk_of c) db.chunks,
  insert-IsUnique pending_pk (record c { placed = false }) db.pending_chunks,
)

pub queue_chunks-IsValid :
    (cs : List PendingChunk) (db : Db) → IsValid db → IfOk IsValid (queue_chunks cs db)
unfolding queue_chunks
queue_chunks-IsValid [] db v = v
queue_chunks-IsValid (c ∷ cs) db v =
    IfOk-bind IsValid IsValid (queue_chunk c db) (queue_chunks cs) (queue_chunk-IsValid c db v)
      (λ db' v'. queue_chunks-IsValid cs db' v')

pub import_messages-IsUnique :
    (at : ℕ) (ms : List ReplicatedMessage) (t : List Message)
    → IsUnique message_pk t
    → IsUnique message_pk (import_messages at ms t).1
unfolding import_messages
import_messages-IsUnique at [] t u = u
import_messages-IsUnique at (m ∷ ms) t u =
    import_messages-IsUnique at ms (insert_or_ignore message_pk (message_of at m) t)
      (insert_or_ignore-IsUnique message_pk (message_of at m) t u)

pub import_replicated_messages-IsUnique :
    (at : ℕ) (ms : List ReplicatedMessage) (t : List Message)
    → IsUnique message_pk t
    → IsUnique message_pk (import_replicated_messages at ms t)
unfolding import_replicated_messages
import_replicated_messages-IsUnique at [] t u = u
import_replicated_messages-IsUnique at (m ∷ ms) t u =
    import_replicated_messages-IsUnique at ms (upsert message_pk merge_message (message_of at m) t)
      (upsert-IsUnique message_pk merge_message (λ o e. refl) (message_of at m) t u)

pub import_replicated_peers-IsUnique :
    (ps t : List PeerRow) → IsUnique peer_pk t → IsUnique peer_pk (import_replicated_peers ps t)
unfolding import_replicated_peers
import_replicated_peers-IsUnique [] t u = u
import_replicated_peers-IsUnique (p ∷ ps) t u =
    import_replicated_peers-IsUnique ps (upsert peer_pk merge_peer p t)
      (upsert-IsUnique peer_pk merge_peer (λ o e. refl) p t u)

pub import_replicated_groups-IsUnique :
    (gs t : List GroupChat)
    → IsUnique group_pk t
    → IsUnique group_pk (import_replicated_groups gs t)
unfolding import_replicated_groups
import_replicated_groups-IsUnique [] t u = u
import_replicated_groups-IsUnique (g ∷ gs) t u =
    import_replicated_groups-IsUnique gs (upsert group_pk merge_group g t)
      (upsert-IsUnique group_pk merge_group (λ o e. refl) g t u)

pub set_config_value-IsValid :
    (n v : String) (db : Db) → IsValid db → IsValid (Config.set_config_value n v db)
unfolding Config.set_config_value
set_config_value-IsValid n v db h = with_config_values h _ (
    upsert-IsUnique config_pk (λ o e. record o { value = e.value }) (λ o e. refl)
      (record { name = n; value = v }) db.config_values h.config)

pub save_value-IsValid : (n v : String) (db : Db) → IsValid db → IsValid (save_value n v db)
unfolding save_value
save_value-IsValid n v db h = elim (Bool-cases (str_eq v "")) [
  | inl e ↦ rw e h
  | inr e ↦ rw e (set_config_value-IsValid n v db h)
]

pub save_values-IsValid :
    (ps : List (String × String)) (db : Db) → IsValid db → IsValid (save_values ps db)
unfolding save_values
save_values-IsValid [] db h = h
save_values-IsValid ((n, x) ∷ ps) db h =
    save_values-IsValid ps (save_value n x db) (save_value-IsValid n x db h)

pub save_app_config-IsValid :
    (c : Option Config) (db : Db) → IsValid db → IsOkValid (Config.save_app_config c db)
unfolding Config.save_app_config
save_app_config-IsValid none db h = tt
save_app_config-IsValid (some c) db h = save_values-IsValid (config_pairs c) db h

pub track-IsUnique :
    (r : FileDownload) (t : List FileDownload)
    → IsUnique download_pk t
    → IsUnique download_pk (upsert download_pk retrack r t)
track-IsUnique r t u = upsert-IsUnique download_pk retrack (λ o e. refl) r t u

pub update_if-IsOkValid :
    (f : String) (test : FileDownload → Bool) (g : FileDownload → FileDownload)
    → ((d : FileDownload) → (g d).file_id ≡ d.file_id)
    → (e : Error) (db : Db) → IsValid db
    → IsOkValid (update_if f test g e db)
unfolding update_if
update_if-IsOkValid f test g keeps e db v = ground (
  arith,
  with_file_downloads v
      (adjust (λ (d : FileDownload). str_eq d.file_id f && test d) g db.file_downloads)
      (adjust-IsUnique download_pk (λ (d : FileDownload). str_eq d.file_id f && test d) g keeps
        db.file_downloads v.downloads),
)

pub track-IsOkValid :
    (f n : String) (c : ℤ) (t : Time) (ttl : ℤ) (db : Db)
    → IsValid db
    → IsOkValid (run (Op.track_file_download f n c t ttl) db)
unfolding run Downloads.track_file_download Downloads.get_file_download
track-IsOkValid f n c t ttl db v =
    let row = new_download f n c t ttl in
    ground (
      arith,
      with_file_downloads v (upsert download_pk retrack row db.file_downloads)
          (track-IsUnique row db.file_downloads v.downloads),
    )

pub check-IsOkValid :
    (p : String) (t : Option ℕ) (db : Db)
    → IsValid db
    → IsOkValid (Sync.set_last_state_check p t db)
unfolding Sync.set_last_state_check
check-IsOkValid p none db v = ground arith
check-IsOkValid p (some t) db v = ground (
  arith,
  with_last_state_check v
      (upsert state_check_pk latest_check (record { peer_id = p; last_check_datetime = t })
        db.last_state_check)
      (upsert-IsUnique state_check_pk latest_check (λ o e. refl)
        (record { peer_id = p; last_check_datetime = t }) db.last_state_check v.checks),
)

pub snapshot-IsOkValid :
    (s : ReplicationSnapshot) (now : Time) (db : Db)
    → IsValid db
    → IsOkValid (Replication.import_replication_snapshot s now db)
unfolding Replication.import_replication_snapshot
snapshot-IsOkValid s now db v = ground (
  arith,
  import_replicated_messages-IsUnique (unix_micro now) s.messages db.messages,
  import_replicated_peers-IsUnique s.peers db.stored_peers,
  import_replicated_groups-IsUnique s.groups db.group_chats,
)
