-- ===== src/Store/Sync.antt =====
-- internal/store/stateSyncStore.go: what has changed since a replica's last check.
pub mod Checkpoint
pub mod Import
use huginn_messenger.Prelude.{
  ℕ, String, Bool, true, false, Option, none, some, List, [], ◌∷◌, map, ◌&&◌, str_eq, leb, ltb,
  str_leb, if◌then◌else◌, select, max, ◌==◌,
}
use huginn_messenger.Prelude.Int.{ℤ}
use huginn_messenger.Prelude.Sort.{sort_by}
use huginn_messenger.Prelude.Result.{Result, ok, err, ◌>>=◌, ◌>>◌, fail_if}
use huginn_messenger.Store.Sql.{
  Error, constraint_failed, empty_peer_id, zero_time, checkpoint_precedes, lookup, upsert, has,
  insert_or_ignore,
}
use huginn_messenger.Store.Clock.{Time, unix_micro}
use huginn_messenger.Store.Rows.{Bytes, Message, LastStateCheck, message_pk, state_check_pk, Db}

-- ReplicatedMessage of replicationStore.go
pub record ReplicatedMessage : Type 0 where
  pub message_uid : String
  pub login : String
  pub sender_login : String
  pub chat_id : String
  pub body : Bytes
  pub created_at : ℤ

pub record MessageReplicationDelta : Type 0 where
  pub version : ℤ
  pub checkpoint : ℤ
  pub messages : List ReplicatedMessage

abbrev pub replicated : Message → ReplicatedMessage
replicated m = record {
  message_uid = m.message_uid;
  login = m.login;
  sender_login = m.sender_login;
  chat_id = m.chat_id;
  body = m.body;
  created_at = m.created_at;
}

abbrev pub message_of : ℕ → ReplicatedMessage → Message
message_of imported_at m = record {
  message_uid = m.message_uid;
  login = m.login;
  sender_login = m.sender_login;
  chat_id = m.chat_id;
  body = m.body;
  created_at = m.created_at;
  state_updated_at = imported_at;
}

abbrev checked_at : Option LastStateCheck → Option ℕ
checked_at none = none
checked_at (some r) = some r.last_check_datetime

-- The zero time.Time is `none`; another is in microseconds.
unfoldable pub get_last_state_check : String → Db → Result Error (Option ℕ)
get_last_state_check peer_id db = do
  fail_if (str_eq peer_id "") empty_peer_id
  ok (checked_at (lookup state_check_pk peer_id db.last_state_check))

abbrev pub latest_check : LastStateCheck → LastStateCheck → LastStateCheck
latest_check old excluded = record old {
  last_check_datetime = max old.last_check_datetime excluded.last_check_datetime;
}

-- `checked_at` is in microseconds, and `none` if it is zero.
unfoldable pub set_last_state_check : String → Option ℕ → Db → Result Error Db
set_last_state_check peer_id none db = do fail_if (str_eq peer_id "") empty_peer_id; err zero_time
set_last_state_check peer_id (some checked_at) db = do
  fail_if (str_eq peer_id "") empty_peer_id
  ok (record db {
    last_state_check =
        upsert state_check_pk latest_check
          (record { peer_id = peer_id; last_check_datetime = checked_at }) db.last_state_check;
  })

abbrev pub or_zero : Option ℕ → ℕ
or_zero none = 0
or_zero (some t) = t

-- state_updated_at >= since AND state_updated_at <= checkpoint
abbrev pub in_window : ℕ → ℕ → Message → Bool
in_window since checkpoint m = leb since m.state_updated_at && leb m.state_updated_at checkpoint

-- ORDER BY state_updated_at, message_uid
abbrev pub updated_first : Message → Message → Bool
updated_first a b =
    if a.state_updated_at == b.state_updated_at
    then str_leb a.message_uid b.message_uid
    else leb a.state_updated_at b.state_updated_at

-- The messages of a delta; its checkpoint is the second argument, in microseconds.
unfoldable pub export_messages_for_state_sync :
    Option ℕ → Option ℕ → Db → Result Error (ℕ × List ReplicatedMessage)
export_messages_for_state_sync since none db = err zero_time
export_messages_for_state_sync since (some checkpoint) db = do
  fail_if (ltb checkpoint (or_zero since)) checkpoint_precedes
  ok (
    checkpoint,
    map replicated
        (sort_by updated_first (select (in_window (or_zero since) checkpoint) db.messages)),
  )

-- The loop of the transaction: the rows that were inserted, and the table.
unfoldable pub import_messages :
    ℕ → List ReplicatedMessage → List Message → List ReplicatedMessage × List Message
import_messages imported_at [] table = ([], table)
import_messages imported_at (m ∷ ms) table =
    let rest =
      import_messages imported_at ms
        (insert_or_ignore message_pk (message_of imported_at m) table) in
    (if has message_pk m.message_uid table then rest.0 else m ∷ rest.0, rest.1)

unfoldable pub import_state_sync_messages :
    List ReplicatedMessage → Time → Db → List ReplicatedMessage × Db
import_state_sync_messages messages now db =
    let result = import_messages (unix_micro now) messages db.messages in
    (result.0, record db { messages = result.1 })

-- The same transaction where SQLite may refuse it: `refuses` tells of which messages it does (one
-- without data has NULL in a column that is NOT NULL). Then it is rolled back.
unfoldable pub try_import_state_sync_messages :
    (List ReplicatedMessage → Bool)
    → List ReplicatedMessage
    → Time
    → Db
    → Result Error (List ReplicatedMessage × Db)
try_import_state_sync_messages refuses messages now db = do
  fail_if (refuses messages) constraint_failed
  ok (import_state_sync_messages messages now db)
