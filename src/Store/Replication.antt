-- ===== src/Store/Replication.antt =====
-- internal/store/replicationStore.go: the snapshot that a new device takes over at relogin.
pub mod RoundTrip
use huginn_messenger.Prelude.{
  ℕ, String, Bool, true, false, List, [], ◌∷◌, map, not, ◌&&◌, leb, str_leb, if◌then◌else◌, max,
  ◌==◌,
}
use huginn_messenger.Prelude.Int.{ℤ, pos, ◌==ℤ◌, leb_ℤ}
use huginn_messenger.Prelude.Sort.{sort_by}
use huginn_messenger.Prelude.Result.{Result, ok, err, ◌>>=◌, ◌>>◌, fail_if}
use huginn_messenger.Store.Sql.{Error, unsupported_version, upsert}
use huginn_messenger.Store.Clock.{Time, unix_micro}
use huginn_messenger.Store.Rows.{Message, PeerRow, GroupChat, message_pk, peer_pk, group_pk, Db}
use huginn_messenger.Store.Sync.{ReplicatedMessage, replicated, message_of}

-- ReplicatedPeer has the fields of the row.
pub record ReplicationSnapshot : Type 0 where
  pub version : ℤ
  pub messages : List ReplicatedMessage
  pub peers : List PeerRow
  pub groups : List GroupChat

-- ORDER BY created_at, message_uid
abbrev pub by_created_and_uid : Message → Message → Bool
by_created_and_uid a b =
    if a.created_at ==ℤ b.created_at
    then str_leb a.message_uid b.message_uid
    else leb_ℤ a.created_at b.created_at

-- ORDER BY last_seen, login, signature_key
abbrev pub by_last_seen : PeerRow → PeerRow → Bool
by_last_seen a b =
    if not (a.last_seen == b.last_seen)
    then leb a.last_seen b.last_seen
    else if not (str_leb a.login b.login && str_leb b.login a.login)
    then str_leb a.login b.login
    else str_leb a.signature_key b.signature_key

-- ORDER BY created_at, uid
abbrev pub by_created_and_group : GroupChat → GroupChat → Bool
by_created_and_group a b =
    if a.created_at == b.created_at then str_leb a.uid b.uid else leb a.created_at b.created_at

unfoldable pub read_replicated_messages : Db → List ReplicatedMessage
read_replicated_messages db = map replicated (sort_by by_created_and_uid db.messages)

unfoldable pub read_replicated_peers : Db → List PeerRow
read_replicated_peers db = sort_by by_last_seen db.stored_peers

unfoldable pub read_replicated_groups : Db → List GroupChat
read_replicated_groups db = sort_by by_created_and_group db.group_chats

unfoldable pub export_replication_snapshot : Db → ReplicationSnapshot
export_replication_snapshot db = record {
  version = pos 1;
  messages = read_replicated_messages db;
  peers = read_replicated_peers db;
  groups = read_replicated_groups db;
}

-- The SET lists of the three ON CONFLICT clauses.
abbrev pub merge_message : Message → Message → Message
merge_message old excluded = record old {
  login = excluded.login;
  sender_login = excluded.sender_login;
  chat_id = excluded.chat_id;
  body = excluded.body;
  created_at = excluded.created_at;
  state_updated_at = max old.state_updated_at excluded.state_updated_at;
}

abbrev pub merge_peer : PeerRow → PeerRow → PeerRow
merge_peer old excluded = record old {
  peer_id = excluded.peer_id;
  encryption_key = excluded.encryption_key;
  last_seen = excluded.last_seen;
  is_fake = excluded.is_fake;
}

abbrev pub merge_group : GroupChat → GroupChat → GroupChat
merge_group old excluded = record old {
  name = excluded.name;
  enc_private = excluded.enc_private;
  enc_public = excluded.enc_public;
  sign_private = excluded.sign_private;
  sign_public = excluded.sign_public;
  created_at = excluded.created_at;
}

unfoldable pub import_replicated_messages : ℕ → List ReplicatedMessage → List Message → List Message
import_replicated_messages imported_at [] table = table
import_replicated_messages imported_at (m ∷ ms) table =
    import_replicated_messages imported_at ms
      (upsert message_pk merge_message (message_of imported_at m) table)

unfoldable pub import_replicated_peers : List PeerRow → List PeerRow → List PeerRow
import_replicated_peers [] table = table
import_replicated_peers (p ∷ ps) table =
    import_replicated_peers ps (upsert peer_pk merge_peer p table)

unfoldable pub import_replicated_groups : List GroupChat → List GroupChat → List GroupChat
import_replicated_groups [] table = table
import_replicated_groups (g ∷ gs) table =
    import_replicated_groups gs (upsert group_pk merge_group g table)

unfoldable pub import_replication_snapshot : ReplicationSnapshot → Time → Db → Result Error Db
import_replication_snapshot snapshot now db = do
  fail_if (not (snapshot.version ==ℤ pos 1)) unsupported_version
  ok (record db {
    messages = import_replicated_messages (unix_micro now) snapshot.messages db.messages;
    stored_peers = import_replicated_peers snapshot.peers db.stored_peers;
    group_chats = import_replicated_groups snapshot.groups db.group_chats;
  })
