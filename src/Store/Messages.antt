-- ===== src/Store/Messages.antt =====
-- internal/store/messageStore.go: the history of messages.
pub mod Pages
pub mod Saved
use huginn_messenger.Prelude.{
  ℕ, zero, suc, String, Bool, true, false, Option, none, some, List, map, str_eq, if◌then◌else◌,
  select, take, drop,
}
use huginn_messenger.Prelude.Int.{ℤ, pos, negsuc, leb_ℤ, pos_part}
use huginn_messenger.Prelude.Sort.{sort_by}
use huginn_messenger.Prelude.Result.{Result, ok, err, ◌>>=◌}
use huginn_messenger.Store.Sql.{Error, insert, has}
use huginn_messenger.Store.Clock.{Time, unix_micro}
use huginn_messenger.Store.Rows.{Bytes, Message, message_pk, Db}

-- `created_at` is the message's time in microseconds, `now` the local clock.
unfoldable pub save_message :
    String → String → String → String → Bytes → ℤ → Time → Db → Result Error Db
save_message msg_uid login sender_login chat_id body created_at now db = do
  messages ←
      insert message_pk
        (record {
          message_uid = msg_uid;
          login = login;
          sender_login = sender_login;
          chat_id = chat_id;
          body = body;
          created_at = created_at;
          state_updated_at = unix_micro now;
        })
        db.messages
  ok (record db { messages = messages })

-- messageHistorySelect
abbrev pub history : String → Db → List Message
history chat_id db = select (λ m. str_eq m.chat_id chat_id) db.messages

abbrev pub oldest_first : Message → Message → Bool
oldest_first a b = leb_ℤ a.created_at b.created_at

abbrev pub newest_first : Message → Message → Bool
newest_first a b = leb_ℤ b.created_at a.created_at

unfoldable pub get_messages : String → Db → List Bytes
get_messages peer_id db = map (λ (m : Message). m.body) (sort_by oldest_first (history peer_id db))

-- LIMIT limit OFFSET offset: a negative limit is none, a negative offset is 0.
abbrev pub page {ℓ} : {A : Type ℓ} → ℤ → ℤ → List A → List A
page (pos limit) offset rows = take limit (drop (pos_part offset) rows)
page (negsuc _) offset rows = drop (pos_part offset) rows

unfoldable pub get_messages_desc : String → ℤ → ℤ → Db → List Bytes
get_messages_desc peer_id limit offset db =
    map (λ (m : Message). m.body) (page limit offset (sort_by newest_first (history peer_id db)))

unfoldable pub find_message_by_id : String → Db → Bool
find_message_by_id msg_id db = has message_pk msg_id db.messages
