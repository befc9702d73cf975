-- ===== src/Store/Messages/Saved.antt =====
-- What SaveMessage adds to the history.
use huginn_messenger.Prelude.{◌≡◌, refl, String, ◌||◌, List, str_eq}
use huginn_messenger.Prelude.Int.{ℤ}
use huginn_messenger.Prelude.Result.{Result, ok, err, ◌>>=◌, IfOk}
use huginn_messenger.Store.Sql.{Error, has, insert}
use huginn_messenger.Store.Sql.Laws.{has-insert}
use huginn_messenger.Store.Clock.{Time, unix_micro}
use huginn_messenger.Store.Rows.{Message, message_pk, Bytes, Db}
use huginn_messenger.Store.Messages.{save_message, find_message_by_id}

-- A message that is saved is in the history, with those that were there; the retry rows stay.
abbrev pub Saved : String → Db → Db → Type 0
Saved msg_id d d' =
    ((id : String) → find_message_by_id id d' ≡ (find_message_by_id id d || str_eq msg_id id))
    × (d'.failed_chunks ≡ d.failed_chunks)
    × (d'.last_check ≡ d.last_check)

pub save_message-Saved :
    (msg_id login sender chat : String) (body : Bytes) (at : ℤ) (now : Time) (d : Db)
    → IfOk (Saved msg_id d) (save_message msg_id login sender chat body at now d)
unfolding save_message find_message_by_id
save_message-Saved msg_id login sender chat body at now d =
    by_result (insert message_pk row d.messages) (λ id. has-insert message_pk row id d.messages)
  where
    row : Message
    row = record {
      message_uid = msg_id;
      login = login;
      sender_login = sender;
      chat_id = chat;
      body = body;
      created_at = at;
      state_updated_at = unix_micro now;
    }

    by_result :
        (r : Result Error (List Message))
        → ((id : String)
            → IfOk
                (λ t. has message_pk id t ≡ (has message_pk id d.messages || str_eq msg_id id))
                r)
        → IfOk (Saved msg_id d) (r >>= λ t. ok (record d { messages = t }))
    by_result (err e) h = tt
    by_result (ok t) h = (h, refl, refl)
