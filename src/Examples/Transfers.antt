-- ===== src/Examples/Transfers.antt =====
-- Tests of the sending side of the state synchronisation: a delta from one device to another.
use huginn_messenger.Prelude.{
  ℕ, ◌≡◌, refl, true, false, Option, none, some, [], ◌∷◌, String, any, str_eq, ◌&&◌, if◌then◌else◌,
  arith,
}
use huginn_messenger.Prelude.Int.{pos}
use huginn_messenger.Prelude.Result.{ok}
use huginn_messenger.Prelude.Sort.{sort_by}
use huginn_messenger.Store.Sql.{lookup}
use huginn_messenger.Store.Rows.{Bytes}
use huginn_messenger.Store.Sync.{
  MessageReplicationDelta, get_last_state_check, export_messages_for_state_sync,
}
use huginn_messenger.Messenger.StateSync.{IncomingTransfer, submit_import, check_import}
use huginn_messenger.Messenger.StateSync.Send.{
  Sender, Package, pack, send_chunks, send_package, send_state_sync, sanitize_state_sync_messages,
}
use huginn_messenger.Messenger.StateSync.Send.Arrives.{receive_all, send_state_sync_arrives}
use huginn_messenger.Messenger.StateSync.{SyncState, finish_state_sync_import}
use huginn_messenger.Messenger.StateSync.Import.{acks}
use huginn_messenger.Messenger.StateSync.Send.CatchUp.{state_sync_catches_up}
use huginn_messenger.Messenger.Session.{FileMeta, ChatMessage}
use huginn_messenger.Store.Sync.{ReplicatedMessage}
use huginn_messenger.Store.Sync.Import.{HasAllBefore}
use huginn_messenger.Examples.StateSync.{asked_state}
use huginn_messenger.Examples.Replicas.{first_device}

abbrev laptop_delta : MessageReplicationDelta
laptop_delta = record { version = pos 1; checkpoint = pos 25; messages = [] }

abbrev laptop : Sender
laptop = record {
  own_id = "l1";
  own_key = "bob:b";
  directory = record { get = λ id. none; get_all_by_key = λ login signature. none };
  unmarshal_message = λ b. none;
  marshal_message = λ m. [];
  marshal_delta = λ d. 1 ∷ [];
  gzip = λ b. 9 ∷ b;
  hex_sum256 = λ b. "h";
  now = 25000;
  transfer_id = "t";
  request_sent = true;
  manifest_sent = true;
  chunk_sent = λ i. true;
}

abbrev whole_package : Package
whole_package = record { delta = laptop_delta; checkpoint = 25; compressed = 9 ∷ 1 ∷ [] }

packed : pack laptop "tablet" asked_state ≡ ok whole_package
unfolding pack get_last_state_check export_messages_for_state_sync sanitize_state_sync_messages
    sort_by lookup
packed = refl

package_sent : (send_state_sync laptop "tablet" asked_state).0 ≡ true
unfolding send_state_sync send_package send_chunks pack get_last_state_check
    export_messages_for_state_sync sanitize_state_sync_messages sort_by lookup
package_sent = refl

abbrev gunzip : ℕ → Bytes → Option Bytes
gunzip n b = some (1 ∷ [])

abbrev decode_delta : Bytes → Option MessageReplicationDelta
decode_delta b = some laptop_delta

send_state_sync_arrives_example :
    (t : IncomingTransfer) × ((receive_all "laptop"
        (send_state_sync laptop "tablet" asked_state).1.1
        asked_state).1
      ≡ submit_import "laptop" t ∷ [])
    × (check_import (λ b. "h") gunzip decode_delta t ≡ ok laptop_delta)
send_state_sync_arrives_example =
    send_state_sync_arrives laptop gunzip decode_delta "tablet" "laptop" asked_state asked_state
      whole_package packed package_sent refl refl refl refl refl refl refl

-- A synchronisation of two messages, each with an attachment.
abbrev note : ChatMessage
note = record {
  from = "alice";
  chat_id = "bob:b";
  text = "hi";
  timestamp = 10000;
  msg_id = "m1";
  files =
      record {
        file_id = "f1";
        filename = "cat.png";
        file_hash = "h";
        file_path = "/tmp/cat.png";
        decryption_key = "k";
        total_chunks = pos 1;
        source_peer_id = "";
      }
      ∷ [];
}

abbrev clean_row : String → ℕ → ReplicatedMessage
clean_row uid updated = record {
  message_uid = uid;
  login = "bob";
  sender_login = "alice";
  chat_id = "bob:b";
  body = 5 ∷ [];
  created_at = pos updated;
}

abbrev clean_delta : MessageReplicationDelta
clean_delta = record {
  version = pos 1;
  checkpoint = pos 25;
  messages = clean_row "m1" 10 ∷ clean_row "m2" 20 ∷ [];
}

-- The path is not sent.
abbrev marshal_clean : ChatMessage → Bytes
marshal_clean m =
    if any (λ (f : FileMeta). str_eq f.file_path "" && str_eq f.source_peer_id "l1") m.files
    then 5 ∷ []
    else 6 ∷ []

abbrev desktop : Sender
desktop = record laptop { unmarshal_message = λ b. some note; marshal_message = marshal_clean }

abbrev desktop_state : SyncState
desktop_state = record asked_state { db = first_device }

abbrev clean_package : Package
clean_package = record { delta = clean_delta; checkpoint = 25; compressed = 9 ∷ 1 ∷ [] }

clean_packed : pack desktop "tablet" desktop_state ≡ ok clean_package
unfolding pack get_last_state_check export_messages_for_state_sync sanitize_state_sync_messages
    sort_by lookup
clean_packed = refl

clean_sent : (send_state_sync desktop "tablet" desktop_state).0 ≡ true
unfolding send_state_sync send_package send_chunks pack get_last_state_check
    export_messages_for_state_sync sanitize_state_sync_messages sort_by lookup
clean_sent = refl

never_checked : get_last_state_check "tablet" desktop_state.db ≡ ok none
unfolding get_last_state_check lookup
never_checked = refl

nothing_before : HasAllBefore 0 first_device asked_state.db
nothing_before k r h recent = let no : ⊥ = omega (arith, recent) in elim no [ ]

state_sync_catches_up_example :
    (t : IncomingTransfer) × ((receive_all "desktop"
        (send_state_sync desktop "tablet" desktop_state).1.1
        asked_state).1
      ≡ submit_import "desktop" t ∷ [])
    × (acks
          (finish_state_sync_import
            (λ b. "h")
            gunzip
            (λ b. some clean_delta)
            (λ ms. false)
            "desktop"
            t
            30000
            asked_state).1
        ≡ ("desktop", record { transfer_id = t.transfer_id; checkpoint = pos 25; error = none })
          ∷ [])
    × HasAllBefore 26 first_device
        (finish_state_sync_import
          (λ b. "h")
          gunzip
          (λ b. some clean_delta)
          (λ ms. false)
          "desktop"
          t
          30000
          asked_state).0.db
state_sync_catches_up_example =
    state_sync_catches_up desktop gunzip (λ b. some clean_delta) (λ ms. false) "tablet" "desktop"
      desktop_state asked_state asked_state clean_package none 30000 clean_packed clean_sent refl
      refl refl refl refl refl refl never_checked nothing_before refl
