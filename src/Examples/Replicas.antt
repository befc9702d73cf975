-- ===== src/Examples/Replicas.antt =====
-- Two devices of one user: tests of the synchronisation and of the replication snapshot.
use huginn_messenger.Prelude.{
  ℕ, ◌≡◌, refl, String, false, none, some, List, [], ◌∷◌, map, arith, if◌then◌else◌,
}
use huginn_messenger.Prelude.Int.{pos, negsuc, int64}
use huginn_messenger.Prelude.Result.{ok}
use huginn_messenger.Store.Sql.{lookup, has, upsert, insert, insert_or_ignore}
use huginn_messenger.Store.Clock.{expired, duration_of_seconds}
use huginn_messenger.Store.Rows.{Message, Db, Chunk, message_pk, chunk_pk}
use huginn_messenger.Prelude.Sort.{sort_by, IsSorted}
use mathlib.Core.List.{Permᴰ}
use huginn_messenger.Store.Sync.{
  ReplicatedMessage, export_messages_for_state_sync, import_state_sync_messages,
  get_last_state_check, set_last_state_check, replicated,
}
use huginn_messenger.Store.Sync.Import.{
  HasAllBefore, exchange_catches_up, import_state_sync_idempotent,
}
use huginn_messenger.Store.Sync.Checkpoint.{last_check_of, set_last_state_check-max}
use huginn_messenger.Store.Replication.{export_replication_snapshot, import_replication_snapshot}
use huginn_messenger.Store.Replication.RoundTrip.{view, import-export}
use huginn_messenger.Store.Chunks.{delete_expired_payloads}
use huginn_messenger.Store.Chunks.Expiry.{lookup-delete_expired_payloads}
use huginn_messenger.Store.Messages.{
  get_messages, get_messages_desc, oldest_first, newest_first, history,
}
use huginn_messenger.Store.Messages.Pages.{get_messages-IsSorted}
use huginn_messenger.Store.Clock.{expired-eq-leb}
use huginn_messenger.Store.Op.{Op, run}
use huginn_messenger.Store.Sync
use huginn_messenger.Store.Messages
use huginn_messenger.Store.Chunks
use huginn_messenger.Store.Track
use huginn_messenger.Store.History.{KeepsHistory, run_all, run_all-KeepsHistory}
use huginn_messenger.Examples.Data.{empty_db, queued_db, queued_db-IsValid}

-- The history of the first device; "m2" came after "m1".
abbrev history_row : String → ℕ → Message
history_row uid updated = record {
  message_uid = uid;
  login = "bob";
  sender_login = "alice";
  chat_id = "bob:b";
  body = updated ∷ [];
  created_at = pos updated;
  state_updated_at = updated;
}

abbrev pub first_device : Db
first_device = record empty_db { messages = history_row "m2" 20 ∷ history_row "m1" 10 ∷ [] }

abbrev pub second_device : Db
second_device = record empty_db { messages = history_row "m1" 10 ∷ [] }

abbrev pub delta : List ReplicatedMessage
delta = replicated (history_row "m2" 20) ∷ []

pub delta_exported :
    export_messages_for_state_sync (some 15) (some 25) first_device ≡ ok (25, delta)
unfolding export_messages_for_state_sync sort_by
delta_exported = refl

pub had_before : HasAllBefore 15 first_device second_device
unfolding lookup has
had_before k r h recent = ground arith

exchange_catches_up_example :
    (◌≡◌ {A = ℕ} 25 25)
    × HasAllBefore 26 first_device (import_state_sync_messages delta 30000 second_device).1
exchange_catches_up_example =
    exchange_catches_up (some 15) 25 25 delta 30000 first_device second_device had_before
      delta_exported

import_state_sync_idempotent_example :
    ((k : String) (r : Message)
      → lookup message_pk k second_device.messages ≡ some r
      → lookup message_pk k (import_state_sync_messages delta 30000 second_device).1.messages
        ≡ some r)
    × (import_state_sync_messages delta 40000
          (import_state_sync_messages delta 30000 second_device).1
        ≡ ([], (import_state_sync_messages delta 30000 second_device).1))
import_state_sync_idempotent_example = import_state_sync_idempotent delta 30000 40000 second_device

abbrev checked_db : Db
checked_db = record empty_db {
  last_state_check = record { peer_id = "tablet"; last_check_datetime = 25 } ∷ [];
}

checkpoint_set : set_last_state_check "tablet" (some 25) empty_db ≡ ok checked_db
unfolding set_last_state_check upsert has
checkpoint_set = refl

set_last_state_check-max_example :
    (last_check_of "tablet" checked_db ≡ 25)
    × (get_last_state_check "tablet" checked_db ≡ ok (some 25))
unfolding lookup
set_last_state_check-max_example =
    set_last_state_check-max "tablet" "tablet" 25 empty_db checked_db checkpoint_set

import-export_example :
    (b' : Db) × (import_replication_snapshot
        (export_replication_snapshot queued_db)
        7000
        second_device
      ≡ ok b')
    × (view "m1" b'.messages ≡ (
        if has message_pk "m1" queued_db.messages
        then view "m1" queued_db.messages
        else view "m1" second_device.messages))
import-export_example = import-export queued_db second_device 7000 "m1" queued_db-IsValid

lookup-delete_expired_payloads_example :
    lookup chunk_pk
      ("m1", pos 0)
      (delete_expired_payloads chunk_pk
        (λ (c : Chunk). c.created_at)
        (λ (c : Chunk). c.ttl_seconds)
        1060000000000
        queued_db.chunks)
    ≡ none
unfolding lookup expired duration_of_seconds int64
lookup-delete_expired_payloads_example =
    lookup-delete_expired_payloads chunk_pk (λ (c : Chunk). c.created_at)
      (λ (c : Chunk). c.ttl_seconds) 1060000000000 ("m1", pos 0) queued_db.chunks
      queued_db-IsValid.chunks

get_messages-IsSorted_example :
    (up : List Message) × (down : List Message) × (get_messages "bob:b" first_device
      ≡ map (λ (m : Message). m.body) up)
    × (get_messages_desc "bob:b" (negsuc 0) (pos 0) first_device
        ≡ map (λ (m : Message). m.body) down)
    × IsSorted oldest_first up
    × IsSorted newest_first down
    × Permᴰ up (history "bob:b" first_device)
    × Permᴰ down (history "bob:b" first_device)
get_messages-IsSorted_example = get_messages-IsSorted "bob:b" 0 first_device

expired-eq-leb_example : expired 70 10 (pos 3600) ≡ false
expired-eq-leb_example = expired-eq-leb 70 10 3600 (ground arith)

-- A message "m1" of another body is imported, and saved, and its payloads are deleted.
abbrev operations : List Op
operations =
    Op.import_state_sync_messages (record (replicated (history_row "m1" 30)) { body = [] } ∷ delta)
      40000
    ∷ Op.save_message "m1" "bob" "alice" "bob:b" (9 ∷ []) (pos 5) 50000
    ∷ Op.delete_chunks_with_message
    ∷ Op.delete_failed_message "m1"
    ∷ []

keeps_body :
    map (λ (m : Message). m.body) (run_all operations second_device).messages
    ≡ (10 ∷ []) ∷ (20 ∷ []) ∷ []
unfolding run_all run Sync.import_state_sync_messages Sync.import_messages Messages.save_message
    Chunks.delete_chunks_with_message Track.delete_failed_message insert insert_or_ignore has
keeps_body = refl

run_all-KeepsHistory_example : KeepsHistory second_device (run_all operations second_device)
run_all-KeepsHistory_example = run_all-KeepsHistory operations second_device refl
