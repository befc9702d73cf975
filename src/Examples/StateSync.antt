-- ===== src/Examples/StateSync.antt =====
-- Tests of the state synchronisation.
use huginn_messenger.Prelude.{
  ℕ, zero, suc, ◌≤◌, ◌<◌, ◌≡◌, refl, String, Bool, true, false, none, some, List, [], ◌∷◌, arith,
  ◌⊎◌,
}
use huginn_messenger.Prelude.Int.{pos}
use huginn_messenger.Store.Rows.{Bytes, Message}
use huginn_messenger.Store.Sync.Checkpoint.{last_check_of}
use huginn_messenger.Messenger.StateSync.{
  IncomingTransfer, StateSyncManifest, StateSyncChunk, StateSyncAck, SyncState, Effect,
  submit_import, concat, handle_state_sync_manifest, handle_state_sync_chunk, handle_state_sync_ack,
  matches, has_error, chunk_for, slot_index, fill_slot, after_fill,
}
use huginn_messenger.Messenger.StateSync.Transfer.{transfer_completes}
use huginn_messenger.Messenger.StateSync.Step.{lists, handle_chunks}
use huginn_messenger.Messenger.StateSync.Ack.{handle_state_sync_ack-forward}
use huginn_messenger.Examples.Data.{empty_db}
use huginn_messenger.Prelude.{Option, map}
use huginn_messenger.Store.Sync.{MessageReplicationDelta}
use huginn_messenger.Store.Sql.{constraint_failed, insert_or_ignore, has}
use huginn_messenger.Store.Sync.{
  import_messages, import_state_sync_messages, try_import_state_sync_messages,
}
use huginn_messenger.Messenger.StateSync.{
  after_checks, import_failed, fail_state_sync_import, clear_incoming_state_sync,
}
use huginn_messenger.Messenger.StateSync.{
  decode_state_sync_delta, check_import, finish_state_sync_import,
}
use huginn_messenger.Messenger.StateSync.Import.{acks, Answered, finish_state_sync_import-Answered}
use huginn_messenger.Examples.Replicas.{second_device, delta}

abbrev manifest : ℕ → StateSyncManifest
manifest n = record {
  transfer_id = "t";
  checkpoint = pos 25;
  chunk_count = pos n;
  sha256 = "h";
  error = "";
}

abbrev sync_chunk : ℕ → Bytes → StateSyncChunk
sync_chunk i b = record { transfer_id = "t"; index = pos i; body = b }

-- A state that has asked "tablet" for a delta, and sent it one up to 25.
abbrev pub asked_state : SyncState
asked_state = record {
  requested = λ p. true;
  incoming = λ p. none;
  outgoing = λ p. some (record { transfer_id = "t"; checkpoint = 25 });
  next_address = 0;
  db = empty_db;
}

abbrev parts : List Bytes
parts = (1 ∷ []) ∷ (2 ∷ []) ∷ []

-- The second part, twice, and then the first.
abbrev arrivals : List StateSyncChunk
arrivals = sync_chunk 1 (2 ∷ []) ∷ sync_chunk 1 (2 ∷ []) ∷ sync_chunk 0 (1 ∷ []) ∷ []

all_arrive : (j : ℕ) → j < 2 → lists arrivals j ≡ true
all_arrive zero l = refl
all_arrive (suc zero) l = refl
all_arrive (suc (suc j)) l = ground arith

transfer_completes_example :
    (t : IncomingTransfer) × ((handle_chunks "tablet" arrivals
        (handle_state_sync_manifest "tablet" (manifest 2) asked_state)).1
      ≡ submit_import "tablet" t ∷ [])
    × (concat t.chunks ≡ 1 ∷ 2 ∷ [])
    × (t.expected_hash ≡ "h")
    × (t.checkpoint ≡ pos 25)
transfer_completes_example =
    transfer_completes "tablet" (manifest 2) parts arrivals asked_state refl refl refl refl
      (
        (1, refl, refl, refl, omega arith, refl),
        ((1, refl, refl, refl, omega arith, refl), ((0, refl, refl, refl, omega arith, refl), tt)),
      )
      all_arrive

abbrev good_ack : StateSyncAck
good_ack = record { transfer_id = "t"; checkpoint = pos 25; error = none }

handle_state_sync_ack-forward_example :
    (last_check_of "tablet" asked_state.db
      ≤ last_check_of "tablet" (handle_state_sync_ack "tablet" good_ack asked_state).db)
    × ((last_check_of "tablet" (handle_state_sync_ack "tablet" good_ack asked_state).db
          ≡ last_check_of "tablet" asked_state.db)
        ⊎ ((matches (asked_state.outgoing "tablet") good_ack ≡ true)
            × (has_error good_ack ≡ false)
            × (◌≡◌ {A = String} "tablet" "tablet")))
handle_state_sync_ack-forward_example =
    handle_state_sync_ack-forward "tablet" "tablet" good_ack asked_state

-- An empty chunk leaves its slot nil, so it is counted again when it is repeated: two empty chunks
-- of one index complete a transfer of two.
abbrev empty_twice : List StateSyncChunk
empty_twice = sync_chunk 0 [] ∷ sync_chunk 0 [] ∷ []

abbrev is_submitted : List Effect → Bool
is_submitted [] = false
is_submitted (submit_import p t ∷ es) = true
is_submitted (_ ∷ es) = is_submitted es

empty_chunks_complete :
    is_submitted
      (handle_chunks "tablet" empty_twice
        (handle_state_sync_manifest "tablet" (manifest 2) asked_state)).1
    ≡ true
unfolding handle_chunks handle_state_sync_chunk handle_state_sync_manifest chunk_for slot_index
    fill_slot after_fill
empty_chunks_complete = refl

-- A transfer of the delta between the two devices; its checksum and its coding are trivial.
abbrev sent_delta : MessageReplicationDelta
sent_delta = record { version = pos 1; checkpoint = pos 25; messages = delta }

abbrev hex_sum256 : Bytes → String
hex_sum256 b = "h"

abbrev read_gzip : ℕ → Bytes → Option Bytes
read_gzip n b = some b

abbrev unmarshal_delta : Bytes → Option MessageReplicationDelta
unmarshal_delta b = some sent_delta

abbrev complete_transfer : IncomingTransfer
complete_transfer = record {
  address = 0;
  transfer_id = "t";
  checkpoint = pos 25;
  expected_hash = "h";
  chunks = parts;
  received = 2;
  processing = true;
}

abbrev receiving : SyncState
receiving = record asked_state { db = second_device }

finish_state_sync_import-Answered_example :
    Answered hex_sum256 read_gzip unmarshal_delta
      (λ ms. false)
      "phone"
      complete_transfer
      30000
      receiving
      (finish_state_sync_import hex_sum256 read_gzip unmarshal_delta
        (λ ms. false)
        "phone"
        complete_transfer
        30000
        receiving)
finish_state_sync_import-Answered_example =
    finish_state_sync_import-Answered hex_sum256 read_gzip unmarshal_delta (λ ms. false) "phone"
      complete_transfer 30000 receiving

-- The history after a sound transfer, and after one that SQLite refuses.
import_runs :
    map
      (λ (m : Message). m.message_uid)
      (finish_state_sync_import hex_sum256 read_gzip unmarshal_delta
        (λ ms. false)
        "phone"
        complete_transfer
        30000
        receiving).0.db.messages
    ≡ "m1" ∷ "m2" ∷ []
unfolding finish_state_sync_import check_import decode_state_sync_delta after_checks
    try_import_state_sync_messages import_state_sync_messages import_messages insert_or_ignore has
    clear_incoming_state_sync
import_runs = refl

import_refused :
    acks
      (finish_state_sync_import hex_sum256 read_gzip unmarshal_delta
        (λ ms. true)
        "phone"
        complete_transfer
        30000
        receiving).1
    ≡ (
      "phone",
      record {
        transfer_id = "t";
        checkpoint = pos 25;
        error = some (import_failed constraint_failed);
      },
    )
      ∷ []
unfolding finish_state_sync_import check_import decode_state_sync_delta after_checks
    try_import_state_sync_messages fail_state_sync_import
import_refused = refl
