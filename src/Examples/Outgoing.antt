-- ===== src/Examples/Outgoing.antt =====
-- Tests of the outgoing queue and of the cleanup.
use huginn_messenger.Prelude.{◌≡◌, refl, some, [], ◌∷◌, All, arith}
use huginn_messenger.Prelude.Int.{pos}
use huginn_messenger.Prelude.Result.{ok}
use huginn_messenger.Store.Sql.{lookup, insert, has}
use huginn_messenger.Store.Clock.{expired, duration_of_seconds}
use huginn_messenger.Prelude.Int.{int64}
use huginn_messenger.Store.Rows.{Db, message_pk}
use huginn_messenger.Store.Pending.{queue_outgoing, queue_chunks, queue_chunk}
use huginn_messenger.Store.Pending.Queue.{
  IsQueued, message_row, queue_outgoing-IsQueued, queue_outgoing_succeeds,
}
use huginn_messenger.Store.Messages.{find_message_by_id}
use huginn_messenger.Store.Chunks.{get_chunk}
use huginn_messenger.Messenger.Cleanup.{cleanup}
use huginn_messenger.Messenger.Cleanup.Survival.{cleanup-get_chunk}
use huginn_messenger.Examples.Data.{empty_db, payload, payloads, queued_db, queued_db-IsValid}

queue_outgoing_runs :
    queue_outgoing "m1" "bob" "alice" "bob:b" (1 ∷ []) (pos 5) payloads 1000000000000 empty_db
    ≡ ok queued_db
unfolding queue_outgoing queue_chunks queue_chunk insert has
queue_outgoing_runs = refl

queue_outgoing-IsQueued_example :
    (lookup message_pk "m1" queued_db.messages
      ≡ some (message_row "m1" "bob" "alice" "bob:b" (1 ∷ []) (pos 5) 1000000000000))
    × All (IsQueued queued_db) payloads
queue_outgoing-IsQueued_example =
    queue_outgoing-IsQueued "m1" "bob" "alice" "bob:b" (1 ∷ []) (pos 5) payloads 1000000000000
      empty_db queued_db queue_outgoing_runs

queue_outgoing_succeeds_example :
    (db' : Db) × (queue_outgoing "m1" "bob" "alice" "bob:b"
        (1 ∷ [])
        (pos 5)
        payloads
        1000000000000
        empty_db
      ≡ ok db')
unfolding find_message_by_id has lookup
queue_outgoing_succeeds_example =
    queue_outgoing_succeeds "m1" "bob" "alice" "bob:b" (1 ∷ []) (pos 5) payloads 1000000000000
      empty_db refl ((λ e. cc, refl), ((λ e. cc, refl), tt))
      ((refl, refl, refl, (refl, refl, refl, tt)))

cleanup-get_chunk_example :
    get_chunk "m1" (pos 1) 1000000000000 (cleanup 1000000000000 1000000000000 queued_db)
    ≡ some (1 ∷ 7 ∷ [])
unfolding lookup expired duration_of_seconds int64
cleanup-get_chunk_example =
    cleanup-get_chunk "m1" (pos 1) 1000000000000 1000000000000 queued_db (payload 1)
      queued_db-IsValid refl refl (λ c h. ground arith)
