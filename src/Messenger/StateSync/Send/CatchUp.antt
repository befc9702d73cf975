-- ===== src/Messenger/StateSync/Send/CatchUp.antt =====
-- A synchronisation from its export to the acknowledgement of its import.
use huginn_messenger.Prelude.{
  ℕ, suc, ◌+◌, ◌≡◌, sym, ap, ◌∙◌, subst, String, Bool, true, false, Option, none, some, List, [],
  ◌∷◌, length, arith, str_eq, ltb,
}
use huginn_messenger.Prelude.Int.{ℤ, pos, le_zero}
use huginn_messenger.Prelude.Result.{
  ok, IfOk, IfOk-at, IfOk-bind, IfOk-bind_eq, IfOk-after, of_option, ok_injective,
}
use huginn_messenger.Chunk.{wrap}
use huginn_messenger.Chunk.Sound.{wrap-eq-ok}
use huginn_messenger.Store.Clock.{Time, unix_micro}
use huginn_messenger.Store.Rows.{Bytes}
use huginn_messenger.Store.Sync.{
  ReplicatedMessage, MessageReplicationDelta, or_zero, get_last_state_check,
  export_messages_for_state_sync,
}
use huginn_messenger.Store.Sync.Import.{HasAllBefore, CoveredBy, covering_import}
use huginn_messenger.Messenger.StateSync.{
  IncomingTransfer, submit_import, SyncState, check_import, finish_state_sync_import,
  state_sync_max_decoded_size,
}
use huginn_messenger.Messenger.StateSync.Import.{
  acks, IsSound, check_import-IsSound, checked_imports,
}
use huginn_messenger.Messenger.StateSync.Send.{
  Sender, Package, store_failed, undecodable_message, pack, sanitize_message,
  sanitize_state_sync_messages, send_state_sync,
}
use huginn_messenger.Messenger.StateSync.Send.Arrives.{
  receive_all, IsPacked, pack-IsPacked, send_state_sync_arrives,
}

module _ (env : Sender) where
  -- Sanitising keeps the ids.
  sanitize-CoveredBy :
      (ms : List ReplicatedMessage) → IfOk (CoveredBy ms) (sanitize_state_sync_messages env ms)
  unfolding sanitize_state_sync_messages
  sanitize-CoveredBy [] = λ k h. h
  sanitize-CoveredBy (r ∷ rs) =
      IfOk-after (CoveredBy (r ∷ rs)) (of_option undecodable_message (env.unmarshal_message r.body))
        _
        (λ m.
          IfOk-bind (CoveredBy rs) (CoveredBy (r ∷ rs)) (sanitize_state_sync_messages env rs)
            (λ rest. ok (sanitize_message env r m ∷ rest)) (sanitize-CoveredBy rs)
            (λ rest covered k h. ground (arith, covered k, h)))

  -- What a package is of: the messages exported since the last check of the peer.
  IsExported : String → SyncState → Package → Type 0
  IsExported to s p =
      (since : Option ℕ) × (ms : List ReplicatedMessage) × (get_last_state_check to s.db ≡ ok since)
      × (export_messages_for_state_sync since (some (unix_micro env.now)) s.db
          ≡ ok (p.checkpoint, ms))
      × CoveredBy ms p.delta.messages

  pack-IsExported : (to : String) (s : SyncState) → IfOk (IsExported to s) (pack env to s)
  unfolding pack IsExported
  pack-IsExported to s =
      let Q = IsExported to s in
      let asked = get_last_state_check to s.db in
      IfOk-bind_eq Q (wrap store_failed asked) _ (λ since g.
        let exported = export_messages_for_state_sync since (some (unix_micro env.now)) s.db in
        IfOk-bind_eq Q (wrap store_failed exported) _ (λ e x.
          IfOk-bind_eq Q (sanitize_state_sync_messages env e.1) _ (λ messages clean. (
            since,
            e.1,
            wrap-eq-ok store_failed asked g,
            wrap-eq-ok store_failed exported x,
            IfOk-at (CoveredBy e.1) (sanitize_state_sync_messages env e.1) (sanitize-CoveredBy e.1)
                clean,
          ))))

-- A whole synchronisation, of messages with attachments or without. The receiver has every message
-- of the sender that was updated before the check that the sender has stored for it. sendStateSync
-- succeeds, and the receiver, who has asked, gets the frames in order. Then one import is submitted;
-- unless SQLite refuses it, it is acknowledged, whenever it runs, with the time of the export as
-- the checkpoint and without an error, and the receiver has every message that the sender had
-- updated up to that time. The receiver's decoders undo the sender's encoders on the delta, which is
-- at most 256 MiB; id, checksum and checkpoint are not empty.
pub state_sync_catches_up :
    (env : Sender) (read_gzip : ℕ → Bytes → Option Bytes)
    (unmarshal_delta : Bytes → Option MessageReplicationDelta)
    (refuses : List ReplicatedMessage → Bool) (to sender : String) (s r later : SyncState)
    (p : Package) (since : Option ℕ) (now : Time)
    → pack env to s ≡ ok p
    → (send_state_sync env to s).0 ≡ true
    → r.requested sender ≡ true
    → str_eq env.transfer_id "" ≡ false
    → str_eq (env.hex_sum256 p.compressed) "" ≡ false
    → le_zero (pos p.checkpoint) ≡ false
    → read_gzip (state_sync_max_decoded_size + 1) (env.gzip (env.marshal_delta p.delta))
      ≡ some (env.marshal_delta p.delta)
    → ltb state_sync_max_decoded_size (length (env.marshal_delta p.delta)) ≡ false
    → unmarshal_delta (env.marshal_delta p.delta) ≡ some p.delta
    → get_last_state_check to s.db ≡ ok since
    → HasAllBefore (or_zero since) s.db later.db
    → refuses p.delta.messages ≡ false
    → (t : IncomingTransfer) × ((receive_all sender (send_state_sync env to s).1.1 r).1
        ≡ submit_import sender t ∷ [])
      × (acks
            (finish_state_sync_import env.hex_sum256 read_gzip unmarshal_delta refuses sender t now
              later).1
          ≡ (
            sender,
            record {
              transfer_id = t.transfer_id;
              checkpoint = pos (unix_micro env.now);
              error = none;
            },
          )
            ∷ [])
      × HasAllBefore
          (suc (unix_micro env.now))
          s.db
          (finish_state_sync_import env.hex_sum256 read_gzip unmarshal_delta refuses sender t now
            later).0.db
unfolding IsExported
state_sync_catches_up env read_gzip unmarshal_delta refuses to sender s r later p since now packed
      sent asked named hashed checked zipped short read stored before accepted =
    let (t, submitted, passed) =
      send_state_sync_arrives env read_gzip unmarshal_delta to sender s r p packed sent asked named
        hashed checked zipped short read in
    let good : IsPacked env p =
      IfOk-at (IsPacked env) (pack env to s) (pack-IsPacked env to s) packed in
    let (since', ms, stored', exported, covered) =
      IfOk-at (IsExported env to s) (pack env to s) (pack-IsExported env to s) packed in
    let same = ok_injective since' since (sym stored' ∙ stored) in
    let (upto, caught) =
      covering_import since' (unix_micro env.now) p.checkpoint ms p.delta.messages now s.db later.db
        (subst (λ o. HasAllBefore (or_zero o) s.db later.db) (sym same) before) exported covered in
    let (acked, imported) =
      checked_imports env.hex_sum256 read_gzip unmarshal_delta refuses sender t now later p.delta
        passed accepted in
    let sound : IsSound env.hex_sum256 read_gzip unmarshal_delta t p.delta =
      IfOk-at (IsSound env.hex_sum256 read_gzip unmarshal_delta t)
        (check_import env.hex_sum256 read_gzip unmarshal_delta t)
        (check_import-IsSound env.hex_sum256 read_gzip unmarshal_delta t) passed in
    (
      t,
      submitted,
      acked
          ∙ ap
              (λ (c : ℤ).
                (sender, record { transfer_id = t.transfer_id; checkpoint = c; error = none }) ∷ [])
              (sym sound.2 ∙ good.2 ∙ ap pos upto),
      subst (HasAllBefore (suc (unix_micro env.now)) s.db) (sym imported) caught,
    )
