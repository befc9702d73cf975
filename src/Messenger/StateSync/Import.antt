-- ===== src/Messenger/StateSync/Import.antt =====
-- What finishStateSyncImport does with a transfer that is complete.
use huginn_messenger.Prelude.{
  ℕ, ◌+◌, ◌≤◌, ◌≡◌, ◌⊎◌, inl, inr, not, str_eq, eq_iff, ltb, length, arith, refl, sym, ◌∙◌, ap,
  Bool, true, false, Option, none, some, List, [], ◌∷◌, ◌++◌, if◌then◌else◌, String, eq_refl,
}
use huginn_messenger.Prelude.Int.{==ℤ_iff, ◌==ℤ◌}
use huginn_messenger.Prelude.Result.{
  Result, ok, err, ◌>>◌, fail_if, of_option, IfOk, IfOk-at, IfOk-bind_eq, ok_injective,
}
use huginn_messenger.Store.Sql.{constraint_failed}
use huginn_messenger.Store.Clock.{Time}
use huginn_messenger.Store.Rows.{Bytes}
use huginn_messenger.Store.Sync.{
  ReplicatedMessage, MessageReplicationDelta, import_state_sync_messages,
  try_import_state_sync_messages,
}
use huginn_messenger.Messenger.StateSync.{
  IncomingTransfer, SyncError, StateSyncAck, Effect, send_ack, SyncState, concat, is_same,
  clear_incoming_state_sync, fail_state_sync_import, decode_state_sync_delta, check_import,
  after_checks, after_import, downloads_of, finish_state_sync_import, drop_incoming,
  state_sync_version, state_sync_max_decoded_size, too_large, cannot_decode, unsupported_version,
  assign, import_failed, checksum_mismatch, checkpoint_mismatch,
}

-- The acknowledgements that a handler asks for.
abbrev pub acks : List Effect → List (String × StateSyncAck)
acks [] = []
acks (send_ack peer ack ∷ es) = (peer, ack) ∷ acks es
acks (_ ∷ es) = acks es

-- The acknowledgement of a transfer.
abbrev pub ack_of : IncomingTransfer → Option SyncError → StateSyncAck
ack_of t e = record { transfer_id = t.transfer_id; checkpoint = t.checkpoint; error = e }

clear-db :
    (peer : String) (t : IncomingTransfer) (s : SyncState)
    → (clear_incoming_state_sync peer t s).db ≡ s.db
unfolding clear_incoming_state_sync
clear-db peer t s = by_test (is_same (s.incoming peer) t)
  where
    by_test : (b : Bool) → (if b then drop_incoming peer s else s).db ≡ s.db
    by_test true = refl
    by_test false = refl

-- The transfer is no longer in the map.
clear-gone :
    (peer : String) (t : IncomingTransfer) (s : SyncState)
    → is_same ((clear_incoming_state_sync peer t s).incoming peer) t ≡ false
unfolding clear_incoming_state_sync
clear-gone peer t s = by_test (is_same (s.incoming peer) t) refl
  where
    gone : (o : Option IncomingTransfer) → o ≡ none → is_same o t ≡ false
    gone o e = rw e refl

    by_test :
        (b : Bool)
        → is_same (s.incoming peer) t ≡ b
        → is_same ((if b then drop_incoming peer s else s).incoming peer) t ≡ false
    by_test true e = gone (assign peer none s.incoming peer) (rw (eq_refl peer) refl)
    by_test false e = e

acks-downloads_of :
    (hex_sum256 : Bytes → String) (read_gzip : ℕ → Bytes → Option Bytes)
    (unmarshal_delta : Bytes → Option MessageReplicationDelta) (ms : List ReplicatedMessage)
    (peer : String) (es : List Effect)
    → acks (downloads_of hex_sum256 read_gzip unmarshal_delta ms peer ++ es) ≡ acks es
acks-downloads_of hex_sum256 read_gzip unmarshal_delta [] peer es = refl
acks-downloads_of hex_sum256 read_gzip unmarshal_delta (m ∷ ms) peer es = refl

fail_if-eq-ok : {E : Type 0} → (b : Bool) (e : E) {u : Unit {0}} → fail_if b e ≡ ok u → b ≡ false
fail_if-eq-ok b e h = ground (arith, h)

of_option-eq-ok :
    {E A : Type 0} → (e : E) (o : Option A) {a : A} → of_option e o ≡ ok a → o ≡ some a
of_option-eq-ok e none h = cc
of_option-eq-ok e (some b) h = ap some (ok_injective b _ h)

true-not-false : true ≡ false → ⊥
true-not-false h = cc

err-not-ok :
    {e : SyncError} {d : MessageReplicationDelta}
    → ◌≡◌ {A = Result SyncError MessageReplicationDelta} (err e) (ok d)
    → ⊥
err-not-ok h = cc

from_not : (b : Bool) → not b ≡ false → b ≡ true
from_not b h = ground (arith, h)

module _ (hex_sum256 : Bytes → String) (read_gzip : ℕ → Bytes → Option Bytes)
    (unmarshal_delta : Bytes → Option MessageReplicationDelta) where
  -- The bytes decompress, to at most 256 MiB, to what is a delta of this version.
  abbrev pub IsEncoded : Bytes → MessageReplicationDelta → Type 0
  IsEncoded compressed delta =
      ((raw : Bytes) × (read_gzip (state_sync_max_decoded_size + 1) compressed ≡ some raw)
        × (length raw ≤ state_sync_max_decoded_size)
        × (unmarshal_delta raw ≡ some delta))
      × (delta.version ≡ state_sync_version)

  -- The chunks have the checksum, and are the delta, that the manifest has announced.
  abbrev pub IsSound : IncomingTransfer → MessageReplicationDelta → Type 0
  IsSound t delta =
      (hex_sum256 (concat t.chunks) ≡ t.expected_hash)
      × IsEncoded (concat t.chunks) delta
      × (delta.checkpoint ≡ t.checkpoint)

  decode-IsEncoded :
      (compressed : Bytes)
      → IfOk
          (IsEncoded compressed)
          (decode_state_sync_delta hex_sum256 read_gzip unmarshal_delta compressed)
  unfolding decode_state_sync_delta
  decode-IsEncoded compressed =
      let Q = IsEncoded compressed in
      IfOk-bind_eq Q
        (of_option cannot_decode (read_gzip (state_sync_max_decoded_size + 1) compressed)) _
        (λ raw r.
          IfOk-bind_eq Q (fail_if (ltb state_sync_max_decoded_size (length raw)) too_large) _
            (λ u l. IfOk-bind_eq Q (of_option cannot_decode (unmarshal_delta raw)) _ (λ delta d.
              IfOk-bind_eq Q
                (fail_if (not (delta.version ==ℤ state_sync_version)) unsupported_version) _
                (λ u' v.
                  let fits =
                    fail_if-eq-ok (ltb state_sync_max_decoded_size (length raw)) too_large l in
                  (
                    (
                      raw,
                      of_option-eq-ok cannot_decode
                          (read_gzip (state_sync_max_decoded_size + 1) compressed) r,
                      ground (arith, fits),
                      of_option-eq-ok cannot_decode (unmarshal_delta raw) d,
                    ),
                    (==ℤ_iff delta.version state_sync_version).0 (
                        from_not (delta.version ==ℤ state_sync_version) (
                          fail_if-eq-ok (not (delta.version ==ℤ state_sync_version))
                            unsupported_version v)),
                  )))))

  pub check_import-IsSound :
      (t : IncomingTransfer)
      → IfOk (IsSound t) (check_import hex_sum256 read_gzip unmarshal_delta t)
  unfolding check_import
  check_import-IsSound t =
      let Q = IsSound t in
      let same = str_eq (hex_sum256 (concat t.chunks)) t.expected_hash in
      let decoded =
        decode_state_sync_delta hex_sum256 read_gzip unmarshal_delta (concat t.chunks) in
      IfOk-bind_eq Q (fail_if (not same) checksum_mismatch) _ (λ u h.
        IfOk-bind_eq Q decoded _ (λ delta d.
          IfOk-bind_eq Q (fail_if (not (delta.checkpoint ==ℤ t.checkpoint)) checkpoint_mismatch) _
            (λ u' c. (
              (eq_iff (hex_sum256 (concat t.chunks)) t.expected_hash).0
                  (from_not same (fail_if-eq-ok (not same) checksum_mismatch h)),
              IfOk-at (IsEncoded (concat t.chunks)) decoded (decode-IsEncoded (concat t.chunks)) d,
              (==ℤ_iff delta.checkpoint t.checkpoint).0 (
                  from_not (delta.checkpoint ==ℤ t.checkpoint) (
                    fail_if-eq-ok (not (delta.checkpoint ==ℤ t.checkpoint)) checkpoint_mismatch c)),
            ))))

  pub checks_pass :
      (t : IncomingTransfer) (delta : MessageReplicationDelta)
      → hex_sum256 (concat t.chunks) ≡ t.expected_hash
      → decode_state_sync_delta hex_sum256 read_gzip unmarshal_delta (concat t.chunks) ≡ ok delta
      → delta.checkpoint ≡ t.checkpoint
      → check_import hex_sum256 read_gzip unmarshal_delta t ≡ ok delta
  unfolding check_import
  checks_pass t delta hash decoded same =
      rw (hash, eq_refl t.expected_hash, decoded, (==ℤ_iff delta.checkpoint t.checkpoint).1 same)
        refl

  encoded_decodes :
      (compressed : Bytes) (delta : MessageReplicationDelta)
      → IsEncoded compressed delta
      → decode_state_sync_delta hex_sum256 read_gzip unmarshal_delta compressed ≡ ok delta
  unfolding decode_state_sync_delta
  encoded_decodes compressed delta ((raw, r, fits, d), v) =
      let short : ltb state_sync_max_decoded_size (length raw) ≡ false = ground (arith, fits) in
      rw (r, short, d, v) refl

  sound_passes :
      (t : IncomingTransfer) (delta : MessageReplicationDelta)
      → IsSound t delta
      → check_import hex_sum256 read_gzip unmarshal_delta t ≡ ok delta
  sound_passes t delta (hash, encoded, same) =
      checks_pass t delta hash (encoded_decodes (concat t.chunks) delta encoded) same

  module _ (refuses : List ReplicatedMessage → Bool) (peer : String) (t : IncomingTransfer)
      (now : Time) (s : SyncState) where
    -- The transfer has left the map. Either it was sound, and its messages are imported and
    -- acknowledged; or it was not, or SQLite has refused the import, and it is an error that is
    -- acknowledged, and the database is as it was.
    abbrev pub Answered : SyncState × List Effect → Type 0
    Answered (s', es) =
        (is_same (s'.incoming peer) t ≡ false)
        × (((delta : MessageReplicationDelta) × IsSound t delta
              × (refuses delta.messages ≡ false)
              × (acks es ≡ (peer, ack_of t none) ∷ [])
              × (s'.db ≡ (import_state_sync_messages delta.messages now s.db).1))
            ⊎ ((e : SyncError) × (acks es ≡ (peer, ack_of t (some e)) ∷ [])
                × (s'.db ≡ s.db)
                × ¬ (
                    (delta : MessageReplicationDelta) × IsSound t delta
                    × (refuses delta.messages ≡ false))))

    failed-Answered :
        (e : SyncError)
        → ¬ ((delta : MessageReplicationDelta) × IsSound t delta × (refuses delta.messages ≡ false))
        → Answered (fail_state_sync_import peer t e s)
    unfolding fail_state_sync_import
    failed-Answered e no_delta = (clear-gone peer t s, inr (e, refl, clear-db peer t s, no_delta))

    imported-Answered :
        (delta : MessageReplicationDelta)
        → check_import hex_sum256 read_gzip unmarshal_delta t ≡ ok delta
        → (b : Bool) → refuses delta.messages ≡ b
        → Answered (
            after_import hex_sum256 read_gzip unmarshal_delta peer t s (
              fail_if b constraint_failed
              >> ok (import_state_sync_messages delta.messages now s.db)))
    imported-Answered delta checked true refused =
        failed-Answered (import_failed constraint_failed) (λ other.
          let same = ok_injective delta other.0 (sym checked ∙ sound_passes t other.0 other.1) in
          true-not-false
            (sym refused ∙ ap (λ (d : MessageReplicationDelta). refuses d.messages) same ∙ other.2))
    imported-Answered delta checked false accepted =
        let imported = import_state_sync_messages delta.messages now s.db in
        (
          clear-gone peer t (record s { db = imported.1 }),
          inl (
            delta,
            IfOk-at (IsSound t) (check_import hex_sum256 read_gzip unmarshal_delta t)
                (check_import-IsSound t) checked,
            accepted,
            acks-downloads_of hex_sum256 read_gzip unmarshal_delta imported.0 peer
                (send_ack peer (ack_of t none) ∷ []),
            clear-db peer t (record s { db = imported.1 }),
          ),
        )

    after_checks-Answered :
        (r : Result SyncError MessageReplicationDelta)
        → check_import hex_sum256 read_gzip unmarshal_delta t ≡ r
        → Answered (after_checks hex_sum256 read_gzip unmarshal_delta refuses peer t now s r)
    unfolding after_checks try_import_state_sync_messages
    after_checks-Answered (err e) checked =
        failed-Answered e (λ other. err-not-ok (sym checked ∙ sound_passes t other.0 other.1))
    after_checks-Answered (ok delta) checked =
        imported-Answered delta checked (refuses delta.messages) refl

    -- A complete transfer leaves the map, and is answered by one acknowledgement, to its peer and of
    -- its id and checkpoint. It reports no error, and the messages are imported, exactly if the
    -- chunks have the announced checksum and decode to a delta of this version with the announced
    -- checkpoint, which SQLite does not refuse; otherwise the database is as it was.
    pub finish_state_sync_import-Answered :
        Answered
          (finish_state_sync_import hex_sum256 read_gzip unmarshal_delta refuses peer t now s)
    unfolding finish_state_sync_import
    finish_state_sync_import-Answered =
        after_checks-Answered (check_import hex_sum256 read_gzip unmarshal_delta t) refl

    -- What follows if the checks pass and the import is not refused.
    pub checked_imports :
        (delta : MessageReplicationDelta)
        → check_import hex_sum256 read_gzip unmarshal_delta t ≡ ok delta
        → refuses delta.messages ≡ false
        → let r =
            finish_state_sync_import hex_sum256 read_gzip unmarshal_delta refuses peer t now s in
          (acks r.1 ≡ (peer, ack_of t none) ∷ [])
          × (r.0.db ≡ (import_state_sync_messages delta.messages now s.db).1)
    unfolding finish_state_sync_import after_checks try_import_state_sync_messages
    checked_imports delta checked accepted =
        let imported = import_state_sync_messages delta.messages now s.db in
        rw (checked, accepted)
          (
            acks-downloads_of hex_sum256 read_gzip unmarshal_delta imported.0 peer
                (send_ack peer (ack_of t none) ∷ []),
            clear-db peer t (record s { db = imported.1 }),
          )
