-- ===== src/Messenger/StateSync/Send/Arrives.antt =====
-- What one side sends is what the other side imports.
use huginn_messenger.Prelude.{
  ℕ, zero, suc, ◌+◌, ◌≡◌, refl, sym, ap, ◌∙◌, String, Bool, true, false, Option, some, List, [],
  ◌∷◌, ◌++◌, map, length, arith, str_eq, ltb,
}
use huginn_messenger.Prelude.Int.{pos, le_zero}
use huginn_messenger.Prelude.Result.{ok, IfOk, IfOk-at, IfOk-after}
use huginn_messenger.Chunk.{wrap}
use huginn_messenger.Store.Clock.{unix_micro}
use huginn_messenger.Store.Rows.{Bytes}
use huginn_messenger.Store.Sync.{
  MessageReplicationDelta, get_last_state_check, export_messages_for_state_sync,
}
use huginn_messenger.Messenger.StateSync.{
  IncomingTransfer, StateSyncChunk, Effect, submit_import, SyncState, handle_state_sync_manifest,
  handle_state_sync_chunk, check_import, decode_state_sync_delta, state_sync_version,
  state_sync_max_decoded_size, is_bad_manifest,
}
use huginn_messenger.Messenger.StateSync.Step.{handle_chunks}
use huginn_messenger.Messenger.StateSync.Transfer.{transfer_completes}
use huginn_messenger.Messenger.StateSync.Import.{checks_pass}
use huginn_messenger.Messenger.StateSync.Send.{
  Frame, request, manifest, part, Sender, Package, store_failed, slice_count, pack, manifest_of,
  chunk_of, send_first, send_chunks, after_send, sending, is_bad_count, unless_bad, send_package,
  if_packed, send_state_sync, sanitize_state_sync_messages,
}
use huginn_messenger.Messenger.StateSync.Send.Parts.{
  slices, concat-slices, length-slices, chunks_from, chunks-IsPart, lists-chunks,
}

-- What the receiver does with the frames that come from a peer, in their order; its pool takes
-- every job.
abbrev pub receive : String → Frame → SyncState → SyncState × List Effect
receive sender (request to) s = (s, [])
receive sender (manifest to m) s = (handle_state_sync_manifest sender m s, [])
receive sender (part to c) s = handle_state_sync_chunk true sender c s

unfoldable pub receive_all : String → List Frame → SyncState → SyncState × List Effect
receive_all sender [] s = (s, [])
receive_all sender (f ∷ fs) s =
    let first = receive sender f s in
    let rest = receive_all sender fs first.0 in (rest.0, first.1 ++ rest.1)

module _ (env : Sender) where
  receive_all-parts :
      (sender to : String) (cs : List StateSyncChunk) (s : SyncState)
      → receive_all sender (map (part to) cs) s ≡ handle_chunks sender cs s
  unfolding receive_all handle_chunks
  receive_all-parts sender to [] s = refl
  receive_all-parts sender to (c ∷ cs) s =
      ap
        (λ (rest : SyncState × List Effect).
          (rest.0, (handle_state_sync_chunk true sender c s).1 ++ rest.1))
        (receive_all-parts sender to cs (handle_state_sync_chunk true sender c s).0)

  -- If all sends succeed, the frames are those of all chunks.
  send_chunks-all :
      (to : String) (p : Bytes) (left i : ℕ)
      → (send_chunks env to p left i).0 ≡ true
      → (send_chunks env to p left i).1 ≡ map (part to) (chunks_from env p left i)
  unfolding send_chunks
  send_chunks-all to p zero i h = refl
  send_chunks-all to p (suc left) i h =
      by_test (env.chunk_sent i) (send_chunks env to p left (suc i))
        (send_chunks-all to p left (suc i)) h
    where
      by_test :
          (b : Bool) (rest : Bool × List Frame)
          → (rest.0 ≡ true → rest.1 ≡ map (part to) (chunks_from env p left (suc i)))
          → (send_first env b (part to (chunk_of env p i)) rest).0 ≡ true
          → (send_first env b (part to (chunk_of env p i)) rest).1
            ≡ part to (chunk_of env p i) ∷ map (part to) (chunks_from env p left (suc i))
      by_test true rest k e = ap (λ t. part to (chunk_of env p i) ∷ t) (k e)
      by_test false rest k e = cc

  -- A package holds the encoding of its delta.
  abbrev pub IsPacked : Package → Type 0
  IsPacked p =
      (p.compressed ≡ env.gzip (env.marshal_delta p.delta))
      × (p.delta.version ≡ state_sync_version)
      × (p.delta.checkpoint ≡ pos p.checkpoint)

  pub pack-IsPacked : (to : String) (s : SyncState) → IfOk IsPacked (pack env to s)
  unfolding pack
  pack-IsPacked to s =
      IfOk-after IsPacked (wrap store_failed (get_last_state_check to s.db)) _ (λ since.
        IfOk-after IsPacked
          (wrap store_failed
            (export_messages_for_state_sync since (some (unix_micro env.now)) s.db))
          _
          (λ exported.
            IfOk-after IsPacked (sanitize_state_sync_messages env exported.1) _
              (λ messages. (refl, refl, refl))))

  -- If there was no error, the number of chunks was in range, and the manifest and all chunks were
  -- sent.
  IsSent : String → Package → Bool × (SyncState × List Frame) → Type 0
  IsSent to p r =
      r.0 ≡ true
      → (is_bad_count env (slice_count p.compressed) ≡ false)
        × (r.1.1
            ≡ manifest to (manifest_of env p)
              ∷ map (part to) (chunks_from env p.compressed (slice_count p.compressed) 0))

  after_send-frames :
      (to : String) (s : SyncState) (r : Bool × List Frame) (frames : List Frame)
      → (r.0 ≡ true → r.1 ≡ frames)
      → (after_send env to s r).0 ≡ true
      → (after_send env to s r).1.1 ≡ frames
  after_send-frames to s (true, fs) frames h e = h refl
  after_send-frames to s (false, fs) frames h e = cc

  send_first-frames :
      (b : Bool) (f : Frame) (rest : Bool × List Frame) (frames : List Frame)
      → (rest.0 ≡ true → rest.1 ≡ frames)
      → (send_first env b f rest).0 ≡ true
      → (send_first env b f rest).1 ≡ f ∷ frames
  send_first-frames true f rest frames h e = ap (λ t. f ∷ t) (h e)
  send_first-frames false f rest frames h e = cc

  unless_bad-IsSent :
      (to : String) (p : Package) (s : SyncState) (b : Bool)
      → is_bad_count env (slice_count p.compressed) ≡ b
      → IsSent to p (unless_bad env to p s b)
  unfolding IsSent
  unless_bad-IsSent to p s true bad e = cc
  unless_bad-IsSent to p s false bad e =
      let count = slice_count p.compressed in
      let chunks = map (part to) (chunks_from env p.compressed count 0) in
      (
        bad,
        after_send-frames to (sending env to p s)
            (send_first env env.manifest_sent (manifest to (manifest_of env p))
              (send_chunks env to p.compressed count 0))
            (manifest to (manifest_of env p) ∷ chunks)
            (send_first-frames env.manifest_sent (manifest to (manifest_of env p))
              (send_chunks env to p.compressed count 0) chunks
              (send_chunks-all to p.compressed count 0))
            e,
      )

  module _ (hex_sum256 : Bytes → String) (read_gzip : ℕ → Bytes → Option Bytes)
      (unmarshal_delta : Bytes → Option MessageReplicationDelta) where
    decoded_package :
        (p : Package)
        → IsPacked p
        → read_gzip (state_sync_max_decoded_size + 1) (env.gzip (env.marshal_delta p.delta))
          ≡ some (env.marshal_delta p.delta)
        → ltb state_sync_max_decoded_size (length (env.marshal_delta p.delta)) ≡ false
        → unmarshal_delta (env.marshal_delta p.delta) ≡ some p.delta
        → decode_state_sync_delta hex_sum256 read_gzip unmarshal_delta p.compressed ≡ ok p.delta
    unfolding decode_state_sync_delta
    decoded_package p packed zipped short read = rw (packed.0, zipped, short, read, packed.1) refl

  good_manifest :
      (p : Package)
      → str_eq env.transfer_id "" ≡ false
      → str_eq (env.hex_sum256 p.compressed) "" ≡ false
      → le_zero (pos p.checkpoint) ≡ false
      → is_bad_count env (slice_count p.compressed) ≡ false
      → is_bad_manifest (manifest_of env p) ≡ false
  good_manifest p named hashed checked counted = by_count (slice_count p.compressed) counted
    where
      by_count :
          (count : ℕ)
          → is_bad_count env count ≡ false
          → is_bad_manifest (record (manifest_of env p) { chunk_count = pos count }) ≡ false
      by_count zero k = ground (arith, k)
      by_count (suc n) k = ground (arith, k, named, hashed, checked)

-- If sendStateSync sends a delta without an error, then a receiver that has asked for it and gets
-- the frames in order submits exactly one import, and that import passes all checks and has the
-- delta that was sent. The receiver's decoders undo the sender's encoders on the delta, which is at
-- most 256 MiB; id, checksum and checkpoint are not empty.
pub send_state_sync_arrives :
    (env : Sender) (read_gzip : ℕ → Bytes → Option Bytes)
    (unmarshal_delta : Bytes → Option MessageReplicationDelta) (to sender : String)
    (s r : SyncState) (p : Package)
    → pack env to s ≡ ok p
    → (send_state_sync env to s).0 ≡ true
    → r.requested sender ≡ true
    → str_eq env.transfer_id "" ≡ false
    → str_eq (env.hex_sum256 p.compressed) "" ≡ false
    → le_zero (pos p.checkpoint) ≡ false
    → read_gzip (state_sync_max_decoded_size + 1) (env.gzip (env.marshal_delta p.delta))
      ≡ some (env.marshal_delta p.delta)
    → ltb state_sync_max_decoded_size (length (env.marshal_delta p.delta)) ≡ false
    → unmarshal_delta (env.marshal_delta p.delta) ≡ some p.delta
    → (t : IncomingTransfer) × ((receive_all sender (send_state_sync env to s).1.1 r).1
        ≡ submit_import sender t ∷ [])
      × (check_import env.hex_sum256 read_gzip unmarshal_delta t ≡ ok p.delta)
unfolding send_state_sync send_package receive_all IsSent
send_state_sync_arrives env read_gzip unmarshal_delta to sender s r p packed sent asked named hashed
      checked zipped short read =
    let count = slice_count p.compressed in
    let parts = slices p.compressed count 0 in
    let chunks = chunks_from env p.compressed count 0 in
    let shape = ap (if_packed env to s) packed in
    let (counted, frames) =
      unless_bad-IsSent env to p s (is_bad_count env count) refl
        (ap (λ (x : Bool × (SyncState × List Frame)). x.0) (sym shape) ∙ sent) in
    let (t, submitted, whole, hash, point) =
      transfer_completes sender (manifest_of env p) parts chunks r asked refl
        (good_manifest env p named hashed checked counted)
        (ap pos (sym (length-slices p.compressed count 0)))
        (chunks-IsPart env p.compressed count 0 (omega arith))
        (λ j less.
          lists-chunks env p.compressed count 0 j (omega arith)
            (omega (arith, less, length-slices p.compressed count 0))) in
    let content = whole ∙ concat-slices p.compressed in
    let good : IsPacked env p =
      IfOk-at (IsPacked env) (pack env to s) (pack-IsPacked env to s) packed in
    (
      t,
      ap (λ (x : Bool × (SyncState × List Frame)). (receive_all sender x.1.1 r).1) shape
          ∙ ap (λ fs. (receive_all sender fs r).1) frames
          ∙ ap (λ (x : SyncState × List Effect). x.1)
              (receive_all-parts env sender to chunks
                (handle_state_sync_manifest sender (manifest_of env p) r))
          ∙ submitted,
      checks_pass env.hex_sum256 read_gzip unmarshal_delta t p.delta
          (ap env.hex_sum256 content ∙ sym hash)
          (ap (decode_state_sync_delta env.hex_sum256 read_gzip unmarshal_delta) content
            ∙ decoded_package env env.hex_sum256 read_gzip unmarshal_delta p good zipped short read)
          (good.2 ∙ sym point),
    )
