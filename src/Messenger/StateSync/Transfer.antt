-- ===== src/Messenger/StateSync/Transfer.antt =====
-- The chunks of a transfer, in any order and repeated, give the delta that was sent.
use huginn_messenger.Prelude.{
  ℕ, ◌<◌, ◌≡◌, ◌≢◌, refl, ap, sym, true, false, some, List, [], ◌∷◌, inl, inr, arith, length,
  String, str_eq, eq_refl, All,
}
use huginn_messenger.Prelude.Int.{pos, le_zero}
use huginn_messenger.Store.Rows.{Bytes}
use huginn_messenger.Messenger.StateSync.{
  IncomingTransfer, StateSyncManifest, StateSyncChunk, submit_import, SyncState,
  handle_state_sync_manifest, is_bad_manifest, new_transfer, concat,
}
use huginn_messenger.Messenger.StateSync.Slots.{
  IsReceiving, length-Fits, replicate-Fits, filled-replicate,
}
use huginn_messenger.Messenger.StateSync.Step.{IsPart, handle_chunks, lists, outcome, not_waiting}

manifest_opens :
    (peer : String) (manifest : StateSyncManifest) (s : SyncState)
    → s.requested peer ≡ true
    → str_eq manifest.error "" ≡ true
    → is_bad_manifest manifest ≡ false
    → (handle_state_sync_manifest peer manifest s).incoming peer
      ≡ some (new_transfer s.next_address manifest)
unfolding handle_state_sync_manifest
manifest_opens peer manifest s asked fine good = rw (asked, fine, good, eq_refl peer) refl

new_transfer-IsReceiving :
    (address : ℕ) (manifest : StateSyncManifest) (parts : List Bytes)
    → manifest.chunk_count ≡ pos (length parts)
    → IsReceiving parts (new_transfer address manifest)
new_transfer-IsReceiving address manifest parts count = record {
  fits = rw count (replicate-Fits parts);
  counted = rw count (sym (filled-replicate (length parts)));
  waiting = refl;
}

not_bad :
    (manifest : StateSyncManifest)
    → is_bad_manifest manifest ≡ false
    → le_zero manifest.chunk_count ≡ false
not_bad manifest good = ground arith

new_transfer_waits :
    (address : ℕ) (manifest : StateSyncManifest) (parts : List Bytes)
    → manifest.chunk_count ≡ pos (length parts)
    → le_zero manifest.chunk_count ≡ false
    → (new_transfer address manifest).received ≢ length (new_transfer address manifest).chunks
new_transfer_waits address manifest [] count positive e = ground arith
new_transfer_waits address manifest (p ∷ ps) count positive e = ground arith

-- After a valid manifest that was asked for, let the parts of its delta, none of them empty or over
-- 32 KiB and as many as it says, arrive in any order and any number of times, each at least once.
-- Then exactly one import is submitted, to a pool that takes it, and it has the whole delta, with
-- the manifest's checksum and checkpoint.
pub transfer_completes :
    (peer : String) (manifest : StateSyncManifest) (parts : List Bytes) (cs : List StateSyncChunk)
    (s : SyncState)
    → s.requested peer ≡ true
    → str_eq manifest.error "" ≡ true
    → is_bad_manifest manifest ≡ false
    → manifest.chunk_count ≡ pos (length parts)
    → All (IsPart manifest.transfer_id parts) cs
    → ((j : ℕ) → j < length parts → lists cs j ≡ true)
    → (t : IncomingTransfer) × ((handle_chunks peer cs
          (handle_state_sync_manifest peer manifest s)).1
        ≡ submit_import peer t ∷ [])
      × (concat t.chunks ≡ concat parts)
      × (t.expected_hash ≡ manifest.sha256)
      × (t.checkpoint ≡ manifest.checkpoint)
unfolding handle_state_sync_manifest
transfer_completes peer manifest parts cs s asked fine good count honest covers =
    let t = new_transfer s.next_address manifest in
    let s' = handle_state_sync_manifest peer manifest s in
    elim (outcome peer parts cs s' t (manifest_opens peer manifest s asked fine good)
      (new_transfer-IsReceiving s.next_address manifest parts count)
      (new_transfer_waits s.next_address manifest parts count (not_bad manifest good)) honest) [
        | inl w ↦
            elim (not_waiting peer parts t cs (handle_chunks peer cs s')
              (length-Fits t.chunks parts
                (new_transfer-IsReceiving s.next_address manifest parts count).fits)
              covers w) [ ]
        | inr (u, there, busy, whole, hash, check, sent) ↦ (u, sent, ap concat whole, hash, check)
      ]
