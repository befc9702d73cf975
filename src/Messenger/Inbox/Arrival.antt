-- ===== src/Messenger/Inbox/Arrival.antt =====
-- Collecting payloads that are all in the store, from a sender that is known.
use huginn_messenger.Prelude.{
  ◌≡◌, refl, ap, ◌∙◌, String, true, false, Option, some, List, [], ◌∷◌, map, All, any, length,
  ==-refl, suc,
}
use huginn_messenger.Prelude.Int.{ℤ, ◌==ℤ◌, pos, leb_ℤ}
use huginn_messenger.Chunk.{Envelope}
use huginn_messenger.Store.Rows.{Bytes, Db}
use huginn_messenger.Store.Chunks.{get_chunk}
use huginn_messenger.Store.Messages.{find_message_by_id}
use huginn_messenger.Store.Track.{store_failed_chunk}
use huginn_messenger.Messenger.Peers.{Peer, Book, find_peer_by_key}
use huginn_messenger.Messenger.Session.{Session, Env, db, with_db, ChunkRecord, find_sender}
use huginn_messenger.Messenger.Fetch.{get_chunk_data}
use huginn_messenger.Messenger.Inbox.Collect.{
  track_records, is_wrong, fetch_record, gather, unmarshal_all, complete_envelopes,
}

-- A record of the directory with the payload and the envelope that belong to it.
pub record Arrived : Type 0 where
  pub entry : ChunkRecord
  pub body : Bytes
  pub envelope : Envelope

abbrev pub entries : List Arrived → List ChunkRecord
entries arrived = map (λ (a : Arrived). a.entry) arrived

abbrev pub envelopes_of : List Arrived → List Envelope
envelopes_of arrived = map (λ (a : Arrived). a.envelope) arrived

abbrev pub bodies_of : List Arrived → List Bytes
bodies_of arrived = map (λ (a : Arrived). a.body) arrived

-- No two have one index, and none has an index that was seen.
abbrev pub IsDistinct : List ℤ → List Arrived → Type 0
IsDistinct seen [] = Unit
IsDistinct seen (a ∷ as') =
    (any (λ i. i ==ℤ a.entry.chunk_index) seen ≡ false)
    × IsDistinct (a.entry.chunk_index ∷ seen) as'

module _ (env : Env) where
  -- The payload is in the store, has the announced hash, and encodes the envelope.
  abbrev pub IsThere : Db → Arrived → Type 0
  IsThere d a =
      (get_chunk a.entry.file_id a.entry.chunk_index env.now d ≡ some a.body)
      × (is_wrong env a.entry a.body ≡ false)
      × (env.unmarshal_envelope a.body ≡ some a.envelope)

  -- The sender is known without asking the directory.
  abbrev pub IsKnown : String → Peer → List (String × Peer) → Type 0
  IsKnown sender p entries =
      (d : Db)
      → find_peer_by_key env.directory sender (record { peers_map = entries; db = d })
        ≡ (some p, record { peers_map = entries; db = d })

  pub fetch_record-there :
      (seen : List ℤ) (a : Arrived) (s : Session)
      → any (λ i. i ==ℤ a.entry.chunk_index) seen ≡ false
      → IsThere (db s) a
      → fetch_record env seen a.entry s ≡ (some a.body, s)
  unfolding fetch_record get_chunk_data
  fetch_record-there seen a s new h = rw (new, h.0, h.1) refl

  pub gather-there :
      (seen : List ℤ) (arrived : List Arrived) (s : Session)
      → IsDistinct seen arrived
      → All (IsThere (db s)) arrived
      → gather env seen (entries arrived) s ≡ (bodies_of arrived, s)
  unfolding gather
  gather-there seen [] s new h = refl
  gather-there seen (a ∷ as') s new h =
      rw
        (
          fetch_record-there seen a s new.0 h.0,
          gather-there (a.entry.chunk_index ∷ seen) as' s new.1 h.1,
        )
        refl

  get_chunk-store_failed :
      (f g : String) (i j : ℤ) (recipient : String) (ttl : ℤ) (d : Db)
      → get_chunk f i env.now (store_failed_chunk g j recipient ttl env.now d)
        ≡ get_chunk f i env.now d
  unfolding get_chunk store_failed_chunk
  get_chunk-store_failed f g i j recipient ttl d = refl

  get_chunk-track :
      (msg_id f : String) (i : ℤ) (records : List ChunkRecord) (s : Session)
      → get_chunk f i env.now (db (track_records env msg_id records s))
        ≡ get_chunk f i env.now (db s)
  unfolding track_records
  get_chunk-track msg_id f i [] s = refl
  get_chunk-track msg_id f i (r ∷ rs) s =
      get_chunk-track msg_id f i rs
        (with_db (store_failed_chunk msg_id r.chunk_index r.recipient_id r.ttl env.now (db s)) s)
      ∙ get_chunk-store_failed f msg_id i r.chunk_index r.recipient_id r.ttl (db s)

  pub track-IsThere :
      (msg_id : String) (records : List ChunkRecord) (arrived : List Arrived) (s : Session)
      → All (IsThere (db s)) arrived
      → All (IsThere (db (track_records env msg_id records s))) arrived
  track-IsThere msg_id records [] s h = tt
  track-IsThere msg_id records (a ∷ as') s h = (
    (get_chunk-track msg_id a.entry.file_id a.entry.chunk_index records s ∙ h.0.0, h.0.1, h.0.2),
    track-IsThere msg_id records as' s h.1,
  )

  unmarshal_all-there :
      (arrived : List Arrived) (d : Db)
      → All (IsThere d) arrived
      → unmarshal_all env (bodies_of arrived) ≡ envelopes_of arrived
  unfolding unmarshal_all
  unmarshal_all-there [] d h = refl
  unmarshal_all-there (a ∷ as') d h = rw (h.0.2, unmarshal_all-there as' d h.1) refl

  lengths : (arrived : List Arrived) → length (envelopes_of arrived) ≡ length (bodies_of arrived)
  lengths [] = refl
  lengths (a ∷ as') = ap suc (lengths as')

  pub complete-there :
      (a : Arrived) (as' : List Arrived) (d : Db)
      → All (IsThere d) (a ∷ as')
      → leb_ℤ a.envelope.total_chunks (pos (length (envelopes_of (a ∷ as')))) ≡ true
      → complete_envelopes env (bodies_of (a ∷ as')) ≡ some (envelopes_of (a ∷ as'))
  unfolding complete_envelopes
  complete-there a as' d h enough =
      rw (unmarshal_all-there (a ∷ as') d h, lengths as', ==-refl (suc (length (bodies_of as'))))
        (rw⁻¹ (lengths as') (rw enough refl))

  pub peers_map-track :
      (msg_id : String) (records : List ChunkRecord) (s : Session)
      → (track_records env msg_id records s).book.peers_map ≡ s.book.peers_map
  unfolding track_records
  peers_map-track msg_id [] s = refl
  peers_map-track msg_id (r ∷ rs) s =
      peers_map-track msg_id rs
        (with_db (store_failed_chunk msg_id r.chunk_index r.recipient_id r.ttl env.now (db s)) s)

  pub find_sender-known :
      (sender : String) (p : Peer) (s : Session)
      → IsKnown sender p s.book.peers_map
      → find_sender env sender s ≡ (some p, s)
  unfolding find_sender
  find_sender-known sender p s h =
      ap (λ (found : Option Peer × Book). (found.0, record s { book = found.1 })) (h (db s))

  pub find_message-same :
      (id : String) (d d' : Db)
      → d'.messages ≡ d.messages
      → find_message_by_id id d' ≡ find_message_by_id id d
  unfolding find_message_by_id
  find_message-same id d d' h = rw h refl

  pub find_message-track :
      (id msg_id : String) (records : List ChunkRecord) (s : Session)
      → find_message_by_id id (db (track_records env msg_id records s))
        ≡ find_message_by_id id (db s)
  unfolding track_records store_failed_chunk find_message_by_id
  find_message-track id msg_id [] s = refl
  find_message-track id msg_id (r ∷ rs) s =
      find_message-track id msg_id rs
        (with_db (store_failed_chunk msg_id r.chunk_index r.recipient_id r.ttl env.now (db s)) s)
