-- ===== src/Messenger/Delivery.antt =====
-- internal/messenger/chunk_delivery.go: queued payloads go to peers that store them. Also
-- getOnlinePeers of peers.go, deliverOutgoing of outgoing.go.
pub mod Location
pub mod Grouped
pub mod Sends
pub mod Confirmed
use huginn_messenger.Prelude.{
  ℕ, zero, suc, ◌+◌, ◌-◌, ◌*◌, ◌/◌, String, Bool, true, false, not, ◌||◌, ◌&&◌, Option, none, some,
  List, [], ◌∷◌, ◌++◌, map, any, select, str_eq, ltb, if◌then◌else◌, length, take, drop, min,
}
use huginn_messenger.Prelude.Int.{ℤ, pos, negsuc, le_zero, add_leb, ◌==ℤ◌}
use huginn_messenger.Store.Clock.{Time, unix, duration_of_seconds}
use huginn_messenger.Store.Rows.{PendingChunk, Db}
use huginn_messenger.Store.Pending.{get_unplaced_chunks, mark_chunk_placed}
use huginn_messenger.Messenger.Peers.{Peer, key}
use huginn_messenger.Messenger.Session.{ChunkRecord}
use huginn_messenger.Messenger.Chunks.{ChunkStoreRequest}
use huginn_messenger.Messenger.Outgoing.{OutgoingMessage}
use huginn_messenger.Messenger.Delivery.Location.{
  Courier, Effect, send_message, send_batch, remaining_chunk_ttl, is_live, opposite,
  register_chunk_location,
}

abbrev pub chunk_delivery_batch_size : ℕ
chunk_delivery_batch_size = 16

abbrev half_back : ℤ → ℤ
half_back (pos n) = opposite (n / 2)
half_back (negsuc n) = pos (suc n / 2)

-- A map from a string to chunks, in one of the orders of its entries, the same in each loop.
abbrev pub Groups : Type 0
Groups = List (String × List PendingChunk)

unfoldable pub add_chunk : String → PendingChunk → Groups → Groups
add_chunk k c [] = (k, c ∷ []) ∷ []
add_chunk k c ((j, cs) ∷ groups) =
    let rest = add_chunk k c groups in
    if str_eq j k then (j, cs ++ c ∷ []) ∷ groups else (j, cs) ∷ rest

unfoldable pub by_recipient : Time → List PendingChunk → Groups → Groups
by_recipient now [] groups = groups
by_recipient now (c ∷ cs) groups =
    by_recipient now cs (if is_live now c then add_chunk c.recipient_id c groups else groups)

unfoldable pub by_file : List PendingChunk → Groups → Groups
by_file [] groups = groups
by_file (c ∷ cs) groups = by_file cs (add_chunk c.file_id c groups)

-- A step of the delivery: its calls, in their order, and the database after it.
abbrev pub Run : Type 0
Run = Db → List Effect × Db

abbrev pub idle : Run
idle d = ([], d)

abbrev pub and_then : Run → Run → Run
and_then f g d = let a = f d in let b = g a.1 in (a.0 ++ b.0, b.1)

abbrev pub chunk_batch_request : Time → PendingChunk → ChunkStoreRequest
chunk_batch_request now c = record {
  file_id = c.file_id;
  chunk_index = c.chunk_index;
  body = c.body;
  sender_id = c.sender_id;
  recipient_id = c.recipient_id;
  hash = c.hash;
  signature = c.signature;
  ttl_seconds = remaining_chunk_ttl now c;
}

unfoldable pub mark_placed : List PendingChunk → Db → Db
mark_placed [] d = d
mark_placed (c ∷ cs) d = mark_placed cs (mark_chunk_placed c.file_id c.chunk_index d)

module _ (env : Courier) where
  open env use {own_id, now}

  abbrev pub is_recent : Peer → Bool
  is_recent p = add_leb (suc now) (duration_of_seconds (half_back p.ttl_seconds)) p.last_seen

  pub get_online_peers : List Peer
  get_online_peers = select (λ p. any (λ id. not (str_eq id own_id) && is_recent p) p.ids) env.peers

  -- One batch: the chunks of it that have not expired.
  abbrev pub send_pending : Peer → List PendingChunk → Run
  send_pending p [] d = ([], d)
  send_pending p (c ∷ cs) d =
      let batch = map (chunk_batch_request now) (c ∷ cs) in
      (send_batch p batch ∷ [], if env.is_confirmed p batch then mark_placed (c ∷ cs) d else d)

  -- The rounds from `start` on, with as many left as the third argument.
  unfoldable pub send_batches : Peer → List PendingChunk → ℕ → ℕ → Run
  send_batches p parts zero start = idle
  send_batches p parts (suc left) start =
      let end = min (start + chunk_delivery_batch_size) (length parts) in
      and_then (send_pending p (select (is_live now) (take (end - start) (drop start parts))))
        (send_batches p parts left (start + chunk_delivery_batch_size))

  abbrev pub if_registered : Bool × List Effect → Run → Run
  if_registered (true, effects) run d = let r = run d in (effects ++ r.0, r.1)
  if_registered (false, effects) run d = (effects, d)

  unfoldable pub deliver_files : Peer → Groups → Run
  deliver_files p [] = idle
  deliver_files p ((file_id, parts) ∷ files) =
      and_then
        (if_registered (register_chunk_location env file_id p.id parts) (
          send_batches p parts
            ((length parts + chunk_delivery_batch_size - 1) / chunk_delivery_batch_size) 0))
        (deliver_files p files)

  abbrev pub is_skipped : String → Peer → Bool
  is_skipped recipient p = str_eq p.id own_id || (p.is_fake || str_eq (key p) recipient)

  abbrev pub is_reachable : Peer → Bool
  is_reachable p =
      env.is_connected p.id || (env.connect_peer p.id && env.wait_for_peer_connection p.id)

  unfoldable pub visit_peer : String → Groups → Peer → Run
  visit_peer recipient files p =
      if is_skipped recipient p
      then idle
      else if is_reachable p
      then deliver_files p files
      else idle

  unfoldable pub visit_peers : String → Groups → List Peer → Run
  visit_peers recipient files [] = idle
  visit_peers recipient files (p ∷ ps) =
      let go = and_then (visit_peer recipient files p) (visit_peers recipient files ps) in
      if env.is_done_at recipient p.id then idle else go

  -- The sender's own copy is advertised whether there are peers or not.
  unfoldable pub advertise : Groups → List Effect
  advertise [] = []
  advertise ((file_id, parts) ∷ files) =
      (register_chunk_location env file_id own_id parts).1 ++ advertise files

  abbrev pub or_online : Option (List Peer) → List Peer
  or_online none = get_online_peers
  or_online (some peers) = peers

  abbrev pub peers_for : String → List Peer
  peers_for recipient =
      or_online (if str_eq recipient "" then env.get_best_thick_peers 5 else env.get_best_peers 10)

  unfoldable pub distribute_chunks_for_recipient : String → List PendingChunk → Run
  distribute_chunks_for_recipient recipient chunks =
      let files = by_file chunks [] in
      and_then (λ d. (advertise files, d)) (visit_peers recipient files (peers_for recipient))

  unfoldable pub distribute_groups : Groups → Run
  distribute_groups [] = idle
  distribute_groups ((recipient, chunks) ∷ groups) =
      let go =
        and_then (distribute_chunks_for_recipient recipient chunks) (distribute_groups groups) in
      if env.is_done_before recipient then idle else go

  -- The first argument tells whether another delivery holds the lock.
  unfoldable pub distribute_chunks : Bool → List PendingChunk → Run
  distribute_chunks locked chunks =
      if locked then idle else distribute_groups (by_recipient now chunks [])

  unfoldable pub distribute_pending_chunks : Bool → Run
  distribute_pending_chunks locked d = distribute_chunks locked (get_unplaced_chunks d) d

  abbrev pub has_files : OutgoingMessage → Bool
  has_files outgoing = ltb 0 (length outgoing.message.files)

  -- The text goes at once to a recipient that is connected, or can be.
  abbrev pub send_directly : OutgoingMessage → List Effect
  send_directly outgoing =
      let m = outgoing.message in
      if is_reachable outgoing.peer
      then send_message outgoing.peer.id m.text m.timestamp m.msg_id ∷ []
      else []

  unfoldable pub deliver_outgoing : Bool → OutgoingMessage → Run
  deliver_outgoing locked outgoing =
      let p = outgoing.peer in
      let direct =
        if not (str_eq p.id "") && (not p.is_fake && not (has_files outgoing))
        then send_directly outgoing
        else [] in
      and_then (λ d. (direct, d)) (distribute_chunks locked outgoing.chunks)
