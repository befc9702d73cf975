-- ===== src/Messenger/Delivery/Confirmed.antt =====
-- What a delivery sends, and that the queue is marked by what is confirmed.
use huginn_messenger.Prelude.{
  ◌≡◌, refl, sym, subst, String, Bool, true, false, ◌||◌, List, [], ◌∷◌, if◌then◌else◌, All, str_eq,
  select, map,
}
use huginn_messenger.Store.Sql.Query.{All-imp}
use huginn_messenger.Store.Rows.{PendingChunk, Db}
use huginn_messenger.Messenger.Peers.{Peer, key}
use huginn_messenger.Messenger.Delivery.Location.{
  Courier, register_missing, register_chunk_location, RegisterChunkBatchEntry, is_missing,
  known_records, entry_of,
}
use huginn_messenger.Messenger.Delivery.{
  Run, idle, and_then, deliver_files, Groups, is_reachable, visit_peer, visit_peers, advertise,
  peers_for, by_file, by_recipient, distribute_chunks_for_recipient, distribute_groups,
  distribute_chunks,
}
use huginn_messenger.Messenger.Delivery.Grouped.{Each, IsOf, by_recipient-Each, by_file-Each}
use huginn_messenger.Messenger.Delivery.Sends.{
  marked_by, IsFair, Good, idle-Good, and_then-Good, deliver_files-Good,
}

module _ (env : Courier) where
  open env use {own_id, now}

  visit_peer-Good :
      (recipient : String) (files : Groups) (p : Peer)
      → Each (λ k. IsOf recipient) files
      → Good env (visit_peer env recipient files p)
  unfolding visit_peer
  visit_peer-Good recipient files p h =
      by_tests (str_eq p.id own_id) p.is_fake (str_eq (key p) recipient) (is_reachable env p) refl
        refl refl refl
    where
      others :
          str_eq (key p) recipient ≡ false
          → (c : PendingChunk) → IsOf recipient c
          → str_eq (key p) c.recipient_id ≡ false
      others e c k = subst (λ x. str_eq (key p) x ≡ false) (sym k) e

      by_tests :
          (own fake same reached : Bool)
          → str_eq p.id own_id ≡ own
          → p.is_fake ≡ fake
          → str_eq (key p) recipient ≡ same
          → is_reachable env p ≡ reached
          → Good env (
              if own || (fake || same)
              then idle
              else if reached
              then deliver_files env p files
              else idle)
      by_tests true fake same reached a b c r = idle-Good env
      by_tests false true same reached a b c r = idle-Good env
      by_tests false false true reached a b c r = idle-Good env
      by_tests false false false false a b c r = idle-Good env
      by_tests false false false true a b c r =
          deliver_files-Good env p (a, b, r) files
            (All-imp (λ (g : String × List PendingChunk). All (IsOf recipient) g.1)
              (λ (g : String × List PendingChunk).
                All (λ q. str_eq (key p) q.recipient_id ≡ false) g.1)
              files
              (λ (g : String × List PendingChunk) hg.
                All-imp (IsOf recipient) (λ q. str_eq (key p) q.recipient_id ≡ false) g.1 (others c)
                  hg)
              h)

  when_not-Good : (b : Bool) (run : Run) → Good env run → Good env (if b then idle else run)
  when_not-Good true run h = idle-Good env
  when_not-Good false run h = h

  visit_peers-Good :
      (recipient : String) (files : Groups) (ps : List Peer)
      → Each (λ k. IsOf recipient) files
      → Good env (visit_peers env recipient files ps)
  unfolding visit_peers
  visit_peers-Good recipient files [] h = idle-Good env
  visit_peers-Good recipient files (p ∷ ps) h =
      when_not-Good (env.is_done_at recipient p.id)
        (and_then (visit_peer env recipient files p) (visit_peers env recipient files ps))
        (and_then-Good env (visit_peer env recipient files p) (visit_peers env recipient files ps)
          (visit_peer-Good recipient files p h) (visit_peers-Good recipient files ps h))

  register_missing-Good :
      (file_id : String) (entries : List RegisterChunkBatchEntry)
      → Good env (λ d. ((register_missing env file_id entries).1, d))
  unfolding marked_by
  register_missing-Good file_id [] d = (tt, refl)
  register_missing-Good file_id (e ∷ es) d = ((tt, tt), refl)

  advertise-Good : (files : Groups) → Good env (λ d. (advertise env files, d))
  unfolding advertise register_chunk_location
  advertise-Good [] = idle-Good env
  advertise-Good ((file_id, parts) ∷ files) =
      let entries = map (entry_of env own_id) (
        select (is_missing env own_id (known_records env (env.chunks_by_file_id file_id))) parts) in
      and_then-Good env (λ d. ((register_missing env file_id entries).1, d))
        (λ d. (advertise env files, d)) (register_missing-Good file_id entries)
        (advertise-Good files)

  distribute_groups-Good :
      (groups : Groups) → Each IsOf groups → Good env (distribute_groups env groups)
  unfolding distribute_groups distribute_chunks_for_recipient
  distribute_groups-Good [] h = idle-Good env
  distribute_groups-Good ((recipient, chunks) ∷ groups) h =
      let files = by_file chunks [] in
      let visits = visit_peers env recipient files (peers_for env recipient) in
      let here = and_then (λ d. (advertise env files, d)) visits in
      when_not-Good (env.is_done_before recipient) (and_then here (distribute_groups env groups)) (
        and_then-Good env here (distribute_groups env groups)
          (and_then-Good env (λ d. (advertise env files, d)) visits (advertise-Good files)
            (visit_peers-Good recipient files (peers_for env recipient)
              (by_file-Each (IsOf recipient) chunks [] h.0 tt)))
          (distribute_groups-Good groups h.1))

-- After a delivery exactly the chunks of the batches that were confirmed are marked as placed, and
-- nothing else has changed. Each batch went to a peer that is reachable and neither this device nor
-- fake, has at most 16 chunks, and each of them has time left and is not for that peer.
pub distribute_chunks-IsMarked :
    (env : Courier) (locked : Bool) (chunks : List PendingChunk) (d : Db)
    → All (IsFair env) (distribute_chunks env locked chunks d).0
      × ((distribute_chunks env locked chunks d).1
          ≡ marked_by env (distribute_chunks env locked chunks d).0 d)
unfolding distribute_chunks
distribute_chunks-IsMarked env locked chunks d =
    when_not-Good env locked (distribute_groups env (by_recipient env.now chunks []))
      (distribute_groups-Good env (by_recipient env.now chunks [])
        (by_recipient-Each env.now chunks [] tt))
      d
