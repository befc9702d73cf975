-- ===== src/Messenger/Delivery/Sends.antt =====
-- What the delivery sends to one peer, and the queue after it.
use huginn_messenger.Prelude.{
  ℕ, zero, suc, ◌+◌, ◌-◌, ◌/◌, ◌≤◌, ◌≡◌, refl, sym, ap, ◌∙◌, String, Bool, true, false, not, List,
  [], ◌∷◌, ◌++◌, if◌then◌else◌, All, str_eq, arith, take, drop, min, select, length, length-take,
  map,
}
use huginn_messenger.Prelude.Int.{le_zero}
use huginn_messenger.Store.Rows.{PendingChunk, Db}
use huginn_messenger.Store.Pending.{mark_chunk_placed}
use huginn_messenger.Messenger.Peers.{Peer, key}
use huginn_messenger.Messenger.Chunks.{ChunkStoreRequest}
use huginn_messenger.Messenger.Delivery.Location.{
  Courier, Effect, send_message, register_chunks, send_batch, is_live, remaining_chunk_ttl,
  register_missing, register_chunk_location, RegisterChunkBatchEntry, is_missing, known_records,
  entry_of,
}
use huginn_messenger.Messenger.Delivery.{
  Run, idle, and_then, mark_placed, chunk_delivery_batch_size, chunk_batch_request, send_pending,
  send_batches, if_registered, deliver_files, Groups, is_reachable,
}
use huginn_messenger.Messenger.Delivery.Grouped.{
  Each, join-All, take-All, drop-All, select-All, length-select,
}

-- The rows of a batch that is confirmed are marked.
unfoldable pub mark_requests : List ChunkStoreRequest → Db → Db
mark_requests [] d = d
mark_requests (q ∷ qs) d = mark_requests qs (mark_chunk_placed q.file_id q.chunk_index d)

module _ (env : Courier) where
  open env use {own_id, now}

  -- The database after the calls: only the chunks of the batches that were confirmed are marked.
  unfoldable pub marked_by : List Effect → Db → Db
  marked_by [] d = d
  marked_by (send_batch p batch ∷ effects) d =
      marked_by effects (if env.is_confirmed p batch then mark_requests batch d else d)
  marked_by (register_chunks f entries ∷ effects) d = marked_by effects d
  marked_by (send_message p text t id ∷ effects) d = marked_by effects d

  -- A peer that may store a chunk for someone.
  abbrev pub IsStorer : Peer → Type 0
  IsStorer p = (str_eq p.id own_id ≡ false) × (p.is_fake ≡ false) × (is_reachable env p ≡ true)

  abbrev pub IsSendable : Peer → ChunkStoreRequest → Type 0
  IsSendable p q = (str_eq (key p) q.recipient_id ≡ false) × (le_zero q.ttl_seconds ≡ false)

  -- A batch goes to such a peer, has at most 16 chunks, and these have time left and are for
  -- somebody else.
  abbrev pub IsFair : Effect → Type 0
  IsFair (send_batch p batch) =
      IsStorer p × (length batch ≤ chunk_delivery_batch_size) × All (IsSendable p) batch
  IsFair (register_chunks f entries) = Unit
  IsFair (send_message p text t id) = Unit

  abbrev pub Good : Run → Type 0
  Good run = (d : Db) → All IsFair (run d).0 × ((run d).1 ≡ marked_by (run d).0 d)

  marked_by-append :
      (xs ys : List Effect) (d : Db) → marked_by (xs ++ ys) d ≡ marked_by ys (marked_by xs d)
  unfolding marked_by
  marked_by-append [] ys d = refl
  marked_by-append (send_batch p batch ∷ xs) ys d =
      marked_by-append xs ys (if env.is_confirmed p batch then mark_requests batch d else d)
  marked_by-append (register_chunks f entries ∷ xs) ys d = marked_by-append xs ys d
  marked_by-append (send_message p text t id ∷ xs) ys d = marked_by-append xs ys d

  pub idle-Good : Good idle
  unfolding marked_by
  idle-Good d = (tt, refl)

  pub and_then-Good : (f g : Run) → Good f → Good g → Good (and_then f g)
  and_then-Good f g hf hg d =
      let a = f d in
      let b = g a.1 in
      let one = hf d in
      let two = hg a.1 in
      (
        join-All IsFair a.0 b.0 one.0 two.0,
        two.1 ∙ ap (marked_by b.0) one.1 ∙ sym (marked_by-append a.0 b.0 d),
      )

  mark_requests-map :
      (cs : List PendingChunk) (d : Db)
      → mark_requests (map (chunk_batch_request now) cs) d ≡ mark_placed cs d
  unfolding mark_requests mark_placed
  mark_requests-map [] d = refl
  mark_requests-map (c ∷ cs) d = mark_requests-map cs (mark_chunk_placed c.file_id c.chunk_index d)

  module _ (p : Peer) (storer : IsStorer p) where
    -- A chunk for somebody else.
    abbrev ForOthers : PendingChunk → Type 0
    ForOthers c = str_eq (key p) c.recipient_id ≡ false

    sendable :
        (cs : List PendingChunk)
        → All (λ c. ForOthers c × (is_live now c ≡ true)) cs
        → All (IsSendable p) (map (chunk_batch_request now) cs)
    sendable [] h = tt
    sendable (c ∷ cs) h =
        ((h.0.0, live (le_zero (remaining_chunk_ttl now c)) h.0.1), sendable cs h.1)
      where
        live : (b : Bool) → not b ≡ true → b ≡ false
        live b e = ground arith

    length-map_request :
        (cs : List PendingChunk) → length (map (chunk_batch_request now) cs) ≡ length cs
    length-map_request [] = refl
    length-map_request (c ∷ cs) = ap suc (length-map_request cs)

    send_pending-Good :
        (cs : List PendingChunk)
        → All (λ c. ForOthers c × (is_live now c ≡ true)) cs
        → length cs ≤ chunk_delivery_batch_size
        → Good (send_pending env p cs)
    unfolding marked_by
    send_pending-Good [] h short d = (tt, refl)
    send_pending-Good (c ∷ cs) h short d =
        let batch = map (chunk_batch_request now) (c ∷ cs) in
        (
          ((storer, omega (arith, short, length-map_request cs), sendable (c ∷ cs) h), tt),
          ap (λ x. if env.is_confirmed p batch then x else d) (sym (mark_requests-map (c ∷ cs) d)),
        )

    send_batches-Good :
        (parts : List PendingChunk) (left start : ℕ)
        → All ForOthers parts
        → Good (send_batches env p parts left start)
    unfolding send_batches
    send_batches-Good parts zero start h = idle-Good
    send_batches-Good parts (suc left) start h =
        let end = min (start + chunk_delivery_batch_size) (length parts) in
        let part = take (end - start) (drop start parts) in
        let short = length-select (is_live now) part in
        let cut = length-take (end - start) (drop start parts) in
        and_then-Good (send_pending env p (select (is_live now) part))
          (send_batches env p parts left (start + chunk_delivery_batch_size))
          (send_pending-Good (select (is_live now) part)
            (select-All ForOthers (is_live now) part (
              take-All ForOthers (end - start) (drop start parts)
                (drop-All ForOthers start parts h)))
            (omega (arith, short, cut)))
          (send_batches-Good parts left (start + chunk_delivery_batch_size) h)

    if_registered-Good :
        (file_id : String) (entries : List RegisterChunkBatchEntry) (run : Run)
        → Good run
        → Good (if_registered env (register_missing env file_id entries) run)
    unfolding marked_by
    if_registered-Good file_id [] run h d = h d
    if_registered-Good file_id (e ∷ es) run h d = by_answer (env.register_succeeds file_id (e ∷ es))
      where
        by_answer :
            (b : Bool)
            → (let r = if_registered env (b, register_chunks file_id (e ∷ es) ∷ []) run d in
                All IsFair r.0 × (r.1 ≡ marked_by r.0 d))
        by_answer true = ((tt, (h d).0), (h d).1)
        by_answer false = ((tt, tt), refl)

    pub deliver_files-Good :
        (files : Groups) → Each (λ k. ForOthers) files → Good (deliver_files env p files)
    unfolding deliver_files register_chunk_location
    deliver_files-Good [] h = idle-Good
    deliver_files-Good ((file_id, parts) ∷ files) h =
        let rounds = (length parts + chunk_delivery_batch_size - 1) / chunk_delivery_batch_size in
        let entries = map (entry_of env p.id) (
          select (is_missing env p.id (known_records env (env.chunks_by_file_id file_id))) parts) in
        and_then-Good
          (if_registered env (register_missing env file_id entries)
            (send_batches env p parts rounds 0))
          (deliver_files env p files)
          (if_registered-Good file_id entries (send_batches env p parts rounds 0)
            (send_batches-Good parts rounds 0 h.0))
          (deliver_files-Good files h.1)
