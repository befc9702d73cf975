-- ===== src/Messenger/StateSync/Step.antt =====
-- What the chunks of one peer do to its transfer, in any order and repeated.
use huginn_messenger.Prelude.{
  ℕ, ◌≤◌, ◌<◌, ◌≡◌, ◌≢◌, refl, ◌∙◌, sym, Bool, true, false, not, ◌||◌, ◌==◌, Option, none, some,
  List, [], ◌∷◌, ◌++◌, ◌⊎◌, inl, inr, arith, length, get_elem?, String, str_eq, eq_refl, All, any,
  Bool-cases, subst,
}
use huginn_messenger.Prelude.Int.{ℤ, pos, ◌==ℤ◌, ==ℤ_iff}
use huginn_messenger.Store.Rows.{Bytes}
use huginn_messenger.Messenger.StateSync.{
  IncomingTransfer, StateSyncChunk, Effect, submit_import, SyncState, is_nil, fill_slot, slot_index,
  after_fill, chunk_for, handle_state_sync_chunk, assign, relogin_chunk_size,
}
use huginn_messenger.Messenger.StateSync.Slots.{
  filled_at, IsReceiving, fill_slot-IsReceiving, all_filled, some_empty, in_range, length-Fits,
}

-- The chunk is a part of the delta, under its index, and neither empty nor too long.
abbrev pub IsPart : String → List Bytes → StateSyncChunk → Type 0
IsPart id parts c =
    (i : ℕ) × (c.index ≡ pos i)
    × (get_elem? parts i ≡ some c.body)
    × (is_nil c.body ≡ false)
    × (length c.body ≤ relogin_chunk_size)
    × (c.transfer_id ≡ id)

-- The chunks of one peer, one after another; the pool takes every job.
unfoldable pub handle_chunks : String → List StateSyncChunk → SyncState → SyncState × List Effect
handle_chunks peer [] s = (s, [])
handle_chunks peer (c ∷ cs) s =
    let first = handle_state_sync_chunk true peer c s in
    let rest = handle_chunks peer cs first.0 in (rest.0, first.1 ++ rest.1)

abbrev pub lists : List StateSyncChunk → ℕ → Bool
lists cs j = any (λ c. c.index ==ℤ pos j) cs

index_of : (z : ℤ) (i j : ℕ) → z ≡ pos i → (z ==ℤ pos j) ≡ true → i ≡ j
index_of z i j e h = ground (arith, ==ℤ_iff z (pos j))

module _ (peer : String) (parts : List Bytes) where
  -- The transfer waits, and has what came.
  abbrev Waits : IncomingTransfer → (ℕ → Bool) → SyncState × List Effect → Type 0
  Waits t came r =
      (u : IncomingTransfer) × (r.0.incoming peer ≡ some u)
      × IsReceiving parts u
      × (u.transfer_id ≡ t.transfer_id)
      × (u.expected_hash ≡ t.expected_hash)
      × (u.checkpoint ≡ t.checkpoint)
      × (u.received ≢ length u.chunks)
      × (r.1 ≡ [])
      × ((j : ℕ) → (filled_at j t.chunks || came j) ≡ true → filled_at j u.chunks ≡ true)

  -- The import was submitted, once, with all parts.
  abbrev Submitted : IncomingTransfer → SyncState × List Effect → Type 0
  Submitted t r =
      (u : IncomingTransfer) × (r.0.incoming peer ≡ some u)
      × (u.processing ≡ true)
      × (u.chunks ≡ parts)
      × (u.expected_hash ≡ t.expected_hash)
      × (u.checkpoint ≡ t.checkpoint)
      × (r.1 ≡ submit_import peer u ∷ [])

  or_false : (b : Bool) → (b || false) ≡ b
  or_false true = refl
  or_false false = refl

  or_true : (b : Bool) → (b || true) ≡ true
  or_true true = refl
  or_true false = refl

  chunk_for_processing :
      (c : StateSyncChunk) (s : SyncState) (o : Option IncomingTransfer) (u : IncomingTransfer)
      → o ≡ some u
      → u.processing ≡ true
      → chunk_for true peer c s o ≡ (s, [])
  unfolding chunk_for
  chunk_for_processing c s o u e p =
      rw (e, p, or_true (not (str_eq u.transfer_id c.transfer_id))) refl

  -- Once it is processing, every chunk is ignored.
  ignores :
      (cs : List StateSyncChunk) (s : SyncState) (u : IncomingTransfer)
      → s.incoming peer ≡ some u
      → u.processing ≡ true
      → handle_chunks peer cs s ≡ (s, [])
  unfolding handle_chunks handle_state_sync_chunk
  ignores [] s u e p = refl
  ignores (c ∷ cs) s u e p =
      rw (chunk_for_processing c s (s.incoming peer) u e p, ignores cs s u e p) refl

  slot_index-part :
      (t : IncomingTransfer) (c : StateSyncChunk) (i : ℕ)
      → c.index ≡ pos i
      → i < length t.chunks
      → length c.body ≤ relogin_chunk_size
      → slot_index c t ≡ some i
  unfolding slot_index
  slot_index-part t c i e l k = rw e (ground arith)

  fill_slot-keeps :
      (i : ℕ) (b : Bytes) (o : Option Bytes) (t : IncomingTransfer)
      → ((fill_slot i b o t).transfer_id ≡ t.transfer_id)
        × ((fill_slot i b o t).expected_hash ≡ t.expected_hash)
        × ((fill_slot i b o t).checkpoint ≡ t.checkpoint)
  unfolding fill_slot
  fill_slot-keeps i b none t = (refl, refl, refl)
  fill_slot-keeps i b (some []) t = (refl, refl, refl)
  fill_slot-keeps i b (some (x ∷ xs)) t = (refl, refl, refl)

  chunk_for-part :
      (s : SyncState) (t : IncomingTransfer) (c : StateSyncChunk) (o : Option IncomingTransfer)
      (i : ℕ)
      → o ≡ some t
      → t.processing ≡ false
      → c.transfer_id ≡ t.transfer_id
      → slot_index c t ≡ some i
      → chunk_for true peer c s o
        ≡ after_fill true peer (fill_slot i c.body (get_elem? t.chunks i) t) s
  unfolding chunk_for
  chunk_for-part s t c o i e w same at = rw (e, at, w, same, eq_refl t.transfer_id) refl

  assign_self : {A : Type 0} (v : A) (m : String → A) → assign peer v m peer ≡ v
  assign_self v m = rw (eq_refl peer) refl

  abbrev putting : IncomingTransfer → SyncState → SyncState
  putting t s = record s { incoming = assign peer (some t) s.incoming }

  after_fill_waiting :
      (t : IncomingTransfer) (s : SyncState)
      → (t.received == length t.chunks) ≡ false
      → after_fill true peer t s ≡ (putting t s, [])
  unfolding after_fill
  after_fill_waiting t s e = rw e refl

  after_fill_complete :
      (t : IncomingTransfer) (s : SyncState)
      → (t.received == length t.chunks) ≡ true
      → after_fill true peer t s ≡ (
        putting (record t { processing = true }) s,
        submit_import peer (record t { processing = true }) ∷ [],
      )
  unfolding after_fill
  after_fill_complete t s e = rw e refl

  differ : (a b : ℕ) → (a == b) ≡ false → a ≢ b
  differ a b h e = ground arith

  same_number : (a b : ℕ) → (a == b) ≡ true → a ≡ b
  same_number a b h = ground arith

  -- One part that arrives.
  step :
      (s : SyncState) (t : IncomingTransfer) (c : StateSyncChunk)
      → s.incoming peer ≡ some t
      → IsReceiving parts t
      → IsPart t.transfer_id parts c
      → Waits t (λ j. c.index ==ℤ pos j) (handle_state_sync_chunk true peer c s)
        ⊎ Submitted t (handle_state_sync_chunk true peer c s)
  unfolding handle_state_sync_chunk
  step s t c e r (i, at, part, full, short, same) =
      let u = fill_slot i c.body (get_elem? t.chunks i) t in
      let (l, found) = in_range t.chunks parts i c.body r.fits part in
      let (fine, there, kept) = fill_slot-IsReceiving parts t i c.body r full part in
      let (id, hash, check) = fill_slot-keeps i c.body (get_elem? t.chunks i) t in
      let path =
        chunk_for-part s t c (s.incoming peer) i e r.waiting same
          (slot_index-part t c i at l short) in
      elim (Bool-cases (u.received == length u.chunks)) [
        | inl complete ↦
            let job = record u { processing = true } in
            let counted = sym fine.counted ∙ same_number u.received (length u.chunks) complete in
            inr (
              rw (path, after_fill_complete u s complete)
                (
                  job,
                  assign_self (some job) s.incoming,
                  refl,
                  all_filled u.chunks parts fine.fits counted,
                  hash,
                  check,
                  refl,
                ))
        | inr waiting ↦ inl (
            rw (path, after_fill_waiting u s waiting)
              (
                u,
                assign_self (some u) s.incoming,
                fine,
                id,
                hash,
                check,
                differ u.received (length u.chunks) waiting,
                refl,
                λ j h. elim (Bool-cases (filled_at j t.chunks)) [
                  | inl was ↦ kept j was
                  | inr new ↦
                      subst (λ k. filled_at k u.chunks ≡ true)
                        (index_of c.index i j at (rw new at h)) there
                ],
              ))
      ]

  -- All that arrive.
  pub outcome :
      (cs : List StateSyncChunk) (s : SyncState) (t : IncomingTransfer)
      → s.incoming peer ≡ some t
      → IsReceiving parts t
      → t.received ≢ length t.chunks
      → All (IsPart t.transfer_id parts) cs
      → Waits t (lists cs) (handle_chunks peer cs s) ⊎ Submitted t (handle_chunks peer cs s)
  unfolding handle_chunks
  outcome [] s t e r n h =
      inl (t, e, r, refl, refl, refl, n, refl, λ j k. sym (or_false (filled_at j t.chunks)) ∙ k)
  outcome (c ∷ cs) s t e r n h = elim (step s t c e r h.0) [
    | inr (u, there, busy, whole, hash, check, sent) ↦
        let same = ignores cs (handle_state_sync_chunk true peer c s).0 u there busy in
        inr (rw same (u, there, busy, whole, hash, check, rw sent refl))
    | inl (u, there, fine, id, hash, check, more, quiet, kept) ↦
        elim (outcome cs (handle_state_sync_chunk true peer c s).0 u there fine more (rw id h.1)) [
          | inr (v, there', busy, whole, hash', check', sent) ↦
              inr (v, there', busy, whole, hash' ∙ hash, check' ∙ check, rw (quiet, sent) refl)
          | inl (v, there', fine', id', hash', check', more', quiet', kept') ↦ inl (
            v,
            there',
            fine',
            id' ∙ id,
            hash' ∙ hash,
            check' ∙ check,
            more',
            rw (quiet, quiet') refl,
            λ j k. kept' j (ground (arith, kept j)),
          )
        ]
  ]

  pub not_waiting :
      (t : IncomingTransfer) (cs : List StateSyncChunk) (r : SyncState × List Effect)
      → length t.chunks ≡ length parts
      → ((j : ℕ) → j < length parts → lists cs j ≡ true)
      → Waits t (lists cs) r
      → ⊥
  not_waiting t cs r n covers (u, there, fine, id, hash, check, more, quiet, kept) =
      let (j, l, empty) = some_empty u.chunks (λ e. more (fine.counted ∙ e)) in
      let came = covers j (omega (arith, length-Fits u.chunks parts fine.fits)) in
      ground (arith, kept j (rw came (or_true (filled_at j t.chunks))))
