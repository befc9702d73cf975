-- ===== src/Messenger/Inbox/Safe.antt =====
-- The poll cursor does not pass a payload that is neither delivered nor waiting for a retry.
use huginn_messenger.Prelude.{
  ◌≡◌, ◌≢◌, refl, ◌∙◌, String, Bool, true, false, not, ◌&&◌, List, [], ◌∷◌, All, Bool-cases, inl,
  inr, ◌⊎◌, arith,
}
use huginn_messenger.Prelude.Int.{ℤ, leb_ℤ}
use huginn_messenger.Store.Sql.Query.{All-imp}
use huginn_messenger.Store.Rows.{Db}
use huginn_messenger.Store.Messages.{find_message_by_id}
use huginn_messenger.Store.Track.{is_chunk_failed, get_last_chunk_check, set_last_chunk_check}
use huginn_messenger.Messenger.Session.{Session, Env, db, ChunkRecord}
use huginn_messenger.Messenger.Inbox.{
  Groups, newest, is_settled, group_records, collect_groups, advance, take_records,
}
use huginn_messenger.Messenger.Inbox.Collect.{collect_and_process_message}
use huginn_messenger.Messenger.Inbox.Collect.Kept.{Kept, Keeps, KeepsDb, KeepsDb-trans}
use huginn_messenger.Messenger.Inbox.Collect.Tracked.{AllKept-KeepsDb, collect-Tracked}
use huginn_messenger.Messenger.Inbox.Grouping.{
  AllGroups, AllMessages, group_records-AllGroups, group_records-AllMessages,
}

module _ (env : Env) where
  abbrev pub GroupsKept : Groups → Db → Type 0
  GroupsKept groups d = AllGroups (λ id c. Kept id c.chunk_index d) groups

  collect_groups-Keeps :
      (groups : Groups) (s : Session)
      → AllMessages groups
      → Keeps s (collect_groups env groups s).1
        × ((collect_groups env groups s).0 ≡ true
            → GroupsKept groups (db (collect_groups env groups s).1))
  unfolding collect_groups
  collect_groups-Keeps [] s h = ((λ id i k. k, refl), λ e. tt)
  collect_groups-Keeps ((id, records) ∷ groups) s h =
      let here = collect_and_process_message env id records s in
      let rest = collect_groups env groups here.1 in
      let one = collect-Tracked env id records s h.0 in
      let others = collect_groups-Keeps groups here.1 h.1 in
      (
        KeepsDb-trans (db s) (db here.1) (db rest.1) one.0 others.0,
        λ e. (
          AllKept-KeepsDb id records (db here.1) (db rest.1) others.0 (one.1 (ground (arith, e))),
          others.1 (ground (arith, e)),
        ),
      )

  advance-Keeps :
      (recipient : String) (last newest : ℤ) (safe : Bool) (s : Session) (id : String) (i : ℤ)
      → Kept id i (db s)
      → Kept id i (db (advance env recipient last newest (safe, s)))
  unfolding Kept find_message_by_id is_chunk_failed set_last_chunk_check
  advance-Keeps recipient last newest safe s id i k =
      elim (Bool-cases (safe && not (leb_ℤ newest last))) [ inl e ↦ rw e k | inr e ↦ rw e k ]

  advance_unsafe :
      (recipient : String) (last newest : ℤ) (safe : Bool) (s : Session)
      → get_last_chunk_check recipient (db (advance env recipient last newest (safe, s)))
        ≢ get_last_chunk_check recipient (db s)
      → safe ≡ true
  advance_unsafe recipient last newest true s h = refl
  advance_unsafe recipient last newest false s h = elim (h refl) [ ]

  cursor-Keeps :
      (recipient : String) (s s' : Session)
      → Keeps s s'
      → get_last_chunk_check recipient (db s') ≡ get_last_chunk_check recipient (db s)
  unfolding get_last_chunk_check
  cursor-Keeps recipient s s' h = rw h.1 refl

  settled-Kept : (d : Db) (c : ChunkRecord) → is_settled d c ≡ true → Kept c.file_id c.chunk_index d
  unfolding Kept
  settled-Kept d c h = ground (arith, h)

  unsettled-Kept :
      (d d' : Db) (cs : List ChunkRecord)
      → KeepsDb d d'
      → All (λ c. (is_settled d c ≡ true) ⊎ Kept c.file_id c.chunk_index d') cs
      → All (λ c. Kept c.file_id c.chunk_index d') cs
  unsettled-Kept d d' [] h k = tt
  unsettled-Kept d d' (c ∷ cs) h (inl e, k) =
      (h.0 c.file_id c.chunk_index (settled-Kept d c e), unsettled-Kept d d' cs h k)
  unsettled-Kept d d' (c ∷ cs) h (inr x, k) = (x, unsettled-Kept d d' cs h k)

  -- If the poll moves the recipient's cursor, then each payload of the answer, none of which is a
  -- file's, has its message in the history or a retry row.
  pub take_records-Kept :
      (recipient : String) (chunks : List ChunkRecord) (s : Session)
      → All (λ (c : ChunkRecord). c.persist ≡ false) chunks
      → get_last_chunk_check recipient (db (take_records env recipient chunks s))
        ≢ get_last_chunk_check recipient (db s)
      → All
          (λ (c : ChunkRecord).
            Kept c.file_id c.chunk_index (db (take_records env recipient chunks s)))
          chunks
  unfolding take_records
  take_records-Kept recipient chunks s h moved =
      let groups = group_records (db s) chunks [] in
      let all = collect_groups env groups s in
      let last = get_last_chunk_check recipient (db s) in
      let kept = collect_groups-Keeps groups s (group_records-AllMessages (db s) chunks [] h tt) in
      let safe =
        advance_unsafe recipient last (newest last chunks) all.0 all.1
          (λ e. moved (e ∙ cursor-Keeps recipient s all.1 kept.0)) in
      let grouped =
        group_records-AllGroups (λ id c. Kept id c.chunk_index (db all.1)) (db s) chunks []
          (kept.1 safe) in
      All-imp (λ c. Kept c.file_id c.chunk_index (db all.1))
        (λ c. Kept c.file_id c.chunk_index (db (take_records env recipient chunks s))) chunks
        (λ c k.
          advance-Keeps recipient last (newest last chunks) all.0 all.1 c.file_id c.chunk_index k)
        (unsettled-Kept (db s) (db all.1) chunks kept.0 grouped.1)
