-- ===== src/Messenger/Inbox.antt =====
-- The receiving side of internal/messenger/messages.go: the poll of the directory, and
-- retryFailedChunks of internal/messenger/chunks.go.
pub mod Collect
pub mod Grouping
pub mod Safe
pub mod History
pub mod Signed
pub mod Arrival
pub mod Delivered
pub mod Retry
use huginn_messenger.Prelude.{
  ℕ, zero, suc, String, Bool, true, false, not, ◌||◌, ◌&&◌, Option, none, some, List, [], ◌∷◌, ◌++◌,
  map, str_eq, if◌then◌else◌, find,
}
use huginn_messenger.Prelude.Int.{ℤ, pos, negsuc, ◌==ℤ◌, leb_ℤ, add_leb}
use huginn_messenger.Prelude.Strings.{str_append}
use huginn_messenger.Store.Clock.{unix}
use huginn_messenger.Store.Rows.{FailedChunk, GroupChat, Db}
use huginn_messenger.Store.Messages.{find_message_by_id}
use huginn_messenger.Store.Groups.{get_group_chats}
use huginn_messenger.Store.Track.{
  get_last_chunk_check, set_last_chunk_check, is_chunk_failed, list_failed_chunks,
  delete_failed_chunk,
}
use huginn_messenger.Messenger.Session.{ChunkRecord, Session, Env, db, with_db, member}
use huginn_messenger.Messenger.Inbox.Collect.{collect_and_process_message}

-- byMsg: the records of each message, in the order of the answer. Go does not fix the order of the
-- messages; here it is that of their first records.
abbrev pub Groups : Type 0
Groups = List (String × List ChunkRecord)

unfoldable pub add_record : ChunkRecord → Groups → Groups
add_record c [] = (c.file_id, c ∷ []) ∷ []
add_record c ((id, cs) ∷ groups) =
    let rest = add_record c groups in
    if str_eq id c.file_id then (id, cs ++ c ∷ []) ∷ groups else (id, cs) ∷ rest

abbrev pub updated : ChunkRecord → ℤ
updated c = if c.updated_at ==ℤ pos 0 then c.created_at else c.updated_at

abbrev pub later : ℤ → ℤ → ℤ
later a b = if leb_ℤ b a then a else b

-- newLastCheck
unfoldable pub newest : ℤ → List ChunkRecord → ℤ
newest last [] = last
newest last (c ∷ cs) = newest (later last (updated c)) cs

-- A record that the first loop leaves out: it waits for a retry, or its message is there.
abbrev pub is_settled : Db → ChunkRecord → Bool
is_settled d c = is_chunk_failed c.file_id c.chunk_index d || find_message_by_id c.file_id d

unfoldable pub group_records : Db → List ChunkRecord → Groups → Groups
group_records d [] groups = groups
group_records d (c ∷ cs) groups =
    group_records d cs (if is_settled d c then groups else add_record c groups)

module _ (env : Env) where
  -- safeToAdvance, and the session after all messages.
  unfoldable pub collect_groups : Groups → Session → Bool × Session
  collect_groups [] s = (true, s)
  collect_groups ((id, records) ∷ groups) s =
      let here = collect_and_process_message env id records s in
      let rest = collect_groups groups here.1 in (here.0 && rest.0, rest.1)

  abbrev pub advance : String → ℤ → ℤ → Bool × Session → Session
  advance recipient last newest (safe, s) =
      if safe && not (leb_ℤ newest last)
      then with_db (set_last_chunk_check recipient newest (db s)) s
      else s

  -- checkRecipientMessages up to the retries, for the records of the answer.
  unfoldable pub take_records : String → List ChunkRecord → Session → Session
  take_records recipient chunks s =
      let last = get_last_chunk_check recipient (db s) in
      advance recipient last (newest last chunks)
        (collect_groups (group_records (db s) chunks []) s)

  abbrev pub retry_records : String → Option (List ChunkRecord) → Session → Session
  retry_records file_id none s = s
  retry_records file_id (some records) s = (collect_and_process_message env file_id records s).1

  abbrev pub has_expired : FailedChunk → Bool
  has_expired fc = add_leb fc.created_at fc.ttl_seconds (unix env.now)

  -- The loop of retryFailedChunks, with the files that it has seen.
  unfoldable pub retry_each : List String → List FailedChunk → Session → Session
  retry_each seen [] s = s
  retry_each seen (fc ∷ fcs) s =
      let skip = has_expired fc || member fc.file_id seen in
      retry_each (if skip then seen else fc.file_id ∷ seen) fcs (
        if has_expired fc
        then with_db (delete_failed_chunk fc.file_id fc.chunk_index (db s)) s
        else if member fc.file_id seen
        then s
        else retry_records fc.file_id (env.chunks_by_file_id fc.file_id) s)

  unfoldable pub retry_failed_chunks : String → Session → Session
  retry_failed_chunks recipient s = retry_each [] (list_failed_chunks recipient (db s)) s

  abbrev pub check_answer : String → Option (List ChunkRecord) → Session → Session
  check_answer recipient none s = s
  check_answer recipient (some []) s = retry_failed_chunks recipient s
  check_answer recipient (some chunks) s =
      retry_failed_chunks recipient (take_records recipient chunks s)

  -- One less.
  abbrev pub one_before : ℤ → ℤ
  one_before (pos (suc n)) = pos n
  one_before (pos zero) = negsuc 0
  one_before (negsuc n) = negsuc (suc n)

  unfoldable pub check_recipient_messages : String → Session → Session
  check_recipient_messages recipient s =
      check_answer recipient
        (env.chunks_by_recipient recipient (one_before (get_last_chunk_check recipient (db s)))) s

  unfoldable pub check_groups : List GroupChat → Session → Session
  check_groups [] s = s
  check_groups (g ∷ gs) s =
      check_groups gs (check_recipient_messages (str_append g.uid (str_append ":" g.sign_public)) s)

  unfoldable pub check_pending_messages : Session → Session
  check_pending_messages s =
      let s' = check_recipient_messages env.own_key s in check_groups (get_group_chats (db s')) s'
