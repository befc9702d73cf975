-- ===== src/Examples/Inbox.antt =====
-- Tests of the poll: one message that arrives, and one whose payload is elsewhere.
use huginn_messenger.Prelude.{
  ◌≡◌, refl, sym, ◌∙◌, String, true, false, Option, none, some, List, [], ◌∷◌, All, any, subst,
  str_eq, if◌then◌else◌,
}
use huginn_messenger.Prelude.Int.{ℤ, pos}
use huginn_messenger.Prelude.Strings.{split_colon, strip_prefix, trim_left, trim_right, trim_suffix}
use huginn_messenger.Prelude.Sort.{sort_by}
use huginn_messenger.Crypto.{decode_key, derive_shared_key, decrypt_aes}
use huginn_messenger.Chunk.{
  registered_hash, assemble_and_decrypt, check_signatures, check_signature, envelope_bytes,
  open_envelopes, open_envelope,
}
use huginn_messenger.Store.Sql.{has, lookup, insert, insert_or_ignore, insert_or_replace, delete}
use huginn_messenger.Store.Chunks.{get_chunk}
use huginn_messenger.Store.Messages.{find_message_by_id, save_message}
use huginn_messenger.Store.Track.{
  store_failed_chunk, delete_failed_message, is_chunk_failed, get_last_chunk_check,
  set_last_chunk_check, list_failed_chunks,
}
use huginn_messenger.Messenger.Peers.{Peer, key, display_login, find_peer_by_key}
use huginn_messenger.Messenger.Session.{
  ChunkRecord, Session, Env, db, try_process_msg, release_process_msg, find_sender,
}
use huginn_messenger.Messenger.Fetch.{get_chunk_data}
use huginn_messenger.Messenger.Inbox.{
  add_record, newest, group_records, collect_groups, take_records, retry_failed_chunks, retry_each,
}
use huginn_messenger.Messenger.Inbox.Collect.{
  track_records, fetch_record, gather, unmarshal_all, complete_envelopes, collect_new,
  collect_and_process_message,
}
use huginn_messenger.Messenger.Inbox.Collect.Deliver.{
  check_invite_text, process_files, private_key, chat_id, deliver, with_sender, process_envelopes,
}
use huginn_messenger.Messenger.Inbox.Collect.Kept.{Kept}
use huginn_messenger.Messenger.Inbox.Collect.Tracked.{FirstIsMessage}
use huginn_messenger.Messenger.Inbox.Safe.{take_records-Kept}
use huginn_messenger.Messenger.Inbox.Retry.{is_over, retry_failed_chunks-Kept}
use huginn_messenger.Messenger.Inbox.Signed.{SignedBy, gathered, collect-SignedBy}
use huginn_messenger.Examples.Envelopes.{plain, message_envelope}
use huginn_messenger.Examples.Data.{empty_db}

abbrev pub alice : Peer
alice = record {
  id = "a1";
  ids = "a1" ∷ [];
  login = "alice";
  encryption_key = "";
  signature_key = "aaaaaaab";
  last_seen = 0;
  ttl_seconds = pos 120;
  is_fake = false;
}

abbrev pub bob_env : Env
bob_env = record {
  prim = plain;
  own_key = "bob:b";
  own_id = "b1";
  username = "bob";
  enc_private = [];
  sign_private = 7 ∷ [];
  sign_public = [];
  downloads_dir = "d";
  directory = record { get = λ id. none; get_all_by_key = λ login signature. none };
  chunks_by_recipient = λ recipient since. none;
  chunks_by_file_id = λ file_id. none;
  marshal_envelope = λ e. 9 ∷ [];
  marshal_payload = λ p. 1 ∷ 2 ∷ [];
  expected_bytes = λ file_id i hash. [];
  unmarshal_envelope = λ b. some message_envelope;
  unmarshal_payload = λ b. none;
  text_of = λ b. "hi";
  marshal_message = λ m. 1 ∷ [];
  unmarshal_invite = λ s. none;
  is_connected = λ id. true;
  join_path = λ a b. b;
  base_path = λ path. path;
  now = 1000000000000;
}

abbrev pub bob : Session
bob = record {
  book = record {
    peers_map = ("alice:aaaaaaab", alice) ∷ [];
    db = record empty_db {
      chunks =
          (record {
            file_id = "m";
            chunk_index = pos 0;
            body = 9 ∷ [];
            created_at = 1000000000000;
            ttl_seconds = pos 60;
          })
          ∷ [];
    };
  };
  processing = [];
  pending_downloads = [];
  download_contexts = [];
  disk = [];
  out = [];
}

abbrev record_of : String → ChunkRecord
record_of file_id = record {
  file_id = file_id;
  chunk_index = pos 0;
  sender_id = "alice:aaaaaaab";
  recipient_id = "bob:b";
  hash = "h";
  peer_id = "a1";
  persist = false;
  created_at = pos 5;
  updated_at = pos 0;
  ttl = pos 60;
}

delivered :
    find_message_by_id "m" (db (collect_and_process_message bob_env "m" (record_of "m" ∷ []) bob).1)
    ≡ true
unfolding collect_and_process_message try_process_msg track_records store_failed_chunk gather
    fetch_record get_chunk_data get_chunk registered_hash complete_envelopes unmarshal_all
    process_envelopes find_sender find_peer_by_key split_colon decode_key with_sender private_key
    assemble_and_decrypt check_signatures check_signature envelope_bytes open_envelopes
    open_envelope derive_shared_key decrypt_aes sort_by deliver check_invite_text strip_prefix
    process_files save_message insert has lookup delete_failed_message release_process_msg
    find_message_by_id collect_new key display_login chat_id insert_or_ignore trim_left trim_right
    trim_suffix
delivered = refl

not_there : find_message_by_id "m" (db bob) ≡ false
unfolding find_message_by_id has
not_there = refl

collect-SignedBy_example :
    (◌≡◌ {A = String} "m" "m")
    × SignedBy bob_env "m" (record_of "m") (gathered bob_env "m" (record_of "m" ∷ []) bob)
collect-SignedBy_example =
    collect-SignedBy bob_env "m" (record_of "m") [] bob "m" not_there delivered

abbrev answer : List ChunkRecord
answer = record_of "m" ∷ record_of "n" ∷ []

abbrev polled : Session
polled = take_records bob_env "bob:b" answer bob

cursor_moved : get_last_chunk_check "bob:b" (db polled) ≡ pos 5
unfolding collect_and_process_message try_process_msg track_records store_failed_chunk gather
    fetch_record get_chunk_data get_chunk registered_hash complete_envelopes unmarshal_all
    process_envelopes find_sender find_peer_by_key split_colon decode_key with_sender private_key
    assemble_and_decrypt check_signatures check_signature envelope_bytes open_envelopes
    open_envelope derive_shared_key decrypt_aes sort_by deliver check_invite_text strip_prefix
    process_files save_message insert has lookup delete_failed_message release_process_msg
    find_message_by_id collect_new key display_login chat_id insert_or_ignore trim_left trim_right
    trim_suffix take_records newest group_records add_record collect_groups is_chunk_failed
    get_last_chunk_check set_last_chunk_check insert_or_replace delete
cursor_moved = refl

cursor_was : get_last_chunk_check "bob:b" (db bob) ≡ pos 0
unfolding get_last_chunk_check lookup
cursor_was = refl

five_not_zero : ◌≡◌ {A = ℤ} (pos 5) (pos 0) → ⊥
five_not_zero e = cc

take_records-Kept_example :
    All (λ (c : ChunkRecord). Kept c.file_id c.chunk_index (db polled)) answer
take_records-Kept_example =
    take_records-Kept bob_env "bob:b" answer bob (refl, (refl, tt))
      (λ e. five_not_zero (sym cursor_moved ∙ e ∙ cursor_was))

-- A directory that knows "m", and takes all else for files.
abbrev asking_env : Env
asking_env = record bob_env {
  chunks_by_file_id = λ file_id.
      if str_eq file_id "m"
      then some (record_of "m" ∷ [])
      else some (record (record_of file_id) { persist = true } ∷ []);
}

-- A payload of "m" waits for a retry, and one of the file "f".
abbrev waiting : Session
waiting = record bob {
  book = record bob.book {
    db =
        store_failed_chunk "f" (pos 0) "bob:b" (pos 60) 1000000000000
          (store_failed_chunk "m" (pos 0) "bob:b" (pos 60) 1000000000000 (db bob));
  };
}

m_is_message :
    (records : List ChunkRecord)
    → asking_env.chunks_by_file_id "m" ≡ some records
    → FirstIsMessage records
m_is_message records h = subst FirstIsMessage (some_injective (record_of "m" ∷ []) records h) refl
  where
    some_injective :
        (a b : List ChunkRecord) → ◌≡◌ {A = Option (List ChunkRecord)} (some a) (some b) → a ≡ b
    some_injective a b e = cc

nothing_over : any (is_over asking_env "m" (pos 0)) (db waiting).failed_chunks ≡ false
unfolding store_failed_chunk insert_or_ignore has
nothing_over = refl

waits : Kept "m" (pos 0) (db waiting)
unfolding Kept find_message_by_id is_chunk_failed store_failed_chunk insert_or_ignore has
waits = refl

-- The retry delivers the message.
retry_delivers : find_message_by_id "m" (db (retry_failed_chunks asking_env "bob:b" waiting)) ≡ true
unfolding retry_failed_chunks retry_each list_failed_chunks collect_and_process_message
    try_process_msg track_records store_failed_chunk gather fetch_record get_chunk_data get_chunk
    registered_hash complete_envelopes unmarshal_all process_envelopes find_sender find_peer_by_key
    split_colon decode_key with_sender private_key assemble_and_decrypt check_signatures
    check_signature envelope_bytes open_envelopes open_envelope derive_shared_key decrypt_aes
    sort_by deliver check_invite_text strip_prefix process_files save_message insert has lookup
    delete_failed_message release_process_msg find_message_by_id collect_new key display_login
    chat_id insert_or_ignore trim_left trim_right trim_suffix
retry_delivers = refl

retry_failed_chunks-Kept_example :
    Kept "m" (pos 0) (db (retry_failed_chunks asking_env "bob:b" waiting))
retry_failed_chunks-Kept_example =
    retry_failed_chunks-Kept asking_env "bob:b" "m" (pos 0) waiting m_is_message nothing_over waits
