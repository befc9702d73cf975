-- ===== src/Examples/Data.antt =====
-- A small database, before and after a message of two payloads is queued.
use huginn_messenger.Prelude.{ℕ, refl, true, false, List, [], ◌∷◌}
use huginn_messenger.Prelude.Int.{pos}
use huginn_messenger.Store.Sql.{has}
use huginn_messenger.Store.Rows.{PendingChunk, Db}
use huginn_messenger.Store.Pending.{chunk_of}
use huginn_messenger.Store.Pending.Queue.{message_row}
use huginn_messenger.Store.Invariant.{IsValid}

abbrev pub empty_db : Db
empty_db = record {
  chunks = [];
  pending_chunks = [];
  failed_chunks = [];
  messages = [];
  stored_peers = [];
  group_chats = [];
  last_check = [];
  config_values = [];
  file_downloads = [];
  last_state_check = [];
}

-- A payload of message "m1", queued at second 1000 for a minute.
abbrev pub payload : ℕ → PendingChunk
payload i = record {
  file_id = "m1";
  chunk_index = pos i;
  recipient_id = "bob:b";
  sender_id = "alice:a";
  body = i ∷ 7 ∷ [];
  hash = "h";
  signature = "s";
  created_at = 1000000000000;
  placed = false;
  ttl_seconds = pos 60;
  persist = true;
}

abbrev pub payloads : List PendingChunk
payloads = payload 0 ∷ payload 1 ∷ []

abbrev pub queued_db : Db
queued_db = record empty_db {
  chunks = chunk_of (payload 0) ∷ chunk_of (payload 1) ∷ [];
  pending_chunks = payloads;
  messages = message_row "m1" "bob" "alice" "bob:b" (1 ∷ []) (pos 5) 1000000000000 ∷ [];
}

pub queued_db-IsValid : IsValid queued_db
unfolding has
queued_db-IsValid = record {
  chunks = (refl, (refl, tt));
  pending = (refl, (refl, tt));
  failed = tt;
  messages = (refl, tt);
  peers = tt;
  groups = tt;
  cursors = tt;
  config = tt;
  downloads = tt;
  checks = tt;
}

pub empty_db-IsValid : IsValid empty_db
empty_db-IsValid = record {
  chunks = tt;
  pending = tt;
  failed = tt;
  messages = tt;
  peers = tt;
  groups = tt;
  cursors = tt;
  config = tt;
  downloads = tt;
  checks = tt;
}
