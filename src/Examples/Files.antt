-- ===== src/Examples/Files.antt =====
-- Tests of the download of a file.
use huginn_messenger.Prelude.{zero, suc, ◌≡◌, refl, String, some, List, [], ◌∷◌, arith}
use huginn_messenger.Prelude.Int.{ℤ, pos}
use huginn_messenger.Prelude.Strings.{split_colon}
use huginn_messenger.Prelude.Result.{ok}
use huginn_messenger.Crypto.{decode_key, encode_key}
use huginn_messenger.Chunk.{compute_hash}
use huginn_messenger.Store.Sql.{lookup, has, upsert, update}
use huginn_messenger.Store.Rows.{Bytes}
use huginn_messenger.Store.Chunks.{list_chunks}
use huginn_messenger.Store.Downloads.{track_file_download, get_file_download}
use huginn_messenger.Messenger.Peers.{find_peer_by_key}
use huginn_messenger.Messenger.Session.{
  FileMeta, Env, panic, find_sender, try_process_msg, release_process_msg,
}
use huginn_messenger.Messenger.Files.{
  process_received_file, process_received_file_from_peer, with_chunks, save_opened,
}
use huginn_messenger.Messenger.Files.Prepare.{
  prepare_file_download, if_cancelled, if_completed, try_candidate, file_matches_meta, read_file,
  begin_file_download, check_not_cancelled,
}
use huginn_messenger.Messenger.Files.Open.{opened, open_file}
use huginn_messenger.Messenger.Files.Open.RoundTrip.{Holds, open_file-split}
use huginn_messenger.Examples.Envelopes.{
  plain, plain-IsLawful, plain-IsKeyPair, file_envelope, file_split,
}
use huginn_messenger.Examples.Inbox.{alice, bob, bob_env}

abbrev files_env : Env
files_env = record bob_env { unmarshal_envelope = λ b. some file_envelope }

abbrev file : FileMeta
file = record {
  file_id = "f";
  file_hash = "abaab";
  decryption_key = "";
  total_chunks = pos 1;
  filename = "notes.txt";
  file_path = "";
  source_peer_id = "";
}

abbrev chunk_map : List (ℤ × Bytes)
chunk_map = (pos 0, 9 ∷ []) ∷ []

holds : Holds files_env chunk_map (file_envelope ∷ []) 0
holds zero less = refl
holds (suc k) less = let no : ⊥ = omega (arith, less) in elim no [ ]

alice_found : (find_sender files_env "alice:aaaaaaab" bob).0 ≡ some alice
unfolding find_sender find_peer_by_key split_colon
alice_found = refl

alice_key : decode_key plain "aaaaaaab" ≡ ok (7 ∷ [])
unfolding decode_key
alice_key = refl

no_key : ◌≡◌ {A = String} "" (encode_key plain [])
unfolding encode_key
no_key = refl

notes_hash : ◌≡◌ {A = String} "abaab" (compute_hash plain (1 ∷ 2 ∷ []))
unfolding compute_hash
notes_hash = refl

open_file-split_example :
    (open_file files_env file "alice:aaaaaaab" chunk_map bob).0 ≡ opened (1 ∷ 2 ∷ [])
open_file-split_example =
    open_file-split files_env plain-IsLawful file "alice:aaaaaaab" "alice" chunk_map bob alice
      (1 ∷ 2 ∷ []) [] (7 ∷ []) (7 ∷ []) (λ i. some (1 ∷ [])) (file_envelope ∷ []) file_split refl
      no_key notes_hash holds refl alice_found alice_key plain-IsKeyPair

-- A message that announces a file of no chunks, whose id is that of a chunk in the store.
abbrev empty_file : FileMeta
empty_file = record file { file_id = "m"; total_chunks = pos 0 }

zero_total_panics :
    (process_received_file files_env empty_file "alice:aaaaaaab" bob).out ≡ panic ∷ []
unfolding process_received_file process_received_file_from_peer try_process_msg release_process_msg
    prepare_file_download track_file_download get_file_download if_cancelled if_completed
    try_candidate file_matches_meta read_file begin_file_download check_not_cancelled with_chunks
    save_opened open_file lookup has upsert update list_chunks
zero_total_panics = refl
