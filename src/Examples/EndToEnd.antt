-- ===== src/Examples/EndToEnd.antt =====
-- Tests of sending: alice writes to bob.
use mathlib.Core.List.{Permᴰ}
use huginn_messenger.Prelude.{◌≡◌, refl, false, none, some, [], ◌∷◌, ◌++◌, All}
use huginn_messenger.Prelude.Int.{pos}
use huginn_messenger.Prelude.Strings.{split_colon, strip_prefix}
use huginn_messenger.Prelude.Result.{ok}
use huginn_messenger.Crypto.{
  decode_key, encode_key, generate_encryption_key, clamp, derive_shared_key, encrypt_aes,
}
use huginn_messenger.Chunk.{
  registered_hash, split_and_encrypt, make_envelopes, make_envelope, envelope_bytes,
}
use huginn_messenger.Store.Sql.{insert, has, lookup}
use huginn_messenger.Store.Chunks.{get_chunk}
use huginn_messenger.Store.Messages.{find_message_by_id}
use huginn_messenger.Store.Pending.{queue_outgoing, queue_chunks, queue_chunk}
use huginn_messenger.Store.Pending.Queue.{IsQueued}
use huginn_messenger.Messenger.Peers.{Peer, key, find_peer_by_key}
use huginn_messenger.Messenger.Session.{Session, Env, db, find_sender}
use huginn_messenger.Messenger.Outgoing.{
  Fresh, OutgoingMessage, Sealed, pending_envelopes, pending_envelope, payload_of, prepare_files,
  seal_for, outgoing_of, prepare_for, find_recipient, prepare_outgoing,
}
use huginn_messenger.Messenger.Outgoing.Queued.{IsWaiting, prepare_outgoing-IsWaiting}
use huginn_messenger.Messenger.Inbox.Collect.{collect_and_process_message}
use huginn_messenger.Messenger.Inbox.Arrival.{Arrived, entries}
use huginn_messenger.Messenger.Inbox.Delivered.{IsDelivered}
use huginn_messenger.Messenger.EndToEnd.{IsReady, message_arrives}
use huginn_messenger.Examples.Envelopes.{plain, plain-IsLawful, plain-IsKeyPair, message_envelope}
use huginn_messenger.Examples.Inbox.{alice, bob, bob_env}
use huginn_messenger.Examples.Data.{empty_db}

-- Bob as alice knows him, and alice's side.
abbrev bob_peer : Peer
bob_peer = record alice { id = "bob"; ids = "bob" ∷ []; login = "bob"; signature_key = "b" }

abbrev alice_env : Env
alice_env = record bob_env { own_key = "alice:aaaaaaab"; own_id = "alice"; username = "alice" }

abbrev at_home : Session
at_home = record bob { book = record { peers_map = ("bob:b", bob_peer) ∷ []; db = empty_db } }

abbrev fresh : Fresh
fresh = record { msg_id = "m"; ephemeral = some []; nonces = λ i. some (1 ∷ []) }

abbrev sealed : Sealed
sealed = record { files = []; file_chunks = []; envelopes = message_envelope ∷ [] }

abbrev sent : OutgoingMessage
sent = outgoing_of alice_env "hi" (pos 60) fresh bob_peer sealed

recipient_found : find_recipient alice_env "bob:b" at_home ≡ (some bob_peer, at_home)
unfolding find_recipient find_sender find_peer_by_key split_colon
recipient_found = refl

is_sealed : seal_for alice_env "hi" [] (pos 60) fresh at_home bob_peer ≡ ok sealed
unfolding seal_for prepare_files decode_key split_and_encrypt generate_encryption_key clamp
    derive_shared_key make_envelopes make_envelope encrypt_aes encode_key envelope_bytes
is_sealed = refl

accepted : (prepare_outgoing alice_env "bob:b" "hi" [] (pos 60) fresh at_home).0 ≡ ok sent
unfolding prepare_outgoing find_recipient find_sender find_peer_by_key split_colon prepare_for
    seal_for prepare_files decode_key split_and_encrypt generate_encryption_key clamp
    derive_shared_key make_envelopes make_envelope encrypt_aes encode_key envelope_bytes
    queue_outgoing queue_chunks queue_chunk insert has pending_envelopes pending_envelope
accepted = refl

prepare_outgoing-IsWaiting_example :
    (sent ≡ outgoing_of alice_env "hi" (pos 60) fresh bob_peer sealed)
    × IsWaiting alice_env "hi" fresh sent
        (db (prepare_outgoing alice_env "bob:b" "hi" [] (pos 60) fresh at_home).1)
prepare_outgoing-IsWaiting_example =
    prepare_outgoing-IsWaiting alice_env "hi" fresh "bob:b" [] (pos 60) at_home at_home bob_peer
      sealed sent recipient_found is_sealed accepted

-- Bob's decoder gives alice's payload.
abbrev other : Env
other = record bob_env { unmarshal_payload = λ b. some (payload_of alice_env "hi" []) }

abbrev receiver : Env
receiver = record other { prim = alice_env.prim }

abbrev arrived : Arrived
arrived = record {
  entry = record {
    file_id = "m";
    chunk_index = pos 0;
    sender_id = "alice:aaaaaaab";
    recipient_id = "bob:b";
    hash = "h";
    peer_id = "a1";
    persist = false;
    created_at = pos 5;
    updated_at = pos 0;
    ttl = pos 60;
  };
  body = 9 ∷ [];
  envelope = message_envelope;
}

ready : IsReady receiver "m" alice (message_envelope ∷ []) arrived [] bob
unfolding find_peer_by_key split_colon find_message_by_id has get_chunk lookup registered_hash
ready = record {
  message = refl;
  ours = refl;
  known = λ d. refl;
  new = refl;
  idle = refl;
  distinct = (refl, tt);
  there = ((refl, refl, refl), tt);
  complete = Permᴰ.cons refl Permᴰ.nil;
  enough = refl;
}

public_key : decode_key plain "" ≡ ok []
unfolding decode_key
public_key = refl

alice_signs : decode_key plain "aaaaaaab" ≡ ok (7 ∷ [])
unfolding decode_key
alice_signs = refl

not_invited : strip_prefix "__group_invite__:" "hi" ≡ none
unfolding strip_prefix
not_invited = refl

message_arrives_example :
    (sent.chunks
      ≡ []
        ++ pending_envelopes alice_env
            (message_envelope ∷ [])
            (key bob_peer)
            alice_env.now
            (pos 60)
            false)
    × All
        (IsQueued (db (prepare_outgoing alice_env "bob:b" "hi" [] (pos 60) fresh at_home).1))
        sent.chunks
    × IsDelivered receiver "m" arrived.entry alice
        (payload_of alice_env "hi" [])
        (db (collect_and_process_message receiver "m" (entries (arrived ∷ [])) bob).1)
message_arrives_example =
    message_arrives alice_env other plain-IsLawful "bob:b" "hi" [] (pos 60) fresh at_home at_home
      bob bob_peer sealed sent alice [] (7 ∷ []) arrived [] recipient_found is_sealed accepted
      (λ e. cc) refl not_invited public_key refl plain-IsKeyPair alice_signs ready
