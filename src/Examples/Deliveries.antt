-- ===== src/Examples/Deliveries.antt =====
-- Tests of the delivery: two payloads for bob go to carol, who stores them.
use huginn_messenger.Prelude.{◌≡◌, refl, true, false, some, none, [], ◌∷◌, map, select, All}
use huginn_messenger.Prelude.Int.{pos, int64}
use huginn_messenger.Prelude.Strings.{trim_suffix, trim_right, trim_left, before_colon}
use huginn_messenger.Store.Sql.{update}
use huginn_messenger.Store.Clock.{duration_of_seconds}
use huginn_messenger.Store.Pending.{mark_chunk_placed}
use huginn_messenger.Messenger.Peers.{Peer, key, display_login}
use huginn_messenger.Messenger.Delivery.Location.{
  Courier, register_chunk_location, remaining_chunk_ttl, existing,
}
use huginn_messenger.Messenger.Delivery.{
  distribute_chunks, distribute_groups, distribute_chunks_for_recipient, by_recipient, by_file,
  add_chunk, visit_peers, visit_peer, deliver_files, send_batches, advertise, mark_placed,
}
use huginn_messenger.Messenger.Delivery.Grouped.{group_at, is_for, by_recipient-eq-select}
use huginn_messenger.Messenger.Delivery.Sends.{IsFair, marked_by}
use huginn_messenger.Messenger.Delivery.Confirmed.{distribute_chunks-IsMarked}
use huginn_messenger.Examples.Data.{payloads, queued_db}

abbrev carol : Peer
carol = record {
  id = "c1";
  ids = "c1" ∷ [];
  login = "carol:c";
  encryption_key = "";
  signature_key = "c";
  last_seen = 1000000000000;
  ttl_seconds = pos 60;
  is_fake = false;
}

abbrev courier : Courier
courier = record {
  own_id = "a1";
  now = 1000000000000;
  peers = [];
  chunks_by_file_id = λ f. none;
  register_succeeds = λ f es. true;
  get_best_thick_peers = λ n. none;
  get_best_peers = λ n. some (carol ∷ []);
  is_connected = λ id. true;
  connect_peer = λ id. false;
  wait_for_peer_connection = λ id. false;
  is_confirmed = λ p batch. true;
  is_done_before = λ r. false;
  is_done_at = λ r id. false;
}

delivery_marks :
    map (λ c. c.placed) (distribute_chunks courier false payloads queued_db).1.pending_chunks
    ≡ true ∷ true ∷ []
unfolding distribute_chunks distribute_groups distribute_chunks_for_recipient by_recipient by_file
    add_chunk visit_peers visit_peer deliver_files send_batches advertise register_chunk_location
    remaining_chunk_ttl existing mark_placed mark_chunk_placed duration_of_seconds int64 key
    display_login trim_suffix trim_right trim_left before_colon update
delivery_marks = refl

distribute_chunks-IsMarked_example :
    All (IsFair courier) (distribute_chunks courier false payloads queued_db).0
    × ((distribute_chunks courier false payloads queued_db).1
        ≡ marked_by courier (distribute_chunks courier false payloads queued_db).0 queued_db)
distribute_chunks-IsMarked_example = distribute_chunks-IsMarked courier false payloads queued_db

by_recipient-eq-select_example :
    group_at "bob:b" (by_recipient courier.now payloads [])
    ≡ select (is_for courier.now "bob:b") payloads
by_recipient-eq-select_example = by_recipient-eq-select courier.now payloads "bob:b"
