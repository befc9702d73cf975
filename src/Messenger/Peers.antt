-- ===== src/Messenger/Peers.antt =====
-- internal/messenger/peers.go: the peers that the messenger knows. `Peer` is that of
-- internal/muninn/client.go.
use huginn_messenger.Prelude.{
  String, Bool, false, Option, none, some, List, [], ◌∷◌, ◌++◌, map, ◌&&◌, not, str_eq,
  if◌then◌else◌, any, find, select,
}
use huginn_messenger.Prelude.Int.{ℤ, le_zero}
use huginn_messenger.Prelude.Strings.{
  str_append, split_colon, trim_space, trim_suffix, before_colon, starts_with_colon,
}
use huginn_messenger.Store.Clock.{Time, expired}
use huginn_messenger.Store.Rows.{Db}
use huginn_messenger.Store.Peers.{store_peer}

pub record Peer : Type 0 where
  pub id : String
  pub ids : List String
  pub login : String
  pub encryption_key : String
  pub signature_key : String
  pub last_seen : Time
  pub ttl_seconds : ℤ
  pub is_fake : Bool

abbrev pub login_part : String → String
login_part login = if starts_with_colon login then login else before_colon login

unfoldable pub display_login : Peer → String
display_login p = login_part (
    if str_eq p.signature_key ""
    then trim_space p.login
    else trim_suffix (trim_space p.login) (str_append ":" p.signature_key))

abbrev pub key_login : Peer → String
key_login p = if p.is_fake && not (str_eq p.id "") then p.id else display_login p

unfoldable pub key : Peer → String
key p =
    if str_eq p.signature_key ""
    then key_login p
    else str_append (key_login p) (str_append ":" p.signature_key)

-- peersMap, as the list of its entries, and the database. (`peers` is a copy of its values, in an
-- order that Go does not fix.)
pub record Book : Type 0 where
  pub peers_map : List (String × Peer)
  pub db : Db

abbrev pub contains : List String → String → Bool
contains ids id = any (λ i. str_eq i id) ids

abbrev pub entry_at : String → List (String × Peer) → Option Peer
entry_at k [] = none
entry_at k ((j, p) ∷ entries) = if str_eq j k then some p else entry_at k entries

abbrev pub set_entry : String → Peer → List (String × Peer) → List (String × Peer)
set_entry k p [] = (k, p) ∷ []
set_entry k p ((j, q) ∷ entries) =
    let rest = set_entry k p entries in if str_eq j k then (j, p) ∷ entries else (j, q) ∷ rest

abbrev pub add_id : String → List String → List String
add_id id ids = if contains ids id then ids else ids ++ id ∷ []

abbrev pub file_peer : String → Peer → Book → Option Peer → Book
file_peer peer_key p book (some old) = record book {
  peers_map = set_entry peer_key (record p { ids = add_id p.id old.ids }) book.peers_map;
}
file_peer peer_key p book none = record {
  peers_map = set_entry peer_key (record p { ids = p.id ∷ [] }) book.peers_map;
  db = store_peer p.login peer_key p.encryption_key p.signature_key p.last_seen p.is_fake book.db;
}

-- The arguments of upsertPeer are those of a peer and the key to file it under.
unfoldable pub upsert_peer : String → Peer → Book → Book
upsert_peer peer_key p book =
    file_peer peer_key (record p { login = display_login p }) book
      (entry_at peer_key book.peers_map)

unfoldable pub upsert_peers : List Peer → Book → Book
upsert_peers [] book = book
upsert_peers (p ∷ ps) book = upsert_peers ps (upsert_peer (key p) p book)

unfoldable pub peer_slice : Book → List Peer
peer_slice book = map (λ (e : String × Peer). e.1) book.peers_map

unfoldable pub get_peers : String → Book → List Peer
get_peers own_key book = select (λ p. not (str_eq (key p) own_key)) (peer_slice book)

-- p.LastSeen.Add(time.Duration(p.TTLSeconds) * time.Second).After(time.Now())
abbrev pub is_fresh : Time → Peer → Bool
is_fresh now p = not (expired now p.last_seen p.ttl_seconds)

-- The first peer with the id that is not fake and has a TTL decides.
unfoldable pub is_peer_online : String → Time → Book → Bool
is_peer_online peer_id now book =
    elim (find (λ p. contains p.ids peer_id && (not p.is_fake && not (le_zero p.ttl_seconds)))
      (peer_slice book)) [ none ↦ false | some p ↦ is_fresh now p ]

unfoldable pub is_peer_online_by_key : String → Time → Book → Bool
is_peer_online_by_key k now book =
    elim (find (λ p. str_eq (key p) k && (not p.is_fake && not (le_zero p.ttl_seconds)))
      (peer_slice book)) [ none ↦ false | some p ↦ is_fresh now p ]

unfoldable pub get_connected_peers : (String → Bool) → String → Book → List Peer
get_connected_peers is_connected own_id book =
    select (λ p. any (λ i. not (str_eq i own_id) && is_connected i) p.ids) (peer_slice book)

unfoldable pub find_by_id : String → Book → Option Peer
find_by_id id book = find (λ p. contains p.ids id) (peer_slice book)

-- The directory, which the client of internal/muninn asks: `none` is an error.
pub record Directory : Type 0 where
  pub get : String → Option Peer
  pub get_all_by_key : String → String → Option (List Peer)

module _ (directory : Directory) where
  open directory use {get, get_all_by_key}

  abbrev pub find_again : String → Book → Option Peer → Option Peer × Book
  find_again id book none = (none, book)
  find_again id book (some p) =
      let book' = upsert_peer (key p) p book in (find_by_id id book', book')

  abbrev pub known_or_ask : String → Book → Option Peer → Option Peer × Book
  known_or_ask id book (some p) = (some p, book)
  known_or_ask id book none = find_again id book (get id)

  unfoldable pub find_peer_by_id : String → Book → Option Peer × Book
  find_peer_by_id id book = known_or_ask id book (find_by_id id book)

  abbrev pub usable : Option Peer → Bool
  usable none = false
  usable (some p) = not (str_eq p.id "")

  abbrev pub file_answer : String → Book → Option (List Peer) → Option Peer × Book
  file_answer k book none = (none, book)
  file_answer k book (some ps) =
      let book' = upsert_peers ps book in (entry_at k book'.peers_map, book')

  abbrev pub find_in : String → Book → List String → Option Peer × Book
  find_in k book (login ∷ signature ∷ rest) =
      if usable (entry_at k book.peers_map)
      then (entry_at k book.peers_map, book)
      else file_answer k book (get_all_by_key login signature)
  find_in k book _ = (none, book)

  unfoldable pub find_peer_by_key : String → Book → Option Peer × Book
  find_peer_by_key k book = find_in k book (split_colon k)
