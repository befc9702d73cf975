-- ===== src/Store/Peers.antt =====
-- internal/store/peerStore.go
use Prim.Native.Char.{code}
use huginn_messenger.Prelude.{String, Bool, not, ◌&&◌, List, map, leb, select, ◌==◌, if◌then◌else◌}
use huginn_messenger.Prelude.Sort.{sort_by}
use huginn_messenger.Store.Sql.{insert_or_replace}
use huginn_messenger.Store.Clock.{Time}
use huginn_messenger.Store.Rows.{PeerRow, peer_pk, Db}

pub record StoredPeer : Type 0 where
  pub peer_id : String
  pub encryption_key : String
  pub signature_key : String
  pub last_seen : Time
  pub is_fake : Bool

-- strings.Split(key, ":")[0]
unfoldable pub get_login : String → String
get_login String.[] = ""
get_login (String.◌∷◌ c s) =
    let rest = get_login s in if code c == b':' then "" else String.◌∷◌ c rest

unfoldable pub store_peer : String → String → String → String → Time → Bool → Db → Db
store_peer login peer_id encryption_key signature_key last_seen is_fake db = record db {
  stored_peers =
      insert_or_replace peer_pk
        (record {
          login = login;
          peer_id = peer_id;
          encryption_key = encryption_key;
          signature_key = signature_key;
          last_seen = last_seen;
          is_fake = is_fake;
        })
        db.stored_peers;
}

abbrev stored_peer : PeerRow → StoredPeer
stored_peer p = record {
  peer_id = p.peer_id;
  encryption_key = p.encryption_key;
  signature_key = p.signature_key;
  last_seen = p.last_seen;
  is_fake = p.is_fake;
}

-- ORDER BY last_seen DESC
abbrev last_seen_first : PeerRow → PeerRow → Bool
last_seen_first a b = leb b.last_seen a.last_seen

unfoldable pub get_stored_peers : Db → List StoredPeer
get_stored_peers db =
    map stored_peer (sort_by last_seen_first (select (λ p. not p.is_fake) db.stored_peers))

-- SQLite's LIKE is a parameter: `like_infix query text` is `text LIKE '%' || query || '%'`.
module _ (like_infix : String → String → Bool) where
  pub search_stored_peers : String → Db → List StoredPeer
  search_stored_peers query db = map stored_peer (
      sort_by last_seen_first
        (select (λ p. like_infix query p.peer_id && not p.is_fake) db.stored_peers))
