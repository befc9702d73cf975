-- ===== src/Messenger/Session/Same.antt =====
-- The messages, the retry rows and the cursors stay as they are while a handler looks for peers.
use huginn_messenger.Prelude.{
  ◌≡◌, refl, ◌∙◌, String, Bool, true, false, Option, none, some, List, [], ◌∷◌, if◌then◌else◌,
}
use huginn_messenger.Store.Rows.{Db}
use huginn_messenger.Prelude.Strings.{split_colon}
use huginn_messenger.Store.Peers.{store_peer}
use huginn_messenger.Messenger.Peers.{
  Peer, Book, Directory, upsert_peer, upsert_peers, entry_at, key, usable, find_in,
  find_peer_by_key, file_peer, file_answer, display_login,
}
use huginn_messenger.Messenger.Session.{
  Session, Env, db, try_process_msg, release_process_msg, find_sender, member, unless_busy,
}

-- The three tables are the same in both databases.
abbrev pub SameDb : Db → Db → Type 0
SameDb d d' =
    (d'.messages ≡ d.messages)
    × (d'.failed_chunks ≡ d.failed_chunks)
    × (d'.last_check ≡ d.last_check)

abbrev pub Same : Session → Session → Type 0
Same s s' = SameDb (db s) (db s')

pub SameDb-trans : (a b c : Db) → SameDb a b → SameDb b c → SameDb a c
SameDb-trans a b c h k = (k.0 ∙ h.0, k.1 ∙ h.1, k.2 ∙ h.2)

pub Same-trans : (a b c : Session) → Same a b → Same b c → Same a c
Same-trans a b c h k = (k.0 ∙ h.0, k.1 ∙ h.1, k.2 ∙ h.2)

pub Same-if : (b : Bool) (s x y : Session) → Same s x → Same s y → Same s (if b then x else y)
Same-if true s x y h k = h
Same-if false s x y h k = k

file_peer-SameDb :
    (k : String) (p : Peer) (b : Book) (o : Option Peer) → SameDb b.db (file_peer k p b o).db
unfolding store_peer
file_peer-SameDb k p b (some old) = (refl, refl, refl)
file_peer-SameDb k p b none = (refl, refl, refl)

pub upsert_peers-SameDb : (ps : List Peer) (b : Book) → SameDb b.db (upsert_peers ps b).db
unfolding upsert_peers upsert_peer
upsert_peers-SameDb [] b = (refl, refl, refl)
upsert_peers-SameDb (p ∷ ps) b =
    let b' = upsert_peer (key p) p b in
    SameDb-trans b.db b'.db (upsert_peers ps b').db
      (file_peer-SameDb (key p) (record p { login = display_login p }) b
        (entry_at (key p) b.peers_map))
      (upsert_peers-SameDb ps b')

module _ (directory : Directory) where
  file_answer-SameDb :
      (k : String) (b : Book) (answer : Option (List Peer))
      → SameDb b.db (file_answer directory k b answer).1.db
  file_answer-SameDb k b none = (refl, refl, refl)
  file_answer-SameDb k b (some ps) = upsert_peers-SameDb ps b

  find_in-SameDb :
      (k : String) (b : Book) (parts : List String) → SameDb b.db (find_in directory k b parts).1.db
  find_in-SameDb k b [] = (refl, refl, refl)
  find_in-SameDb k b (login ∷ []) = (refl, refl, refl)
  find_in-SameDb k b (login ∷ signature ∷ rest) =
      by_test (usable directory (entry_at k b.peers_map))
    where
      by_test :
          (u : Bool)
          → SameDb b.db
              (if u
                then (entry_at k b.peers_map, b)
                else file_answer directory k b (directory.get_all_by_key login signature)).1.db
      by_test true = (refl, refl, refl)
      by_test false = file_answer-SameDb k b (directory.get_all_by_key login signature)

pub find_sender-Same : (env : Env) (k : String) (s : Session) → Same s (find_sender env k s).1
unfolding find_sender find_peer_by_key
find_sender-Same env k s = find_in-SameDb env.directory k s.book (split_colon k)

unless_busy-Same : (id : String) (s : Session) (b : Bool) → Same s (unless_busy id s b).1
unless_busy-Same id s true = (refl, refl, refl)
unless_busy-Same id s false = (refl, refl, refl)

pub try_process_msg-Same : (id : String) (s : Session) → Same s (try_process_msg id s).1
unfolding try_process_msg
try_process_msg-Same id s = unless_busy-Same id s (member id s.processing)

pub release_process_msg-Same : (id : String) (s : Session) → Same s (release_process_msg id s)
unfolding release_process_msg
release_process_msg-Same id s = (refl, refl, refl)
