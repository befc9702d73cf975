-- ===== src/Store/Messages/Pages.antt =====
-- The order of the history.
use huginn_messenger.Prelude.{ℕ, ◌≡◌, refl, String, true, false, List, arith, map}
use mathlib.Core.List.{Permᴰ}
use huginn_messenger.Prelude.Int.{ℤ, pos, negsuc, leb_ℤ}
use huginn_messenger.Prelude.Sort.{sort_by, sort_by-perm, IsSorted, sort_by-IsSorted}
use huginn_messenger.Store.Rows.{Message, Db}
use huginn_messenger.Store.Messages.{
  history, oldest_first, newest_first, get_messages, get_messages_desc,
}

leb_ℤ-total : (a b : ℤ) → leb_ℤ a b ≡ false → leb_ℤ b a ≡ true
leb_ℤ-total (pos a) (pos b) h = ground arith
leb_ℤ-total (pos a) (negsuc b) h = refl
leb_ℤ-total (negsuc a) (pos b) h = cc
leb_ℤ-total (negsuc a) (negsuc b) h = ground arith

-- The chat's messages from the newest, whole.
abbrev newest : String → Db → List Message
newest peer_id db = sort_by newest_first (history peer_id db)

-- GetMessages lists the bodies of the chat's messages, each as often as it is stored, from the
-- oldest; with no limit and no offset GetMessagesDesc lists the same messages from the newest.
pub get_messages-IsSorted :
    (peer_id : String) (k : ℕ) (db : Db)
    → (up : List Message) × (down : List Message) × (get_messages peer_id db
        ≡ map (λ (m : Message). m.body) up)
      × (get_messages_desc peer_id (negsuc k) (pos 0) db ≡ map (λ (m : Message). m.body) down)
      × IsSorted oldest_first up
      × IsSorted newest_first down
      × Permᴰ up (history peer_id db)
      × Permᴰ down (history peer_id db)
unfolding get_messages get_messages_desc
get_messages-IsSorted peer_id k db = (
  sort_by oldest_first (history peer_id db),
  newest peer_id db,
  refl,
  refl,
  sort_by-IsSorted oldest_first (λ a b. leb_ℤ-total a.created_at b.created_at) (history peer_id db),
  sort_by-IsSorted newest_first (λ a b. leb_ℤ-total b.created_at a.created_at) (history peer_id db),
  sort_by-perm oldest_first (history peer_id db),
  sort_by-perm newest_first (history peer_id db),
)
