-- ===== src/Store/Groups.antt =====
-- internal/store/groupChatStore.go
use huginn_messenger.Prelude.{String, List, str_eq, leb, find}
use huginn_messenger.Prelude.Sort.{sort_by}
use huginn_messenger.Prelude.Result.{Result, ok, ◌>>=◌, of_option}
use huginn_messenger.Store.Sql.{Error, no_rows, insert, lookup, delete}
use huginn_messenger.Store.Rows.{GroupChat, group_pk, Db}

unfoldable pub create_group_chat : GroupChat → Db → Result Error Db
create_group_chat gc db = do
  groups ← insert group_pk gc db.group_chats
  ok (record db { group_chats = groups })

unfoldable pub get_group_chats : Db → List GroupChat
get_group_chats db = sort_by (λ a b. leb a.created_at b.created_at) db.group_chats

-- The first row with the name: names are not unique in the schema.
unfoldable pub get_group_chat_by_name : String → Db → Result Error GroupChat
get_group_chat_by_name name db = of_option no_rows (find (λ g. str_eq g.name name) db.group_chats)

unfoldable pub get_group_chat : String → Db → Result Error GroupChat
get_group_chat uid db = of_option no_rows (lookup group_pk uid db.group_chats)

unfoldable pub delete_group_chat : String → Db → Db
delete_group_chat uid db = record db { group_chats = delete group_pk uid db.group_chats }
