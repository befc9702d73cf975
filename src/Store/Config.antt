-- ===== src/Store/Config.antt =====
-- internal/store/configStore.go, and `Config` of internal/config/config.go.
pub mod RoundTrip
use huginn_messenger.Prelude.{
  String, Bool, true, false, Option, none, some, List, [], ◌∷◌, ◌||◌, str_eq, if◌then◌else◌,
}
use huginn_messenger.Prelude.Result.{Result, ok, err, ◌>>=◌, of_option}
use huginn_messenger.Store.Sql.{Error, config_not_found, config_nil, lookup, upsert}
use huginn_messenger.Store.Rows.{ConfigValue, config_pk, Db}

pub record Config : Type 0 where
  pub muninn_addr : String
  pub username : String
  pub peer_id : String
  pub db_path : String
  pub chunk_ttl : String
  pub peer_flag : String
  pub turn_addr : String
  pub turn_username : String
  pub turn_password : String

abbrev pub config_crypto_keys : String
config_crypto_keys = "crypto_keys"

abbrev pub config_username : String
config_username = "username"

abbrev pub config_muninn : String
config_muninn = "muninn"

abbrev pub config_peer_id : String
config_peer_id = "peer_id"

abbrev pub config_chunk_ttl : String
config_chunk_ttl = "chunk_ttl"

abbrev pub config_peer_flag : String
config_peer_flag = "peer_flag"

abbrev pub config_turn_addr : String
config_turn_addr = "turn_addr"

abbrev pub config_turn_user : String
config_turn_user = "turn_user"

abbrev pub config_turn_pass : String
config_turn_pass = "turn_pass"

abbrev value_or_missing : Option ConfigValue → Result Error String
value_or_missing none = err config_not_found
value_or_missing (some r) = ok r.value

unfoldable pub get_config_value : String → Db → Result Error String
get_config_value name db = value_or_missing (lookup config_pk name db.config_values)

unfoldable pub set_config_value : String → String → Db → Db
set_config_value name value db = record db {
  config_values =
      upsert config_pk (λ old excluded. record old { value = excluded.value })
        (record { name = name; value = value }) db.config_values;
}

unfoldable pub get_keys_json : Db → Result Error String
get_keys_json = get_config_value config_crypto_keys

unfoldable pub save_keys_json : String → Db → Db
save_keys_json = set_config_value config_crypto_keys

-- `if v, err := GetConfigValue(…); err == nil { field = v }` on a field that starts empty
abbrev pub value_or_empty : Result Error String → String
value_or_empty (ok v) = v
value_or_empty (err e) = ""

abbrev pub is_ok : Result Error String → Bool
is_ok (ok v) = true
is_ok (err e) = false

unfoldable pub load_app_config : Db → Result Error Config
load_app_config db =
    let field = λ (name : String). get_config_value name db in
    let has_value =
      is_ok (field config_username)
      || (is_ok (field config_muninn)
          || (is_ok (field config_peer_id)
              || (is_ok (field config_chunk_ttl)
                  || (is_ok (field config_peer_flag)
                      || (is_ok (field config_turn_addr)
                          || (is_ok (field config_turn_user)
                              || is_ok (field config_turn_pass))))))) in
    if has_value
    then ok (record {
      muninn_addr = value_or_empty (field config_muninn);
      username = value_or_empty (field config_username);
      peer_id = value_or_empty (field config_peer_id);
      db_path = "";
      chunk_ttl = value_or_empty (field config_chunk_ttl);
      peer_flag = value_or_empty (field config_peer_flag);
      turn_addr = value_or_empty (field config_turn_addr);
      turn_username = value_or_empty (field config_turn_user);
      turn_password = value_or_empty (field config_turn_pass);
    })
    else err config_not_found

-- `if value != "" { SetConfigValue(name, value) }`
unfoldable pub save_value : String → String → Db → Db
save_value name value db = if str_eq value "" then db else set_config_value name value db

-- The eight tests and saves, in their order.
unfoldable pub save_values : List (String × String) → Db → Db
save_values [] db = db
save_values ((name, value) ∷ rest) db = save_values rest (save_value name value db)

abbrev pub config_pairs : Config → List (String × String)
config_pairs cfg =
    (config_username, cfg.username)
    ∷ (config_muninn, cfg.muninn_addr)
    ∷ (config_peer_id, cfg.peer_id)
    ∷ (config_chunk_ttl, cfg.chunk_ttl)
    ∷ (config_peer_flag, cfg.peer_flag)
    ∷ (config_turn_addr, cfg.turn_addr)
    ∷ (config_turn_user, cfg.turn_username)
    ∷ (config_turn_pass, cfg.turn_password)
    ∷ []

-- A nil `*Config` is `none`.
unfoldable pub save_app_config : Option Config → Db → Result Error Db
save_app_config none db = err config_nil
save_app_config (some cfg) db = ok (save_values (config_pairs cfg) db)
