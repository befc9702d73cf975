-- ===== src/Store/Config/RoundTrip.antt =====
-- Saving a configuration and loading it again.
use huginn_messenger.Prelude.{
  ◌≡◌, refl, String, Bool, true, false, some, List, arith, str_eq, if◌then◌else◌, ◌||◌, ap, [], ◌∷◌,
  ◌∙◌, sym, Bool-cases, inl, inr,
}
use huginn_messenger.Prelude.Result.{Result, ok, err}
use huginn_messenger.Store.Sql.{Error, config_not_found}
use huginn_messenger.Store.Sql.Laws.{lookup-upsert}
use huginn_messenger.Store.Rows.{ConfigValue, config_pk, Db}
use huginn_messenger.Store.Config.{
  Config, config_crypto_keys, config_username, config_muninn, config_peer_id, config_chunk_ttl,
  config_peer_flag, config_turn_addr, config_turn_user, config_turn_pass, get_config_value,
  set_config_value, save_value, save_app_config, load_app_config, get_keys_json, value_or_empty,
  is_ok, save_values, config_pairs,
}

pub get-set_config_value :
    (n v j : String) (db : Db)
    → get_config_value j (set_config_value n v db)
      ≡ (if str_eq n j then ok v else get_config_value j db)
unfolding get_config_value set_config_value
get-set_config_value n v j db = ground (
  arith,
  lookup-upsert config_pk (λ (o e : ConfigValue). record o { value = e.value }) (λ o e. refl)
      (record { name = n; value = v }) j db.config_values,
)

get-save_value :
    (n v j : String) (db : Db)
    → get_config_value j (save_value n v db) ≡ (
        if str_eq n j
        then (if str_eq v "" then get_config_value j db else ok v)
        else get_config_value j db)
unfolding save_value
get-save_value n v j db = ground (arith, get-set_config_value n v j db)

-- What the saves of a list of pairs leave under a name.
abbrev value_after : List (String × String) → String → Result Error String → Result Error String
value_after [] j r = r
value_after ((n, v) ∷ ps) j r =
    value_after ps j (if str_eq n j then (if str_eq v "" then r else ok v) else r)

get-save_values :
    (ps : List (String × String)) (j : String) (db : Db)
    → get_config_value j (save_values ps db) ≡ value_after ps j (get_config_value j db)
unfolding save_values
get-save_values [] j db = refl
get-save_values ((n, v) ∷ ps) j db =
    get-save_values ps j (save_value n v db) ∙ ap (value_after ps j) (get-save_value n v j db)

-- A field that is empty in the saved configuration keeps its old value.
abbrev override : String → String → String
override new old = if str_eq new "" then old else new

abbrev pub merged : Config → Config → Config
merged cfg old = record {
  muninn_addr = override cfg.muninn_addr old.muninn_addr;
  username = override cfg.username old.username;
  peer_id = override cfg.peer_id old.peer_id;
  db_path = "";
  chunk_ttl = override cfg.chunk_ttl old.chunk_ttl;
  peer_flag = override cfg.peer_flag old.peer_flag;
  turn_addr = override cfg.turn_addr old.turn_addr;
  turn_username = override cfg.turn_username old.turn_username;
  turn_password = override cfg.turn_password old.turn_password;
}

abbrev LoadResult : Type 0
LoadResult = Result Error Config

ok_injective : (a b : Config) → ◌≡◌ {A = LoadResult} (ok a) (ok b) → a ≡ b
ok_injective a b h = cc

ok_or_err : (a : Config) (e : Error) → ◌≡◌ {A = LoadResult} (err e) (ok a) → ⊥
ok_or_err a e h = cc

override_value :
    (v : String) (r : Result Error String)
    → value_or_empty (if str_eq v "" then r else ok v) ≡ override v (value_or_empty r)
override_value v r = ground arith

-- A value that was there stays, maybe under a new text.
stays :
    (v : String) (r : Result Error String)
    → is_ok r ≡ true
    → is_ok (if str_eq v "" then r else ok v) ≡ true
stays v r h = ground arith

or_mono :
    (a b c d : Bool)
    → (a ≡ true → c ≡ true)
    → (b ≡ true → d ≡ true)
    → (a || b) ≡ true
    → (c || d) ≡ true
or_mono true b c d f g h = rw (f refl)
or_mono false b true d f g h = refl
or_mono false b false d f g h = g h

module _ (db : Db) where
  abbrev value : String → Result Error String
  value name = get_config_value name db

  abbrev has_value : Bool
  has_value =
      is_ok (value config_username)
      || (is_ok (value config_muninn)
          || (is_ok (value config_peer_id)
              || (is_ok (value config_chunk_ttl)
                  || (is_ok (value config_peer_flag)
                      || (is_ok (value config_turn_addr)
                          || (is_ok (value config_turn_user) || is_ok (value config_turn_pass)))))))

  abbrev loaded : Config
  loaded = record {
    muninn_addr = value_or_empty (value config_muninn);
    username = value_or_empty (value config_username);
    peer_id = value_or_empty (value config_peer_id);
    db_path = "";
    chunk_ttl = value_or_empty (value config_chunk_ttl);
    peer_flag = value_or_empty (value config_peer_flag);
    turn_addr = value_or_empty (value config_turn_addr);
    turn_username = value_or_empty (value config_turn_user);
    turn_password = value_or_empty (value config_turn_pass);
  }

  load_result : load_app_config db ≡ (if has_value then ok loaded else err config_not_found)
  unfolding load_app_config
  load_result = refl

  load_ok : {old : Config} → load_app_config db ≡ ok old → (has_value ≡ true) × (loaded ≡ old)
  load_ok {old} h = elim (Bool-cases has_value) [
    | inl e ↦ (e, ok_injective _ _ (sym (rw e at load_result) ∙ h))
    | inr e ↦ absurd (ok_or_err _ _ (sym (rw e at load_result) ∙ h))
  ]

module _ (cfg : Config) (db : Db) where
  abbrev db' : Db
  db' = save_values (config_pairs cfg) db

  -- One saved name: every other save leaves it alone.
  after : (j : String) → value db' j ≡ value_after (config_pairs cfg) j (value db j)
  after j = get-save_values (config_pairs cfg) j db

  still_there :
      (n v : String)
      → value db' n ≡ (if str_eq v "" then value db n else ok v)
      → is_ok (value db n) ≡ true
      → is_ok (value db' n) ≡ true
  still_there n v e h = rw e (stays v (value db n) h)

  has_value_after : has_value db ≡ true → has_value db' ≡ true
  has_value_after =
      or_mono _ _ _ _ (still_there config_username cfg.username (after config_username)) (
        or_mono _ _ _ _ (still_there config_muninn cfg.muninn_addr (after config_muninn)) (
          or_mono _ _ _ _ (still_there config_peer_id cfg.peer_id (after config_peer_id)) (
            or_mono _ _ _ _ (still_there config_chunk_ttl cfg.chunk_ttl (after config_chunk_ttl)) (
              or_mono _ _ _ _ (still_there config_peer_flag cfg.peer_flag (after config_peer_flag))
                (or_mono _ _ _ _
                  (still_there config_turn_addr cfg.turn_addr (after config_turn_addr))
                  (or_mono _ _ _ _
                    (still_there config_turn_user cfg.turn_username (after config_turn_user))
                    (still_there config_turn_pass cfg.turn_password (after config_turn_pass))))))))

  field_after :
      (n v : String)
      → value db' n ≡ (if str_eq v "" then value db n else ok v)
      → value_or_empty (value db' n) ≡ override v (value_or_empty (value db n))
  field_after n v e = ap value_or_empty e ∙ override_value v (value db n)

  loaded_after : loaded db' ≡ merged cfg (loaded db)
  loaded_after = λ i. record {
    muninn_addr = field_after config_muninn cfg.muninn_addr (after config_muninn) i;
    username = field_after config_username cfg.username (after config_username) i;
    peer_id = field_after config_peer_id cfg.peer_id (after config_peer_id) i;
    db_path = "";
    chunk_ttl = field_after config_chunk_ttl cfg.chunk_ttl (after config_chunk_ttl) i;
    peer_flag = field_after config_peer_flag cfg.peer_flag (after config_peer_flag) i;
    turn_addr = field_after config_turn_addr cfg.turn_addr (after config_turn_addr) i;
    turn_username = field_after config_turn_user cfg.turn_username (after config_turn_user) i;
    turn_password = field_after config_turn_pass cfg.turn_password (after config_turn_pass) i;
  }

-- Loading after saving: where a configuration could be loaded before, it can be loaded after, each
-- field is the saved one unless that is empty, in which case it is what was loaded before; and the
-- stored keys are untouched.
pub load-save :
    (cfg old : Config) (db db' : Db)
    → load_app_config db ≡ ok old
    → save_app_config (some cfg) db ≡ ok db'
    → (load_app_config db' ≡ ok (merged cfg old)) × (get_keys_json db' ≡ get_keys_json db)
unfolding save_app_config get_keys_json
load-save cfg old db db' h s =
    let (there, same) = load_ok db h in
    let e : save_values (config_pairs cfg) db ≡ db' = ground arith in
    rw (← e) (
      load_result (save_values (config_pairs cfg) db)
          ∙ rw (has_value_after cfg db there) (ap ok (loaded_after cfg db ∙ ap (merged cfg) same)),
      after cfg db config_crypto_keys,
    )
