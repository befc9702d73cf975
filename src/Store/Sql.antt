-- ===== src/Store/Sql.antt =====
-- The SQL that the store's methods send, as operations on a table: a table is the list of its rows,
-- in the order of insertion, and a primary key says which rows are one.
pub mod Laws
pub mod Unique
pub mod Query
use huginn_messenger.Prelude.{
  ◌≡◌, ◌↔◌, Bool, true, false, Option, List, [], ◌∷◌, ◌++◌, if◌then◌else◌, find, any, reject,
  adjust,
}
use huginn_messenger.Prelude.Result.{Result, ok, err}

-- What a statement or a method reports. (Failures of the disk are not modelled.)
pub data Error : Type 0 where
  constraint_failed : Error  -- UNIQUE or PRIMARY KEY constraint
  no_rows : Error  -- sql.ErrNoRows
  invalid_outgoing_chunk : Error
  empty_file_id : Error
  bad_ttl : Error
  file_download_not_found : Error
  download_not_active : Error  -- ErrDownloadNotActive
  empty_peer_id : Error
  zero_time : Error
  checkpoint_precedes : Error
  unsupported_version : Error
  config_not_found : Error  -- ErrConfigNotFound
  config_nil : Error

pub record PrimaryKey (R : Type 0) : Type 1 where
  pub Key : Type 0
  pub key : R → Key
  pub eqb : Key → Key → Bool
  pub eqb_iff : (a b : Key) → (eqb a b ≡ true) ↔ (a ≡ b)

module _ {R : Type 0} (pk : PrimaryKey R) where
  open pk use {Key, key, eqb}

  -- WHERE key = k
  abbrev pub at : Key → R → Bool
  at k r = eqb (key r) k

  unfoldable pub has : Key → List R → Bool
  has k t = any (at k) t

  -- SELECT … WHERE key = k
  unfoldable pub lookup : Key → List R → Option R
  lookup k t = find (at k) t

  -- DELETE … WHERE key = k
  unfoldable pub delete : Key → List R → List R
  delete k t = reject (at k) t

  -- UPDATE … SET … WHERE key = k
  unfoldable pub update : Key → (R → R) → List R → List R
  update k f t = adjust (at k) f t

  -- INSERT
  unfoldable pub insert : R → List R → Result Error (List R)
  insert r t = if has (key r) t then err constraint_failed else ok (t ++ r ∷ [])

  -- INSERT OR REPLACE
  unfoldable pub insert_or_replace : R → List R → List R
  insert_or_replace r t = delete (key r) t ++ r ∷ []

  -- INSERT OR IGNORE, INSERT … ON CONFLICT DO NOTHING
  unfoldable pub insert_or_ignore : R → List R → List R
  insert_or_ignore r t = if has (key r) t then t else t ++ r ∷ []

  -- INSERT … ON CONFLICT DO UPDATE SET …; `merge old excluded` is the updated row.
  unfoldable pub upsert : (R → R → R) → R → List R → List R
  upsert merge r t = if has (key r) t then update (key r) (λ old. merge old r) t else t ++ r ∷ []
