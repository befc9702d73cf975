-- ===== src/Messenger/Chunks/Batch.antt =====
-- A batch that is acknowledged is stored.
use huginn_messenger.Prelude.{
  ◌≡◌, refl, ap, ◌∙◌, sym, subst, String, Bool, true, false, Option, some, List, [], ◌∷◌, ◌++◌,
  arith, any, All, if◌then◌else◌, Bool-cases, inl, inr,
}
use huginn_messenger.Prelude.Int.{ℤ}
use huginn_messenger.Prelude.Result.{ok, err}
use huginn_messenger.Store.Sql.Laws.{lookup-insert_or_replace}
use huginn_messenger.Crypto.{Primitives}
use huginn_messenger.Store.Clock.{Time}
use huginn_messenger.Store.Rows.{Bytes, chunk_key_eqb, chunk_key_eqb_iff, chunk_pk, Db}
use huginn_messenger.Store.Chunks.{store_chunk, get_chunk}
use huginn_messenger.Store.Track.{default_ttl}
use huginn_messenger.Messenger.Chunks.{
  ChunkStoreRequest, hash_mismatch, is_mismatch, go_on, reports, checks, handle_chunk_get,
  handle_chunk_store, store_chunk_batch,
}

abbrev pub key_of : ChunkStoreRequest → String × ℤ
key_of req = (req.file_id, req.chunk_index)

-- No two chunks of the batch have one key.
abbrev pub AreDistinct : List ChunkStoreRequest → Type 0
AreDistinct [] = Unit
AreDistinct (req ∷ reqs) =
    (any (λ r. chunk_key_eqb (key_of r) (key_of req)) reqs ≡ false) × AreDistinct reqs

get-store_chunk :
    (f g : String) (i j : ℤ) (b : Bytes) (ttl : ℤ) (at now : Time) (db : Db)
    → get_chunk g j now (store_chunk f i b ttl at db)
      ≡ (if chunk_key_eqb (f, i) (g, j) then some b else get_chunk g j now db)
unfolding get_chunk store_chunk
get-store_chunk f g i j b ttl at now db = ground (
  arith,
  lookup-insert_or_replace chunk_pk
      (record { file_id = f; chunk_index = i; body = b; created_at = at; ttl_seconds = ttl }) (g, j)
      db.chunks,
)

false_or_true : false ≡ true → ⊥
false_or_true h = cc

if_false : (b : Bool) (x y : Option Bytes) → b ≡ false → (if b then x else y) ≡ y
if_false b x y e = rw e refl

module _ (prim : Primitives) (own_key : String) (waiting : String → Bool) where
  abbrev store_all : String → List ChunkStoreRequest → Time → Db → Bool × Db
  store_all = store_chunk_batch prim own_key waiting

  refused :
      (peer : String) (req : ChunkStoreRequest) (now : Time) (db : Db)
      → is_mismatch prim own_key waiting req ≡ true
      → handle_chunk_store prim own_key waiting peer req now db ≡ err hash_mismatch
  unfolding handle_chunk_store
  refused peer req now db e = rw e refl

  accepted :
      (peer : String) (req : ChunkStoreRequest) (now : Time) (db : Db)
      → is_mismatch prim own_key waiting req ≡ false
      → handle_chunk_store prim own_key waiting peer req now db
        ≡ ok (
          reports prim own_key waiting peer req ++ checks prim own_key waiting req,
          store_chunk req.file_id req.chunk_index req.body (default_ttl req.ttl_seconds) now db,
        )
  unfolding handle_chunk_store
  accepted peer req now db e = rw e refl

  -- The rest of the batch, if the first chunk is right.
  batch-cons :
      (peer : String) (req : ChunkStoreRequest) (reqs : List ChunkStoreRequest) (now : Time)
      (db : Db)
      → (store_all peer (req ∷ reqs) now db).0 ≡ true
      → (is_mismatch prim own_key waiting req ≡ false)
        × (store_all peer (req ∷ reqs) now db
            ≡ store_all peer reqs now (
                store_chunk req.file_id req.chunk_index req.body
                  (default_ttl req.ttl_seconds)
                  now
                  db))
  unfolding store_chunk_batch
  batch-cons peer req reqs now db h = elim (Bool-cases (is_mismatch prim own_key waiting req)) [
    | inl e ↦
        elim (false_or_true (
          subst (λ r. (go_on prim own_key waiting db (λ d. store_all peer reqs now d) r).0 ≡ true)
            (refused peer req now db e) h)) [ ]
    | inr e ↦ (
      e,
      ap (go_on prim own_key waiting db (λ d. store_all peer reqs now d))
          (accepted peer req now db e),
    )
  ]

  batch_keeps :
      (peer : String) (reqs : List ChunkStoreRequest) (f : String) (i : ℤ) (now later : Time)
      (db : Db)
      → (store_all peer reqs now db).0 ≡ true
      → any (λ r. chunk_key_eqb (key_of r) (f, i)) reqs ≡ false
      → get_chunk f i later (store_all peer reqs now db).1 ≡ get_chunk f i later db
  unfolding store_chunk_batch
  batch_keeps peer [] f i now later db h other = refl
  batch_keeps peer (req ∷ reqs) f i now later db h other =
      let (right, rest) = batch-cons peer req reqs now db h in
      let next =
        store_chunk req.file_id req.chunk_index req.body (default_ttl req.ttl_seconds) now db in
      ap (λ r. get_chunk f i later r.1) rest
      ∙ batch_keeps peer reqs f i now later next (sym (ap (λ r. r.0) rest) ∙ h) (ground arith)
      ∙ get-store_chunk req.file_id f req.chunk_index i req.body (default_ttl req.ttl_seconds) now
          later db
      ∙ if_false (chunk_key_eqb (key_of req) (f, i)) (some req.body) (get_chunk f i later db)
          (ground arith)

  -- When a batch of chunks with distinct keys is acknowledged without an error, every chunk of it
  -- had the hash that it came with, if any, and a request for it gets its body, at any time.
  pub store_chunk_batch-handle_chunk_get :
      (peer : String) (reqs : List ChunkStoreRequest) (now later : Time) (db : Db)
      → AreDistinct reqs
      → (store_chunk_batch prim own_key waiting peer reqs now db).0 ≡ true
      → All
          (λ req.
            (is_mismatch prim own_key waiting req ≡ false)
            × (handle_chunk_get req.file_id req.chunk_index later
                  (store_chunk_batch prim own_key waiting peer reqs now db).1
                ≡ some req.body))
          reqs
  unfolding handle_chunk_get
  store_chunk_batch-handle_chunk_get peer [] now later db d h = tt
  store_chunk_batch-handle_chunk_get peer (req ∷ reqs) now later db d h =
      let (right, rest) = batch-cons peer req reqs now db h in
      let next =
        store_chunk req.file_id req.chunk_index req.body (default_ttl req.ttl_seconds) now db in
      let went = sym (ap (λ r. r.0) rest) ∙ h in
      subst
        (λ (out : Bool × Db).
          All
            (λ r.
              (is_mismatch prim own_key waiting r ≡ false)
              × (get_chunk r.file_id r.chunk_index later out.1 ≡ some r.body))
            (req ∷ reqs))
        (sym rest)
        (
          (
            right,
            batch_keeps peer reqs req.file_id req.chunk_index now later next went d.0
                ∙ get-store_chunk req.file_id req.file_id req.chunk_index req.chunk_index req.body
                    (default_ttl req.ttl_seconds) now later db
                ∙ rw ((chunk_key_eqb_iff (key_of req) (key_of req)).1 refl) refl,
          ),
          store_chunk_batch-handle_chunk_get peer reqs now later next d.1 went,
        )
