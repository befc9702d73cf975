-- ===== src/Store/Chunks/Expiry.antt =====
-- What deleteExpiredPayloads removes.
use huginn_messenger.Prelude.{
  ◌≡◌, refl, Bool, false, Option, none, some, List, [], ◌∷◌, arith, if◌then◌else◌, any,
}
use huginn_messenger.Prelude.Int.{ℤ}
use huginn_messenger.Store.Sql.{PrimaryKey, has, lookup, delete}
use huginn_messenger.Store.Sql.Laws.{lookup-delete}
use huginn_messenger.Store.Sql.Unique.{IsUnique, delete-IsUnique}
use huginn_messenger.Store.Clock.{Time}
use huginn_messenger.Store.Chunks.{is_expired, expired_keys, delete_keys, delete_expired_payloads}

module _ {R : Type 0} (pk : PrimaryKey R) (created : R → Time) (ttl : R → ℤ) where
  open pk use {Key, key, eqb, eqb_iff}

  abbrev expires : Time → R → Bool
  expires now r = is_expired pk created ttl now r

  abbrev mentions : Key → List Key → Bool
  mentions j ks = any (λ k. eqb k j) ks

  lookup-delete_keys :
      (j : Key) (ks : List Key) (t : List R)
      → lookup pk j (delete_keys pk created ttl ks t)
        ≡ (if mentions j ks then none else lookup pk j t)
  unfolding delete_keys
  lookup-delete_keys j [] t = refl
  lookup-delete_keys j (k ∷ ks) t =
      ground (arith, lookup-delete_keys j ks (delete pk k t), lookup-delete pk k j t)

  -- Only a key that the table has is listed.
  mentions_absent :
      (now : Time) (j : Key) (t : List R)
      → has pk j t ≡ false
      → mentions j (expired_keys pk created ttl now t) ≡ false
  unfolding has expired_keys
  mentions_absent now j [] h = refl
  mentions_absent now j (r ∷ t) h = ground (arith, mentions_absent now j t)

  abbrev pub row_expires : Time → Option R → Bool
  row_expires now none = false
  row_expires now (some r) = expires now r

  mentions-expired_keys :
      (now : Time) (j : Key) (t : List R)
      → IsUnique pk t
      → mentions j (expired_keys pk created ttl now t) ≡ row_expires now (lookup pk j t)
  unfolding lookup expired_keys
  mentions-expired_keys now j [] u = refl
  mentions-expired_keys now j (r ∷ t) u =
      ground (arith, mentions-expired_keys now j t, mentions_absent now j t, eqb_iff (key r) j)

  -- In a table with unique keys, a row is gone exactly if it has a positive TTL that has run out;
  -- every other row is kept as it is.
  pub lookup-delete_expired_payloads :
      (now : Time) (j : Key) (t : List R)
      → IsUnique pk t
      → lookup pk j (delete_expired_payloads pk created ttl now t)
        ≡ (if row_expires now (lookup pk j t) then none else lookup pk j t)
  unfolding delete_expired_payloads
  lookup-delete_expired_payloads now j t u = ground (
    arith,
    lookup-delete_keys j (expired_keys pk created ttl now t) t,
    mentions-expired_keys now j t,
  )

  delete_keys-IsUnique :
      (ks : List Key) (t : List R) → IsUnique pk t → IsUnique pk (delete_keys pk created ttl ks t)
  unfolding delete_keys
  delete_keys-IsUnique [] t u = u
  delete_keys-IsUnique (k ∷ ks) t u =
      delete_keys-IsUnique ks (delete pk k t) (delete-IsUnique pk k t u)

  pub delete_expired_payloads-IsUnique :
      (now : Time) (t : List R)
      → IsUnique pk t
      → IsUnique pk (delete_expired_payloads pk created ttl now t)
  unfolding delete_expired_payloads
  delete_expired_payloads-IsUnique now t u =
      delete_keys-IsUnique (expired_keys pk created ttl now t) t u
