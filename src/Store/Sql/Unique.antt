-- ===== src/Store/Sql/Unique.antt =====
-- Every statement keeps the primary keys of a table unique.
use huginn_messenger.Prelude.{
  ◌≡◌, refl, Bool, false, Option, none, some, List, [], ◌∷◌, ◌++◌, arith, any, ◌||◌, ◌&&◌, reject,
  adjust,
}
use huginn_messenger.Prelude.Result.{IfOk}
use huginn_messenger.Store.Sql.{
  PrimaryKey, at, has, lookup, lookup, delete, update, insert, insert_or_replace, insert_or_ignore,
  upsert,
}
use huginn_messenger.Store.Sql.Laws.{any-append, eqb_refl, has-eq-lookup, lookup-delete}

module _ {R : Type 0} (pk : PrimaryKey R) where
  open pk use {Key, key, eqb, eqb_iff}

  abbrev pub IsUnique : List R → Type 0
  IsUnique [] = Unit
  IsUnique (r ∷ t) = (has pk (key r) t ≡ false) × IsUnique t

  has-append_one :
      (k : Key) (r : R) (t : List R) → has pk k (t ++ r ∷ []) ≡ (has pk k t || eqb (key r) k)
  unfolding has
  has-append_one k r t = ground (arith, any-append (at pk k) t (r ∷ []))

  append_one-IsUnique :
      (r : R) (t : List R) → has pk (key r) t ≡ false → IsUnique t → IsUnique (t ++ r ∷ [])
  unfolding has
  append_one-IsUnique r [] h u = (refl, tt)
  append_one-IsUnique r (s ∷ t) h u = (
    ground (arith, has-append_one (key s) r t, eqb_iff (key r) (key s), eqb_iff (key s) (key r)),
    append_one-IsUnique r t (ground arith) u.1,
  )

  has-reject :
      (p : R → Bool) (j : Key) (t : List R) → has pk j t ≡ false → has pk j (reject p t) ≡ false
  unfolding has
  has-reject p j [] h = refl
  has-reject p j (r ∷ t) h = ground (arith, has-reject p j t)

  has-delete_self : (k : Key) (t : List R) → has pk k (delete pk k t) ≡ false
  has-delete_self k t =
      ground (arith, has-eq-lookup pk k (delete pk k t), lookup-delete pk k k t, eqb_refl pk k)

  pub reject-IsUnique : (p : R → Bool) (t : List R) → IsUnique t → IsUnique (reject p t)
  reject-IsUnique p [] u = tt
  reject-IsUnique p (r ∷ t) u = ground (arith, has-reject p (key r) t, reject-IsUnique p t)

  pub delete-IsUnique : (k : Key) (t : List R) → IsUnique t → IsUnique (delete pk k t)
  unfolding delete
  delete-IsUnique k t u = reject-IsUnique (at pk k) t u

  has-adjust :
      (p : R → Bool) (f : R → R)
      → ((r : R) → key (f r) ≡ key r)
      → (j : Key) (t : List R) → has pk j (adjust p f t) ≡ has pk j t
  unfolding has
  has-adjust p f keeps j [] = refl
  has-adjust p f keeps j (r ∷ t) = ground (arith, keeps r, has-adjust p f keeps j t)

  -- An UPDATE that leaves the key alone.
  pub adjust-IsUnique :
      (p : R → Bool) (f : R → R)
      → ((r : R) → key (f r) ≡ key r)
      → (t : List R) → IsUnique t
      → IsUnique (adjust p f t)
  adjust-IsUnique p f keeps [] u = tt
  adjust-IsUnique p f keeps (r ∷ t) u =
      ground (arith, keeps r, has-adjust p f keeps (key r) t, adjust-IsUnique p f keeps t)

  pub update-IsUnique :
      (k : Key) (f : R → R)
      → ((r : R) → key (f r) ≡ key r)
      → (t : List R) → IsUnique t
      → IsUnique (update pk k f t)
  unfolding update
  update-IsUnique k f keeps t u = adjust-IsUnique (at pk k) f keeps t u

  pub insert-IsUnique : (r : R) (t : List R) → IsUnique t → IfOk IsUnique (insert pk r t)
  unfolding insert
  insert-IsUnique r t u = ground (arith, append_one-IsUnique r t)

  pub insert_or_replace-IsUnique :
      (r : R) (t : List R) → IsUnique t → IsUnique (insert_or_replace pk r t)
  unfolding insert_or_replace
  insert_or_replace-IsUnique r t u =
      append_one-IsUnique r (delete pk (key r) t) (has-delete_self (key r) t)
        (delete-IsUnique (key r) t u)

  pub insert_or_ignore-IsUnique :
      (r : R) (t : List R) → IsUnique t → IsUnique (insert_or_ignore pk r t)
  unfolding insert_or_ignore
  insert_or_ignore-IsUnique r t u = ground (arith, append_one-IsUnique r t)

  pub upsert-IsUnique :
      (merge : R → R → R)
      → ((o e : R) → key (merge o e) ≡ key o)
      → (r : R) (t : List R) → IsUnique t
      → IsUnique (upsert pk merge r t)
  unfolding upsert
  upsert-IsUnique merge keeps r t u =
      ground (
        arith,
        append_one-IsUnique r t,
        update-IsUnique (key r) (λ o. merge o r) (λ o. keeps o r) t,
      )

  abbrev pub row_passes : (R → Bool) → Option R → Bool
  row_passes test none = false
  row_passes test (some r) = test r

  any-and_absent :
      (k : Key) (test : R → Bool) (t : List R)
      → has pk k t ≡ false
      → any (λ r. eqb (key r) k && test r) t ≡ false
  unfolding has
  any-and_absent k test [] h = refl
  any-and_absent k test (r ∷ t) h = ground (arith, any-and_absent k test t)

  -- WHERE key = k AND test affects a row exactly if the row with the key passes the test.
  pub any-and :
      (k : Key) (test : R → Bool) (t : List R)
      → IsUnique t
      → any (λ r. eqb (key r) k && test r) t ≡ row_passes test (lookup pk k t)
  unfolding lookup
  any-and k test [] u = refl
  any-and k test (r ∷ t) u =
      ground (arith, any-and k test t, any-and_absent k test t, eqb_iff (key r) k)
