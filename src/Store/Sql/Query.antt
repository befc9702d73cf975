-- ===== src/Store/Sql/Query.antt =====
-- Queries with WHERE and ORDER BY: which rows they return.
use huginn_messenger.Prelude.{
  ◌≡◌, refl, Bool, true, false, some, List, [], ◌∷◌, arith, map, any, select, Bool-cases, inl, inr,
  All, ◌||◌,
}
use huginn_messenger.Prelude.Sort.{sort_by, insert_sorted}
use huginn_messenger.Store.Sql.{PrimaryKey, at, has, lookup}
use huginn_messenger.Store.Sql.Laws.{has-eq-lookup, eqb_refl}
use huginn_messenger.Store.Sql.Unique.{IsUnique}

module _ {R : Type 0} where
  any-insert_sorted :
      (le : R → R → Bool) (p : R → Bool) (r : R) (t : List R)
      → any p (insert_sorted le r t) ≡ (p r || any p t)
  any-insert_sorted le p r [] = refl
  any-insert_sorted le p r (s ∷ t) = ground (arith, any-insert_sorted le p r t)

  pub any-sort_by : (le : R → R → Bool) (p : R → Bool) (t : List R) → any p (sort_by le t) ≡ any p t
  unfolding sort_by
  any-sort_by le p [] = refl
  any-sort_by le p (r ∷ t) =
      ground (arith, any-insert_sorted le p r (sort_by le t), any-sort_by le p t)

  All-insert_sorted {ℓ} :
      (P : R → Type ℓ) (le : R → R → Bool) (r : R) (t : List R)
      → P r
      → All P t
      → All P (insert_sorted le r t)
  All-insert_sorted P le r [] h a = (h, tt)
  All-insert_sorted P le r (s ∷ t) h a = elim (Bool-cases (le r s)) [
    | inl e ↦ rw e (h, a)
    | inr e ↦ rw e (a.0, All-insert_sorted P le r t h a.1)
  ]

  pub All-sort_by {ℓ} :
      (P : R → Type ℓ) (le : R → R → Bool) (t : List R) → All P t → All P (sort_by le t)
  unfolding sort_by
  All-sort_by P le [] a = tt
  All-sort_by P le (r ∷ t) a = All-insert_sorted P le r (sort_by le t) a.0 (All-sort_by P le t a.1)

  pub any-map :
      {S : Type 0} (f : R → S) (p : S → Bool) (t : List R) → any p (map f t) ≡ any (λ r. p (f r)) t
  any-map f p [] = refl
  any-map f p (r ∷ t) = ground (arith, any-map f p t)

  pub All-map {ℓ} :
      {S : Type 0} (f : R → S) (P : S → Type ℓ) (t : List R)
      → All (λ r. P (f r)) t
      → All P (map f t)
  All-map f P [] a = tt
  All-map f P (r ∷ t) a = (a.0, All-map f P t a.1)

  pub All-imp {ℓ κ} :
      (P : R → Type ℓ) (Q : R → Type κ) (t : List R) → ((r : R) → P r → Q r) → All P t → All Q t
  All-imp P Q [] f a = tt
  All-imp P Q (r ∷ t) f a = (f r a.0, All-imp P Q t f a.1)

module _ {R : Type 0} (pk : PrimaryKey R) where
  open pk use {Key, key, eqb, eqb_iff}

  -- A row that passes the WHERE is among the rows selected.
  pub any-select :
      (k : Key) (q : R → Bool) (t : List R) {r : R}
      → lookup pk k t ≡ some r
      → q r ≡ true
      → any (at pk k) (select q t) ≡ true
  unfolding lookup
  any-select k q [] {r} h e = cc
  any-select k q (s ∷ t) {r} h e = ground (arith, any-select k q t {r = r})

  lookup_later :
      (k : Key) (r s : R) (t : List R)
      → has pk (key r) t ≡ false
      → lookup pk k t ≡ some s
      → lookup pk k (r ∷ t) ≡ some s
  unfolding lookup
  lookup_later k r s t h e = ground (arith, has-eq-lookup pk (key r) t, eqb_iff (key r) k)

  -- With unique keys, every row is found under its key.
  pub All-lookup_self : (t : List R) → IsUnique pk t → All (λ r. lookup pk (key r) t ≡ some r) t
  All-lookup_self [] u = tt
  All-lookup_self (r ∷ t) u = (
    unfold lookup in (ground (arith, eqb_refl pk (key r))),
    All-imp (λ s. lookup pk (key s) t ≡ some s) (λ s. lookup pk (key s) (r ∷ t) ≡ some s) t
        (λ s e. lookup_later (key s) r s t u.0 e) (All-lookup_self t u.1),
  )
