-- ===== src/Store/Sql/Laws.antt =====
-- What a row with a given key is after each statement, and that primary keys stay unique.
use mathlib.Core.Option
use huginn_messenger.Prelude.{
  ◌≡◌, refl, Bool, true, false, none, some, List, [], ◌∷◌, ◌++◌, arith, if◌then◌else◌, find, any,
  reject, adjust, Bool-cases, inl, inr, All, ◌||◌, ◌&&◌,
}
use huginn_messenger.Prelude.Result.{ok, IfOk}
use huginn_messenger.Store.Sql.{
  PrimaryKey, at, has, lookup, delete, update, insert, insert_or_replace, insert_or_ignore, upsert,
}

module _ {R : Type 0} where
  pub find-append :
      (p : R → Bool) (xs ys : List R)
      → find p (xs ++ ys) ≡ elim (find p xs) [ none ↦ find p ys | some r ↦ some r ]
  find-append p [] ys = refl
  find-append p (x ∷ xs) ys = ground (arith, find-append p xs ys)

  pub any-append : (p : R → Bool) (xs ys : List R) → any p (xs ++ ys) ≡ (any p xs || any p ys)
  any-append p [] ys = refl
  any-append p (x ∷ xs) ys = ground (arith, any-append p xs ys)

module _ {R : Type 0} (pk : PrimaryKey R) where
  open pk use {Key, key, eqb, eqb_iff}

  pub eqb_refl : (k : Key) → eqb k k ≡ true
  eqb_refl k = (eqb_iff k k).1 refl

  pub has-eq-lookup :
      (k : Key) (t : List R) → has pk k t ≡ elim (lookup pk k t) [ none ↦ false | some r ↦ true ]
  unfolding has lookup
  has-eq-lookup k [] = refl
  has-eq-lookup k (r ∷ t) = ground (arith, has-eq-lookup k t)

  -- The row that a lookup finds has the key.
  pub eqb-key-lookup :
      (k : Key) (t : List R) {r : R} → lookup pk k t ≡ some r → eqb (key r) k ≡ true
  unfolding lookup
  eqb-key-lookup k [] {r} h = cc
  eqb-key-lookup k (s ∷ t) {r} h = ground (arith, eqb-key-lookup k t {r = r})

  pub lookup-delete :
      (k j : Key) (t : List R)
      → lookup pk j (delete pk k t) ≡ (if eqb k j then none else lookup pk j t)
  unfolding lookup delete
  lookup-delete k j [] = ground arith
  lookup-delete k j (r ∷ t) =
      ground (arith, lookup-delete k j t, eqb_iff (key r) k, eqb_iff (key r) j, eqb_iff k j)

  pub lookup-append_one :
      (j : Key) (r : R) (t : List R)
      → lookup pk j (t ++ r ∷ [])
        ≡ elim (lookup pk j t) [ none ↦ if eqb (key r) j then some r else none | some s ↦ some s ]
  unfolding lookup
  lookup-append_one j r t = find-append (at pk j) t (r ∷ [])

  pub lookup-insert_or_replace :
      (r : R) (j : Key) (t : List R)
      → lookup pk j (insert_or_replace pk r t) ≡ (if eqb (key r) j then some r else lookup pk j t)
  unfolding insert_or_replace
  lookup-insert_or_replace r j t =
      ground (arith, lookup-append_one j r (delete pk (key r) t), lookup-delete (key r) j t)

  absent : (k j : Key) (t : List R) → has pk k t ≡ false → eqb k j ≡ true → lookup pk j t ≡ none
  absent k j t h e = ground (arith, has-eq-lookup k t, eqb_iff k j)

  pub lookup-insert :
      (r : R) (j : Key) (t : List R) {t' : List R}
      → insert pk r t ≡ ok t'
      → lookup pk j t' ≡ (if eqb (key r) j then some r else lookup pk j t)
  unfolding insert
  lookup-insert r j t h = ground (arith, lookup-append_one j r t, absent (key r) j t)

  pub has-insert_or_ignore :
      (r : R) (k : Key) (t : List R)
      → has pk k (insert_or_ignore pk r t) ≡ (has pk k t || eqb (key r) k)
  unfolding has insert_or_ignore
  has-insert_or_ignore r k t = ground (arith, any-append (at pk k) t (r ∷ []), eqb_iff (key r) k)

  pub has-insert :
      (r : R) (k : Key) (t : List R)
      → IfOk (λ t'. has pk k t' ≡ (has pk k t || eqb (key r) k)) (insert pk r t)
  unfolding has insert
  has-insert r k t = ground (arith, any-append (at pk k) t (r ∷ []))

  pub lookup-insert_or_ignore :
      (r : R) (j : Key) (t : List R)
      → lookup pk j (insert_or_ignore pk r t) ≡ (
          if has pk (key r) t
          then lookup pk j t
          else if eqb (key r) j
          then some r
          else lookup pk j t)
  unfolding insert_or_ignore
  lookup-insert_or_ignore r j t = ground (arith, lookup-append_one j r t, absent (key r) j t)

  -- An update that leaves the key alone.
  pub lookup-update :
      (k : Key) (f : R → R)
      → ((r : R) → key (f r) ≡ key r)
      → (j : Key) (t : List R)
      → lookup pk j (update pk k f t)
        ≡ (if eqb k j then Option.map f (lookup pk j t) else lookup pk j t)
  unfolding lookup update
  lookup-update k f keeps j [] = ground arith
  lookup-update k f keeps j (r ∷ t) = ground (
    arith,
    keeps r,
    lookup-update k f keeps j t,
    eqb_iff (key r) k,
    eqb_iff (key r) j,
    eqb_iff k j,
  )

  pub lookup-upsert :
      (merge : R → R → R)
      → ((o e : R) → key (merge o e) ≡ key o)
      → (r : R) (j : Key) (t : List R)
      → lookup pk j (upsert pk merge r t) ≡ (
          if eqb (key r) j
          then some (elim (lookup pk j t) [ none ↦ r | some o ↦ merge o r ])
          else lookup pk j t)
  unfolding upsert
  lookup-upsert merge keeps r j t = ground (
    arith,
    lookup-update (key r) (λ o. merge o r) (λ o. keeps o r) j t,
    lookup-append_one j r t,
    has-eq-lookup (key r) t,
    eqb_iff (key r) j,
  )

  pub insert-lookup_self :
      (r : R) (t : List R) → IfOk (λ t'. lookup pk (key r) t' ≡ some r) (insert pk r t)
  unfolding insert
  insert-lookup_self r t =
      ground (arith, lookup-append_one (key r) r t, has-eq-lookup (key r) t, eqb_refl (key r))

  -- An INSERT that succeeds loses no row.
  pub insert-lookup_keeps :
      (r : R) (t : List R) (k : Key) (s : R)
      → lookup pk k t ≡ some s
      → IfOk (λ t'. lookup pk k t' ≡ some s) (insert pk r t)
  unfolding insert
  insert-lookup_keeps r t k s h = ground (arith, lookup-append_one k r t)

  -- An INSERT fails exactly if the key is taken.
  pub insert-ok_of_absent :
      (r : R) (t : List R) → lookup pk (key r) t ≡ none → insert pk r t ≡ ok (t ++ r ∷ [])
  unfolding insert
  insert-ok_of_absent r t h = ground (arith, has-eq-lookup (key r) t)

module _ {R : Type 0} where
  -- A DELETE that spares the rows of a query does not change its answer.
  pub find-reject :
      (p q : R → Bool)
      → ((r : R) → q r ≡ true → p r ≡ false)
      → (t : List R) → find q (reject p t) ≡ find q t
  find-reject p q spares [] = refl
  find-reject p q spares (r ∷ t) = ground (arith, find-reject p q spares t, spares r)

  -- A test beside the key can move into what the UPDATE does.
  pub adjust-and :
      (p q : R → Bool) (f : R → R) (t : List R)
      → adjust (λ r. p r && q r) f t ≡ adjust p (λ r. if q r then f r else r) t
  adjust-and p q f [] = refl
  adjust-and p q f (r ∷ t) = ground (arith, adjust-and p q f t)

  pub All-adjust {ℓ} :
      (P : R → Type ℓ) (p : R → Bool) (f : R → R)
      → ((r : R) → p r ≡ true → P r → P (f r))
      → (t : List R) → All P t
      → All P (adjust p f t)
  All-adjust P p f keeps [] h = tt
  All-adjust P p f keeps (r ∷ t) h = elim (Bool-cases (p r)) [
    | inl e ↦ (rw e (keeps r e h.0), All-adjust P p f keeps t h.1)
    | inr e ↦ (rw e h.0, All-adjust P p f keeps t h.1)
  ]

  pub All-append_one {ℓ} :
      (P : R → Type ℓ) (t : List R) (r : R) → All P t → P r → All P (t ++ r ∷ [])
  All-append_one P [] r h k = (k, tt)
  All-append_one P (s ∷ t) r h k = (h.0, All-append_one P t r h.1 k)

module _ {R : Type 0} (pk : PrimaryKey R) where
  open pk use {Key, key, eqb}

  -- UPDATE … WHERE key = k AND test, by an assignment that leaves the key alone.
  pub lookup-adjust_if :
      (k : Key) (test : R → Bool) (f : R → R)
      → ((r : R) → key (f r) ≡ key r)
      → (j : Key) (t : List R)
      → lookup pk j (adjust (λ r. eqb (key r) k && test r) f t) ≡ (
          if eqb k j
          then Option.map (λ r. if test r then f r else r) (lookup pk j t)
          else lookup pk j t)
  unfolding update
  lookup-adjust_if k test f keeps j t =
      rw (adjust-and (at pk k) test f t)
        (lookup-update pk k (λ r. if test r then f r else r) (λ r. key_if r (test r)) j t)
    where
      key_if : (r : R) (b : Bool) → key (if b then f r else r) ≡ key r
      key_if r true = keeps r
      key_if r false = refl
