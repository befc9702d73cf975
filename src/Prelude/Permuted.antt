-- ===== src/Prelude/Permuted.antt =====
-- Sorting forgets the order in which the elements come.
use huginn_messenger.Prelude.Lists.{All}
use huginn_messenger.Prelude.Sort.{insert_sorted, sort_by}
use mathlib.Core.Path.{◌≡◌, refl, ap, ◌∙◌, sym, subst}
use mathlib.Core.Bool.{Bool, true, false}
use mathlib.Core.List.{List, [], ◌∷◌, Permᴰ, map}
use native.Mathlib.Omega.{arith}

module _ {ℓ κ} {A : Type ℓ} (P : A → Type κ) where
  pub perm-All : {xs ys : List A} → Permᴰ xs ys → All P ys → All P xs
  perm-All Permᴰ.nil h = h
  perm-All (Permᴰ.cons e p) h = (subst P (sym e) h.0, perm-All p h.1)
  perm-All (Permᴰ.swap e f) h = (subst P (sym e) h.1.0, (subst P (sym f) h.0, h.1.1))
  perm-All (Permᴰ.trans p q) h = perm-All p (perm-All q h)

module _ {A : Type 0} (le : A → A → Bool) where
  -- Elements that each belong before the other are equal, and the order is total and transitive.
  pub record IsOrder : Type 0 where
    pub total : (a b : A) → le a b ≡ false → le b a ≡ true
    pub antisym : (a b : A) → le a b ≡ true → le b a ≡ true → a ≡ b
    pub trans : (a b c : A) → le a b ≡ true → le b c ≡ true → le a c ≡ true

module _ {A : Type 0} (le : A → A → Bool) (o : IsOrder le) where
  insert_sorted_comm :
      (x y : A) (xs : List A)
      → insert_sorted le x (insert_sorted le y xs) ≡ insert_sorted le y (insert_sorted le x xs)
  insert_sorted_comm x y [] = ground (arith, o.total x y, o.antisym x y)
  insert_sorted_comm x y (z ∷ zs) =
      ground
        (arith, o.total x y, o.antisym x y, o.trans x y z, o.trans y x z, insert_sorted_comm x y zs)

  pub sort_by_perm : {xs ys : List A} → Permᴰ xs ys → sort_by le xs ≡ sort_by le ys
  unfolding sort_by
  sort_by_perm Permᴰ.nil = refl
  sort_by_perm (Permᴰ.cons {b = y} {l₁ = xs} {l₂ = ys} e p) = rw (sort_by_perm p, e) refl
  sort_by_perm (Permᴰ.swap {a = a} {b = b} {a' = a'} {b' = b'} {l = l} e f) =
      insert_sorted_comm a b (sort_by le l)
      ∙ ap (λ t. insert_sorted le t (insert_sorted le a (sort_by le l))) f
      ∙ ap (λ t. insert_sorted le a' (insert_sorted le t (sort_by le l))) e
  sort_by_perm (Permᴰ.trans p q) = sort_by_perm p ∙ sort_by_perm q

-- Sorting by the image of a map.
module _ {A B : Type 0} (le : A → A → Bool) (le' : B → B → Bool) (f : A → B)
    (same : (a b : A) → le' (f a) (f b) ≡ le a b) where
  insert_sorted-map :
      (x : A) (xs : List A) → insert_sorted le' (f x) (map f xs) ≡ map f (insert_sorted le x xs)
  insert_sorted-map x [] = refl
  insert_sorted-map x (y ∷ ys) = ground (arith, same x y, insert_sorted-map x ys)

  pub sort_by-map : (xs : List A) → sort_by le' (map f xs) ≡ map f (sort_by le xs)
  unfolding sort_by
  sort_by-map [] = refl
  sort_by-map (x ∷ xs) =
      ap (λ t. insert_sorted le' (f x) t) (sort_by-map xs) ∙ insert_sorted-map x (sort_by le xs)
