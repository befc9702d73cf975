-- ===== src/Prelude/Sort.antt =====
-- Sorting by a Boolean order (ORDER BY, sort.Slice): equal elements keep their order.
use huginn_messenger.Prelude.Tests.{if◌then◌else◌}
use mathlib.Core.Path.{◌≡◌, refl}
use mathlib.Core.Bool.{Bool, true, false}
use mathlib.Core.List.{List, [], ◌∷◌, Permᴰ}
use mathlib.Core.List
use native.Mathlib.Omega.{arith}

module _ {ℓ} {A : Type ℓ} (le : A → A → Bool) where
  abbrev pub insert_sorted : A → List A → List A
  insert_sorted x [] = x ∷ []
  insert_sorted x (y ∷ ys) =
      let rest = insert_sorted x ys in if le x y then x ∷ y ∷ ys else y ∷ rest

  unfoldable pub sort_by : List A → List A
  sort_by [] = []
  sort_by (x ∷ xs) = insert_sorted x (sort_by xs)

  -- Neighbours are in order.
  abbrev pub IsSorted : List A → Type 0
  IsSorted [] = Unit
  IsSorted (x ∷ []) = Unit
  IsSorted (x ∷ y ∷ ys) = (le x y ≡ true) × IsSorted (y ∷ ys)

  insert_sorted-perm : (x : A) (xs : List A) → Permᴰ (insert_sorted x xs) (x ∷ xs)
  insert_sorted-perm x [] = List.Permᴰ.refl (x ∷ [])
  insert_sorted-perm x (y ∷ ys) = by_test (le x y) (insert_sorted-perm x ys)
    where
      by_test :
          (b : Bool)
          → Permᴰ (insert_sorted x ys) (x ∷ ys)
          → Permᴰ (if b then x ∷ y ∷ ys else y ∷ insert_sorted x ys) (x ∷ y ∷ ys)
      by_test true rest = List.Permᴰ.refl (x ∷ y ∷ ys)
      by_test false rest = Permᴰ.trans (Permᴰ.cons refl rest) (Permᴰ.swap refl refl)

  pub sort_by-perm : (xs : List A) → Permᴰ (sort_by xs) xs
  unfolding sort_by
  sort_by-perm [] = Permᴰ.nil
  sort_by-perm (x ∷ xs) =
      Permᴰ.trans (insert_sorted-perm x (sort_by xs)) (Permᴰ.cons refl (sort_by-perm xs))

module _ {ℓ} {A : Type ℓ} (le : A → A → Bool)
    (total : (a b : A) → le a b ≡ false → le b a ≡ true) where
  insert_sorted-IsSorted :
      (x : A) (xs : List A) → IsSorted le xs → IsSorted le (insert_sorted le x xs)
  insert_sorted-IsSorted x [] h = tt
  insert_sorted-IsSorted x (y ∷ []) h = ground (arith, total x y)
  insert_sorted-IsSorted x (y ∷ z ∷ zs) h =
      ground (arith, total x y, total x z, insert_sorted-IsSorted x (z ∷ zs))

  pub sort_by-IsSorted : (xs : List A) → IsSorted le (sort_by le xs)
  unfolding sort_by
  sort_by-IsSorted [] = tt
  sort_by-IsSorted (x ∷ xs) = insert_sorted-IsSorted x (sort_by le xs) (sort_by-IsSorted xs)
