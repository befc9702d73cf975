-- ===== src/Messenger/Delivery/Grouped.antt =====
-- The maps by which the delivery groups its chunks.
use huginn_messenger.Prelude.{
  ℕ, zero, suc, ◌≤◌, ◌≡◌, refl, sym, ap, ◌∙◌, append-nil, append_assoc, subst, String, Bool, true,
  false, List, [], ◌∷◌, ◌++◌, if◌then◌else◌, All, Bool-cases, inl, inr, str_eq, eq_iff, arith, take,
  drop, select, length, ◌&&◌,
}
use huginn_messenger.Store.Clock.{Time}
use huginn_messenger.Store.Rows.{PendingChunk}
use huginn_messenger.Messenger.Delivery.Location.{is_live}
use huginn_messenger.Messenger.Delivery.{Groups, add_chunk, by_recipient, by_file}

-- A property of each chunk under each key.
abbrev pub Each : (String → PendingChunk → Type 0) → Groups → Type 0
Each P groups = All (λ (g : String × List PendingChunk). All (P g.0) g.1) groups

module _ {A : Type 0} (P : A → Type 0) where
  pub join-All : (xs ys : List A) → All P xs → All P ys → All P (xs ++ ys)
  join-All [] ys h k = k
  join-All (x ∷ xs) ys h k = (h.0, join-All xs ys h.1 k)

  pub take-All : (n : ℕ) (xs : List A) → All P xs → All P (take n xs)
  take-All zero xs h = tt
  take-All (suc n) [] h = tt
  take-All (suc n) (x ∷ xs) h = (h.0, take-All n xs h.1)

  pub drop-All : (n : ℕ) (xs : List A) → All P xs → All P (drop n xs)
  drop-All zero xs h = h
  drop-All (suc n) [] h = tt
  drop-All (suc n) (x ∷ xs) h = drop-All n xs h.1

  -- What is selected passes the test.
  pub select-All :
      (p : A → Bool) (xs : List A) → All P xs → All (λ x. P x × (p x ≡ true)) (select p xs)
  select-All p [] h = tt
  select-All p (x ∷ xs) h = by_test (p x) refl (select-All p xs h.1)
    where
      by_test :
          (b : Bool)
          → p x ≡ b
          → All (λ x. P x × (p x ≡ true)) (select p xs)
          → All (λ x. P x × (p x ≡ true)) (if b then x ∷ select p xs else select p xs)
      by_test true e k = ((h.0, e), k)
      by_test false e k = k

pub length-select : {A : Type 0} → (p : A → Bool) (xs : List A) → length (select p xs) ≤ length xs
length-select p [] = ground arith
length-select p (x ∷ xs) = ground (arith, length-select p xs)

module _ (P : String → PendingChunk → Type 0) where
  add_chunk-Each :
      (k : String) (c : PendingChunk) (groups : Groups)
      → P k c
      → Each P groups
      → Each P (add_chunk k c groups)
  unfolding add_chunk
  add_chunk-Each k c [] h hs = ((h, tt), tt)
  add_chunk-Each k c ((j, cs) ∷ groups) h hs =
      by_test (str_eq j k) (eq_iff j k).0 (add_chunk-Each k c groups h hs.1)
    where
      by_test :
          (b : Bool)
          → (b ≡ true → j ≡ k)
          → Each P (add_chunk k c groups)
          → Each P (if b then (j, cs ++ c ∷ []) ∷ groups else (j, cs) ∷ add_chunk k c groups)
      by_test true same again =
          (join-All (P j) cs (c ∷ []) hs.0 (subst (λ x. P x c) (sym (same refl)) h, tt), hs.1)
      by_test false same again = (hs.0, again)

abbrev pub IsOf : String → PendingChunk → Type 0
IsOf recipient c = c.recipient_id ≡ recipient

-- Each chunk is in the group of its recipient.
pub by_recipient-Each :
    (now : Time) (cs : List PendingChunk) (groups : Groups)
    → Each IsOf groups
    → Each IsOf (by_recipient now cs groups)
unfolding by_recipient
by_recipient-Each now [] groups h = h
by_recipient-Each now (c ∷ cs) groups h =
    by_recipient-Each now cs (if is_live now c then add_chunk c.recipient_id c groups else groups)
      (by_test (is_live now c))
  where
    by_test : (b : Bool) → Each IsOf (if b then add_chunk c.recipient_id c groups else groups)
    by_test true = add_chunk-Each IsOf c.recipient_id c groups refl h
    by_test false = h

-- Grouping by file keeps what holds of all chunks.
pub by_file-Each :
    (P : PendingChunk → Type 0) (cs : List PendingChunk) (groups : Groups)
    → All P cs
    → Each (λ k. P) groups
    → Each (λ k. P) (by_file cs groups)
unfolding by_file
by_file-Each P [] groups h hs = hs
by_file-Each P (c ∷ cs) groups h hs =
    by_file-Each P cs (add_chunk c.file_id c groups) h.1
      (add_chunk-Each (λ k. P) c.file_id c groups h.0 hs)

-- What a map has under a key.
unfoldable pub group_at : String → Groups → List PendingChunk
group_at k [] = []
group_at k ((j, cs) ∷ groups) = let rest = group_at k groups in if str_eq j k then cs else rest

clash : {b : Bool} → b ≡ false → b ≡ true → ⊥
clash n y = ground (arith, n, y)

group_at-add_chunk :
    (k j : String) (c : PendingChunk) (groups : Groups)
    → group_at k (add_chunk j c groups) ≡ group_at k groups ++ (if str_eq j k then c ∷ [] else [])
unfolding group_at add_chunk
group_at-add_chunk k j c [] = ground arith
group_at-add_chunk k j c ((i, cs) ∷ groups) =
    by_test (str_eq i j) refl (group_at-add_chunk k j c groups)
  where
    by_test :
        (b : Bool)
        → str_eq i j ≡ b
        → group_at k (add_chunk j c groups)
          ≡ group_at k groups ++ (if str_eq j k then c ∷ [] else [])
        → group_at k (if b then (i, cs ++ c ∷ []) ∷ groups else (i, cs) ∷ add_chunk j c groups)
          ≡ group_at k ((i, cs) ∷ groups) ++ (if str_eq j k then c ∷ [] else [])
    by_test true e again =
        subst
          (λ x.
            group_at k ((i, cs ++ c ∷ []) ∷ groups)
            ≡ group_at k ((i, cs) ∷ groups) ++ (if str_eq x k then c ∷ [] else []))
          ((eq_iff i j).0 e) (same (str_eq i k))
      where
        same :
            (d : Bool)
            → (if d then cs ++ c ∷ [] else group_at k groups)
              ≡ (if d then cs else group_at k groups) ++ (if d then c ∷ [] else [])
        same true = refl
        same false = sym (append-nil (group_at k groups))
    by_test false e again = other (str_eq i k) refl
      where
        other :
            (d : Bool)
            → str_eq i k ≡ d
            → (if d then cs else group_at k (add_chunk j c groups))
              ≡ (if d then cs else group_at k groups) ++ (if str_eq j k then c ∷ [] else [])
        other true f = elim (Bool-cases (str_eq j k)) [
          | inl g ↦ elim (clash e ((eq_iff i j).1 ((eq_iff i k).0 f ∙ sym ((eq_iff j k).0 g)))) [ ]
          | inr g ↦ rw g (sym (append-nil cs))
        ]
        other false f = again

abbrev pub is_for : Time → String → PendingChunk → Bool
is_for now recipient c = is_live now c && str_eq c.recipient_id recipient

group_at-by_recipient :
    (now : Time) (k : String) (cs : List PendingChunk) (groups : Groups)
    → group_at k (by_recipient now cs groups) ≡ group_at k groups ++ select (is_for now k) cs
unfolding by_recipient
group_at-by_recipient now k [] groups = sym (append-nil (group_at k groups))
group_at-by_recipient now k (c ∷ cs) groups =
    group_at-by_recipient now k cs
      (if is_live now c then add_chunk c.recipient_id c groups else groups)
    ∙ by_test (is_live now c)
  where
    one :
        (d : Bool)
        → (if d then c ∷ [] else []) ++ select (is_for now k) cs
          ≡ (if d then c ∷ select (is_for now k) cs else select (is_for now k) cs)
    one true = refl
    one false = refl

    by_test :
        (b : Bool)
        → group_at k (if b then add_chunk c.recipient_id c groups else groups)
            ++ select (is_for now k) cs
          ≡ group_at k groups
            ++ (if b && str_eq c.recipient_id k
                then c ∷ select (is_for now k) cs
                else select (is_for now k) cs)
    by_test true =
        ap (λ xs. xs ++ select (is_for now k) cs) (group_at-add_chunk k c.recipient_id c groups)
        ∙ append_assoc (group_at k groups) (if str_eq c.recipient_id k then c ∷ [] else [])
            (select (is_for now k) cs)
        ∙ ap (λ xs. group_at k groups ++ xs) (one (str_eq c.recipient_id k))
    by_test false = refl

-- The map by recipient has under a key exactly the chunks with time left that are for this
-- recipient, in their order: the loop is a filter for each recipient.
pub by_recipient-eq-select :
    (now : Time) (chunks : List PendingChunk) (recipient : String)
    → group_at recipient (by_recipient now chunks []) ≡ select (is_for now recipient) chunks
unfolding group_at
by_recipient-eq-select now chunks recipient = group_at-by_recipient now recipient chunks []
