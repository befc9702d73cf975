-- ===== src/Chunk/Slices.antt =====
-- The chunks of a payload, one after another, are the payload.
use huginn_messenger.Prelude.{
  ℕ, zero, suc, ◌+◌, ◌-◌, ◌*◌, ◌≤◌, ◌≡◌, refl, ap, ◌∙◌, sym, List, [], ◌∷◌, ◌++◌, map, arith,
  length, take, drop, min, length-drop,
}
use huginn_messenger.Prelude.Int.{pos}
use huginn_messenger.Store.Rows.{Bytes}
use huginn_messenger.Chunk.{chunk_size, chunk_bytes, ChunkData, join, chunk_count}

-- The indices i, i + 1, …, as many as the first argument.
abbrev pub range : ℕ → ℕ → List ℕ
range zero i = []
range (suc n) i = i ∷ range n (suc i)

abbrev pub indexed : Bytes → ℕ → ChunkData
indexed plaintext i = (pos i, chunk_bytes plaintext i)

pub drop-all : (n : ℕ) (xs : Bytes) → length xs ≤ n → drop n xs ≡ []
drop-all zero [] h = refl
drop-all (suc n) [] h = refl
drop-all zero (x ∷ xs) h = ground arith
drop-all (suc n) (x ∷ xs) h = drop-all n xs (omega arith)

take-nil : (n : ℕ) → take {A = ℕ} n [] ≡ []
take-nil zero = refl
take-nil (suc n) = refl

pub take-cut : (n : ℕ) (xs : Bytes) (m : ℕ) → m ≡ min n (length xs) → take m xs ≡ take n xs
take-cut n [] m h = take-nil m ∙ sym (take-nil n)
take-cut zero (x ∷ xs) m h = ground arith
take-cut (suc n) (x ∷ xs) zero h = ground arith
take-cut (suc n) (x ∷ xs) (suc m) h = ap (λ t. x ∷ t) (take-cut n xs m (omega arith))

drop_nil : (n : ℕ) → [] ≡ drop {A = ℕ} n []
drop_nil zero = refl
drop_nil (suc n) = refl

pub drop-drop : (a b : ℕ) (xs : Bytes) → drop a (drop b xs) ≡ drop (b + a) xs
drop-drop a zero xs = ap (λ k. drop k xs) (omega arith)
drop-drop zero (suc b) [] = drop_nil (suc b + 0)
drop-drop (suc a) (suc b) [] = drop_nil (suc b + suc a)
drop-drop a (suc b) (x ∷ xs) =
    drop-drop a b xs ∙ ap (λ k. drop k (x ∷ xs)) {x = suc (b + a)} {y = suc b + a} (omega arith)

pub take-drop : (n : ℕ) (xs : Bytes) → take n xs ++ drop n xs ≡ xs
take-drop zero xs = refl
take-drop (suc n) [] = refl
take-drop (suc n) (x ∷ xs) = ap (λ t. x ∷ t) (take-drop n xs)

-- One chunk and what is after it.
chunk_bytes-drop :
    (p : Bytes) (i : ℕ)
    → i * chunk_size ≤ length p
    → chunk_bytes p i ++ drop (suc i * chunk_size) p ≡ drop (i * chunk_size) p
chunk_bytes-drop p i h =
    let rest = drop (i * chunk_size) p in
    ap (λ t. t ++ drop (suc i * chunk_size) p)
      (take-cut chunk_size rest (min (i * chunk_size + chunk_size) (length p) - i * chunk_size)
        (omega (arith, length-drop (i * chunk_size) p)))
    ∙ ap (λ t. take chunk_size rest ++ t)
        (ap (λ k. drop k p) (omega arith) ∙ sym (drop-drop chunk_size (i * chunk_size) p))
    ∙ take-drop chunk_size rest

-- The chunks from i on, when so many are left that they reach the end, and start before it.
join-from :
    (p : Bytes) (left i : ℕ)
    → length p ≤ (i + left) * chunk_size
    → (i + left - 1) * chunk_size ≤ length p
    → join (map (indexed p) (range left i)) ≡ drop (i * chunk_size) p
join-from p zero i h k = sym (drop-all (i * chunk_size) p (omega arith))
join-from p (suc left) i h k =
    ap (λ t. chunk_bytes p i ++ t) (join-from p left (suc i) (omega arith) (omega arith))
    ∙ chunk_bytes-drop p i (omega arith)

-- `n` is the number of chunks, or 1 if there is no byte.
pub join-indexed :
    (p : Bytes) (n : ℕ)
    → length p ≤ n * chunk_size
    → (n - 1) * chunk_size ≤ length p
    → join (map (indexed p) (range n 0)) ≡ p
join-indexed p n h k = join-from p n 0 (omega arith) (omega arith)

pub chunk_count-covers :
    (p : Bytes)
    → (length p ≤ chunk_count p * chunk_size) × ((chunk_count p - 1) * chunk_size ≤ length p)
chunk_count-covers p = (omega arith, omega arith)
