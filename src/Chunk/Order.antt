-- ===== src/Chunk/Order.antt =====
-- Chunks that arrive in any order are joined in the order of their indices.
use huginn_messenger.Prelude.{ℕ, zero, suc, ◌≡◌, refl, ap, ◌∙◌, true, false, List, ◌∷◌, map, arith}
use mathlib.Core.List.{Permᴰ}
use huginn_messenger.Prelude.Int.{ℤ, pos, negsuc, leb_ℤ, pos_part}
use huginn_messenger.Prelude.Sort.{sort_by}
use huginn_messenger.Prelude.Permuted.{IsOrder, sort_by_perm, sort_by-map}
use huginn_messenger.Store.Rows.{Bytes}
use huginn_messenger.Chunk.{Envelope, ChunkData, index_leb, join, chunk_bytes}
use huginn_messenger.Chunk.Slices.{range, indexed}

leb_ℤ-IsOrder : IsOrder leb_ℤ
leb_ℤ-IsOrder = record { total = leb_total; antisym = leb_antisym; trans = leb_trans }
  where
    leb_total : (a b : ℤ) → leb_ℤ a b ≡ false → leb_ℤ b a ≡ true
    leb_total (pos a) (pos b) h = ground arith
    leb_total (pos a) (negsuc b) h = refl
    leb_total (negsuc a) (pos b) h = cc
    leb_total (negsuc a) (negsuc b) h = ground arith

    leb_antisym : (a b : ℤ) → leb_ℤ a b ≡ true → leb_ℤ b a ≡ true → a ≡ b
    leb_antisym (pos a) (pos b) h k = ap pos (ground arith)
    leb_antisym (pos a) (negsuc b) h k = cc
    leb_antisym (negsuc a) (pos b) h k = cc
    leb_antisym (negsuc a) (negsuc b) h k = ap negsuc (ground arith)

    leb_trans : (a b c : ℤ) → leb_ℤ a b ≡ true → leb_ℤ b c ≡ true → leb_ℤ a c ≡ true
    leb_trans (pos a) (pos b) (pos c) h k = ground arith
    leb_trans (pos a) (pos b) (negsuc c) h k = cc
    leb_trans (pos a) (negsuc b) c h k = cc
    leb_trans (negsuc a) b (pos c) h k = refl
    leb_trans (negsuc a) (pos b) (negsuc c) h k = cc
    leb_trans (negsuc a) (negsuc b) (negsuc c) h k = ground arith

abbrev pub at_index : Bytes → ℤ → ChunkData
at_index p z = (z, chunk_bytes p (pos_part z))

abbrev pub index : Envelope → ℤ
index env = env.chunk_index

range_sorted : (n i : ℕ) → sort_by leb_ℤ (map pos (range n i)) ≡ map pos (range n i)
unfolding sort_by
range_sorted zero i = refl
range_sorted (suc zero) i = refl
range_sorted (suc (suc n)) i = rw (range_sorted (suc n) (suc i)) (ground arith)

map-at_index :
    (p : Bytes) (n i : ℕ) → map (at_index p) (map pos (range n i)) ≡ map (indexed p) (range n i)
map-at_index p zero i = refl
map-at_index p (suc n) i = ap (λ t. indexed p i ∷ t) (map-at_index p n (suc i))

-- Chunks with the indices of a permutation of the range are joined in the order of the range.
pub join_permuted :
    (p : Bytes) (n : ℕ) (zs : List ℤ)
    → Permᴰ zs (map pos (range n 0))
    → join (sort_by index_leb (map (at_index p) zs)) ≡ join (map (indexed p) (range n 0))
join_permuted p n zs h = ap join (
    sort_by-map leb_ℤ index_leb (at_index p) (λ a b. refl) zs
    ∙ ap (map (at_index p)) (sort_by_perm leb_ℤ leb_ℤ-IsOrder h ∙ range_sorted n 0)
    ∙ map-at_index p n 0)
