-- ===== src/Messenger/StateSync/Send/Parts.antt =====
-- The parts that sendStateSync cuts make up the delta, and are what the receiver waits for.
use huginn_messenger.Prelude.{
  ℕ, zero, suc, ◌+◌, ◌-◌, ◌*◌, ◌≤◌, ◌<◌, ◌≡◌, ◌≢◌, refl, sym, ap, ◌∙◌, true, false, some, List, [],
  ◌∷◌, ◌++◌, length, take, drop, min, All, arith, get_elem?, length-take, length-drop, Bool-cases,
  inl, inr, ◌==◌,
}
use huginn_messenger.Store.Rows.{Bytes}
use huginn_messenger.Chunk.Slices.{take-cut, take-drop, drop-drop, drop-all}
use huginn_messenger.Messenger.StateSync.{concat, relogin_chunk_size, is_nil, StateSyncChunk}
use huginn_messenger.Messenger.StateSync.Step.{IsPart, lists}
use huginn_messenger.Messenger.StateSync.Send.{Sender, slice, slice_count, chunk_of}

-- The parts from i on.
abbrev pub slices : Bytes → ℕ → ℕ → List Bytes
slices p zero i = []
slices p (suc left) i = slice p i ∷ slices p left (suc i)

slice-drop :
    (p : Bytes) (i : ℕ)
    → i * relogin_chunk_size ≤ length p
    → slice p i ++ drop (suc i * relogin_chunk_size) p ≡ drop (i * relogin_chunk_size) p
slice-drop p i h =
    let rest = drop (i * relogin_chunk_size) p in
    ap (λ t. t ++ drop (suc i * relogin_chunk_size) p)
      (take-cut relogin_chunk_size rest
        (min (i * relogin_chunk_size + relogin_chunk_size) (length p) - i * relogin_chunk_size)
        (omega (arith, length-drop (i * relogin_chunk_size) p)))
    ∙ ap (λ t. take relogin_chunk_size rest ++ t)
        (ap (λ k. drop k p) (omega arith)
          ∙ sym (drop-drop relogin_chunk_size (i * relogin_chunk_size) p))
    ∙ take-drop relogin_chunk_size rest

concat-slices_from :
    (p : Bytes) (left i : ℕ)
    → length p ≤ (i + left) * relogin_chunk_size
    → (i + left - 1) * relogin_chunk_size ≤ length p
    → concat (slices p left i) ≡ drop (i * relogin_chunk_size) p
concat-slices_from p zero i h k = sym (drop-all (i * relogin_chunk_size) p (omega arith))
concat-slices_from p (suc left) i h k =
    ap (λ t. slice p i ++ t) (concat-slices_from p left (suc i) (omega arith) (omega arith))
    ∙ slice-drop p i (omega arith)

pub concat-slices : (p : Bytes) → concat (slices p (slice_count p) 0) ≡ p
concat-slices p = concat-slices_from p (slice_count p) 0 (omega arith) (omega arith)

pub length-slices : (p : Bytes) (left i : ℕ) → length (slices p left i) ≡ left
length-slices p zero i = refl
length-slices p (suc left) i = ap suc (length-slices p left (suc i))

nth-slices :
    (p : Bytes) (left i k : ℕ) → k < left → get_elem? (slices p left i) k ≡ some (slice p (i + k))
nth-slices p zero i k h = let no : ⊥ = omega (arith, h) in elim no [ ]
nth-slices p (suc left) i zero h = ap (λ n. some (slice p n)) {x = i} {y = i + 0} (omega arith)
nth-slices p (suc left) i (suc k) h =
    nth-slices p left (suc i) k (omega (arith, h))
    ∙ ap (λ n. some (slice p n)) {x = suc i + k} {y = i + suc k} (omega arith)

not_nil : (b : Bytes) → length b ≢ 0 → is_nil b ≡ false
not_nil [] h = elim (h refl) [ ]
not_nil (x ∷ xs) h = refl

length-slice :
    (p : Bytes) (i : ℕ)
    → i < slice_count p
    → (length (slice p i) ≤ relogin_chunk_size) × (length (slice p i) ≢ 0)
length-slice p i h =
    let start = i * relogin_chunk_size in
    let size = min (start + relogin_chunk_size) (length p) - start in
    let measured = length-take size (drop start p) in
    let rest = length-drop start p in
    (omega (arith, measured, rest, h), λ e. omega (arith, measured, rest, h, e))

-- The chunks from i on.
abbrev pub chunks_from : Sender → Bytes → ℕ → ℕ → List StateSyncChunk
chunks_from env p zero i = []
chunks_from env p (suc left) i = chunk_of env p i ∷ chunks_from env p left (suc i)

pub chunks-IsPart :
    (env : Sender) (p : Bytes) (left i : ℕ)
    → i + left ≤ slice_count p
    → All (IsPart env.transfer_id (slices p (slice_count p) 0)) (chunks_from env p left i)
chunks-IsPart env p zero i h = tt
chunks-IsPart env p (suc left) i h =
    let sized = length-slice p i (omega (arith, h)) in
    (
      (
        i,
        refl,
        nth-slices p (slice_count p) 0 i (omega (arith, h))
            ∙ ap (λ n. some (slice p n)) {x = 0 + i} {y = i} (omega arith),
        not_nil (slice p i) sized.1,
        sized.0,
        refl,
      ),
      chunks-IsPart env p left (suc i) (omega (arith, h)),
    )

pub lists-chunks :
    (env : Sender) (p : Bytes) (left i j : ℕ)
    → i ≤ j
    → j < i + left
    → lists (chunks_from env p left i) j ≡ true
lists-chunks env p zero i j h k = let no : ⊥ = omega (arith, h, k) in elim no [ ]
lists-chunks env p (suc left) i j h k = elim (Bool-cases (i == j)) [
  | inl e ↦ rw e refl
  | inr e ↦ rw e (lists-chunks env p left (suc i) j (ground (arith, h, e)) (omega (arith, k)))
]
