-- ===== src/Messenger/StateSync/Slots.antt =====
-- The slots of a transfer, filled in any order.
use huginn_messenger.Prelude.{
  ℕ, zero, suc, ◌≤◌, ◌<◌, ◌≡◌, ◌≢◌, refl, ap, ◌∙◌, sym, Bool, true, false, not, Option, none, some,
  List, [], ◌∷◌, ◌⊎◌, inl, inr, arith, length, get_elem?, set, replicate, if◌then◌else◌,
}
use huginn_messenger.Store.Rows.{Bytes}
use huginn_messenger.Messenger.StateSync.{IncomingTransfer, is_nil, fill_slot}

-- Each slot is empty or holds its part.
abbrev pub Fits : List Bytes → List Bytes → Type 0
Fits [] [] = Unit
Fits [] (p ∷ ps) = ⊥
Fits (s ∷ ss) [] = ⊥
Fits (s ∷ ss) (p ∷ ps) = ((s ≡ []) ⊎ (s ≡ p)) × Fits ss ps

abbrev pub filled : List Bytes → ℕ
filled [] = 0
filled (s ∷ ss) = let rest = filled ss in if is_nil s then rest else suc rest

abbrev pub slot_filled : Option Bytes → Bool
slot_filled none = false
slot_filled (some b) = not (is_nil b)

abbrev pub filled_at : ℕ → List Bytes → Bool
filled_at j ss = slot_filled (get_elem? ss j)

pub filled-le-length : (ss : List Bytes) → filled ss ≤ length ss
filled-le-length [] = omega arith
filled-le-length (s ∷ ss) = ground (arith, filled-le-length ss)

pub all_filled : (ss ps : List Bytes) → Fits ss ps → filled ss ≡ length ss → ss ≡ ps
all_filled [] [] f h = refl
all_filled [] (p ∷ ps) f h = elim f [ ]
all_filled (s ∷ ss) [] f h = elim f [ ]
all_filled ([] ∷ ss) (p ∷ ps) f h = ground (arith, filled-le-length ss)
all_filled ((b ∷ bs) ∷ ss) (p ∷ ps) (inl e, f) h = cc
all_filled ((b ∷ bs) ∷ ss) (p ∷ ps) (inr e, f) h = rw (e, all_filled ss ps f (ground arith)) refl

pub some_empty :
    (ss : List Bytes) → filled ss ≢ length ss → (j : ℕ) × (j < length ss) × (filled_at j ss ≡ false)
some_empty [] h = elim (h refl) [ ]
some_empty ([] ∷ ss) h = (0, omega arith, refl)
some_empty ((b ∷ bs) ∷ ss) h =
    let (j, l, e) = some_empty ss (λ e. h (ap suc e)) in (suc j, omega arith, e)

pub set-Fits :
    (ss ps : List Bytes) (i : ℕ) (b : Bytes)
    → Fits ss ps
    → get_elem? ps i ≡ some b
    → Fits (set ss i b) ps
set-Fits [] [] i b f h = tt
set-Fits [] (p ∷ ps) i b f h = elim f [ ]
set-Fits (s ∷ ss) [] i b f h = elim f [ ]
set-Fits (s ∷ ss) (p ∷ ps) zero b f h = (inr (ground arith), f.1)
set-Fits (s ∷ ss) (p ∷ ps) (suc i) b f h = (f.0, set-Fits ss ps i b f.1 h)

pub length-Fits : (ss ps : List Bytes) → Fits ss ps → length ss ≡ length ps
length-Fits [] [] f = refl
length-Fits [] (p ∷ ps) f = elim f [ ]
length-Fits (s ∷ ss) [] f = elim f [ ]
length-Fits (s ∷ ss) (p ∷ ps) f = ap suc (length-Fits ss ps f.1)

pub replicate-Fits : (ps : List Bytes) → Fits (replicate (length ps) []) ps
replicate-Fits [] = tt
replicate-Fits (p ∷ ps) = (inl refl, replicate-Fits ps)

pub filled-replicate : (n : ℕ) → filled (replicate n []) ≡ 0
filled-replicate zero = refl
filled-replicate (suc n) = filled-replicate n

pub filled-set :
    (ss : List Bytes) (i : ℕ) (b : Bytes)
    → is_nil b ≡ false
    → get_elem? ss i ≡ some []
    → filled (set ss i b) ≡ suc (filled ss)
filled-set [] i b e h = cc
filled-set (s ∷ ss) zero b e h = ground arith
filled-set (s ∷ ss) (suc i) b e h = ground (arith, filled-set ss i b)

pub filled_at-set :
    (ss : List Bytes) (i j : ℕ) (b : Bytes)
    → is_nil b ≡ false
    → filled_at j ss ≡ true
    → filled_at j (set ss i b) ≡ true
filled_at-set [] i j b e h = h
filled_at-set (s ∷ ss) zero zero b e h = rw e refl
filled_at-set (s ∷ ss) zero (suc j) b e h = h
filled_at-set (s ∷ ss) (suc i) zero b e h = h
filled_at-set (s ∷ ss) (suc i) (suc j) b e h = filled_at-set ss i j b e h

pub filled_at-set_self :
    (ss ps : List Bytes) (i : ℕ) (b : Bytes)
    → is_nil b ≡ false
    → Fits ss ps
    → get_elem? ps i ≡ some b
    → filled_at i (set ss i b) ≡ true
filled_at-set_self [] [] i b e f h = cc
filled_at-set_self [] (p ∷ ps) i b e f h = elim f [ ]
filled_at-set_self (s ∷ ss) [] i b e f h = elim f [ ]
filled_at-set_self (s ∷ ss) (p ∷ ps) zero b e f h = rw e refl
filled_at-set_self (s ∷ ss) (p ∷ ps) (suc i) b e f h = filled_at-set_self ss ps i b e f.1 h

pub in_range :
    (ss ps : List Bytes) (i : ℕ) (b : Bytes)
    → Fits ss ps
    → get_elem? ps i ≡ some b
    → (i < length ss) × ((s : Bytes) × (get_elem? ss i ≡ some s))
in_range [] [] i b f h = cc
in_range [] (p ∷ ps) i b f h = elim f [ ]
in_range (s ∷ ss) [] i b f h = elim f [ ]
in_range (s ∷ ss) (p ∷ ps) zero b f h = (omega arith, (s, refl))
in_range (s ∷ ss) (p ∷ ps) (suc i) b f h = let (l, r) = in_range ss ps i b f.1 h in (omega arith, r)

-- A transfer that waits for chunks: its counter is the number of the filled slots.
pub record IsReceiving (parts : List Bytes) (t : IncomingTransfer) : Type 0 where
  pub fits : Fits t.chunks parts
  pub counted : t.received ≡ filled t.chunks
  pub waiting : t.processing ≡ false

pub fill_slot-IsReceiving :
    (parts : List Bytes) (t : IncomingTransfer) (i : ℕ) (b : Bytes)
    → IsReceiving parts t
    → is_nil b ≡ false
    → get_elem? parts i ≡ some b
    → IsReceiving parts (fill_slot i b (get_elem? t.chunks i) t)
      × (filled_at i (fill_slot i b (get_elem? t.chunks i) t).chunks ≡ true)
      × ((j : ℕ)
          → filled_at j t.chunks ≡ true
          → filled_at j (fill_slot i b (get_elem? t.chunks i) t).chunks ≡ true)
unfolding fill_slot
fill_slot-IsReceiving parts t i b r e h =
    let (l, (s, found)) = in_range t.chunks parts i b r.fits h in by_slot s found
  where
    by_slot :
        (s : Bytes)
        → get_elem? t.chunks i ≡ some s
        → IsReceiving parts (fill_slot i b (get_elem? t.chunks i) t)
          × (filled_at i (fill_slot i b (get_elem? t.chunks i) t).chunks ≡ true)
          × ((j : ℕ)
              → filled_at j t.chunks ≡ true
              → filled_at j (fill_slot i b (get_elem? t.chunks i) t).chunks ≡ true)
    by_slot [] found = rw found (
      record {
        fits = set-Fits t.chunks parts i b r.fits h;
        counted = ap suc r.counted ∙ sym (filled-set t.chunks i b e found);
        waiting = r.waiting;
      },
      filled_at-set_self t.chunks parts i b e r.fits h,
      λ j k. filled_at-set t.chunks i j b e k,
    )
    by_slot (x ∷ xs) found = rw found (r, rw found refl, λ j k. k)
