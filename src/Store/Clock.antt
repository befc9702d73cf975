-- ===== src/Store/Clock.antt =====
-- time.Time and time.Duration as the store uses them. A time is the number of nanoseconds since the
-- Unix epoch; earlier times are not modelled.
use huginn_messenger.Prelude.{ℕ, suc, ◌+◌, ◌-◌, ◌*◌, ◌/◌, ◌%◌, ◌^◌, ◌≤◌, ◌≡◌, Bool, leb, arith}
use huginn_messenger.Prelude.Int.{ℤ, pos, negsuc, int64, add_leb}

abbrev pub Time : Type 0
Time = ℕ

-- t.Unix() and t.UnixMicro()
abbrev pub unix : Time → ℕ
unix t = t / 1000000000

abbrev pub unix_micro : Time → ℕ
unix_micro t = t / 1000

-- time.Duration(ttl) * time.Second: a product of int64 wraps around.
unfoldable pub duration_of_seconds : ℤ → ℤ
unfolding int64
duration_of_seconds (pos n) = int64 (n * 1000000000)
duration_of_seconds (negsuc n) = int64 (2 ^ 64 - (suc n * 1000000000) % 2 ^ 64)

-- !now.Before(created.Add(time.Duration(ttl) * time.Second))
unfoldable pub expired : Time → Time → ℤ → Bool
expired now created ttl = add_leb created (duration_of_seconds ttl) now

-- A TTL of at most 9223372036 seconds (292 years) does not overflow the duration.
pub duration_of_seconds_exact :
    (n : ℕ) → n ≤ 9223372036 → duration_of_seconds (pos n) ≡ pos (n * 1000000000)
unfolding duration_of_seconds
duration_of_seconds_exact n h = ground arith

-- With a TTL of at most 9223372036 seconds, which is not negative, a payload has expired exactly
-- when `created + ttl` has been reached.
pub expired-eq-leb :
    (now created n : ℕ)
    → n ≤ 9223372036
    → expired now created (pos n) ≡ leb (created + n * 1000000000) now
unfolding expired
expired-eq-leb now created n h = ground (arith, duration_of_seconds_exact n)
