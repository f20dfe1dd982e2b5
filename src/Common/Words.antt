-- ===== src/Common/Words.antt =====
-- Counters of 64 bits: `u64` and the `usize` of the 64-bit targets.
use Prim.Native.Nat.{ℕ, ◌+◌, ◌-◌, ◌%◌, ◌^◌, min, max}

abbrev pub u64_mod : ℕ
u64_mod = 2 ^ 64

abbrev pub usize_max : ℕ
usize_max = u64_mod - 1

-- `fetch_add` and `wrapping_add`.
abbrev pub wrapping_add : ℕ → ℕ → ℕ
wrapping_add a b = (a + b) % u64_mod

-- `fetch_sub`.
abbrev pub wrapping_sub : ℕ → ℕ → ℕ
wrapping_sub a b = (a + u64_mod - b) % u64_mod

abbrev pub saturating_add : ℕ → ℕ → ℕ
saturating_add a b = min (a + b) usize_max

-- `counter.wrapping_add(1).max(1)`: a generation counter that skips 0 when it wraps.
abbrev pub next_counter : ℕ → ℕ
next_counter n = max (wrapping_add n 1) 1
