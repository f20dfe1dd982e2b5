-- ===== src/Dispatch/Memory.antt =====
-- The shared memory of the dispatcher: counters and busy flags (session_dispatch.rs: `record` and the
-- drops of leases).
use attyd.Common.{
  ℕ, Bool, false, Option, none, some, ◌==◌, if◌then◌else◌, wrapping_add, wrapping_sub,
}
use attyd.Dispatch.Types.{QueueUsage, Pool, pool_eq, QueueLease}

abbrev pub set_counter : (Pool → QueueUsage) → Pool → QueueUsage → Pool → QueueUsage
set_counter counters p usage q = if pool_eq p q then usage else counters q

abbrev pub set_flag : (ℕ → Bool) → ℕ → Bool → ℕ → Bool
set_flag flags a b c = if a == c then b else flags c

abbrev pub flag : (ℕ → Bool) → Option ℕ → (ℕ → Bool)
flag flags none = flags
flag flags (some a) = set_flag flags a false

-- `QueueAccounting::record`.
unfoldable pub record_usage : (Pool → QueueUsage) → Pool → ℕ → Pool → QueueUsage
record_usage counters p bytes =
    let usage = counters p in
    set_counter counters p
      (record { items = wrapping_add usage.items 1; bytes = wrapping_add usage.bytes bytes })

-- The drop of a `QueueLease`, where there is one.
unfoldable pub drop_lease : (Pool → QueueUsage) → Option QueueLease → Pool → QueueUsage
drop_lease counters none = counters
drop_lease counters (some lease) =
    let usage = counters lease.pool in
    set_counter counters lease.pool
      (record { items = wrapping_sub usage.items 1; bytes = wrapping_sub usage.bytes lease.size })
