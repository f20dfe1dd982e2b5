-- ===== src/Dispatch/Ops.antt =====
-- The operations of the dispatcher (session_dispatch.rs, lines 101 to 460).
pub use attyd.Common.{Outcome, returned, panicked}
use attyd.Common.{
  ℕ, zero, suc, ◌+◌, String, true, false, not, Option, none, some, List, [], ◌∷◌, ◌++◌, Result, ok,
  err, str_eq, ◌==◌, ltb, max, if◌then◌else◌, length, retain, u64_mod, nonempty,
}
use attyd.Common.Dict.{Dict, lookup, insert, remove as remove_key}
use attyd.Dispatch.Types.{
  TrafficClass, DispatchError, registry_poisoned, epoch_mismatch, foreign_handle, session_removed,
  stale_handle, stale_incarnation, allocation_exhausted, SessionHandle, handle_eq, QueueUsage, Pool,
  DeliveryGuard, Delivery, Rejected, SessionQueue, Registry, SessionDispatch,
}
use attyd.Dispatch.Memory.{set_flag, flag, record_usage, drop_lease}

abbrev pub leased : SessionHandle → TrafficClass → ℕ → DeliveryGuard
leased handle class bytes = record {
  busy = none;
  session = some (record { pool = Pool.session handle.allocation class; size = max bytes 1 });
  global = some (record { pool = Pool.global class; size = max bytes 1 });
}

module _ {E : Type 0} where
  -- `new` always answers `Ok`; this is the dispatcher in it.
  unfoldable pub new : String → ℕ → SessionDispatch E
  new epoch identity = record {
    epoch = epoch;
    identity = identity;
    counters = λ _. record { items = 0; bytes = 0 };
    busy = λ _. false;
    poisoned = false;
    registry = record { closed = false; next_allocation = 0; sessions = []; ready = [] };
  }

  -- The drop of a `DeliveryGuard`: its session's lease, then the global one, then the busy flag.
  unfoldable pub drop_guard : SessionDispatch E → DeliveryGuard → SessionDispatch E
  unfolding drop_lease
  drop_guard d guard = record d {
    counters = drop_lease (drop_lease d.counters guard.session) guard.global;
    busy = flag d.busy guard.busy;
  }

  unfoldable pub drop_queue : SessionDispatch E → List (Delivery E) → SessionDispatch E
  drop_queue d [] = d
  drop_queue d (delivery ∷ rest) = drop_queue (drop_guard d delivery.guard) rest

  unfoldable pub drop_sessions : SessionDispatch E → Dict (SessionQueue E) → SessionDispatch E
  drop_sessions d [] = d
  drop_sessions d ((_, q) ∷ rest) = drop_sessions (drop_queue d q.queue) rest

  abbrev pub queued : Option (SessionQueue E) → List (Delivery E)
  queued none = []
  queued (some q) = q.queue

  abbrev pub set_registry : SessionDispatch E → Registry E → SessionDispatch E
  set_registry d r = record d { registry = r }

  abbrev pub new_handle : SessionDispatch E → String → ℕ → SessionHandle
  new_handle d session_id incarnation = record {
    epoch = d.epoch;
    session_id = session_id;
    incarnation = incarnation;
    allocation = d.registry.next_allocation + 1;
    registry = d.identity;
  }

  abbrev pub new_queue : SessionHandle → SessionQueue E
  new_queue handle = record { handle = handle; queue = []; scheduled = false }

  -- A new queue replaces the old one, whose events are dropped once the lock is released.
  unfoldable pub allocate : SessionDispatch E → String → ℕ → SessionDispatch E × SessionHandle
  allocate d session_id incarnation =
      let r = d.registry in
      let handle = new_handle d session_id incarnation in
      let d' = set_registry d (record r {
        next_allocation = r.next_allocation + 1;
        sessions = insert session_id (new_queue handle) r.sessions;
        ready = retain (λ h. not (str_eq h.session_id session_id)) r.ready;
      }) in
      (drop_queue d' (queued (lookup session_id r.sessions)), handle)

  -- `checked_add` on the allocation counter.
  unfoldable pub register_new :
      SessionDispatch E → String → ℕ → SessionDispatch E × Result DispatchError SessionHandle
  unfolding allocate
  register_new d session_id incarnation =
      if ltb (d.registry.next_allocation + 1) u64_mod
      then (let (d', handle) = allocate d session_id incarnation in (d', ok handle))
      else (d, err allocation_exhausted)

  unfoldable pub register :
      SessionDispatch E → String → ℕ → SessionDispatch E × Result DispatchError SessionHandle
  unfolding register_new
  register d session_id incarnation =
      if d.poisoned
      then (d, err registry_poisoned)
      else if d.registry.closed
      then (d, err DispatchError.closed)
      else elim (lookup session_id d.registry.sessions) [
        | none ↦ register_new d session_id incarnation
        | some previous ↦
            if previous.handle.incarnation == incarnation
            then (d, ok previous.handle)
            else if ltb incarnation previous.handle.incarnation
            then (d, err (stale_incarnation previous.handle.incarnation incarnation))
            else register_new d session_id incarnation
      ]

  unfoldable pub validate_handle :
      SessionDispatch E → SessionHandle → Result DispatchError (Unit {0})
  validate_handle d handle =
      if d.registry.closed
      then err DispatchError.closed
      else if not (str_eq handle.epoch d.epoch)
      then err epoch_mismatch
      else if not (handle.registry == d.identity)
      then err foreign_handle
      else elim (lookup handle.session_id d.registry.sessions) [
        | none ↦ err session_removed
        | some q ↦ if handle_eq q.handle handle then ok tt else err stale_handle
      ]

  abbrev pub pushed : SessionQueue E → Delivery E → SessionQueue E
  pushed q delivery = record q { queue = q.queue ++ delivery ∷ []; scheduled = true }

  abbrev pub popped : SessionQueue E → List (Delivery E) → SessionQueue E
  popped q more = record q { queue = more; scheduled = nonempty more }

  -- The queue with one more delivery, and the registry that schedules it.
  unfoldable pub enqueue : Registry E → SessionQueue E → Delivery E → Registry E
  enqueue r q delivery = record r {
    sessions = insert delivery.handle.session_id (pushed q delivery) r.sessions;
    ready = if q.scheduled then r.ready else r.ready ++ delivery.handle ∷ [];
  }

  -- A panic poisons the mutex.
  abbrev pub poison : {A : Type 0} → SessionDispatch E → SessionDispatch E × Outcome A
  poison d = (record d { poisoned = true }, panicked)

  -- A validated delivery is accounted for and queued.
  unfoldable pub accept :
      SessionDispatch E → SessionQueue E → SessionHandle → TrafficClass → ℕ → E → SessionDispatch E
  unfolding enqueue record_usage
  accept d q handle class bytes event =
      let guard = leased handle class bytes in
      record d {
        counters =
            record_usage
              (record_usage d.counters (Pool.session q.handle.allocation class) (max bytes 1))
              (Pool.global class) (max bytes 1);
        registry = enqueue d.registry q (record { handle = handle; event = event; guard = guard });
      }

  unfoldable pub try_route :
      SessionDispatch E
      → SessionHandle
      → TrafficClass
      → ℕ
      → E
      → SessionDispatch E × Outcome (Result (Rejected E) (Unit {0}))
  try_route d handle class bytes event =
      if d.poisoned
      then (d, returned (err (record { error = registry_poisoned; event = event })))
      else elim (validate_handle d handle) [
        | err e ↦ (d, returned (err (record { error = e; event = event })))
        | ok _ ↦ elim (lookup handle.session_id d.registry.sessions) [
          | none ↦ poison d
          | some q ↦ (accept d q handle class bytes event, returned (ok tt))
        ]
      ]

  -- The delivery is taken from the front of the queue `q`, which becomes busy.
  unfoldable pub take :
      SessionDispatch E
      → SessionHandle
      → List SessionHandle
      → SessionQueue E
      → Delivery E
      → List (Delivery E)
      → SessionDispatch E × Delivery E
  take d handle rest q delivery more = (
    record d {
      busy = set_flag d.busy q.handle.allocation true;
      registry = record d.registry {
        sessions = insert handle.session_id (popped q more) d.registry.sessions;
        ready = if nonempty more then rest ++ handle ∷ [] else rest;
      };
    },
    record delivery { guard = record delivery.guard { busy = some q.handle.allocation } },
  )

  -- The `for` loop of `try_next`, over the rounds that are left.
  unfoldable pub next_loop :
      ℕ
      → SessionDispatch E
      → SessionDispatch E × Outcome (Result DispatchError (Option (Delivery E)))
  unfolding take
  next_loop zero d = (d, returned (ok none))
  next_loop (suc rounds) d = elim d.registry.ready [
    | [] ↦ poison d
    | handle ∷ rest ↦ elim (lookup handle.session_id d.registry.sessions) [
      | none ↦ poison d
      | some q ↦ elim (d.busy q.handle.allocation) [
        | true ↦
            next_loop rounds (set_registry d (record d.registry { ready = rest ++ handle ∷ [] }))
        | false ↦ elim q.queue [
          | [] ↦ poison d
          | delivery ∷ more ↦
              let (d', taken) = take d handle rest q delivery more in
              (d', returned (ok (some taken)))
        ]
      ]
    ]
  ]

  unfoldable pub try_next :
      SessionDispatch E → SessionDispatch E × Outcome (Result DispatchError (Option (Delivery E)))
  try_next d =
      if d.poisoned
      then (d, returned (err registry_poisoned))
      else if d.registry.closed
      then (d, returned (err DispatchError.closed))
      else next_loop (length d.registry.ready) d

  -- The session leaves the registry, and its events are dropped.
  unfoldable pub detach : SessionDispatch E → SessionHandle → SessionDispatch E
  detach d handle =
      let r = d.registry in
      let d' = set_registry d (record r {
        sessions = remove_key handle.session_id r.sessions;
        ready = retain (λ h. not (handle_eq h handle)) r.ready;
      }) in
      drop_queue d' (queued (lookup handle.session_id r.sessions))

  unfoldable pub remove :
      SessionDispatch E → SessionHandle → SessionDispatch E × Result DispatchError (Unit {0})
  remove d handle =
      if d.poisoned
      then (d, err registry_poisoned)
      else elim (validate_handle d handle) [ err e ↦ (d, err e) | ok _ ↦ (detach d handle, ok tt) ]

  abbrev pub emptied : SessionDispatch E → SessionDispatch E
  emptied d = set_registry d (record d.registry { closed = true; ready = []; sessions = [] })

  unfoldable pub close : SessionDispatch E → SessionDispatch E × Result DispatchError (Unit {0})
  close d =
      if d.poisoned
      then (d, err registry_poisoned)
      else (drop_sessions (emptied d) d.registry.sessions, ok tt)

  unfoldable pub global_usage : SessionDispatch E → TrafficClass → QueueUsage
  global_usage d class = d.counters (Pool.global class)

  unfoldable pub session_usage :
      SessionDispatch E → SessionHandle → TrafficClass → Result DispatchError QueueUsage
  unfolding validate_handle
  session_usage d handle class =
      if d.poisoned then err registry_poisoned else elim (validate_handle d handle) [
        | err e ↦ err e
        | ok _ ↦ ok (d.counters (Pool.session handle.allocation class))
      ]
