-- ===== src/Dispatch/Sound.antt =====
-- Each operation keeps the mutex sound and the ready list in agreement with the queues.
use attyd.Common.{
  ℕ, String, Bool, false, not, some, List, [], ◌∷◌, ◌≡◌, ◌≢◌, refl, ok, err, str_eq_iff,
  if◌then◌else◌, retain, Option-cases, inl, inr, arith, ◌∙◌, Result-cases,
}
use attyd.Common.Dict.{lookup, remove as remove_key, lookup-remove}
use attyd.Dispatch.Types.{
  SessionHandle, TrafficClass, handle_eq, handle_eq_iff, Delivery, SessionQueue, SessionDispatch,
  DispatchError,
}
use attyd.Dispatch.Ops.{
  returned, panicked, drop_guard, drop_queue, drop_sessions, queued, allocate, validate_handle,
  leased, register, try_route, remove, close, accept, detach, emptied,
}
use attyd.Dispatch.Ready.{
  entries_of, entries_of-drop, IsReady, ReadyAt, allocate-IsReady, enqueue-IsReady,
  drop_queue-registry, drop_sessions-registry,
}

drop-entries :
    (handle : SessionHandle) (scheduled : Bool) (h : SessionHandle)
    → retain (λ x. not (handle_eq x handle)) (if scheduled then h ∷ [] else [])
      ≡ (if handle_eq h handle then [] else if scheduled then h ∷ [] else [])
drop-entries handle scheduled h = ground arith

module _ {E : Type 0} where
  drop_queue-poisoned :
      (d : SessionDispatch E) (ds : List (Delivery E)) → (drop_queue d ds).poisoned ≡ d.poisoned
  unfolding drop_queue drop_guard
  drop_queue-poisoned d [] = refl
  drop_queue-poisoned d (x ∷ ds) = drop_queue-poisoned (drop_guard d x.guard) ds

  drop_sessions-poisoned :
      (d : SessionDispatch E) (m : _) → (drop_sessions d m).poisoned ≡ d.poisoned
  unfolding drop_sessions
  drop_sessions-poisoned d [] = refl
  drop_sessions-poisoned d ((_, q) ∷ m) =
      drop_sessions-poisoned (drop_queue d q.queue) m ∙ drop_queue-poisoned d q.queue

  -- The mutex is sound, and the ready list agrees with the queues.
  pub record Sound (d : SessionDispatch E) : Type 0 where
    pub lock : d.poisoned ≡ false
    pub ready : IsReady d.registry

  pub validate_handle-found :
      (d : SessionDispatch E) (handle : SessionHandle)
      → validate_handle d handle ≡ ok tt
      → (q : SessionQueue E) × (lookup handle.session_id d.registry.sessions ≡ some q)
        × (q.handle ≡ handle)
  unfolding validate_handle
  validate_handle-found d handle h =
      elim (Option-cases (lookup handle.session_id d.registry.sessions)) [
        | inl e ↦ absurd (ground arith)
        | inr (q, e) ↦ (q, e, ground (arith, handle_eq_iff q.handle handle))
      ]

  allocate-poisoned :
      (d : SessionDispatch E) (id : String) (n : ℕ) → (allocate d id n).0.poisoned ≡ d.poisoned
  unfolding allocate
  allocate-poisoned d id n = drop_queue-poisoned _ _

  pub register-Sound :
      (d : SessionDispatch E) (id : String) (n : ℕ) → Sound d → Sound (register d id n).0
  unfolding register
  register-Sound d id n v = record {
    lock = ground (arith, allocate-poisoned d id n);
    ready = λ k. ground (arith, v.ready k, allocate-IsReady d id n v.ready k);
  }

  accept-Sound :
      (d : SessionDispatch E) (q : SessionQueue E) (handle : SessionHandle) (class : TrafficClass)
      (bytes : ℕ) (event : E)
      → Sound d
      → lookup handle.session_id d.registry.sessions ≡ some q
      → q.handle ≡ handle
      → Sound (accept d q handle class bytes event)
  unfolding accept
  accept-Sound d q handle class bytes event v e h = record {
    lock = v.lock;
    ready =
        enqueue-IsReady d.registry q
          (record { handle = handle; event = event; guard = leased handle class bytes }) v.ready e
          h;
  }

  -- A valid handle is served.
  pub try_route-ok :
      (d : SessionDispatch E) (q : SessionQueue E) (handle : SessionHandle) (class : TrafficClass)
      (bytes : ℕ) (event : E)
      → d.poisoned ≡ false
      → validate_handle d handle ≡ ok tt
      → lookup handle.session_id d.registry.sessions ≡ some q
      → try_route d handle class bytes event
        ≡ (accept d q handle class bytes event, returned (ok tt))
  unfolding try_route
  try_route-ok d q handle class bytes event p h e = ground arith

  pub try_route-err :
      (d : SessionDispatch E) (handle : SessionHandle) (class : TrafficClass) (bytes : ℕ)
      (event : E) {x : DispatchError}
      → d.poisoned ≡ false
      → validate_handle d handle ≡ err x
      → try_route d handle class bytes event
        ≡ (d, returned (err (record { error = x; event = event })))
  unfolding try_route
  try_route-err d handle class bytes event p h = ground arith

  pub try_route-Sound :
      (d : SessionDispatch E) (handle : SessionHandle) (class : TrafficClass) (bytes : ℕ)
      (event : E)
      → Sound d
      → Sound (try_route d handle class bytes event).0
        × ((try_route d handle class bytes event).1 ≢ panicked)
  try_route-Sound d handle class bytes event v = elim (Result-cases (validate_handle d handle)) [
    | inl (_, valid) ↦
        let (q, e, h) = validate_handle-found d handle valid in
        let served = try_route-ok d q handle class bytes event v.lock valid e in
        (rw served (accept-Sound d q handle class bytes event v e h), λ c. ground arith)
    | inr (_, invalid) ↦
        let rejected = try_route-err d handle class bytes event v.lock invalid in
        (rw rejected v, λ c. ground arith)
  ]

  detach-entries :
      (d : SessionDispatch E) (handle : SessionHandle)
      → Sound d
      → validate_handle d handle ≡ ok tt
      → (k : String)
      → ReadyAt k
          (lookup k (remove_key handle.session_id d.registry.sessions))
          (entries_of k (retain (λ h. not (handle_eq h handle)) d.registry.ready))
  detach-entries d handle v valid k =
      let (q, found, same) = validate_handle-found d handle valid in
      let dropped = entries_of-drop k handle d.registry.ready in
      let unlisted = lookup-remove handle.session_id k d.registry.sessions in
      let ids = str_eq_iff handle.session_id k in
      elim (Option-cases (lookup k d.registry.sessions)) [
        | inl none_at ↦ ground (arith, v.ready k, dropped, unlisted)
        | inr (r, at) ↦ ground (
          arith,
          v.ready k,
          dropped,
          unlisted,
          ids,
          drop-entries handle r.scheduled r.handle,
          handle_eq_iff r.handle handle,
        )
      ]

  detach-Sound :
      (d : SessionDispatch E) (handle : SessionHandle)
      → Sound d
      → validate_handle d handle ≡ ok tt
      → Sound (detach d handle)
  unfolding detach
  detach-Sound d handle v valid = record {
    lock = drop_queue-poisoned _ _ ∙ v.lock;
    ready = λ k.
        rw (drop_queue-registry _ (queued (lookup handle.session_id d.registry.sessions)))
          (detach-entries d handle v valid k);
  }

  pub remove-ok :
      (d : SessionDispatch E) (handle : SessionHandle)
      → d.poisoned ≡ false
      → validate_handle d handle ≡ ok tt
      → remove d handle ≡ (detach d handle, ok tt)
  unfolding remove
  remove-ok d handle p h = ground arith

  pub remove-err :
      (d : SessionDispatch E) (handle : SessionHandle) {x : DispatchError}
      → validate_handle d handle ≡ err x
      → (remove d handle).0 ≡ d
  unfolding remove
  remove-err d handle h = ground arith

  pub remove-Sound :
      (d : SessionDispatch E) (handle : SessionHandle) → Sound d → Sound (remove d handle).0
  remove-Sound d handle v = elim (Result-cases (validate_handle d handle)) [
    | inl (_, valid) ↦ rw (remove-ok d handle v.lock valid) (detach-Sound d handle v valid)
    | inr (_, invalid) ↦ rw (remove-err d handle invalid) v
  ]

  pub close-Sound : (d : SessionDispatch E) → Sound d → Sound (close d).0
  unfolding close lookup
  close-Sound d v = record {
    lock = ground (arith, v.lock, drop_sessions-poisoned (emptied d) d.registry.sessions);
    ready = λ k.
        ground (arith, v.ready k, v.lock, drop_sessions-registry (emptied d) d.registry.sessions);
  }
