-- ===== src/Dispatch/Handles.antt =====
-- Predicates on the handles of the registered queues, and which calls keep them.
use attyd.Common.{
  ◌⊎◌, ◌||◌, Option-cases, ltb, leb, u64_mod, ℕ, ◌+◌, String, Bool, true, false, Option, none, some,
  ◌≡◌, ◌≢◌, refl, ap, sym, subst, inl, inr, str_eq, if◌then◌else◌, Result-cases, arith, Bool-cases,
}
use attyd.Common.Dict.{lookup, lookup-insert, lookup-remove}
use attyd.Dispatch.Types.{
  TrafficClass, SessionHandle, Delivery, SessionQueue, Registry, SessionDispatch,
}
use attyd.Dispatch.Ops.{
  new_handle, new_queue, pushed, popped, leased, drop_guard, queued, allocate, register_new,
  enqueue, accept, take, detach, emptied, validate_handle, register, try_next, close,
}
use attyd.Dispatch.Ready.{drop_queue-registry, drop_sessions-registry}
use attyd.Dispatch.Sound.{
  Sound, validate_handle-found, try_route-ok, try_route-err, remove-ok, remove-err,
}
use attyd.Dispatch.Progress.{Took, took, nothing, refused, next_case}
use attyd.Dispatch.System.{
  World, Action, registers, routes, takes, finishes, removes, closes, finish, step,
}

module _ {E : Type 0} where
  abbrev pub HandleAt : (SessionHandle → Type 0) → Option (SessionQueue E) → Type 0
  HandleAt P none = Unit
  HandleAt P (some q) = P q.handle

  -- A predicate on the handles of the registered queues.
  abbrev pub Handles : (SessionHandle → Type 0) → Registry E → Type 0
  Handles P r = (k : String) → HandleAt P (lookup k r.sessions)

  HandleAt-if :
      (P : SessionHandle → Type 0) (b : Bool) (q : SessionQueue E) (o : Option (SessionQueue E))
      → P q.handle
      → HandleAt P o
      → HandleAt P (if b then some q else o)
  HandleAt-if P true q o h k = h
  HandleAt-if P false q o h k = k

  pub HandleAt-none :
      (P : SessionHandle → Type 0) (b : Bool) (o : Option (SessionQueue E))
      → HandleAt P o
      → HandleAt P (if b then none else o)
  HandleAt-none P true o k = tt
  HandleAt-none P false o k = k

  pub close-registry :
      (d : SessionDispatch E) → d.poisoned ≡ false → (close d).0.registry ≡ (emptied d).registry
  unfolding close
  close-registry d p = ground (arith, drop_sessions-registry (emptied d) d.registry.sessions)

  register_new-case :
      (d : SessionDispatch E) (id : String) (n : ℕ)
      → ((register_new d id n).0 ≡ d) ⊎ ((register_new d id n).0 ≡ (allocate d id n).0)
  unfolding register_new
  register_new-case d id n = elim (Bool-cases (ltb (d.registry.next_allocation + 1) u64_mod)) [
    | inl e ↦ inr (rw e refl)
    | inr e ↦ inl (rw e refl)
  ]

  -- A registration leaves the dispatcher as it is, or allocates.
  pub register-case :
      (d : SessionDispatch E) (id : String) (n : ℕ)
      → ((register d id n).0 ≡ d) ⊎ ((register d id n).0 ≡ (allocate d id n).0)
  unfolding register
  register-case d id n = elim (register_new-case d id n) [
    | inl e ↦ inl (ground (arith, e))
    | inr e ↦ elim (Bool-cases (d.poisoned || d.registry.closed)) [
      | inl f ↦ inl (ground arith)
      | inr f ↦ elim (Option-cases (lookup id d.registry.sessions)) [
        | inl g ↦ inr (ground (arith, e))
        | inr (q, g) ↦ elim (Bool-cases (leb n q.handle.incarnation)) [
          | inl h ↦ inl (ground arith)
          | inr h ↦ inr (ground (arith, e))
        ]
      ]
    ]
  ]

  module _ (P : SessionHandle → Type 0) where
    accept-Handles :
        (d : SessionDispatch E) (q : SessionQueue E) (handle : SessionHandle) (class : TrafficClass)
        (bytes : ℕ) (event : E)
        → Handles P d.registry
        → lookup handle.session_id d.registry.sessions ≡ some q
        → Handles P (accept d q handle class bytes event).registry
    unfolding accept enqueue
    accept-Handles d q handle class bytes event v e k =
        let x : Delivery E = record {
          handle = handle;
          event = event;
          guard = leased handle class bytes;
        } in
        subst (HandleAt P)
          (sym (lookup-insert handle.session_id k (pushed q x) d.registry.sessions))
          (HandleAt-if P (str_eq handle.session_id k) (pushed q x) (lookup k d.registry.sessions)
            (subst (HandleAt P) e (v handle.session_id)) (v k))

    detach-Handles :
        (d : SessionDispatch E) (handle : SessionHandle)
        → Handles P d.registry
        → Handles P (detach d handle).registry
    unfolding detach
    detach-Handles d handle v k =
        rw (drop_queue-registry _ (queued (lookup handle.session_id d.registry.sessions))) (
          subst (HandleAt P) (sym (lookup-remove handle.session_id k d.registry.sessions))
            (HandleAt-none P (str_eq handle.session_id k) (lookup k d.registry.sessions) (v k)))

    Took-Handles :
        (d : SessionDispatch E)
        → Handles P d.registry
        → Took d (try_next d)
        → Handles P (try_next d).0.registry
    unfolding take
    Took-Handles d v t k =
        rw (t.result, take)
          (subst (HandleAt P)
            (sym (lookup-insert t.handle.session_id k (popped t.q t.more) d.registry.sessions))
            (HandleAt-if P (str_eq t.handle.session_id k) (popped t.q t.more)
              (lookup k d.registry.sessions) (subst (HandleAt P) t.found (v t.handle.session_id))
              (v k)))

    close-Handles :
        (d : SessionDispatch E)
        → d.poisoned ≡ false
        → Handles P d.registry
        → Handles P (close d).0.registry
    unfolding lookup
    close-Handles d p v k =
        subst (λ r. HandleAt P (lookup k r.sessions)) (sym (close-registry d p)) tt

    pub allocate-Handles :
        (d : SessionDispatch E) (id : String) (n : ℕ)
        → Handles P d.registry
        → P (new_handle d id n)
        → Handles P (allocate d id n).0.registry
    unfolding allocate
    allocate-Handles d id n v p k =
        rw (drop_queue-registry _ (queued (lookup id d.registry.sessions))) (
          subst (HandleAt P)
            (sym (lookup-insert id k (new_queue (new_handle d id n)) d.registry.sessions))
            (HandleAt-if P (str_eq id k) (new_queue (new_handle d id n))
              (lookup k d.registry.sessions) p (v k)))

    -- The calls that do not register keep the predicate.
    pub quiet-Handles :
        (w : World E) (a : Action E)
        → Sound w.dispatch
        → ((id : String) (n : ℕ) → a ≢ registers id n)
        → Handles P w.dispatch.registry
        → Handles P (step w a).0.dispatch.registry
    unfolding step finish drop_guard
    quiet-Handles w (registers id n) s o v = absurd (o id n refl)
    quiet-Handles w (routes handle class bytes event) s o v =
        elim (Result-cases (validate_handle w.dispatch handle)) [
          | inl (_, valid) ↦
              let (q, e, h) = validate_handle-found w.dispatch handle valid in
              rw (try_route-ok w.dispatch q handle class bytes event s.lock valid e)
                (accept-Handles w.dispatch q handle class bytes event v e)
          | inr (_, invalid) ↦
              rw (try_route-err w.dispatch handle class bytes event s.lock invalid) v
        ]
    quiet-Handles w takes s o v = elim (next_case w.dispatch s.lock s.ready) [
      | took t ↦ Took-Handles w.dispatch v t
      | nothing gave ↦ λ k. rw (ap (λ d. d.registry.sessions) gave.unchanged) (v k)
      | refused e same ↦ rw same v
    ]
    quiet-Handles w (finishes i) s o v = λ k. ground (arith, v k)
    quiet-Handles w (removes handle) s o v =
        elim (Result-cases (validate_handle w.dispatch handle)) [
          | inl (_, valid) ↦
              rw (remove-ok w.dispatch handle s.lock valid) (detach-Handles w.dispatch handle v)
          | inr (_, invalid) ↦ rw (remove-err w.dispatch handle invalid) v
        ]
    quiet-Handles w closes s o v = close-Handles w.dispatch s.lock v
