-- ===== src/Dispatch/Owned.antt =====
-- Every queued delivery bears the handle of its queue, and no busy flag yet.
use attyd.Common.{
  ℕ, String, Bool, true, false, Option, none, some, List, [], ◌∷◌, ◌≡◌, refl, ap, sym, subst, inl,
  inr, str_eq, if◌then◌else◌, All, All-append, Result-cases, arith,
}
use attyd.Common.Dict.{lookup, lookup-insert, lookup-remove}
use attyd.Dispatch.Types.{
  TrafficClass, SessionHandle, Delivery, SessionQueue, Registry, SessionDispatch,
}
use attyd.Dispatch.Ops.{
  new, new_handle, new_queue, pushed, popped, leased, drop_guard, queued, allocate, enqueue, accept,
  take, detach, emptied, validate_handle, register, try_next, close,
}
use attyd.Dispatch.Ready.{drop_queue-registry, drop_sessions-registry}
use attyd.Dispatch.Safety.{step-Sound}
use attyd.Dispatch.Sound.{
  Sound, validate_handle-found, try_route-ok, try_route-err, remove-ok, remove-err,
}
use attyd.Dispatch.Progress.{Took, took, nothing, refused, next_case}
use attyd.Dispatch.System.{
  World, Action, registers, routes, takes, finishes, removes, closes, finish, step, run, start,
}

module _ {E : Type 0} where
  abbrev pub Belongs : SessionQueue E → Delivery E → Type 0
  Belongs q x = (x.handle ≡ q.handle) × (x.guard.busy ≡ none)

  abbrev pub OwnedAt : Option (SessionQueue E) → Type 0
  OwnedAt none = Unit
  OwnedAt (some q) = All (Belongs q) q.queue

  abbrev pub Owned : Registry E → Type 0
  Owned r = (k : String) → OwnedAt (lookup k r.sessions)

  OwnedAt-if :
      (b : Bool) (q : SessionQueue E) (o : Option (SessionQueue E))
      → OwnedAt (some q)
      → OwnedAt o
      → OwnedAt (if b then some q else o)
  OwnedAt-if true q o h k = h
  OwnedAt-if false q o h k = k

  allocate-Owned :
      (d : SessionDispatch E) (id : String) (n : ℕ)
      → Owned d.registry
      → Owned (allocate d id n).0.registry
  unfolding allocate
  allocate-Owned d id n v k =
      rw (drop_queue-registry _ (queued (lookup id d.registry.sessions))) (
        ground (arith, v k, lookup-insert id k (new_queue (new_handle d id n)) d.registry.sessions))

  accept-Owned :
      (d : SessionDispatch E) (q : SessionQueue E) (handle : SessionHandle) (class : TrafficClass)
      (bytes : ℕ) (event : E)
      → Owned d.registry
      → lookup handle.session_id d.registry.sessions ≡ some q
      → q.handle ≡ handle
      → Owned (accept d q handle class bytes event).registry
  unfolding accept enqueue
  accept-Owned d q handle class bytes event v e h k =
      let x : Delivery E = record {
        handle = handle;
        event = event;
        guard = leased handle class bytes;
      } in
      subst OwnedAt (sym (lookup-insert handle.session_id k (pushed q x) d.registry.sessions)) (
        OwnedAt-if (str_eq handle.session_id k) (pushed q x) (lookup k d.registry.sessions)
          (All-append (Belongs q) q.queue (x ∷ []) (subst OwnedAt e (v handle.session_id))
            ((sym h, refl), tt))
          (v k))

  detach-Owned :
      (d : SessionDispatch E) (handle : SessionHandle)
      → Owned d.registry
      → Owned (detach d handle).registry
  unfolding detach
  detach-Owned d handle v k =
      rw (drop_queue-registry _ (queued (lookup handle.session_id d.registry.sessions)))
        (ground (arith, v k, lookup-remove handle.session_id k d.registry.sessions))

  pub Took-Owned :
      (d : SessionDispatch E)
      → Owned d.registry
      → Took d (try_next d)
      → Owned (try_next d).0.registry
  unfolding take
  Took-Owned d v t k =
      let at = subst OwnedAt t.found (v t.handle.session_id) in
      let own = subst (All (Belongs t.q)) t.head at in
      rw (t.result, take)
        (subst OwnedAt
          (sym (lookup-insert t.handle.session_id k (popped t.q t.more) d.registry.sessions))
          (OwnedAt-if (str_eq t.handle.session_id k) (popped t.q t.more)
            (lookup k d.registry.sessions) own.1 (v k)))

  register-Owned :
      (d : SessionDispatch E) (id : String) (n : ℕ)
      → Owned d.registry
      → Owned (register d id n).0.registry
  unfolding register
  register-Owned d id n v k = ground (arith, v k, allocate-Owned d id n v k)

  close-Owned : (d : SessionDispatch E) → Owned d.registry → Owned (close d).0.registry
  unfolding close lookup
  close-Owned d v k = ground (arith, v k, drop_sessions-registry (emptied d) d.registry.sessions)

  pub step-Owned :
      (w : World E) (a : Action E)
      → Sound w.dispatch
      → Owned w.dispatch.registry
      → Owned (step w a).0.dispatch.registry
  unfolding step finish drop_guard
  step-Owned w (registers id n) s v = register-Owned w.dispatch id n v
  step-Owned w (routes handle class bytes event) s v =
      elim (Result-cases (validate_handle w.dispatch handle)) [
        | inl (_, valid) ↦
            let (q, e, h) = validate_handle-found w.dispatch handle valid in
            rw (try_route-ok w.dispatch q handle class bytes event s.lock valid e)
              (accept-Owned w.dispatch q handle class bytes event v e h)
        | inr (_, invalid) ↦ rw (try_route-err w.dispatch handle class bytes event s.lock invalid) v
      ]
  step-Owned w takes s v = elim (next_case w.dispatch s.lock s.ready) [
    | took t ↦ Took-Owned w.dispatch v t
    | nothing gave ↦ λ k. rw (ap (λ d. d.registry.sessions) gave.unchanged) (v k)
    | refused e same ↦ rw same v
  ]
  step-Owned w (finishes i) s v = λ k. ground (arith, v k)
  step-Owned w (removes handle) s v = elim (Result-cases (validate_handle w.dispatch handle)) [
    | inl (_, valid) ↦
        rw (remove-ok w.dispatch handle s.lock valid) (detach-Owned w.dispatch handle v)
    | inr (_, invalid) ↦ rw (remove-err w.dispatch handle invalid) v
  ]
  step-Owned w closes s v = close-Owned w.dispatch v

  pub run-Owned :
      (w : World E) (actions : List (Action E))
      → Sound w.dispatch
      → Owned w.dispatch.registry
      → Owned (run w actions).dispatch.registry
  unfolding run
  run-Owned w [] s v = v
  run-Owned w (a ∷ actions) s v =
      run-Owned (step w a).0 actions (step-Sound w a s) (step-Owned w a s v)

pub start-Owned :
    (E : Type 0) (epoch : String) (identity : ℕ)
    → Owned (start {E = E} epoch identity).dispatch.registry
unfolding start new lookup
start-Owned E epoch identity k = tt
