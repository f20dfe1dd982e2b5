-- ===== src/Dispatch/Exclusive.antt =====
-- At most one delivery of a session is outstanding at a time.
use attyd.Common.{
  ℕ, zero, suc, ◌+◌, String, none, some, List, [], ◌∷◌, ◌≡◌, refl, ap, subst, ◌∙◌, inl, inr, ◌==◌,
  if◌then◌else◌, All, All-append, get_elem?, remove_at, Result-cases, arith, Option-cases,
}
use attyd.Common.Dict.{Dict, lookup, insert, remove as remove_key}
use attyd.Dispatch.Types.{
  TrafficClass, SessionHandle, DeliveryGuard, Delivery, SessionQueue, SessionDispatch,
}
use attyd.Dispatch.Memory.{flag}
use attyd.Dispatch.Ops.{
  new, new_handle, new_queue, pushed, popped, leased, drop_guard, drop_queue, drop_sessions, queued,
  allocate, enqueue, accept, take, detach, emptied, validate_handle, register, try_next, close,
}
use attyd.Dispatch.Ready.{drop_queue-registry, drop_sessions-registry}
use attyd.Dispatch.Progress.{Took, took, nothing, refused, next_case}
use attyd.Dispatch.Safety.{step-Sound, start-Sound}
use attyd.Dispatch.Sound.{
  Sound, validate_handle-found, try_route-ok, try_route-err, remove-ok, remove-err,
}
use attyd.Dispatch.System.{
  World, Action, registers, routes, takes, finishes, removes, closes, finish, step, run, start,
}

abbrev pub marks : ℕ → DeliveryGuard → ℕ
marks a guard = elim guard.busy [ none ↦ 0 | some b ↦ if b == a then 1 else 0 ]

-- How many of the guards belong to deliveries of the allocation.
abbrev pub holders : ℕ → List DeliveryGuard → ℕ
holders a [] = 0
holders a (guard ∷ guards) = marks a guard + holders a guards

holders-remove_at :
    (a : ℕ) (guards : List DeliveryGuard) (i : ℕ) {guard : DeliveryGuard}
    → get_elem? guards i ≡ some guard
    → holders a guards ≡ marks a guard + holders a (remove_at guards i)
holders-remove_at a [] i e = cc
holders-remove_at a (x ∷ xs) zero e = ground arith
holders-remove_at a (x ∷ xs) (suc i) e = omega (arith, holders-remove_at a xs i e)

module _ {E : Type 0} where
  abbrev pub Fresh : List (Delivery E) → Type 0
  Fresh = All (λ x. x.guard.busy ≡ none)

  -- No queued delivery owns a busy flag.
  abbrev pub Unmarked : Dict (SessionQueue E) → Type 0
  Unmarked [] = Unit
  Unmarked ((_, q) ∷ m) = Fresh q.queue × Unmarked m

  Unmarked-insert :
      (k : String) (q : SessionQueue E) (m : Dict (SessionQueue E))
      → Fresh q.queue
      → Unmarked m
      → Unmarked (insert k q m)
  unfolding insert
  Unmarked-insert k q [] f u = (f, tt)
  Unmarked-insert k q ((j, r) ∷ m) f u = ground (arith, Unmarked-insert k q m f u.1)

  Unmarked-remove :
      (k : String) (m : Dict (SessionQueue E)) → Unmarked m → Unmarked (remove_key k m)
  unfolding remove_key
  Unmarked-remove k [] u = tt
  Unmarked-remove k ((j, r) ∷ m) u = ground (arith, Unmarked-remove k m u.1)

  Unmarked-lookup :
      (k : String) (m : Dict (SessionQueue E)) → Unmarked m → Fresh (queued (lookup k m))
  unfolding lookup
  Unmarked-lookup k [] u = tt
  Unmarked-lookup k ((j, r) ∷ m) u = ground (arith, Unmarked-lookup k m u.1)

  drop_queue-busy :
      (d : SessionDispatch E) (ds : List (Delivery E)) → Fresh ds → (drop_queue d ds).busy ≡ d.busy
  unfolding drop_queue drop_guard
  drop_queue-busy d [] f = refl
  drop_queue-busy d (x ∷ ds) f =
      drop_queue-busy (drop_guard d x.guard) ds f.1 ∙ ap (flag d.busy) f.0

  drop_sessions-busy :
      (d : SessionDispatch E) (m : Dict (SessionQueue E))
      → Unmarked m
      → (drop_sessions d m).busy ≡ d.busy
  unfolding drop_sessions
  drop_sessions-busy d [] u = refl
  drop_sessions-busy d ((_, q) ∷ m) u =
      drop_sessions-busy (drop_queue d q.queue) m u.1 ∙ drop_queue-busy d q.queue u.0

  -- A busy flag is set exactly while one guard of its allocation is held.
  pub record Exclusive (w : World E) : Type 0 where
    pub flags : (a : ℕ) → holders a w.held ≡ (if w.dispatch.busy a then 1 else 0)
    pub unmarked : Unmarked w.dispatch.registry.sessions

  abbrev pub with_dispatch : World E → SessionDispatch E → World E
  with_dispatch w d = record w { dispatch = d }

  -- An operation that leaves the flags alone.
  keep-Exclusive :
      (w : World E) (d : SessionDispatch E)
      → Exclusive w
      → d.busy ≡ w.dispatch.busy
      → Unmarked d.registry.sessions
      → Exclusive (with_dispatch w d)
  keep-Exclusive w d v e u = record { flags = λ a. rw e (v.flags a); unmarked = u }

  allocate-Exclusive :
      (w : World E) (id : String) (n : ℕ)
      → Exclusive w
      → Exclusive (with_dispatch w (allocate w.dispatch id n).0)
  unfolding allocate
  allocate-Exclusive w id n v =
      keep-Exclusive w _ v
        (drop_queue-busy _ _ (Unmarked-lookup id w.dispatch.registry.sessions v.unmarked))
        (rw (drop_queue-registry _ (queued (lookup id w.dispatch.registry.sessions))) (
          Unmarked-insert id (new_queue (new_handle w.dispatch id n)) w.dispatch.registry.sessions
            tt v.unmarked))

  accept-Exclusive :
      (w : World E) (q : SessionQueue E) (handle : SessionHandle) (class : TrafficClass) (bytes : ℕ)
      (event : E)
      → Exclusive w
      → lookup handle.session_id w.dispatch.registry.sessions ≡ some q
      → Exclusive (with_dispatch w (accept w.dispatch q handle class bytes event))
  unfolding accept enqueue
  accept-Exclusive w q handle class bytes event v e =
      let x : Delivery E = record {
        handle = handle;
        event = event;
        guard = leased handle class bytes;
      } in
      let old : Fresh q.queue =
        subst (λ o. Fresh (queued o)) e
          (Unmarked-lookup handle.session_id w.dispatch.registry.sessions v.unmarked) in
      keep-Exclusive w _ v refl (
        Unmarked-insert handle.session_id (pushed q x) w.dispatch.registry.sessions
          (All-append (λ y. y.guard.busy ≡ none) q.queue (x ∷ []) old (refl, tt)) v.unmarked)

  detach-Exclusive :
      (w : World E) (handle : SessionHandle)
      → Exclusive w
      → Exclusive (with_dispatch w (detach w.dispatch handle))
  unfolding detach
  detach-Exclusive w handle v =
      keep-Exclusive w _ v
        (drop_queue-busy _ _
          (Unmarked-lookup handle.session_id w.dispatch.registry.sessions v.unmarked))
        (rw (drop_queue-registry _ (queued (lookup handle.session_id w.dispatch.registry.sessions)))
          (Unmarked-remove handle.session_id w.dispatch.registry.sessions v.unmarked))

  Took-Exclusive :
      (w : World E)
      → Exclusive w
      → Took w.dispatch (try_next w.dispatch)
      → Exclusive (step w takes).0
  unfolding step take
  Took-Exclusive w v t =
      let old : Fresh t.q.queue =
        subst (λ o. Fresh (queued o)) t.found
          (Unmarked-lookup t.handle.session_id w.dispatch.registry.sessions v.unmarked) in
      rw t.result (record {
        flags = λ a. ground (arith, v.flags a, t.idle);
        unmarked =
            Unmarked-insert t.handle.session_id (popped t.q t.more) w.dispatch.registry.sessions
              (subst Fresh t.head old).1 v.unmarked;
      })

  finish-Exclusive : (w : World E) (i : ℕ) → Exclusive w → Exclusive (finish w i)
  unfolding finish drop_guard
  finish-Exclusive w i v = record {
    flags = λ a. elim (Option-cases (get_elem? w.held i)) [
      | inl e ↦ ground (arith, v.flags a)
      | inr (guard, e) ↦ ground (arith, v.flags a, holders-remove_at a w.held i e)
    ];
    unmarked = elim (Option-cases (get_elem? w.held i)) [
      | inl e ↦ rw (e, finish) v.unmarked
      | inr (guard, e) ↦ rw (e, finish) v.unmarked
    ];
  }

  register-Exclusive :
      (w : World E) (id : String) (n : ℕ)
      → Exclusive w
      → Exclusive (with_dispatch w (register w.dispatch id n).0)
  unfolding register
  register-Exclusive w id n v =
      let new = allocate-Exclusive w id n v in
      record {
        flags = λ a. ground (arith, v.flags a, new.flags a);
        unmarked = ground (arith, v.unmarked, new.unmarked);
      }

  close-Exclusive : (w : World E) → Exclusive w → Exclusive (with_dispatch w (close w.dispatch).0)
  unfolding close
  close-Exclusive w v =
      let sessions = w.dispatch.registry.sessions in
      let same = drop_sessions-busy (emptied w.dispatch) sessions v.unmarked in
      record {
        flags = λ a. ground (arith, v.flags a, ap (λ flags. flags a) same);
        unmarked = ground (arith, v.unmarked, drop_sessions-registry (emptied w.dispatch) sessions);
      }

  step-Exclusive :
      (w : World E) (a : Action E) → Sound w.dispatch → Exclusive w → Exclusive (step w a).0
  unfolding step
  step-Exclusive w (registers id n) s v = register-Exclusive w id n v
  step-Exclusive w (routes handle class bytes event) s v =
      elim (Result-cases (validate_handle w.dispatch handle)) [
        | inl (_, valid) ↦
            let (q, e, _) = validate_handle-found w.dispatch handle valid in
            rw (try_route-ok w.dispatch q handle class bytes event s.lock valid e)
              (accept-Exclusive w q handle class bytes event v e)
        | inr (_, invalid) ↦ rw (try_route-err w.dispatch handle class bytes event s.lock invalid) v
      ]
  step-Exclusive w takes s v = elim (next_case w.dispatch s.lock s.ready) [
    | took t ↦ Took-Exclusive w v t
    | nothing gave ↦ record {
      flags = λ a. ground (arith, v.flags a, gave.answer, ap (λ d. d.busy a) gave.unchanged);
      unmarked = rw (ap (λ d. d.registry.sessions) gave.unchanged) v.unmarked;
    }
    | refused e same ↦ rw same v
  ]
  step-Exclusive w (finishes i) s v = finish-Exclusive w i v
  step-Exclusive w (removes handle) s v = elim (Result-cases (validate_handle w.dispatch handle)) [
    | inl (_, valid) ↦ rw (remove-ok w.dispatch handle s.lock valid) (detach-Exclusive w handle v)
    | inr (_, invalid) ↦ rw (remove-err w.dispatch handle invalid) v
  ]
  step-Exclusive w closes s v = close-Exclusive w v

  run-Exclusive :
      (w : World E) (actions : List (Action E))
      → Sound w.dispatch
      → Exclusive w
      → Exclusive (run w actions)
  unfolding run
  run-Exclusive w [] s v = v
  run-Exclusive w (a ∷ actions) s v =
      run-Exclusive (step w a).0 actions (step-Sound w a s) (step-Exclusive w a s v)

  start-Exclusive : (epoch : String) (identity : ℕ) → Exclusive (start {E = E} epoch identity)
  unfolding start new
  start-Exclusive epoch identity = record { flags = λ a. refl; unmarked = tt }

  -- After any calls on a new dispatcher, the number of guards held for an allocation is 1 while
  -- its busy flag is set and 0 otherwise, so at most one delivery of a session's queue is
  -- outstanding.
  pub one_delivery :
      (epoch : String) (identity : ℕ) (actions : List (Action E)) (a : ℕ)
      → let w = run (start epoch identity) actions in
        holders a w.held ≡ (if w.dispatch.busy a then 1 else 0)
  one_delivery epoch identity actions =
      (run-Exclusive (start epoch identity) actions (start-Sound epoch identity)
        (start-Exclusive epoch identity)).flags
