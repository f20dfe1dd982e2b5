-- ===== src/Dispatch/Allocation.antt =====
-- The allocation counter, which only a registration moves.
use attyd.Common.{
  ℕ, ◌+◌, String, Bool, true, false, List, [], ◌∷◌, ◌≡◌, refl, ap, arith, zero, suc, ◌++◌, length,
}
use attyd.Common.Dict.{lookup}
use attyd.Dispatch.Types.{SessionHandle, SessionDispatch}
use attyd.Dispatch.Ops.{
  drop_guard, queued, allocate, enqueue, accept, take, detach, try_next, try_route, remove, close,
  next_loop, set_registry,
}
use attyd.Dispatch.Ready.{drop_queue-registry}
use attyd.Dispatch.Sound.{Sound}
use attyd.Dispatch.System.{
  World, Action, registers, routes, takes, finishes, removes, closes, finish, step,
}
use attyd.Dispatch.Handles.{close-registry}

module _ {E : Type 0} where
  abbrev pub next : SessionDispatch E → ℕ
  next d = d.registry.next_allocation

  next_loop-next :
      (rounds : ℕ) (d : SessionDispatch E) (ready : List SessionHandle)
      → d.registry.ready ≡ ready
      → next (next_loop rounds d).0 ≡ next d
  unfolding next_loop take
  next_loop-next zero d ready e = refl
  next_loop-next (suc rounds) d [] e = ground arith
  next_loop-next (suc rounds) d (handle ∷ rest) e = ground (
    arith,
    next_loop-next rounds (set_registry d (record d.registry { ready = rest ++ handle ∷ [] }))
        (rest ++ handle ∷ []) refl,
  )

  try_next-next : (d : SessionDispatch E) → next (try_next d).0 ≡ next d
  unfolding try_next
  try_next-next d = ground (arith, next_loop-next (length d.registry.ready) d d.registry.ready refl)

  pub detach-next :
      (d : SessionDispatch E) (handle : SessionHandle) → next (detach d handle) ≡ next d
  unfolding detach
  detach-next d handle =
      ap (λ r. r.next_allocation)
        (drop_queue-registry _ (queued (lookup handle.session_id d.registry.sessions)))

  pub allocate-next :
      (d : SessionDispatch E) (id : String) (n : ℕ) → next (allocate d id n).0 ≡ next d + 1
  unfolding allocate
  allocate-next d id n =
      ap (λ r. r.next_allocation) (drop_queue-registry _ (queued (lookup id d.registry.sessions)))

  close-next : (d : SessionDispatch E) → d.poisoned ≡ false → next (close d).0 ≡ next d
  close-next d p = ap (λ r. r.next_allocation) (close-registry d p)

  abbrev pub is_registration : Action E → Bool
  is_registration (registers id n) = true
  is_registration _ = false

  pub quiet-next :
      (w : World E) (a : Action E)
      → Sound w.dispatch
      → is_registration a ≡ false
      → next (step w a).0.dispatch ≡ next w.dispatch
  unfolding step finish drop_guard try_route accept enqueue remove
  quiet-next w (registers id n) s o = absurd (cc)
  quiet-next w (routes handle class bytes event) s o = ground arith
  quiet-next w takes s o = try_next-next w.dispatch
  quiet-next w (finishes i) s o = ground arith
  quiet-next w (removes handle) s o = ground (arith, detach-next w.dispatch handle)
  quiet-next w closes s o = close-next w.dispatch s.lock
