-- ===== src/Dispatch/Next.antt =====
-- Taking the next delivery (`try_next`): it never fails an `expect`, and finds what can be taken.
use attyd.Common.{
  ℕ, zero, suc, ◌≤◌, true, false, Option, some, List, [], ◌∷◌, ◌++◌, ◌≡◌, ◌≢◌, refl, Result, ok,
  length, length-append, nonempty, Bool-cases, inl, inr, arith, sym, subst,
}
use attyd.Dispatch.Types.{SessionHandle, Delivery, SessionQueue, SessionDispatch, DispatchError}
use attyd.Dispatch.Ops.{Outcome, returned, panicked, set_registry, take, next_loop, try_next}
use attyd.Dispatch.Ready.{IsReady, Scheduled, ready-Scheduled, take-IsReady, rotate-IsReady}

length-snoc :
    (handle : SessionHandle) (rest : List SessionHandle)
    → length (rest ++ handle ∷ []) ≡ length (handle ∷ rest)
length-snoc handle rest = omega (arith, length-append rest (handle ∷ []))

module _ {E : Type 0} where
  abbrev pub rotated : SessionDispatch E → SessionHandle → List SessionHandle → SessionDispatch E
  rotated d handle rest = set_registry d (record d.registry { ready = rest ++ handle ∷ [] })

  -- A busy session goes to the back of the ready list.
  pub next_loop-busy :
      (rounds : ℕ) (d : SessionDispatch E) (handle : SessionHandle) (rest : List SessionHandle)
      (q : SessionQueue E)
      → d.registry.ready ≡ handle ∷ rest
      → Scheduled d.registry handle q
      → d.busy q.handle.allocation ≡ true
      → next_loop (suc rounds) d ≡ next_loop rounds (rotated d handle rest)
  unfolding next_loop
  next_loop-busy rounds d handle rest q e sch busy = rw (e, sch.found, busy, next_loop)

  pub next_loop-idle :
      (rounds : ℕ) (d : SessionDispatch E) (handle : SessionHandle) (rest : List SessionHandle)
      (q : SessionQueue E) (x : Delivery E) (more : List (Delivery E))
      → d.registry.ready ≡ handle ∷ rest
      → Scheduled d.registry handle q
      → d.busy q.handle.allocation ≡ false
      → q.queue ≡ x ∷ more
      → next_loop (suc rounds) d
        ≡ ((take d handle rest q x more).0, returned (ok (some (take d handle rest q x more).1)))
  unfolding next_loop
  next_loop-idle rounds d handle rest q x more e sch idle has =
      rw (e, sch.found, idle, has, next_loop)

  -- The result of a call that meets no failing `expect` and keeps the ready list right.
  pub record Safe (d : SessionDispatch E)
      (r : SessionDispatch E × Outcome (Result DispatchError (Option (Delivery E)))) : Type 0 where
    pub kept : IsReady r.0.registry
    pub no_panic : r.1 ≢ panicked
    pub lock : r.0.poisoned ≡ d.poisoned

  pub uncons :
      (q : SessionQueue E)
      → nonempty q.queue ≡ true
      → (x : Delivery E) × (more : List (Delivery E)) × (q.queue ≡ x ∷ more)
  uncons q h = go q.queue refl
    where
      go :
          (ds : List (Delivery E))
          → q.queue ≡ ds
          → (x : Delivery E) × (more : List (Delivery E)) × (q.queue ≡ x ∷ more)
      go [] e = absurd (ground arith)
      go (x ∷ more) e = (x, more, e)

  take-poisoned :
      (d : SessionDispatch E) (handle : SessionHandle) (rest : List SessionHandle)
      (q : SessionQueue E) (x : Delivery E) (more : List (Delivery E))
      → (take d handle rest q x more).0.poisoned ≡ d.poisoned
  unfolding take
  take-poisoned d handle rest q x more = refl

  next_loop-Safe :
      (rounds : ℕ) (d : SessionDispatch E) (ready : List SessionHandle)
      → IsReady d.registry
      → d.registry.ready ≡ ready
      → rounds ≤ length ready
      → Safe d (next_loop rounds d)
  unfolding next_loop
  next_loop-Safe zero d ready v e h = record { kept = v; no_panic = λ c. cc; lock = refl }
  next_loop-Safe (suc rounds) d [] v e h = absurd (omega arith)
  next_loop-Safe (suc rounds) d (handle ∷ rest) v e h =
      let (q, sch, alone) = ready-Scheduled d.registry handle rest v e in
      elim (Bool-cases (d.busy q.handle.allocation)) [
        | inl busy ↦
            let ih =
              next_loop-Safe rounds (rotated d handle rest) (rest ++ handle ∷ [])
                (rotate-IsReady d.registry handle rest v e alone) refl
                (omega (arith, length-snoc handle rest)) in
            subst (Safe d) (sym (next_loop-busy rounds d handle rest q e sch busy))
              (record { kept = ih.kept; no_panic = ih.no_panic; lock = ih.lock })
        | inr idle ↦
            let (x, more, has) = uncons q sch.some_queued in
            subst (Safe d) (sym (next_loop-idle rounds d handle rest q x more e sch idle has))
              (record {
                kept = take-IsReady d handle rest q x more v e sch alone;
                no_panic = λ c. cc;
                lock = take-poisoned d handle rest q x more;
              })
      ]

  pub try_next-Safe : (d : SessionDispatch E) → IsReady d.registry → Safe d (try_next d)
  unfolding try_next
  try_next-Safe d v =
      let next = next_loop-Safe (length d.registry.ready) d d.registry.ready v refl (omega arith) in
      record {
        kept = λ k. ground (arith, v k, next.kept k);
        no_panic = ground (arith, next.no_panic);
        lock = ground (arith, next.lock);
      }
