-- ===== src/Dispatch/Progress.antt =====
-- What `try_next` finds: the head of the queue of an idle session, or nothing while every session
-- with something queued is busy.
use attyd.Common.{
  String, true, false, Option, none, some, List, [], ◌∷◌, ◌++◌, ◌≡◌, refl, ap, sym, subst, ◌∙◌, ◌⊎◌,
  inl, inr, Result, ok, err, length, nonempty, if◌then◌else◌, All, All-append, Bool-cases, arith,
}
use attyd.Common.Dict.{lookup}
use mathlib.Core.List.{append-nil, append_assoc}
use attyd.Dispatch.Types.{SessionHandle, Delivery, SessionQueue, SessionDispatch, DispatchError}
use attyd.Dispatch.Ops.{Outcome, returned, set_registry, take, next_loop, try_next}
use attyd.Dispatch.Ready.{entries_of, IsReady, ready-Scheduled, rotate-IsReady}
use attyd.Dispatch.Next.{next_loop-busy, next_loop-idle, uncons}

module _ {E : Type 0} where
  abbrev pub with_ready : SessionDispatch E → List SessionHandle → SessionDispatch E
  with_ready d ready = set_registry d (record d.registry { ready = ready })

  abbrev pub AllBusy : SessionDispatch E → List SessionHandle → Type 0
  AllBusy d = All (λ h. d.busy h.allocation ≡ true)

  -- The call took the head `x` of the queue `q` of the first idle session of the ready list. The busy
  -- sessions `before` it go behind those `after` it; `take` puts the session behind them if it still
  -- has something queued.
  pub record Took (d : SessionDispatch E)
      (r : SessionDispatch E × Outcome (Result DispatchError (Option (Delivery E)))) : Type 0 where
    pub handle : SessionHandle
    pub before : List SessionHandle
    pub after : List SessionHandle
    pub rest : List SessionHandle
    pub order : d.registry.ready ≡ before ++ handle ∷ after
    pub skipped : AllBusy d before
    pub turned : rest ≡ after ++ before
    pub q : SessionQueue E
    pub x : Delivery E
    pub more : List (Delivery E)
    pub found : lookup handle.session_id d.registry.sessions ≡ some q
    pub same : q.handle ≡ handle
    pub idle : d.busy q.handle.allocation ≡ false
    pub head : q.queue ≡ x ∷ more
    pub result : r ≡ (
      (take (with_ready d (handle ∷ rest)) handle rest q x more).0,
      returned (ok (some (take (with_ready d (handle ∷ rest)) handle rest q x more).1)),
    )
    -- What that leaves: the session is busy, and waits behind the others if it has more.
    pub marked : r.0.busy handle.allocation ≡ true
    pub requeued :
        r.0.registry.ready
        ≡ (if nonempty more then (after ++ before) ++ handle ∷ [] else after ++ before)
    pub closing : r.0.registry.closed ≡ d.registry.closed
    pub lock : r.0.poisoned ≡ d.poisoned

  closed_next :
      (d : SessionDispatch E)
      → d.poisoned ≡ false
      → d.registry.closed ≡ true
      → try_next d ≡ (d, returned (err DispatchError.closed))
  unfolding try_next
  closed_next d p c = ground arith

  -- The call gave nothing, and left the dispatcher as it was.
  pub record GaveNothing (d : SessionDispatch E)
      (r : SessionDispatch E × Outcome (Result DispatchError (Option (Delivery E)))) : Type 0 where
    pub answer : r.1 ≡ returned (ok none)
    pub unchanged : r.0 ≡ d

  abbrev Finds :
      SessionDispatch E
      → SessionDispatch E × Outcome (Result DispatchError (Option (Delivery E)))
      → Type 0
  Finds d r = (GaveNothing d r × AllBusy d d.registry.ready) ⊎ Took d r

  -- The rounds that are left, for the sessions `xs`, when those that are passed went behind them.
  next_loop-Finds :
      (d : SessionDispatch E) (passed xs : List SessionHandle)
      → IsReady (with_ready d (xs ++ passed)).registry
      → d.registry.ready ≡ passed ++ xs
      → AllBusy d passed
      → Finds d (next_loop (length xs) (with_ready d (xs ++ passed)))
  unfolding take next_loop
  next_loop-Finds d passed [] v e skipped =
      let all = e ∙ append-nil passed in
      inl (
        record { answer = refl; unchanged = ap (with_ready d) (sym all) },
        subst (AllBusy d) (sym all) skipped,
      )
  next_loop-Finds d passed (handle ∷ xs) v e skipped =
      let now = with_ready d (handle ∷ (xs ++ passed)) in
      let (q, sch, alone) = ready-Scheduled now.registry handle (xs ++ passed) v refl in
      elim (Bool-cases (d.busy q.handle.allocation)) [
        | inl busy ↦
            let step = next_loop-busy (length xs) now handle (xs ++ passed) q refl sch busy in
            let turn = append_assoc xs passed (handle ∷ []) in
            let next = step ∙ ap (λ l. next_loop (length xs) (with_ready d l)) turn in
            let own : d.busy handle.allocation ≡ true = ground (arith, sch.same) in
            subst (Finds d) (sym next) (
              next_loop-Finds d (passed ++ handle ∷ []) xs
                (subst (λ l. IsReady (with_ready d l).registry) turn
                  (rotate-IsReady now.registry handle (xs ++ passed) v refl alone))
                (e ∙ sym (append_assoc passed (handle ∷ []) xs))
                (All-append (λ h. d.busy h.allocation ≡ true) passed (handle ∷ []) skipped
                  (own, tt)))
        | inr idle ↦
            let (x, more, has) = uncons q sch.some_queued in
            let taken =
              next_loop-idle (length xs) now handle (xs ++ passed) q x more refl sch idle has in
            inr (record {
              handle = handle;
              before = passed;
              after = xs;
              rest = xs ++ passed;
              order = e;
              skipped = skipped;
              turned = refl;
              q = q;
              x = x;
              more = more;
              found = sch.found;
              same = sch.same;
              idle = idle;
              head = has;
              result = taken;
              marked = ap (λ r. r.0.busy handle.allocation) taken ∙ ground (arith, sch.same);
              requeued = ap (λ r. r.0.registry.ready) taken;
              closing = ap (λ r. r.0.registry.closed) taken;
              lock = ap (λ r. r.0.poisoned) taken;
            })
      ]

  All-entries_of :
      (d : SessionDispatch E) (k : String) (hs : List SessionHandle)
      → AllBusy d hs
      → AllBusy d (entries_of k hs)
  All-entries_of d k [] b = tt
  All-entries_of d k (h ∷ hs) b = ground (arith, All-entries_of d k hs b.1)

  -- Every session with something queued is busy with an earlier delivery.
  abbrev pub Waits : SessionDispatch E → Type 0
  Waits d =
      (k : String) (q : SessionQueue E)
      → lookup k d.registry.sessions ≡ some q
      → nonempty q.queue ≡ true
      → d.busy q.handle.allocation ≡ true

  -- A dispatcher that is open, not poisoned and whose ready list agrees with its queues takes the
  -- head of the queue of the first idle session of the ready list, marks that session as busy, and
  -- leaves in the list the sessions after it, then the busy ones before it, then itself if it has
  -- more; or it answers with nothing, is left as it was, and every session with something queued
  -- is busy.
  pub try_next-Took :
      (d : SessionDispatch E)
      → d.poisoned ≡ false
      → d.registry.closed ≡ false
      → IsReady d.registry
      → (GaveNothing d (try_next d) × Waits d) ⊎ Took d (try_next d)
  unfolding try_next
  try_next-Took d p c v =
      let whole : d.registry.ready ++ [] ≡ d.registry.ready = append-nil d.registry.ready in
      let same : try_next d ≡ next_loop (length d.registry.ready) d = ground arith in
      let from = ap (λ l. next_loop (length d.registry.ready) (with_ready d l)) (sym whole) in
      let start = subst (λ l. IsReady (with_ready d l).registry) (sym whole) v in
      elim (subst (Finds d) (sym (same ∙ from))
        (next_loop-Finds d [] d.registry.ready start refl tt)) [
          | inl (gave, all) ↦
              inl (gave, λ k q e full. ground (arith, v k, All-entries_of d k d.registry.ready all))
          | inr took ↦ inr took
        ]

  -- The ways in which `try_next` returns.
  pub data NextCase (d : SessionDispatch E) : Type 0 where
    took : Took d (try_next d) → NextCase d
    nothing : GaveNothing d (try_next d) → NextCase d
    refused : (e : DispatchError) → try_next d ≡ (d, returned (err e)) → NextCase d

  pub next_case : (d : SessionDispatch E) → d.poisoned ≡ false → IsReady d.registry → NextCase d
  next_case d p v = elim (Bool-cases d.registry.closed) [
    | inl c ↦ refused DispatchError.closed (closed_next d p c)
    | inr c ↦ elim (try_next-Took d p c v) [ inl (gave, _) ↦ nothing gave | inr t ↦ took t ]
  ]
