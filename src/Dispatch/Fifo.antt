-- ===== src/Dispatch/Fifo.antt =====
-- The events of a session are delivered in the order in which they were routed to it.
use attyd.Common.{
  ℕ, String, Bool, true, false, some, List, [], ◌∷◌, ◌++◌, map, ◌≡◌, ap, sym, subst, ◌∙◌, inl, inr,
  ok, str_eq, str_eq_iff, if◌then◌else◌, All, all, Result-cases, arith,
}
use attyd.Common.Dict.{lookup, lookup-insert}
use mathlib.Core.List.{append_assoc, append-nil, map-append}
use attyd.Dispatch.Types.{TrafficClass, SessionHandle, Delivery, SessionQueue}
use attyd.Dispatch.Ops.{
  returned, pushed, popped, leased, queued, enqueue, accept, take, validate_handle, drop_guard,
  try_next,
}
use attyd.Dispatch.Progress.{Took, took, nothing, refused, next_case}
use attyd.Dispatch.Safety.{step-Sound}
use attyd.Dispatch.Sound.{Sound, validate_handle-found, try_route-ok, try_route-err}
use attyd.Dispatch.Owned.{Belongs, Owned, step-Owned, OwnedAt}
use attyd.Dispatch.System.{
  World, Action, registers, routes, takes, finishes, removes, closes, Answer, routed, taken, finish,
  step, run,
}

module _ {E : Type 0} where
  abbrev pub when : Bool → E → List E
  when b event = if b then event ∷ [] else []

  -- The event that a call queues for session `k`.
  abbrev pub event_in : String → Action E → Answer E → List E
  event_in k (routes handle class bytes event) (routed (returned (ok _))) =
      when (str_eq handle.session_id k) event
  event_in k _ _ = []

  -- The event of session `k` that a call hands out.
  abbrev pub event_out : String → Answer E → List E
  event_out k (taken (returned (ok (some x)))) = when (str_eq x.handle.session_id k) x.event
  event_out k _ = []

  unfoldable pub events_in : String → World E → List (Action E) → List E
  events_in k w [] = []
  events_in k w (a ∷ actions) = event_in k a (step w a).1 ++ events_in k (step w a).0 actions

  unfoldable pub events_out : String → World E → List (Action E) → List E
  events_out k w [] = []
  events_out k w (a ∷ actions) = event_out k (step w a).1 ++ events_out k (step w a).0 actions

  -- The events that wait for session `k`.
  abbrev pub waiting : String → World E → List E
  waiting k w = map (λ x. x.event) (queued (lookup k w.dispatch.registry.sessions))

  -- The calls that neither open nor end a session.
  abbrev pub is_traffic : Action E → Bool
  is_traffic (routes handle class bytes event) = true
  is_traffic takes = true
  is_traffic (finishes i) = true
  is_traffic _ = false

  accept-waiting :
      (w : World E) (q : SessionQueue E) (handle : SessionHandle) (class : TrafficClass) (bytes : ℕ)
      (event : E) (k : String)
      → lookup handle.session_id w.dispatch.registry.sessions ≡ some q
      → waiting k (record w { dispatch = accept w.dispatch q handle class bytes event })
        ≡ waiting k w ++ when (str_eq handle.session_id k) event
  unfolding accept enqueue
  accept-waiting w q handle class bytes event k e =
      let x : Delivery E = record {
        handle = handle;
        event = event;
        guard = leased handle class bytes;
      } in
      ground (
        arith,
        lookup-insert handle.session_id k (pushed q x) w.dispatch.registry.sessions,
        str_eq_iff handle.session_id k,
        map-append (λ (y : Delivery E). y.event) q.queue (x ∷ []),
        append-nil (waiting k w),
      )

  Took-waiting :
      (w : World E) (k : String)
      → Owned w.dispatch.registry
      → Took w.dispatch (try_next w.dispatch)
      → event_out k (taken (try_next w.dispatch).1)
          ++ map (λ x. x.event) (queued (lookup k (try_next w.dispatch).0.registry.sessions))
        ≡ waiting k w
  unfolding take
  Took-waiting w k v t =
      let own = subst (All (Belongs t.q)) t.head (subst OwnedAt t.found (v t.handle.session_id)) in
      rw t.result (
        ground (
          arith,
          own.0.0,
          lookup-insert t.handle.session_id k (popped t.q t.more) w.dispatch.registry.sessions,
          str_eq_iff t.handle.session_id k,
          t.found,
          t.head,
          t.same,
        ))

  step-waiting :
      (w : World E) (a : Action E) (k : String)
      → Sound w.dispatch
      → Owned w.dispatch.registry
      → is_traffic a ≡ true
      → event_out k (step w a).1 ++ waiting k (step w a).0
        ≡ waiting k w ++ event_in k a (step w a).1
  unfolding step finish drop_guard
  step-waiting w (routes handle class bytes event) k s v h =
      elim (Result-cases (validate_handle w.dispatch handle)) [
        | inl (_, valid) ↦
            let (q, e, same) = validate_handle-found w.dispatch handle valid in
            rw (try_route-ok w.dispatch q handle class bytes event s.lock valid e)
              (accept-waiting w q handle class bytes event k e)
        | inr (_, invalid) ↦
            rw (try_route-err w.dispatch handle class bytes event s.lock invalid)
              (sym (append-nil (waiting k w)))
      ]
  step-waiting w takes k s v h = elim (next_case w.dispatch s.lock s.ready) [
    | took t ↦ Took-waiting w k v t ∙ sym (append-nil (waiting k w))
    | nothing gave ↦
        ground (
          arith,
          gave.answer,
          ap (λ d. d.registry.sessions) gave.unchanged,
          append-nil (waiting k w),
        )
    | refused e same ↦ ground (arith, same, append-nil (waiting k w))
  ]
  step-waiting w (finishes i) k s v h = ground (arith, append-nil (waiting k w))
  step-waiting w (registers id n) k s v h = absurd (ground arith)
  step-waiting w (removes handle) k s v h = absurd (ground arith)
  step-waiting w closes k s v h = absurd (ground arith)

  -- Over any sequence of routes, takes and drops of guards, in a sound dispatcher whose deliveries
  -- bear the handles of their queues, what is handed out for a session followed by what still
  -- waits is what waited at the start followed by what was routed to it, in that order.
  pub fifo :
      (w : World E) (actions : List (Action E)) (k : String)
      → Sound w.dispatch
      → Owned w.dispatch.registry
      → all is_traffic actions ≡ true
      → events_out k w actions ++ waiting k (run w actions) ≡ waiting k w ++ events_in k w actions
  unfolding run events_in events_out
  fifo w [] k s v h = sym (append-nil (waiting k w))
  fifo w (a ∷ actions) k s v h =
      let w' = (step w a).0 in
      let out = event_out k (step w a).1 in
      let in_ = event_in k a (step w a).1 in
      let rest = fifo w' actions k (step-Sound w a s) (step-Owned w a s v) (ground arith) in
      append_assoc out (events_out k w' actions) (waiting k (run w' actions))
      ∙ ap (λ es. out ++ es) rest
      ∙ sym (append_assoc out (waiting k w') (events_in k w' actions))
      ∙ ap (λ es. es ++ events_in k w' actions) (step-waiting w a k s v (ground arith))
      ∙ append_assoc (waiting k w) in_ (events_in k w' actions)
