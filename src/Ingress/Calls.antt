-- ===== src/Ingress/Calls.antt =====
-- The calls of an ingress in the order in which they take its lock (ordered_ingress.rs), and what
-- holds of one call.
use attyd.Common.{
  ℕ, String, Bool, true, false, List, [], ◌∷◌, Result, ok, Outcome, is_some, if◌then◌else◌, ◌==◌,
}
use attyd.Common.Keyed.{get}
use attyd.Ingress.Types.{
  Sdk, RequestReservation, OrderedIngress, RegisteredRequest, Dispatch, Handled, Effect, Io, sends,
  routes, IngressError, no,
}
use attyd.Ingress.Ops.{send_registered, complete_without_response, intercept}

module _ (S : Sdk) (Event : Type 0) where
  open S use {RequestId, Value, Error, id_eq}

  pub record World : Type 0 where
    pub ingress : OrderedIngress S Event
    pub io : Io S Event

  pub data Call : Type 0 where
    registers : RequestReservation S → String → Outcome (RegisteredRequest S) → Call
    intercepts : Dispatch S → Call
    fails : RequestId → Error → Call
    closes : ℕ → Call

module _ {S : Sdk} where
  abbrev pub declined : Result (IngressError S) (Handled S) → Bool
  declined (ok (no _ _)) = true
  declined _ = false

module _ {S : Sdk} {Event : Type 0} where
  open S use {RequestId, Value, Error, id_eq}

  abbrev pub close_queue : Io S Event → ℕ → Io S Event
  close_queue io q = record io { closed = λ p. if p == q then true else io.closed p }

  unfoldable pub step : World S Event → Call S Event → World S Event
  unfolding send_registered complete_without_response intercept
  step w (registers reservation method sent) = record w {
    ingress = (send_registered w.ingress reservation method sent).0;
  }
  step w (intercepts dispatch) =
      let (i, io, _) = intercept w.ingress w.io dispatch in record { ingress = i; io = io }
  step w (fails id e) =
      let (i, io, _) = complete_without_response w.ingress w.io id e in
      record { ingress = i; io = io }
  step w (closes queue) = record w { io = close_queue w.io queue }

  unfoldable pub run : World S Event → List (Call S Event) → World S Event
  run w [] = w
  run w (c ∷ cs) = run (step w c) cs

  -- The request is waiting for its completion.
  abbrev pub waiting : World S Event → RequestId → Bool
  waiting w id = is_some (get id_eq w.ingress.pending id)

  -- An event on a queue, and no result to a waiter.
  abbrev pub is_event : Effect S Event → Bool
  is_event (sends _ _) = true
  is_event (routes _ _) = false
