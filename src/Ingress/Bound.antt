-- ===== src/Ingress/Bound.antt =====
-- How many events a request gives over any calls of an ingress (ordered_ingress.rs).
use attyd.Common.{
  String, ℕ, ◌+◌, ◌≤◌, Bool, true, false, List, [], ◌∷◌, ◌++◌, Result, ok, err, Outcome, returned,
  panicked, ◌≡◌, ◌⊎◌, inl, inr, refl, ◌∙◌, arith, Bool-cases, Option-cases, ap,
}
use attyd.Common.Keyed.{get, get-erase, get-put}
use attyd.Ingress.Types.{
  Sdk, CompletionSource, OrderedCompletion, RequestReservation, RegisteredRequest, Dispatch, Effect,
  CompletionDisposition, delivered, not_pending, sends, routes, other,
}
use attyd.Ingress.Ops.{
  register_with, send_registered, complete, complete_without_response, intercept,
}
use attyd.Ingress.Calls.{World, Call, registers, intercepts, fails, closes, step, run, waiting}
use attyd.Ingress.Cases.{complete-cases, complete-none, complete-poisoned, completion}

abbrev pub as_number : Bool → ℕ
as_number true = 1
as_number false = 0

answer-cases :
    {E : Type 0} (answer : Result E CompletionDisposition)
    → (answer ≡ ok not_pending) ⊎ (answer ≡ ok delivered) ⊎ ((e : E) × (answer ≡ err e))
answer-cases (ok not_pending) = inl refl
answer-cases (ok delivered) = inr (inl refl)
answer-cases (err e) = inr (inr (e, refl))

module _ {S : Sdk} {Event : Type 0} (request_of : Event → S.RequestId) where
  open S use {RequestId, Value, Error, id_eq}

  -- How many of the events of a log are completions of the request.
  abbrev pub completions : RequestId → List (Effect S Event) → ℕ
  completions id [] = 0
  completions id (sends _ event ∷ log) =
      as_number (id_eq (request_of event) id) + completions id log
  completions id (routes _ _ ∷ log) = completions id log

  completions-append :
      (id : RequestId) (xs ys : List (Effect S Event))
      → completions id (xs ++ ys) ≡ completions id xs + completions id ys
  completions-append id [] ys = omega arith
  completions-append id (sends _ event ∷ xs) ys = omega (arith, completions-append id xs ys)
  completions-append id (routes _ _ ∷ xs) ys = completions-append id xs ys

  -- The registration of a request that the call makes.
  abbrev pub registers_request : World S Event → RequestId → Call S Event → ℕ
  registers_request w id (registers reservation method sent) =
      elim (send_registered w.ingress reservation method sent).1 [
        | returned (ok request) ↦ as_number (id_eq request.request_id id)
        | _ ↦ 0
      ]
  registers_request w id _ = 0

  abbrev pub registrations : World S Event → RequestId → List (Call S Event) → ℕ
  registrations w id [] = 0
  registrations w id (c ∷ cs) = registers_request w id c + registrations (step w c) id cs

  -- The completions of a request so far, and the one that it is still to have.
  abbrev pub owed : RequestId → World S Event → ℕ
  owed id w = completions id w.io.effects + as_number (waiting w id)

  module _ (w : World S Event) (id : RequestId)
      (names : (c : OrderedCompletion S) → request_of (w.ingress.to_event c) ≡ c.request_id) where
    complete-owed :
        (failed : RequestId) (result : Result Error Value) (source : CompletionSource)
        → let (i, io, _) = complete w.ingress w.io failed result source in
          owed id (record { ingress = i; io = io }) ≤ owed id w
    complete-owed failed result source = elim (Bool-cases w.ingress.poisoned) [
      | inl e ↦
          let (p, q, _) = complete-poisoned w.ingress w.io failed result source e in
          rw (p, q) (omega arith)
      | inr e ↦ elim (Option-cases (get id_eq w.ingress.pending failed)) [
        | inl f ↦
            let (p, q, _) = complete-none w.ingress w.io failed result source e f in
            rw (p, q) (omega arith)
        | inr (r, f) ↦
            let (p, c) = complete-cases w.ingress w.io failed result source r e f in
            let gone = get-erase id_eq S.id_eq_iff w.ingress.pending failed id in
            elim c [
              | inl (_, q, _) ↦ rw (p, q) (ground (arith, gone, S.id_eq_iff failed id))
              | inr (bytes, q, _) ↦
                  let made = completion r failed result source bytes in
                  let more =
                    completions-append id w.io.effects
                      (sends r.delivery (w.ingress.to_event made) ∷ []) in
                  rw (p, q, more, names made) (ground (arith, gone, S.id_eq_iff failed id))
            ]
      ]
    ]

    intercept-owed :
        (dispatch : Dispatch S)
        → let (i, io, _) = intercept w.ingress w.io dispatch in
          owed id (record { ingress = i; io = io }) ≤ owed id w
    unfolding intercept
    intercept-owed (other message) = omega arith
    intercept-owed (Dispatch.response result router) =
        let kept = complete-owed (S.router_id router) result CompletionSource.response in
        let (i, io, answer) =
          complete w.ingress w.io (S.router_id router) result CompletionSource.response in
        let more = completions-append id io.effects (routes (S.router_id router) result ∷ []) in
        elim (answer-cases answer) [
          | inl h ↦ rw (intercept, h) kept
          | inr (inl h) ↦ rw (intercept, h, more) (omega (arith, kept))
          | inr (inr (e, h)) ↦ rw (intercept, h, more) (omega (arith, kept))
        ]

    send_registered-owed :
        (reservation : RequestReservation S) (method : String)
        (sent : Outcome (RegisteredRequest S))
        → owed id (step w (registers reservation method sent))
          ≤ owed id w + registers_request w id (registers reservation method sent)
    unfolding step send_registered register_with
    send_registered-owed reservation method panicked = ground arith
    send_registered-owed reservation method (returned request) = ground (
      arith,
      get-put id_eq S.id_eq_iff w.ingress.pending request.request_id id
          (record reservation { method = method }),
    )

  abbrev Named : World S Event → Type 0
  Named w = (c : OrderedCompletion S) → request_of (w.ingress.to_event c) ≡ c.request_id

  step-to_event :
      (w : World S Event) (c : Call S Event) → (step w c).ingress.to_event ≡ w.ingress.to_event
  unfolding step send_registered register_with complete_without_response intercept complete
  step-to_event w (registers reservation method panicked) = ground arith
  step-to_event w (registers reservation method (returned request)) = ground arith
  step-to_event w (intercepts (other message)) = refl
  step-to_event w (intercepts (Dispatch.response result router)) = ground arith
  step-to_event w (fails id e) = ground arith
  step-to_event w (closes queue) = refl

  step-owed :
      (w : World S Event) (id : RequestId) (c : Call S Event)
      → Named w
      → owed id (step w c) ≤ owed id w + registers_request w id c
  step-owed w id (registers reservation method sent) n =
      send_registered-owed w id n reservation method sent
  step-owed w id (intercepts dispatch) n =
      unfold step in omega (arith, intercept-owed w id n dispatch)
  step-owed w id (fails failed e) n =
      unfold step complete_without_response in
      omega (arith, complete-owed w id n failed (err e) CompletionSource.local_failure)
  step-owed w id (closes queue) n = unfold step in omega arith

  -- Over any calls of an ingress, whose events name the request that they complete, the events of
  -- a request and the one that it waits for are no more than there were before with one for each
  -- time that the request was registered.
  pub completions_bounded :
      (w : World S Event) (id : RequestId) (cs : List (Call S Event))
      → ((c : OrderedCompletion S) → request_of (w.ingress.to_event c) ≡ c.request_id)
      → completions id (run w cs).io.effects + as_number (waiting (run w cs) id)
        ≤ completions id w.io.effects + as_number (waiting w id) + registrations w id cs
  unfolding run
  completions_bounded w id [] n = omega arith
  completions_bounded w id (c ∷ cs) n =
      let names =
        λ (x : OrderedCompletion S). ap (λ f. request_of (f x)) (step-to_event w c) ∙ n x in
      omega (arith, step-owed w id c n, completions_bounded (step w c) id cs names)
