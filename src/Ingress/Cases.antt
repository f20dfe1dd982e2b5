-- ===== src/Ingress/Cases.antt =====
-- What a completion does by cases (ordered_ingress.rs: `complete`).
use attyd.Common.{
  ℕ, ◌||◌, true, false, none, some, [], ◌∷◌, ◌++◌, Result, ok, err, ◌≡◌, ◌⊎◌, inl, inr, arith,
  Bool-cases, Result-cases,
}
use attyd.Common.Keyed.{get, erase}
use attyd.Ingress.Types.{
  Sdk, CompletionSource, OrderedCompletion, RequestReservation, OrderedIngress, Io, IngressError,
  CompletionDisposition, delivered, not_pending, completion_queue_closed, serialization,
  registry_poisoned, sends,
}
use attyd.Ingress.Ops.{new_error, for_request, response_bytes, complete}

module _ {S : Sdk} where
  open S use {RequestId, Value, Error}

  abbrev pub completion :
      RequestReservation S
      → RequestId
      → Result Error Value
      → CompletionSource
      → ℕ
      → OrderedCompletion S
  completion r id result source bytes = record {
    owner = r.owner;
    method = r.method;
    request_id = id;
    result = result;
    source = source;
    response_bytes = bytes;
  }

module _ {S : Sdk} {Event : Type 0} where
  open S use {RequestId, Value, Error, id_eq}

  -- A completion that fails gives no event.
  abbrev pub Failed :
      Io S Event → Io S Event → Result (IngressError S) CompletionDisposition → Type 0
  Failed io io' answer = (e : IngressError S) × (io' ≡ io) × (answer ≡ err e)

  -- A completion that is delivered is one event.
  abbrev pub Sent :
      OrderedIngress S Event
      → Io S Event
      → RequestReservation S
      → RequestId
      → Result Error Value
      → CompletionSource
      → Io S Event
      → Result (IngressError S) CompletionDisposition
      → Type 0
  Sent i io r id result source io' answer =
      (bytes : ℕ) × (io'.effects
        ≡ io.effects ++ sends r.delivery (i.to_event (completion r id result source bytes)) ∷ [])
      × (answer ≡ ok delivered)

  pub complete-cases :
      (i : OrderedIngress S Event) (io : Io S Event) (id : RequestId) (result : Result Error Value)
      (source : CompletionSource) (r : RequestReservation S)
      → i.poisoned ≡ false
      → get id_eq i.pending id ≡ some r
      → ((complete i io id result source).0 ≡ record i { pending = erase id_eq i.pending id })
        × (Failed io (complete i io id result source).1 (complete i io id result source).2
            ⊎ Sent i io r id result source
                (complete i io id result source).1
                (complete i io id result source).2)
  unfolding complete
  complete-cases i io id result source r p f = (
    ground arith,
    elim (Result-cases (response_bytes S result)) [
      | inr (e, b) ↦ inl (for_request (serialization e) r.owner id, ground arith, ground arith)
      | inl (bytes, b) ↦ elim (Bool-cases (io.closed i.events || io.closed r.delivery)) [
        | inl c ↦ inl (for_request completion_queue_closed r.owner id, ground arith, ground arith)
        | inr c ↦ inr (bytes, ground arith, ground arith)
      ]
    ],
  )

  pub complete-poisoned :
      (i : OrderedIngress S Event) (io : Io S Event) (id : RequestId) (result : Result Error Value)
      (source : CompletionSource)
      → i.poisoned ≡ true
      → ((complete i io id result source).0 ≡ i)
        × ((complete i io id result source).1 ≡ io)
        × ((complete i io id result source).2 ≡ err (new_error registry_poisoned))
  unfolding complete
  complete-poisoned i io id result source p = ground arith

  pub complete-none :
      (i : OrderedIngress S Event) (io : Io S Event) (id : RequestId) (result : Result Error Value)
      (source : CompletionSource)
      → i.poisoned ≡ false
      → get id_eq i.pending id ≡ none
      → ((complete i io id result source).0 ≡ i)
        × ((complete i io id result source).1 ≡ io)
        × ((complete i io id result source).2 ≡ ok not_pending)
  unfolding complete
  complete-none i io id result source p f = ground arith
