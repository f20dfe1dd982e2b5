-- ===== src/Ingress/Ops.antt =====
-- The operations of `OrderedIngress` (ordered_ingress.rs).
use attyd.Common.{
  ℕ, String, true, false, not, none, some, List, [], ◌∷◌, ◌++◌, Result, ◌>>=◌, ok, err, Outcome,
  returned, panicked, is_some, ◌==◌, if◌then◌else◌,
}
use attyd.Common.Keyed.{get, put, erase}
use attyd.Session.Turn.{count_bytes}
use attyd.Ingress.Types.{
  Sdk, RequestOwner, RequestClass, CompletionSource, CompletionDisposition, OrderedCompletion,
  IngressErrorKind, IngressError, RequestReservation, OrderedIngress, RegisteredRequest, Dispatch,
  Handled, Io, delivered, not_pending, completion_queue_closed, foreign_reservation,
  duplicate_request_id, registry_poisoned, serialization, route_failed, delivery_and_route_failed,
  yes, no, sends, routes, other,
}

module _ (S : Sdk) where
  open S use {Value, Error}

  -- What the writer gives for a result, or the text of its error.
  abbrev written : Result Error Value → Result String (List (List ℕ))
  written (ok value) = S.write_value value
  written (err e) = S.write_error e

  unfoldable pub response_bytes : Result Error Value → Result String ℕ
  unfolding count_bytes
  response_bytes result = written result >>= λ chunks. ok (count_bytes 0 chunks)

module _ {S : Sdk} where
  open S use {RequestId, Value, Error, Router, id_eq}

  abbrev pub new_error : IngressErrorKind S → IngressError S
  new_error kind = record { kind = kind; owner = none; request_id = none }

  abbrev pub for_request : IngressErrorKind S → RequestOwner → RequestId → IngressError S
  for_request kind owner id = record { kind = kind; owner = some owner; request_id = some id }

  -- What `intercept` answers by the completion and the routing of the response.
  abbrev pub intercepted :
      RequestId
      → Result (IngressError S) CompletionDisposition
      → Result {0, 0} Error Unit
      → Result (IngressError S) (Handled S)
  intercepted id (ok _) (ok _) = ok yes
  intercepted id (err e) (ok _) = err e
  intercepted id (ok _) (err route) =
      err (record { kind = route_failed route; owner = none; request_id = some id })
  intercepted id (err e) (err route) =
      err (record e { kind = delivery_and_route_failed e.kind route })

  module _ {Event : Type 0} where
    abbrev pub new_ingress : ℕ → ℕ → (OrderedCompletion S → Event) → OrderedIngress S Event
    new_ingress identity events to_event = record {
      identity = identity;
      pending = [];
      poisoned = false;
      events = events;
      to_event = to_event;
    }

    unfoldable pub try_reserve :
        OrderedIngress S Event
        → Io S Event
        → RequestClass
        → RequestOwner
        → Result (IngressError S) (RequestReservation S)
    try_reserve i io _ owner =
        if io.closed i.events
        then err (new_error completion_queue_closed)
        else ok (record { identity = i.identity; owner = owner; method = ""; delivery = i.events })

    -- `sent` is what the call of `send` gives; a panic there leaves the lock poisoned.
    unfoldable pub register_with :
        {T : Type 0}
        → OrderedIngress S Event
        → RequestReservation S
        → Outcome (RequestId × T)
        → OrderedIngress S Event × Outcome (Result (IngressError S) T)
    register_with i reservation sent =
        if not (reservation.identity == i.identity)
        then (i, returned (err (new_error foreign_reservation)))
        else if i.poisoned
        then (i, returned (err (new_error registry_poisoned)))
        else elim sent [
          | panicked ↦ (record i { poisoned = true }, panicked)
          | returned (id, result) ↦
              if is_some (get id_eq i.pending id)
              then (i, returned (err (for_request duplicate_request_id reservation.owner id)))
              else (record i { pending = put id_eq i.pending id reservation }, returned (ok result))
        ]

    unfoldable pub complete :
        OrderedIngress S Event
        → Io S Event
        → RequestId
        → Result Error Value
        → CompletionSource
        → OrderedIngress S Event × Io S Event × Result (IngressError S) CompletionDisposition
    complete i io id result source =
        if i.poisoned
        then (i, io, err (new_error registry_poisoned))
        else elim (get id_eq i.pending id) [
          | none ↦ (i, io, ok not_pending)
          | some r ↦
              let left = record i { pending = erase id_eq i.pending id } in
              elim (response_bytes S result) [
                | err e ↦ (left, io, err (for_request (serialization e) r.owner id))
                | ok bytes ↦
                    if io.closed i.events
                    then (left, io, err (for_request completion_queue_closed r.owner id))
                    else if io.closed r.delivery
                    then (left, io, err (for_request completion_queue_closed r.owner id))
                    else let event = i.to_event (record {
                      owner = r.owner;
                      method = r.method;
                      request_id = id;
                      result = result;
                      source = source;
                      response_bytes = bytes;
                    }) in
                      (
                        left,
                        record io { effects = io.effects ++ sends r.delivery event ∷ [] },
                        ok delivered,
                      )
              ]
        ]

    unfoldable pub send_registered :
        OrderedIngress S Event
        → RequestReservation S
        → String
        → Outcome (RegisteredRequest S)
        → OrderedIngress S Event × Outcome (Result (IngressError S) (RegisteredRequest S))
    unfolding register_with
    send_registered i reservation method sent =
        register_with i (record reservation { method = method })
          (elim sent [
            | panicked ↦ panicked
            | returned request ↦ returned (request.request_id, request)
          ])

    unfoldable pub complete_without_response :
        OrderedIngress S Event
        → Io S Event
        → RequestId
        → Error
        → OrderedIngress S Event × Io S Event × Result (IngressError S) CompletionDisposition
    complete_without_response i io id e = complete i io id (err e) CompletionSource.local_failure

    abbrev pub routed : Io S Event → Router → Result Error Value → Io S Event
    routed io router result = record io {
      effects = io.effects ++ routes (S.router_id router) result ∷ [];
    }

    unfoldable pub intercept :
        OrderedIngress S Event
        → Io S Event
        → Dispatch S
        → OrderedIngress S Event × Io S Event × Result (IngressError S) (Handled S)
    intercept i io (other message) = (i, io, ok (no (other message) false))
    intercept i io (Dispatch.response result router) =
        let (i', io', completion) =
          complete i io (S.router_id router) result CompletionSource.response in
        elim completion [
          | ok not_pending ↦ (i', io', ok (no (Dispatch.response result router) false))
          | ok delivered ↦ (
            i',
            routed io' router result,
            intercepted (S.router_id router) (ok delivered) (S.route router result),
          )
          | err e ↦ (
            i',
            routed io' router result,
            intercepted (S.router_id router) (err e) (S.route router result),
          )
        ]
