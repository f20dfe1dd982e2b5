-- ===== src/Ingress/Types.antt =====
-- The data of the ordered ingress (ordered_ingress.rs). The agent client protocol package and
-- the serializer are the parameter `Sdk`.
use attyd.Common.{ℕ, String, Bool, true, Option, List, ◌≡◌, ◌↔◌, Result}

pub record RequestOwner : Type 0 where
  pub epoch : String
  pub session_id : Option String
  pub incarnation : Option ℕ
  pub operation_id : String
  pub attempt_id : Option String

pub data RequestClass : Type 0 where
  long_running control : RequestClass

pub data CompletionSource : Type 0 where
  response local_failure : CompletionSource

pub data CompletionDisposition : Type 0 where
  delivered not_pending : CompletionDisposition

-- A type and its operations that the package gives; `route` is the answer of
-- `route_with_result`, and a writer gives the pieces in the order in which it writes them.
pub record Sdk : Type 1 where
  pub RequestId : Type 0
  pub Value : Type 0
  pub Error : Type 0
  pub Router : Type 0
  pub Other : Type 0
  pub Sent : Type 0
  pub id_eq : RequestId → RequestId → Bool
  pub id_eq_iff : (a b : RequestId) → (id_eq a b ≡ true) ↔ (a ≡ b)
  pub router_id : Router → RequestId
  pub route : Router → Result Error Value → Result {0, 0} Error Unit
  pub write_value : Value → Result String (List (List ℕ))
  pub write_error : Error → Result String (List (List ℕ))

module _ (S : Sdk) where
  open S use {RequestId, Value, Error, Router, Other, Sent}

  pub record OrderedCompletion : Type 0 where
    pub owner : RequestOwner
    pub method : String
    pub request_id : RequestId
    pub result : Result Error Value
    pub source : CompletionSource
    pub response_bytes : ℕ

  pub data IngressErrorKind : Type 0 where
    completion_queue_closed foreign_reservation duplicate_request_id registry_poisoned :
        IngressErrorKind
    serialization : String → IngressErrorKind
    route_failed : Error → IngressErrorKind
    delivery_and_route_failed : IngressErrorKind → Error → IngressErrorKind

  pub record IngressError : Type 0 where
    pub kind : IngressErrorKind
    pub owner : Option RequestOwner
    pub request_id : Option RequestId

  -- `identity` is the address of the ingress that made it, `delivery` that of the queue.
  pub record RequestReservation : Type 0 where
    pub identity : ℕ
    pub owner : RequestOwner
    pub method : String
    pub delivery : ℕ

  pub record OrderedIngress (Event : Type 0) : Type 0 where
    pub identity : ℕ
    pub pending : List (RequestId × RequestReservation)
    pub poisoned : Bool
    pub events : ℕ
    pub to_event : OrderedCompletion → Event

  pub record RegisteredRequest : Type 0 where
    pub request_id : RequestId
    pub sent : Sent

  pub data Dispatch : Type 0 where
    response : Result Error Value → Router → Dispatch
    other : Other → Dispatch

  pub data Handled : Type 0 where
    yes : Handled
    no : Dispatch → Bool → Handled

  -- What leaves the ingress: an event on a queue, a result to the waiter of a request.
  pub data Effect (Event : Type 0) : Type 0 where
    sends : ℕ → Event → Effect Event
    routes : RequestId → Result Error Value → Effect Event

  pub record Io (Event : Type 0) : Type 0 where
    pub closed : ℕ → Bool
    pub effects : List (Effect Event)
