-- ===== src/Handoff/Types.antt =====
-- The data of the handoff of completions (completion_handoff.rs).
use attyd.Common.{ℕ, Bool, true, false, ◌&&◌, Option, none, some, List, str_eq, ◌==◌}
use attyd.Dispatch.Types.{DeliveryGuard}
use attyd.Ingress.Types.{Sdk, RequestOwner, OrderedCompletion}

pub data HandoffError : Type 0 where
  closed duplicate_owner registry_poisoned withdrawn already_bound unbound
        early_completion_already_parked completion_unavailable :
      HandoffError

pub data HandoffDisposition : Type 0 where
  parked_until_bound delivered unregistered stale_request_id receiver_gone : HandoffDisposition

pub data DiscardDisposition : Type 0 where
  discarded parked_until_bound unregistered stale_request_id : DiscardDisposition

abbrev pub option_eq : {A : Type 0} → (A → A → Bool) → Option A → Option A → Bool
option_eq eq none none = true
option_eq eq (some a) (some b) = eq a b
option_eq eq _ _ = false

-- Equality of owners, which is derived.
abbrev pub owner_eq : RequestOwner → RequestOwner → Bool
owner_eq a b =
    str_eq a.epoch b.epoch
    && option_eq str_eq a.session_id b.session_id
    && option_eq (λ m n. m == n) a.incarnation b.incarnation
    && str_eq a.operation_id b.operation_id
    && option_eq str_eq a.attempt_id b.attempt_id

module _ (S : Sdk) where
  open S use {RequestId}

  pub data BindDisposition : Type 0 where
    awaiting_completion : Option RequestId → BindDisposition
    delivered receiver_gone discarded : BindDisposition

  pub record CompletionTurn : Type 0 where
    pub completion : OrderedCompletion S
    pub guard : DeliveryGuard

  -- `sender` names the receiver that was made with it.
  pub record Entry : Type 0 where
    pub allocation : ℕ
    pub request_id : Option RequestId
    pub sender : ℕ
    pub early : Option CompletionTurn
    pub discarded_early : Option RequestId

  -- `poisoned` is the state of the lock.
  pub record CompletionHandoff : Type 0 where
    pub closed : Bool
    pub poisoned : Bool
    pub entries : List (RequestOwner × Entry)

  -- `receiver` is what the channel holds.
  pub record CompletionRegistration : Type 0 where
    pub owner : RequestOwner
    pub allocation : ℕ
    pub bound : Bool
    pub receiver : Option CompletionTurn
