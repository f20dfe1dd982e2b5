-- ===== src/Dispatch/Types.antt =====
-- The data of the dispatcher (session_dispatch.rs, lines 13 to 226). An `Arc` of counters or of a busy
-- flag is an address: a session's are allocated with its queue, so they bear its allocation number.
use attyd.Common.{
  ℕ, String, Bool, true, false, ◌&&◌, Option, List, ◌≡◌, ◌↔◌, str_eq, str_eq_iff, ◌==◌, arith,
}
use attyd.Common.Dict.{Dict}

pub data TrafficClass : Type 0 where
  ordinary reserved : TrafficClass

pub data DispatchError : Type 0 where
  closed registry_poisoned epoch_mismatch foreign_handle session_removed stale_handle :
      DispatchError
  stale_incarnation : ℕ → ℕ → DispatchError
  allocation_exhausted : DispatchError

pub record SessionHandle : Type 0 where
  pub epoch : String
  pub session_id : String
  pub incarnation : ℕ
  pub allocation : ℕ
  pub registry : ℕ

unfoldable pub handle_eq : SessionHandle → SessionHandle → Bool
handle_eq a b =
    (a.registry == b.registry)
    && str_eq a.epoch b.epoch
    && str_eq a.session_id b.session_id
    && (a.incarnation == b.incarnation)
    && (a.allocation == b.allocation)

pub handle_eq_iff : (a b : SessionHandle) → (handle_eq a b ≡ true) ↔ (a ≡ b)
unfolding handle_eq
handle_eq_iff a b = (
  λ h. ground (arith, str_eq_iff a.epoch b.epoch, str_eq_iff a.session_id b.session_id),
  λ h. ground (arith, str_eq_iff a.epoch b.epoch, str_eq_iff a.session_id b.session_id),
)

pub record QueueUsage : Type 0 where
  pub items : ℕ
  pub bytes : ℕ

-- The address of a pair of counters.
pub data Pool : Type 0 where
  global : TrafficClass → Pool
  session : ℕ → TrafficClass → Pool

abbrev pub class_eq : TrafficClass → TrafficClass → Bool
class_eq ordinary ordinary = true
class_eq reserved reserved = true
class_eq _ _ = false

abbrev pub pool_eq : Pool → Pool → Bool
pool_eq (global c) (global d) = class_eq c d
pool_eq (session a c) (session b d) = a == b && class_eq c d
pool_eq _ _ = false

pub record QueueLease : Type 0 where
  pub pool : Pool
  pub size : ℕ

pub record DeliveryGuard : Type 0 where
  pub busy : Option ℕ
  pub session : Option QueueLease
  pub global : Option QueueLease

module _ (E : Type 0) where
  pub record Delivery : Type 0 where
    pub handle : SessionHandle
    pub event : E
    pub guard : DeliveryGuard

  pub record Rejected : Type 0 where
    pub error : DispatchError
    pub event : E

  pub record SessionQueue : Type 0 where
    pub handle : SessionHandle
    pub queue : List Delivery
    pub scheduled : Bool

  pub record Registry : Type 0 where
    pub closed : Bool
    pub next_allocation : ℕ
    pub sessions : Dict SessionQueue
    pub ready : List SessionHandle

  -- `counters` and `busy` are the shared memory; `poisoned` is the state of the registry's mutex,
  -- which a panic under the lock poisons.
  pub record SessionDispatch : Type 0 where
    pub epoch : String
    pub identity : ℕ
    pub counters : Pool → QueueUsage
    pub busy : ℕ → Bool
    pub poisoned : Bool
    pub registry : Registry
