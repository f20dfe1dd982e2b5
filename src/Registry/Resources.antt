-- ===== src/Registry/Resources.antt =====
-- The resources of one incarnation of a session (session_resources.rs), with the validation state of
-- its updates (semantic.rs). A sender or a token is the address of what its clones share.
use attyd.Common.{
  ℕ, String, Bool, true, false, ◌&&◌, Option, none, some, List, [], ◌∷◌, str_eq, str_eq_iff, ◌==◌,
  ◌≡◌, ◌↔◌, arith,
}
use attyd.Common.Dict.{Dict}
use attyd.Json.{Json}
use attyd.Registry.Shared.{
  Shared, cancel_token, send, permission_cancelled, elicitation_cancelled, waiter_cancelled,
}
use attyd.Registry.Observers.{SessionObservers, no_observers, shutdown}

pub record TrackedCompaction : Type 0 where
  pub status : String
  pub summary_bytes : ℕ

pub record SessionUpdateSemanticState : Type 0 where
  pub allocation : ℕ
  pub compactions : Dict TrackedCompaction
  pub tool_calls : Dict (Option String)
  pub messages : Dict String
  pub plans : Dict String
  pub update_count : ℕ
  pub update_bytes : ℕ
  pub current_mode_id : Option String
  pub invalid_reason : Option String

pub record SessionUpdateOwner : Type 0 where
  pub incarnation : Option ℕ
  pub allocation : ℕ

pub record ReplayValidationBackup : Type 0 where
  pub owner : SessionUpdateOwner
  pub previous : Option SessionUpdateSemanticState

pub record MaterializationResources : Type 0 where
  pub attempt_id : String
  pub waiters : List ℕ
  pub cancellation : ℕ

pub record HistorySyncResources : Type 0 where
  pub flow_id : String
  pub cancellation : ℕ

pub record SessionResourceOwner : Type 0 where
  pub epoch : String
  pub session_id : String
  pub incarnation : ℕ

unfoldable pub owner_eq : SessionResourceOwner → SessionResourceOwner → Bool
owner_eq a b =
    str_eq a.epoch b.epoch && str_eq a.session_id b.session_id && (a.incarnation == b.incarnation)

pub owner_eq_iff : (a b : SessionResourceOwner) → (owner_eq a b ≡ true) ↔ (a ≡ b)
unfolding owner_eq
owner_eq_iff a b = ground (arith, str_eq_iff a.epoch b.epoch, str_eq_iff a.session_id b.session_id)

pub record UrlRegistration : Type 0 where
  pub owner : Option SessionResourceOwner
  pub registration_id : String

unfoldable pub owned_by : Option SessionResourceOwner → Option SessionResourceOwner → Bool
owned_by none none = true
owned_by (some a) (some b) = owner_eq a b
owned_by _ _ = false

unfoldable pub registration_eq : UrlRegistration → UrlRegistration → Bool
unfolding owned_by
registration_eq a b = owned_by a.owner b.owner && str_eq a.registration_id b.registration_id

pub record HistorySyncOwner : Type 0 where
  pub session : SessionResourceOwner
  pub flow_id : String
  pub cancellation : ℕ

pub record PermissionResponder : Type 0 where
  pub tool_call_id : String
  pub option_ids : List String
  pub sender : ℕ

module _ (J : Json) where
  open J use {Value}

  pub record SyncControlCandidate : Type 0 where
    pub updates : List Value
    pub bytes : ℕ

  pub record AttachmentDelivery : Type 0 where
    pub control_candidate : SyncControlCandidate

  pub record ElicitationResponder : Type 0 where
    pub url_elicitation_id : Option String
    pub request : Value
    pub sender : ℕ

  pub record SessionResources : Type 0 where
    pub validation : Option SessionUpdateSemanticState
    pub replay_validation_backup : Option ReplayValidationBackup
    pub attachment : AttachmentDelivery
    pub materialization : Option MaterializationResources
    pub history_sync : Option HistorySyncResources
    pub permissions : Dict PermissionResponder
    pub elicitations : Dict ElicitationResponder
    pub observers : SessionObservers

-- The drains of `cancel`.
unfoldable pub cancel_permissions : Shared → Dict PermissionResponder → Shared
cancel_permissions m [] = m
cancel_permissions m ((id, p) ∷ rest) =
    cancel_permissions (send m (permission_cancelled p.sender)) rest

unfoldable pub cancel_waiters : Shared → List ℕ → String → Shared
cancel_waiters m [] reason = m
cancel_waiters m (waiter ∷ rest) reason =
    cancel_waiters (send m (waiter_cancelled waiter reason)) rest reason

unfoldable pub cancel_materialization : Shared → Option MaterializationResources → String → Shared
unfolding cancel_waiters
cancel_materialization m none reason = m
cancel_materialization m (some x) reason =
    cancel_waiters (cancel_token m x.cancellation) x.waiters reason

unfoldable pub cancel_sync : Shared → Option HistorySyncResources → Shared
cancel_sync m none = m
cancel_sync m (some sync) = cancel_token m sync.cancellation

module _ {J : Json} where
  abbrev pub no_resources : SessionResources J
  no_resources = record {
    validation = none;
    replay_validation_backup = none;
    attachment = record { control_candidate = record { updates = []; bytes = 0 } };
    materialization = none;
    history_sync = none;
    permissions = [];
    elicitations = [];
    observers = no_observers;
  }

  unfoldable pub cancel_elicitations : Shared → Dict (ElicitationResponder J) → Shared
  cancel_elicitations m [] = m
  cancel_elicitations m ((id, e) ∷ rest) =
      cancel_elicitations (send m (elicitation_cancelled e.sender)) rest

  -- What the drains of `cancel` do to the shared cells, up to the observers.
  unfoldable pub cancel_handles : Shared → SessionResources J → String → Shared
  unfolding cancel_permissions cancel_elicitations cancel_materialization cancel_sync
  cancel_handles m r reason =
      cancel_sync
        (cancel_materialization
          (cancel_elicitations (cancel_permissions m r.permissions) r.elicitations)
          r.materialization reason)
        r.history_sync

  unfoldable pub cancel : Shared → SessionResources J → String → Shared × SessionResources J
  unfolding cancel_handles
  cancel m r reason =
      let (m', observers) = shutdown (cancel_handles m r reason) r.observers in
      (
        m',
        record r {
          permissions = [];
          elicitations = [];
          materialization = none;
          history_sync = none;
          observers = observers;
        },
      )
