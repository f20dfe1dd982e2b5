-- ===== src/Session/Types.antt =====
-- The record of a session and the types in it (session_state.rs and runtime_state.rs).
use attyd.Common.{ℕ, String, Bool, true, false, ◌&&◌, Option, List, [], ◌∷◌, ◌==◌, ◌≡◌, ◌↔◌, arith}
use attyd.Common.Dict.{Dict}
use attyd.Json.{Json}

pub data MirrorPhase : Type 0 where
  cold loading ready running reconciling blocked : MirrorPhase

pub data SessionLifecycle : Type 0 where
  attaching active closing closing_for_delete deleting closed uncertain : SessionLifecycle

pub data SessionOperationKind : Type 0 where
  load resume fork close delete set_mode set_config : SessionOperationKind

pub data SessionAdmission : Type 0 where
  prompt control fork close delete attachment : SessionAdmission

pub data HistoryCacheError : Type 0 where
  candidate_exists candidate_missing attempt_mismatch invalid_replay : HistoryCacheError

pub data MirrorError : Type 0 where
  unknown_session stale_incarnation wrong_phase stale_history : MirrorError
  idempotency_conflict operation_mismatch inconsistent_history : MirrorError
  history : HistoryCacheError → MirrorError

pub data UrlFlowStatus : Type 0 where
  waiting completed cancelled : UrlFlowStatus

pub record SessionOperationState : Type 0 where
  pub operation_id : String
  pub kind : SessionOperationKind
  pub stage : String
  pub uncertainty_reason : Option String

pub record TurnExecution : Type 0 where
  pub rpc_operation_id : String
  pub cancel_requested : Bool

pub record LastConsumption : Type 0 where
  pub operation_id : String
  pub payload_digest : List ℕ
  pub consumed_revision : String
  pub successor_revision : String

pub data TurnAdmission : Type 0 where
  accepted duplicate : String → TurnAdmission

module _ (J : Json) where
  open J use {Value}

  pub record PendingInteraction : Type 0 where
    pub interaction_id : String
    pub request : Value
    pub operation_id : Option String
    pub responding_operation_id : Option String

  pub record UrlFlow : Type 0 where
    pub elicitation_id : String
    pub registration_id : String
    pub request : Value
    pub status : UrlFlowStatus

  pub record TurnOverlay : Type 0 where
    pub operation_id : String
    pub client_intent_id : String
    pub prompt : List Value
    pub updates : List Value
    pub terminal : Option Value
    pub execution : Option TurnExecution

  pub record CompletedTurnOutcome : Type 0 where
    pub operation_id : String
    pub after_update : ℕ
    pub response : Value

  pub record SessionLiveState : Type 0 where
    pub revision : ℕ
    pub cwd : String
    pub session : Value
    pub control_state : Dict Value
    pub lifecycle : SessionLifecycle
    pub permissions : Dict PendingInteraction
    pub elicitations : Dict PendingInteraction
    pub url_flows : Dict UrlFlow
    pub terminals : Dict Value
    pub history_revision : Option String
    pub phase : MirrorPhase
    pub sync_error : Option String
    pub resolved_permissions : List String
    pub resolved_elicitations : List String
    pub resolved_url_flows : List String
    pub released_terminals : List String
    pub attachment_candidate : List Value
    pub attachment_candidate_bytes : ℕ

  pub record SessionState : Type 0 where
    pub session_id : String
    pub incarnation : ℕ
    pub live : Option SessionLiveState
    pub view_revision : ℕ
    pub history_revision : Option String
    pub phase : MirrorPhase
    pub active_turn : Option TurnOverlay
    pub turn_outcomes : List CompletedTurnOutcome
    pub sync_error : Option String
    pub history_notice : Option String
    pub operation : Option SessionOperationState
    pub active_payload_digest : Option (List ℕ)
    pub consumed_intents : Dict LastConsumption
    pub load_attempt : Option String
    pub load_origin : Option MirrorPhase
    pub active_overlay_bytes : ℕ

  -- SHA-256 and the serializer, which are packages: `to_writer` gives the chunks that it writes for
  -- an overlay, or fails.
  pub record Codec : Type 0 where
    pub sha256 : List ℕ → List ℕ
    pub to_vec : List Value → List ℕ
    pub to_writer : TurnOverlay → Option (List (List ℕ))

-- Equality of digests.
unfoldable pub bytes_eq : List ℕ → List ℕ → Bool
bytes_eq [] [] = true
bytes_eq (a ∷ xs) (b ∷ ys) = a == b && bytes_eq xs ys
bytes_eq _ _ = false

pub bytes_eq_iff : (a b : List ℕ) → (bytes_eq a b ≡ true) ↔ (a ≡ b)
unfolding bytes_eq
bytes_eq_iff [] [] = ground arith
bytes_eq_iff [] (b ∷ ys) = ground arith
bytes_eq_iff (a ∷ xs) [] = ground arith
bytes_eq_iff (a ∷ xs) (b ∷ ys) = ground (arith, bytes_eq_iff xs ys)
