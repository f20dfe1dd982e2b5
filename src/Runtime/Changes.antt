-- ===== src/Runtime/Changes.antt =====
-- What the runtime publishes, and the effects that it asks for (runtime_state.rs).
use attyd.Common.{ℕ, String, Bool, Option, List}
use attyd.Common.Dict.{Dict}
use attyd.Json.{Json}
use attyd.Session.Types.{
  MirrorPhase, SessionLifecycle, SessionOperationState, PendingInteraction, UrlFlow,
}

pub data RuntimeEffect : Type 0 where
  cancel_permission_responder : String → ℕ → String → RuntimeEffect
  cancel_elicitation_responder : Option String → Option ℕ → String → RuntimeEffect
  abort_url_flow : Option String → Option ℕ → String → String → RuntimeEffect
  release_terminal : String → String → RuntimeEffect

module _ (J : Json) where
  open J use {Value}

  pub record ActiveTurn : Type 0 where
    pub operation_id : String
    pub turn_id : String
    pub prompt : List Value
    pub updates : List Value
    pub cancel_requested : Bool

  pub record SessionRuntime : Type 0 where
    pub session_id : String
    pub incarnation : ℕ
    pub revision : ℕ
    pub cwd : String
    pub session : Value
    pub control_state : Dict Value
    pub lifecycle : SessionLifecycle
    pub active_turn : Option ActiveTurn
    pub operation : Option SessionOperationState
    pub permissions : Dict (PendingInteraction J)
    pub elicitations : Dict (PendingInteraction J)
    pub url_flows : Dict (UrlFlow J)
    pub terminals : Dict Value
    pub history_revision : Option String
    pub phase : MirrorPhase
    pub sync_error : Option String

  pub record ControlChange : Type 0 where
    pub session_id : String
    pub incarnation : ℕ
    pub revision : ℕ
    pub key : String
    pub update : Value
    pub history_revision : Option String
    pub phase : MirrorPhase
    pub sync_error : Option String

  pub data RuntimeChange : Type 0 where
    connection_upsert : Dict (PendingInteraction J) → Dict (UrlFlow J) → RuntimeChange
    session_upsert : SessionRuntime → RuntimeChange
    session_control_updated : ControlChange → RuntimeChange
    turn_update_appended : String → ℕ → ℕ → String → Value → RuntimeChange
    terminal_updated : String → ℕ → ℕ → String → Value → RuntimeChange
    session_removed : String → ℕ → RuntimeChange

  pub record RuntimeDelta : Type 0 where
    pub epoch : String
    pub seq : ℕ
    pub scope_revision : Option ℕ
    pub change : RuntimeChange

  -- The serializer: the chunks that it writes for a record, or a failure.
  pub record Wire : Type 0 where
    pub to_writer : RuntimeDelta → Option (List (List ℕ))
