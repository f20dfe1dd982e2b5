-- ===== src/Runtime/InUse.antt =====
-- Whether an operation identifier or a URL flow is in use anywhere (runtime_state.rs).
use attyd.Common.{
  ℕ, String, Bool, true, false, not, ◌&&◌, ◌||◌, Option, none, some, List, [], ◌∷◌, str_eq, ◌==◌,
  is_text, is_some, is_some_and,
}
use attyd.Common.Dict.{lookup}
use attyd.Json.{Json}
use attyd.Session.Types.{
  SessionOperationKind, load, resume, fork, close, delete, set_mode, set_config, SessionState,
  SessionOperationState, PendingInteraction,
}
use attyd.Session.Admission.{turn_execution}
use attyd.Registry.Types.{SessionEntry, SessionRegistry}

abbrev pub kind_eq : SessionOperationKind → SessionOperationKind → Bool
kind_eq load load = true
kind_eq resume resume = true
kind_eq fork fork = true
kind_eq close close = true
kind_eq delete delete = true
kind_eq set_mode set_mode = true
kind_eq set_config set_config = true
kind_eq _ _ = false

pub record Reservation : Type 0 where
  pub session_id : String
  pub incarnation : ℕ
  pub kind : SessionOperationKind

abbrev pub any_value {ℓ} : {V : Type ℓ} → (V → Bool) → List (String × V) → Bool
any_value p [] = false
any_value p ((k, v) ∷ rest) = p v || any_value p rest

module _ {J : Json} where
  abbrev pub responds : String → PendingInteraction J → Bool
  responds operation_id interaction = is_text interaction.responding_operation_id operation_id

  unfoldable pub is_reserved_slot :
      SessionState J → SessionOperationState → Option Reservation → Bool
  is_reserved_slot s operation none = false
  is_reserved_slot s operation (some reservation) =
      str_eq s.session_id reservation.session_id
      && (s.incarnation == reservation.incarnation)
      && kind_eq operation.kind reservation.kind
      && str_eq operation.stage "reserved"

  unfoldable pub uses_operation : String → Option Reservation → SessionEntry J → Bool
  unfolding is_reserved_slot turn_execution
  uses_operation operation_id reservation entry =
      is_some_and (turn_execution entry.state) (λ e. str_eq e.rpc_operation_id operation_id)
      || is_some_and entry.state.operation (λ o.
        str_eq o.operation_id operation_id && not (is_reserved_slot entry.state o reservation))
      || is_some_and entry.state.live (λ live.
        any_value (responds operation_id) live.permissions
        || any_value (responds operation_id) live.elicitations)

  unfoldable pub operation_in_use_except_reserved :
      SessionRegistry J → String → Option Reservation → Bool
  unfolding uses_operation
  operation_in_use_except_reserved r operation_id reservation =
      any_value (uses_operation operation_id reservation) r.sessions
      || any_value (responds operation_id) r.request_elicitations

  unfoldable pub operation_in_use : SessionRegistry J → String → Bool
  unfolding operation_in_use_except_reserved
  operation_in_use r operation_id = operation_in_use_except_reserved r operation_id none

  unfoldable pub url_flow_in_use : SessionRegistry J → String → Bool
  url_flow_in_use r elicitation_id =
      is_some (lookup elicitation_id r.request_url_flows)
      || any_value
          (λ (entry : SessionEntry J).
            is_some_and entry.state.live (λ live. is_some (lookup elicitation_id live.url_flows)))
          r.sessions
