-- ===== src/Mirror/Machine.antt =====
-- The calls of the mirror in order (session_mirror.rs), each on one session of the registry.
use attyd.Common.{ℕ, String, Bool, List, [], ◌∷◌}
use attyd.Json.{Json}
use attyd.Session.Types.{SessionOperationKind, SessionAdmission}
use attyd.Registry.Types.{SessionRegistry}
use attyd.Mirror.Store.{Packages}
use attyd.Mirror.Sessions.{register_history, clear_history_for_replacement, remove}
use attyd.Mirror.Loads.{
  begin_load, append_load_update, invalidate_load, commit_load, commit_attachment_cache, fail_load,
}
use attyd.Mirror.Fallback.{use_cached_history}
use attyd.Mirror.Turns.{
  start_turn, append_turn_update, append_session_update, complete_turn,
  commit_completed_turn_from_memory, block_turn,
}
use attyd.Mirror.Intents.{begin_exclusive, settle_exclusive, touch, view}
use attyd.Mirror.Terminals.{retain_terminal_output}

module _ (J : Json) where
  open J use {Value}

  pub data Action : Type 0 where
    registers : Bool → Action
    clears removes touches views : Action
    begins_load invalidates_load commits_load commits_attachment : String → Action
    appends_load : String → Value → Action
    falls_back : List Value → String → Action
    fails_load : String → String → Bool → Action
    starts_turn : String → String → List Value → Action
    updates_turn : String → Value → Action
    updates_session : Value → Action
    completes_turn : String → Value → Action
    commits_turn : String → Action
    blocks_turn : String → String → Action
    begins : SessionOperationKind → String → Action
    settles : SessionAdmission → String → Action
    retains : String → Value → Action

  -- A call names its session and the incarnation that the caller knows.
  pub record Call : Type 0 where
    pub session_id : String
    pub incarnation : ℕ
    pub action : Action

module _ {J : Json} where
  unfoldable pub act : Packages J → SessionRegistry J → String → ℕ → Action J → SessionRegistry J
  act k r id n (registers ready) = register_history k r id n ready
  act k r id n clears = clear_history_for_replacement k r id n
  act k r id n removes = remove k r id n
  act k r id n touches = (touch r id n).0
  act k r id n views = (view r id n).0
  act k r id n (begins_load attempt) = (begin_load r id n attempt).0
  act k r id n (invalidates_load attempt) = (invalidate_load r id n attempt).0
  act k r id n (commits_load attempt) = (commit_load k r id n attempt).0
  act k r id n (commits_attachment attempt) = (commit_attachment_cache k r id n attempt).0
  act k r id n (appends_load attempt update) = (append_load_update k r id n attempt update).0
  act k r id n (falls_back updates notice) = (use_cached_history k r id n updates notice).0
  act k r id n (fails_load attempt message retryable) =
      (fail_load r id n attempt message retryable).0
  act k r id n (starts_turn expected intent prompt) = (start_turn k r id n expected intent prompt).0
  act k r id n (updates_turn operation_id update) =
      (append_turn_update k r id n operation_id update).0
  act k r id n (updates_session update) = (append_session_update k r id n update).0
  act k r id n (completes_turn operation_id terminal) =
      (complete_turn k r id n operation_id terminal).0
  act k r id n (commits_turn operation_id) =
      (commit_completed_turn_from_memory k r id n operation_id).0
  act k r id n (blocks_turn operation_id message) = (block_turn r id n operation_id message).0
  act k r id n (begins kind operation_id) = (begin_exclusive r id n kind operation_id).0
  act k r id n (settles kind operation_id) = (settle_exclusive r id n kind operation_id).0
  act k r id n (retains terminal_id terminal) =
      (retain_terminal_output k r id n terminal_id terminal).0

  unfoldable pub step : Packages J → SessionRegistry J → Call J → SessionRegistry J
  unfolding act
  step k r call = act k r call.session_id call.incarnation call.action

  unfoldable pub run : Packages J → SessionRegistry J → List (Call J) → SessionRegistry J
  run k r [] = r
  run k r (call ∷ calls) = run k (step k r call) calls
