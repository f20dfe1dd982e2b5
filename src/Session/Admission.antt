-- ===== src/Session/Admission.antt =====
-- Which business intents a session admits, and the slot of exclusive operations
-- (session_state.rs: `can_begin` to `settle_exclusive`).
use attyd.Common.{
  ℕ, String, Bool, true, false, not, ◌&&◌, ◌||◌, Option, none, some, [], Result, ok, err, is_some,
  is_none, is_some_and, is_none_or, str_eq, if◌then◌else◌,
}
use attyd.Json.{Json}
use attyd.Session.Types.{
  MirrorPhase, cold, loading, ready, running, reconciling, blocked, SessionLifecycle, closed,
  deleting, SessionOperationKind, SessionAdmission, prompt, control, attachment, MirrorError,
  wrong_phase, operation_mismatch, SessionOperationState, TurnOverlay, TurnExecution, SessionState,
}

unfoldable pub admission : SessionOperationKind → SessionAdmission
admission SessionOperationKind.load = attachment
admission SessionOperationKind.resume = attachment
admission SessionOperationKind.fork = SessionAdmission.fork
admission SessionOperationKind.close = SessionAdmission.close
admission SessionOperationKind.delete = SessionAdmission.delete
admission SessionOperationKind.set_mode = control
admission SessionOperationKind.set_config = control

abbrev pub admission_eq : SessionAdmission → SessionAdmission → Bool
admission_eq prompt prompt = true
admission_eq control control = true
admission_eq SessionAdmission.fork SessionAdmission.fork = true
admission_eq SessionAdmission.close SessionAdmission.close = true
admission_eq SessionAdmission.delete SessionAdmission.delete = true
admission_eq attachment attachment = true
admission_eq _ _ = false

abbrev pub is_delete : SessionOperationKind → Bool
is_delete SessionOperationKind.delete = true
is_delete _ = false

abbrev pub is_loading_phase : MirrorPhase → Bool
is_loading_phase loading = true
is_loading_phase _ = false

abbrev pub stage_is : Option SessionOperationState → String → Bool
stage_is operation stage = is_some_and operation (λ o. str_eq o.stage stage)

abbrev pub deleting_directly : Option SessionOperationState → Bool
deleting_directly operation =
    is_some_and operation (λ o. is_delete o.kind && str_eq o.stage "deleting")

abbrev pub lifecycle_retired : SessionLifecycle → Option SessionOperationState → Bool
lifecycle_retired closed operation = true
lifecycle_retired deleting operation = deleting_directly operation
lifecycle_retired _ operation = false

abbrev pub owns_slot : SessionAdmission → String → SessionOperationState → Bool
unfolding admission
owns_slot kind operation_id o =
    admission_eq (admission o.kind) kind && str_eq o.operation_id operation_id

module _ {J : Json} where
  unfoldable pub new_cold : String → ℕ → SessionState J
  new_cold session_id incarnation = record {
    session_id = session_id;
    incarnation = incarnation;
    live = none;
    view_revision = 1;
    history_revision = none;
    phase = cold;
    active_turn = none;
    turn_outcomes = [];
    sync_error = none;
    history_notice = none;
    operation = none;
    active_payload_digest = none;
    consumed_intents = [];
    load_attempt = none;
    load_origin = none;
    active_overlay_bytes = 0;
  }

  unfoldable pub new_ready : String → ℕ → String → SessionState J
  unfolding new_cold
  new_ready session_id incarnation history_revision = record (new_cold session_id incarnation) {
    phase = ready;
    history_revision = some history_revision;
  }

  unfoldable pub turn_execution : SessionState J → Option TurnExecution
  turn_execution s = elim s.active_turn [ none ↦ none | some turn ↦ turn.execution ]

  unfoldable pub observation_retired : SessionState J → Bool
  observation_retired s =
      stage_is s.operation "cleanup"
      || is_some_and s.live (λ live. lifecycle_retired live.lifecycle s.operation)

  -- The turn runs and has no terminal response.
  abbrev pub turn_runs : Option (TurnOverlay J) → Bool
  turn_runs turn = is_some_and turn (λ t. is_some t.execution && is_none t.terminal)

  -- The `match self.phase` of `can_begin`.
  unfoldable pub phase_allows : MirrorPhase → SessionAdmission → Option (TurnOverlay J) → Bool
  phase_allows ready a turn = is_none turn
  phase_allows running control turn = turn_runs turn
  phase_allows running SessionAdmission.close turn = turn_runs turn
  phase_allows running _ turn = false
  phase_allows cold attachment turn = is_none turn
  phase_allows cold SessionAdmission.delete turn = is_none turn
  phase_allows cold _ turn = false
  phase_allows blocked SessionAdmission.close turn = true
  phase_allows blocked SessionAdmission.delete turn = is_none turn
  phase_allows blocked attachment turn = is_none_or turn (λ t. is_some t.terminal)
  phase_allows blocked _ turn = false
  phase_allows loading a turn = false
  phase_allows reconciling a turn = false

  unfoldable pub can_begin : SessionState J → SessionAdmission → Result MirrorError (Unit {0})
  unfolding phase_allows
  can_begin s a =
      if is_some s.operation || is_some s.load_attempt
      then err wrong_phase
      else if phase_allows s.phase a s.active_turn
      then ok tt
      else err wrong_phase

  unfoldable pub can_retry_cold_attachment : SessionState J → Bool
  can_retry_cold_attachment s =
      is_loading_phase s.phase
      && is_none s.active_turn
      && is_none s.load_attempt
      && is_none s.operation
      && is_some s.sync_error

  -- A method returns the session as it leaves it, and its result.
  unfoldable pub begin_exclusive :
      SessionState J
      → SessionOperationKind
      → String
      → SessionState J × Result MirrorError (Unit {0})
  unfolding can_begin admission
  begin_exclusive s kind operation_id = elim (can_begin s (admission kind)) [
    | err e ↦ (s, err e)
    | ok _ ↦ (
      record s {
        operation = some (record {
          operation_id = operation_id;
          kind = kind;
          stage = "reserved";
          uncertainty_reason = none;
        });
      },
      ok tt,
    )
  ]

  unfoldable pub settle_exclusive :
      SessionState J → SessionAdmission → String → SessionState J × Result MirrorError (Unit {0})
  unfolding admission
  settle_exclusive s kind operation_id =
      if not (is_some_and s.operation (owns_slot kind operation_id))
      then (s, err operation_mismatch)
      else (record s { operation = none }, ok tt)
