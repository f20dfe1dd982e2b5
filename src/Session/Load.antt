-- ===== src/Session/Load.antt =====
-- What a load of history does to a session (session_mirror.rs: `begin_load` and `fail_load`). The
-- answer of the history cache is an argument.
use attyd.Common.{
  String, Bool, true, false, not, ◌||◌, Option, none, some, Result, ok, err, is_some, is_none,
  is_some_and, is_text, if◌then◌else◌,
}
use attyd.Json.{Json}
use attyd.Session.Types.{
  MirrorPhase, cold, loading, ready, reconciling, blocked, SessionAdmission, MirrorError,
  HistoryCacheError, wrong_phase, operation_mismatch, history, SessionOperationState, TurnOverlay,
  SessionState,
}
use attyd.Session.Admission.{admission, owns_slot}
use attyd.Session.Turn.{is_running, advance_revision}

abbrev pub is_unfinished : {J : Json} → Option (TurnOverlay J) → Bool
is_unfinished turn = is_some_and turn (λ t. is_none t.terminal)

-- The slot is free or belongs to the attempt.
abbrev pub foreign_slot : Option SessionOperationState → String → Bool
foreign_slot operation attempt =
    is_some_and operation (λ o. not (owns_slot SessionAdmission.attachment attempt o))

-- The phase of a session that loads.
unfoldable pub load_phase : MirrorPhase → Bool → MirrorPhase
load_phase blocked turn = if turn then reconciling else loading
load_phase cold turn = loading
load_phase ready turn = loading
load_phase phase turn = phase

-- The phase to which a failed load returns.
unfoldable pub failed_phase : Option MirrorPhase → Bool → MirrorPhase
failed_phase origin false = blocked
failed_phase (some ready) true = ready
failed_phase (some blocked) true = blocked
failed_phase (some reconciling) true = reconciling
failed_phase _ true = loading

module _ {J : Json} where
  unfoldable pub begin_load :
      SessionState J
      → String
      → Result HistoryCacheError (Unit {0})
      → SessionState J × Result MirrorError (Unit {0})
  unfolding load_phase admission
  begin_load s attempt candidate =
      if is_running s.phase
        || is_some s.load_attempt
        || is_unfinished s.active_turn
        || foreign_slot s.operation attempt
      then (s, err wrong_phase)
      else elim candidate [
        | err e ↦ (s, err (history e))
        | ok _ ↦ (
          advance_revision (record s {
            load_origin = some s.phase;
            phase = load_phase s.phase (is_some s.active_turn);
            load_attempt = some attempt;
            sync_error = none;
          }),
          ok tt,
        )
      ]

  unfoldable pub fail_load :
      SessionState J
      → String
      → Result HistoryCacheError (Unit {0})
      → String
      → Bool
      → SessionState J × Result MirrorError (Unit {0})
  unfolding failed_phase
  fail_load s attempt aborted message retryable =
      if not (is_text s.load_attempt attempt) then (s, err operation_mismatch) else elim aborted [
        | err e ↦ (s, err (history e))
        | ok _ ↦ (
          advance_revision (record s {
            load_origin = none;
            load_attempt = none;
            sync_error = some message;
            phase = failed_phase s.load_origin retryable;
          }),
          ok tt,
        )
      ]
