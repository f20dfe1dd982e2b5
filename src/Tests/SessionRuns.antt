-- ===== src/Tests/SessionRuns.antt =====
-- The theorems on sessions at concrete sessions, requests and answers.
use attyd.Common.{
  String, false, none, some, List, [], ◌∷◌, ◌++◌, ◌≡◌, ◌≢◌, refl, ◌⊎◌, ok, err, arith, inl,
}
use attyd.Common.Dict.{lookup}
use attyd.Session.Types.{
  ready, SessionOperationKind, SessionOperationState, SessionAdmission, accepted, MirrorError,
  wrong_phase, TurnOverlay, SessionState, duplicate,
}
use attyd.Session.Admission.{
  new_cold, new_ready, can_begin, phase_allows, admission, begin_exclusive,
}
use attyd.Session.Turn.{
  payload_digest, new_overlay, check_settled, check_turn_admission, admit_turn, complete_turn,
}
use attyd.Session.Load.{is_unfinished}
use attyd.Session.History.{consumption}
use attyd.Session.Invariant.{Inv, new_ready-Inv, step-Inv, run-Inv}
use attyd.Session.Atomic.{step-failed, step-ne-panicked}
use attyd.Session.Intents.{accepted_once}
use attyd.Session.Retries.{retry_answer, committed_retries}
use attyd.Session.Slot.{can_begin_unfinished, slot_exclusive}
use attyd.Session.View.{history_view, step-view, complete_commit}
use attyd.Session.Machine.{
  Command, begin, settle, admit, complete, commit_completed, touch, step, run,
}
use attyd.Tests.Plain.{plain, Plain, text, object, field, end, codec}
use attyd.Session.Commit.{panicked, commit_history}
use attyd.Session.Digests.{retry_duplicate}

abbrev idle : SessionState plain
idle = new_ready "session" 1 "r1"

abbrev response : Plain
response = object (field "stopReason" (text "end_turn") end)

abbrev prompt_blocks : List Plain
prompt_blocks = text "hello" ∷ []

abbrev busy : SessionState plain
busy = (admit_turn codec idle "op" "r1" "intent" prompt_blocks).0

-- The session after `intent` has been completed and committed.
abbrev round : List (Command plain)
round = complete "op" response ∷ commit_completed "op" (ok ("r2", 1)) ∷ []

idle-Inv : Inv idle
idle-Inv = new_ready-Inv "session" 1 "r1"

accepted_idle : (admit_turn codec idle "op" "r1" "intent" prompt_blocks).1 ≡ ok (accepted "op")
unfolding admit_turn check_turn_admission check_settled can_begin phase_allows new_ready new_cold
    lookup
accepted_idle = refl

busy-Inv : Inv busy
unfolding step
busy-Inv = step-Inv codec idle (admit "op" "r1" "intent" prompt_blocks) idle-Inv

accepted_once_example :
    (admit_turn codec (run codec busy round) "op2" "r2" "intent" prompt_blocks).1
    ≢ ok (accepted "op2")
accepted_once_example =
    accepted_once codec idle "op" "r1" "intent" prompt_blocks "op" idle-Inv accepted_idle round
      "op2" "r2" prompt_blocks "op2"

abbrev busy_turn : TurnOverlay plain
busy_turn = new_overlay "op" "intent" prompt_blocks

committed_retries_example :
    check_turn_admission codec
      (run codec (commit_history busy "r2" 1 false).0 [])
      "r1"
      "intent"
      prompt_blocks
    ≡ retry_answer
        (consumption busy_turn "r1" (1 ∷ []) "r2")
        "r1"
        (payload_digest codec prompt_blocks)
unfolding admit_turn check_turn_admission check_settled can_begin phase_allows new_ready new_cold
    lookup payload_digest
committed_retries_example =
    committed_retries codec busy "r2" 1 false busy_turn "r1" (1 ∷ []) busy-Inv refl refl refl []
      "r1" prompt_blocks

abbrev closing_operation : SessionOperationState
closing_operation = record {
  operation_id = "close-1";
  kind = SessionOperationKind.close;
  stage = "reserved";
  uncertainty_reason = none;
}

abbrev held : SessionState plain
held = (begin_exclusive idle SessionOperationKind.close "close-1").0

-- Commands that do not settle the close: another kind, and another operation.
abbrev others : List (Command plain)
others =
    settle SessionAdmission.control "close-1" ∷ settle SessionAdmission.close "close-2" ∷ touch ∷ []

slot_exclusive_example :
    let t = run codec held others in
    (t.operation ≡ some closing_operation)
    × ((kind : SessionOperationKind) (id : String)
        → begin_exclusive t kind id ≡ (t, err wrong_phase))
    × ((op expected intent : String) (prompt : List Plain) (id : String)
        → (admit_turn codec t op expected intent prompt).1 ≢ ok (accepted id))
unfolding begin_exclusive can_begin phase_allows new_ready new_cold admission
slot_exclusive_example = slot_exclusive codec held others closing_operation refl refl

can_begin_unfinished_example :
    (SessionAdmission.control ≡ SessionAdmission.control)
    ⊎ (SessionAdmission.control ≡ SessionAdmission.close)
    ⊎ (is_unfinished busy.active_turn ≡ false)
unfolding admit_turn check_turn_admission check_settled can_begin phase_allows new_ready new_cold
    lookup
can_begin_unfinished_example = can_begin_unfinished busy SessionAdmission.control refl

run-Inv_example : Inv (run codec busy round)
run-Inv_example = run-Inv codec busy round busy-Inv

step-failed_example : (step codec busy (complete "op2" response)).0 ≡ busy
unfolding step complete_turn admit_turn check_turn_admission check_settled can_begin phase_allows
    new_ready new_cold lookup
step-failed_example =
    step-failed codec busy (complete "op2" response) MirrorError.operation_mismatch refl

step-view_example :
    history_view (step codec idle (begin SessionOperationKind.close "close-1")).0
    ≡ history_view idle
unfolding step begin_exclusive can_begin phase_allows new_ready new_cold admission
step-view_example = step-view codec idle (begin SessionOperationKind.close "close-1") refl

-- The running turn of `busy` after the runtime has retired its execution.
abbrev retired_turn : TurnOverlay plain
retired_turn = record busy_turn { execution = none }

abbrev retired : SessionState plain
retired = record busy { active_turn = some retired_turn }

step-ne-panicked_example : (step codec retired (commit_completed "op" (ok ("r2", 0)))).1 ≢ panicked
step-ne-panicked_example = step-ne-panicked codec retired (commit_completed "op" (ok ("r2", 0)))

retired-Inv : Inv retired
unfolding admit_turn check_turn_admission check_settled can_begin phase_allows new_ready new_cold
    lookup
retired-Inv = record {
  turn = refl;
  load = refl;
  digest = refl;
  baseline = λ _. refl;
  origin = ground arith;
  counted = omega arith;
}

complete_commit_example :
    let u =
      run codec retired (complete "op" response ∷ commit_completed "op" (ok ("r2", 1)) ∷ []) in
    (u.phase ≡ ready)
    × (u.active_turn ≡ none)
    × (u.history_revision ≡ some "r2")
    × (u.sync_error ≡ none)
    × (u.turn_outcomes
        ≡ retired.turn_outcomes
          ++ record { operation_id = "op"; after_update = 1; response = response } ∷ [])
unfolding admit_turn check_turn_admission check_settled can_begin phase_allows new_ready new_cold
    lookup
complete_commit_example =
    complete_commit codec retired retired_turn response "end_turn" "r2" 1 retired-Inv refl refl refl
      refl

abbrev admission_only : List (Command plain)
admission_only = admit "op" "r1" "intent" prompt_blocks ∷ []

retry_duplicate_example :
    check_turn_admission codec
      (run codec
        (commit_history (run codec (new_ready "session" 1 "r1") admission_only) "r2" 1 false).0
        [])
      "r1"
      "intent"
      prompt_blocks
    ≡ ok (some (duplicate "op"))
unfolding run step admit_turn check_turn_admission check_settled can_begin phase_allows new_ready
    new_cold lookup
retry_duplicate_example =
    retry_duplicate codec "session" 1 "r1" admission_only busy_turn "r1" "r2" 1 false [] "r1" refl
      refl (inl refl)
