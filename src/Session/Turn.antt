-- ===== src/Session/Turn.antt =====
-- The turn of a session: admission of a prompt, updates, completion and blocking (session_state.rs:
-- `check_turn_admission` to `block_turn`).
use attyd.Common.{
  ℕ, String, Bool, true, false, not, ◌&&◌, ◌||◌, Option, none, some, List, [], ◌∷◌, Result, ok, err,
  is_some, is_some_and, str_eq, is_text, if◌then◌else◌, length, usize_max, saturating_add,
  next_counter,
}
use attyd.Common.Dict.{lookup}
use attyd.Json.{Json}
use attyd.Fold.{fold_shared_active_turn_update}
use attyd.Session.Types.{
  MirrorPhase, running, reconciling, blocked, SessionAdmission, MirrorError, wrong_phase,
  stale_history, idempotency_conflict, operation_mismatch, inconsistent_history, LastConsumption,
  TurnAdmission, accepted, duplicate, TurnOverlay, SessionState, Codec, bytes_eq,
}
use attyd.Session.Admission.{can_begin}

abbrev pub is_running : MirrorPhase → Bool
is_running running = true
is_running _ = false

abbrev pub is_reconciling : MirrorPhase → Bool
is_reconciling reconciling = true
is_reconciling _ = false

abbrev pub is_digest : Option (List ℕ) → List ℕ → Bool
is_digest none d = false
is_digest (some c) d = bytes_eq c d

-- `SerializedByteCounter`: each chunk adds its length to the count.
unfoldable pub count_bytes : ℕ → List (List ℕ) → ℕ
count_bytes n [] = n
count_bytes n (chunk ∷ chunks) = count_bytes (saturating_add n (length chunk)) chunks

module _ {J : Json} where
  open J use {Value}

  unfoldable pub payload_digest : Codec J → List Value → List ℕ
  payload_digest c prompt = c.sha256 (c.to_vec prompt)

  unfoldable pub serialized_len : Codec J → TurnOverlay J → ℕ
  serialized_len c overlay = elim (c.to_writer overlay) [
    | none ↦ usize_max
    | some chunks ↦ count_bytes 0 chunks
  ]

  abbrev pub advance_revision : SessionState J → SessionState J
  advance_revision s = record s { view_revision = next_counter s.view_revision }

  -- The answer to an intent that a committed turn has consumed, or to a new one.
  unfoldable pub check_settled :
      Option LastConsumption
      → SessionState J
      → String
      → List ℕ
      → Result MirrorError (Option TurnAdmission)
  check_settled (some last) s expected digest =
      if bytes_eq last.payload_digest digest
        && (str_eq last.consumed_revision expected || str_eq last.successor_revision expected)
      then ok (some (duplicate last.operation_id))
      else err idempotency_conflict
  check_settled none s expected digest = elim (can_begin s SessionAdmission.prompt) [
    | err e ↦ err e
    | ok _ ↦ if is_text s.history_revision expected then ok none else err stale_history
  ]

  unfoldable pub check_turn_admission :
      Codec J
      → SessionState J
      → String
      → String
      → List Value
      → Result MirrorError (Option TurnAdmission)
  unfolding check_settled
  check_turn_admission c s expected intent prompt =
      let digest = payload_digest c prompt in
      let settled = check_settled (lookup intent s.consumed_intents) s expected digest in
      elim s.active_turn [
        | none ↦ settled
        | some turn ↦
            if str_eq turn.client_intent_id intent
            then (if is_digest s.active_payload_digest digest
                then ok (some (duplicate turn.operation_id))
                else err idempotency_conflict)
            else settled
      ]

  abbrev pub new_overlay : String → String → List Value → TurnOverlay J
  new_overlay operation_id intent prompt = record {
    operation_id = operation_id;
    client_intent_id = intent;
    prompt = prompt;
    updates = [];
    terminal = none;
    execution = some (record { rpc_operation_id = intent; cancel_requested = false });
  }

  unfoldable pub admit_turn :
      Codec J
      → SessionState J
      → String
      → String
      → String
      → List Value
      → SessionState J × Result MirrorError TurnAdmission
  admit_turn c s operation_id expected intent prompt =
      let overlay = new_overlay operation_id intent prompt in
      elim (check_turn_admission c s expected intent prompt) [
        | err e ↦ (s, err e)
        | ok (some admitted) ↦ (s, ok admitted)
        | ok none ↦ (
          advance_revision (record s {
            active_overlay_bytes = serialized_len c overlay;
            phase = running;
            active_payload_digest = some (payload_digest c prompt);
            active_turn = some overlay;
            sync_error = none;
          }),
          ok (accepted operation_id),
        )
      ]

  unfoldable pub fold_overlay_update :
      Codec J → SessionState J → Value → SessionState J × Result MirrorError (Unit {0})
  fold_overlay_update c s update = elim s.active_turn [
    | none ↦ (s, err operation_mismatch)
    | some turn ↦ elim (fold_shared_active_turn_update J turn.updates update) [
      | err _ ↦ (s, err inconsistent_history)
      | ok updates ↦ (
        advance_revision (record s {
          active_overlay_bytes = serialized_len c (record turn { updates = updates });
          active_turn = some (record turn { updates = updates });
        }),
        ok tt,
      )
    ]
  ]

  unfoldable pub append_turn_update :
      Codec J → SessionState J → String → Value → SessionState J × Result MirrorError (Unit {0})
  unfolding fold_overlay_update
  append_turn_update c s operation_id update =
      if not (is_running s.phase) then (s, err wrong_phase) else elim s.active_turn [
        | none ↦ (s, err operation_mismatch)
        | some turn ↦
            if not (str_eq turn.operation_id operation_id) || is_some turn.terminal
            then (s, err operation_mismatch)
            else fold_overlay_update c s update
      ]

  unfoldable pub append_reconciling_update :
      Codec J → SessionState J → Value → SessionState J × Result MirrorError (Unit {0})
  unfolding fold_overlay_update
  append_reconciling_update c s update =
      if not (is_reconciling s.phase) || is_some s.load_attempt
      then (s, err wrong_phase)
      else fold_overlay_update c s update

  unfoldable pub complete_turn :
      Codec J → SessionState J → String → Value → SessionState J × Result MirrorError (Unit {0})
  complete_turn c s operation_id terminal =
      if not (is_running s.phase) then (s, err wrong_phase) else elim s.active_turn [
        | none ↦ (s, err operation_mismatch)
        | some turn ↦
            let candidate = record turn { execution = none; terminal = some terminal } in
            if not (str_eq turn.operation_id operation_id) || is_some turn.terminal
            then (s, err operation_mismatch)
            else if is_some s.live && is_some turn.execution
            then (s, err operation_mismatch)
            else (
              advance_revision (record s {
                active_overlay_bytes = serialized_len c candidate;
                active_turn = some candidate;
                phase = reconciling;
              }),
              ok tt,
            )
      ]

  unfoldable pub block_turn :
      SessionState J → String → String → SessionState J × Result MirrorError (Unit {0})
  block_turn s operation_id message =
      if not (is_running s.phase || is_reconciling s.phase)
        || not (is_some_and s.active_turn (λ turn. str_eq turn.operation_id operation_id))
      then (s, err operation_mismatch)
      else (
        advance_revision (record s {
          phase = blocked;
          sync_error = some message;
          load_attempt = none;
          load_origin = none;
        }),
        ok tt,
      )
