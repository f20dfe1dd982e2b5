-- ===== src/Session/History.antt =====
-- The commit of history to a session (session_state.rs: `validate_history_commit` and
-- `history_committed`).
use attyd.Common.{
  ℕ, String, Bool, ◌&&◌, Option, none, some, List, [], ◌∷◌, ◌++◌, Result, ok, err, is_some, is_none,
  if◌then◌else◌,
}
use attyd.Common.Dict.{Dict, insert}
use attyd.Json.{Json, get_str}
use attyd.Session.Types.{
  ready, MirrorError, inconsistent_history, LastConsumption, TurnOverlay, CompletedTurnOutcome,
  SessionState,
}
use attyd.Session.Turn.{advance_revision}

module _ {J : Json} where
  unfoldable pub validate_history_commit : SessionState J → Result MirrorError (Unit {0})
  validate_history_commit s =
      if is_some s.active_turn && is_none s.active_payload_digest
      then err inconsistent_history
      else ok tt

  -- The outcome that a completed turn leaves: one, where its response has a stop reason.
  unfoldable pub outcome_of : Option (TurnOverlay J) → ℕ → List (CompletedTurnOutcome J)
  outcome_of none after_update = []
  outcome_of (some turn) after_update = elim turn.terminal [
    | none ↦ []
    | some response ↦
        if is_some (get_str J response "stopReason")
        then record {
          operation_id = turn.operation_id;
          after_update = after_update;
          response = response;
        }
          ∷ []
        else []
  ]

  abbrev pub consumption : TurnOverlay J → String → List ℕ → String → LastConsumption
  consumption turn consumed digest revision = record {
    operation_id = turn.operation_id;
    payload_digest = digest;
    consumed_revision = consumed;
    successor_revision = revision;
  }

  -- The intent of the turn is consumed; `none` is the panic of `expect` on a missing digest.
  unfoldable pub consume :
      Option (TurnOverlay J)
      → Option String
      → Option (List ℕ)
      → String
      → Dict LastConsumption
      → Option (Dict LastConsumption)
  consume (some turn) (some consumed) (some digest) revision intents =
      some (insert turn.client_intent_id (consumption turn consumed digest revision) intents)
  consume (some turn) (some consumed) none revision intents = none
  consume (some turn) none digest revision intents = some intents
  consume none consumed digest revision intents = some intents

  unfoldable pub history_committed : SessionState J → String → ℕ → Bool → Option (SessionState J)
  unfolding consume
  history_committed s revision after_update replace_outcomes =
      let consumed =
        consume s.active_turn s.history_revision s.active_payload_digest revision
          s.consumed_intents in
      elim consumed [
        | none ↦ none
        | some intents ↦ some (
            advance_revision (record s {
              turn_outcomes =
                  if replace_outcomes
                  then []
                  else s.turn_outcomes ++ outcome_of s.active_turn after_update;
              history_notice = if replace_outcomes then none else s.history_notice;
              consumed_intents = intents;
              history_revision = some revision;
              active_overlay_bytes = 0;
              phase = ready;
              active_turn = none;
              active_payload_digest = none;
              load_attempt = none;
              load_origin = none;
              sync_error = none;
            }))
      ]
