-- ===== src/Mirror/Turns.antt =====
-- Turns and intents of a session in the registry (session_mirror.rs).
use attyd.Common.{
  ℕ, String, Bool, true, false, not, Option, none, some, List, [], ◌∷◌, ◌++◌, map, Result, ok, err,
  is_some, if◌then◌else◌, next_counter, Outcome, returned, panicked,
}
use attyd.Json.{Json}
use attyd.Session.Types.{
  MirrorError, history, wrong_phase, SessionState, TurnAdmission, accepted, duplicate, TurnOverlay,
}
use attyd.Session.Turn
use attyd.Session.Turn.{is_reconciling, advance_revision}
use attyd.Session.Commit
use attyd.Session.Commit.{Reply, done, failed}
use attyd.History.Cache.{HistorySnapshot, append_committed_updates}
use attyd.Registry.Types.{SessionRegistry}
use attyd.Mirror.Compare.{replay_suffix_starts_with_prompt}
use attyd.Mirror.Store.{Packages, key_of, require_state, set_state, charge, discharge}
use attyd.Mirror.Loads.{stamp}

abbrev pub is_accepted : TurnAdmission → Bool
is_accepted (accepted _) = true
is_accepted (duplicate _) = false

module _ {J : Json} where
  open J use {Value, object, string, empty_map, map_insert}

  -- The state that an operation leaves is written back with the bytes of its overlay, where the
  -- operation succeeds.
  unfoldable pub write_turn :
      SessionRegistry J
      → String
      → SessionState J
      → SessionState J × Result MirrorError (Unit {0})
      → SessionRegistry J × Result MirrorError (Unit {0})
  unfolding set_state
  write_turn r id s (s', err e) = (r, err e)
  write_turn r id s (s', ok _) =
      (charge (set_state r id s') s.active_overlay_bytes s'.active_overlay_bytes, ok tt)

  -- The operation number is used where the turn is accepted.
  unfoldable pub admit :
      SessionRegistry J
      → String
      → SessionState J
      → ℕ
      → SessionState J × Result MirrorError TurnAdmission
      → SessionRegistry J × Result MirrorError TurnAdmission
  unfolding set_state
  admit r id s next (s', err e) = (r, err e)
  admit r id s next (s', ok answer) =
      let r' = set_state r id s' in
      (
        charge
            (record r' { next_operation = if is_accepted answer then next else r.next_operation })
            s.active_overlay_bytes s'.active_overlay_bytes,
        ok answer,
      )

  unfoldable pub start_turn :
      Packages J
      → SessionRegistry J
      → String
      → ℕ
      → String
      → String
      → List Value
      → SessionRegistry J × Result MirrorError TurnAdmission
  unfolding require_state admit
  start_turn k r id incarnation expected intent prompt =
      let next = next_counter r.next_operation in
      elim (require_state r id incarnation) [
        | err e ↦ (r, err e)
        | ok s ↦
            admit r id s next
              (Turn.admit_turn k.codec s (k.format_operation r.epoch next) expected intent prompt)
      ]

  unfoldable pub append_turn_update :
      Packages J
      → SessionRegistry J
      → String
      → ℕ
      → String
      → Value
      → SessionRegistry J × Result MirrorError (Unit {0})
  unfolding require_state write_turn
  append_turn_update k r id incarnation operation_id update =
      elim (require_state r id incarnation) [
        | err e ↦ (r, err e)
        | ok s ↦ write_turn r id s (Turn.append_turn_update k.codec s operation_id update)
      ]

  unfoldable pub complete_turn :
      Packages J
      → SessionRegistry J
      → String
      → ℕ
      → String
      → Value
      → SessionRegistry J × Result MirrorError (Unit {0})
  unfolding require_state write_turn
  complete_turn k r id incarnation operation_id terminal = elim (require_state r id incarnation) [
    | err e ↦ (r, err e)
    | ok s ↦ write_turn r id s (Turn.complete_turn k.codec s operation_id terminal)
  ]

  -- A history update outside a turn, in a ready session.
  unfoldable pub append_ready_update :
      Packages J
      → SessionRegistry J
      → String
      → ℕ
      → SessionState J
      → Value
      → SessionRegistry J × Result MirrorError (Unit {0})
  unfolding set_state
  append_ready_update k r id incarnation s update =
      let (installed, answer) =
        append_committed_updates k.encoder r.history (key_of id incarnation) (update ∷ []) in
      elim answer [
        | err e ↦ (r, err (history e))
        | ok made ↦ (
          set_state (record r { history = installed }) id
              (advance_revision (record s { history_revision = some made.revision })),
          ok tt,
        )
      ]

  unfoldable pub append_session_update :
      Packages J
      → SessionRegistry J
      → String
      → ℕ
      → Value
      → SessionRegistry J × Result MirrorError (Unit {0})
  unfolding require_state write_turn append_ready_update
  append_session_update k r id incarnation update = elim (require_state r id incarnation) [
    | err e ↦ (r, err e)
    | ok s ↦
        if is_some s.load_attempt
        then (r, err wrong_phase)
        else if is_reconciling s.phase
        then write_turn r id s (Turn.append_reconciling_update k.codec s update)
        else if not (Commit.is_ready s.phase)
        then (r, err wrong_phase)
        else append_ready_update k r id incarnation s update
  ]

  unfoldable pub block_turn :
      SessionRegistry J
      → String
      → ℕ
      → String
      → String
      → SessionRegistry J × Result MirrorError (Unit {0})
  unfolding require_state set_state
  block_turn r id incarnation operation_id message = elim (require_state r id incarnation) [
    | err e ↦ (r, err e)
    | ok s ↦
        let (s', answer) = Turn.block_turn s operation_id message in (set_state r id s', answer)
  ]

  -- A block of the prompt as the update that the history keeps.
  unfoldable pub prompt_update : TurnOverlay J → Value → Value
  prompt_update turn content =
      let owner = object (map_insert empty_map "turnOperationId" (string turn.operation_id)) in
      object (
        map_insert
          (map_insert (map_insert empty_map "sessionUpdate" (string "user_message_chunk")) "content"
            content)
          "_meta" (object (map_insert empty_map "attyd" owner)))

  -- What a completed turn adds to the history; an echo of the prompt takes its place.
  unfoldable pub turn_suffix : TurnOverlay J → List Value
  unfolding prompt_update
  turn_suffix turn =
      if replay_suffix_starts_with_prompt J turn.updates turn.prompt
      then turn.updates
      else map (prompt_update turn) turn.prompt ++ turn.updates

  abbrev pub suffix_of : Option (TurnOverlay J) → List Value
  suffix_of none = []
  suffix_of (some turn) = turn_suffix turn

  -- The guards are those of `Session.Commit.commit_completed_turn_from_memory`.
  unfoldable pub commit_completed_turn_from_memory :
      Packages J
      → SessionRegistry J
      → String
      → ℕ
      → String
      → SessionRegistry J × Outcome (Result MirrorError (HistorySnapshot J))
  unfolding require_state set_state turn_suffix Commit.commit_completed_turn_from_memory
  commit_completed_turn_from_memory k r id incarnation operation_id =
      elim (require_state r id incarnation) [
        | err e ↦ (r, returned (err e))
        | ok s ↦
            let (installed, snapshot) =
              append_committed_updates k.encoder r.history (key_of id incarnation)
                (suffix_of s.active_turn) in
            let (s', reply) =
              Commit.commit_completed_turn_from_memory s operation_id (stamp snapshot) in
            elim reply [
              | failed e ↦ (r, returned (err e))
              | done ↦ elim snapshot [
                | err e ↦ (r, returned (err (history e)))
                | ok made ↦ (
                  discharge (set_state (record r { history = installed }) id s')
                      s.active_overlay_bytes,
                  returned (ok made),
                )
              ]
              | _ ↦ (r, panicked)
            ]
      ]
