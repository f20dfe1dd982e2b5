-- ===== src/Mirror/Terminals.antt =====
-- The output of terminals that is kept because a history refers to it (session_mirror.rs).
use attyd.Common.{
  ℕ, String, Bool, true, false, not, ◌&&◌, ◌||◌, Option, none, some, List, [], Result, ok, err,
  is_some, if◌then◌else◌, saturating_add,
}
use attyd.Common.Dict.{Dict, lookup, insert}
use attyd.Json.{Json}
use attyd.Session.Types.{MirrorError, SessionState, TurnOverlay}
use attyd.Session.Turn.{advance_revision}
use attyd.History.Keys.{SessionKey, find, put}
use attyd.History.Cache.{HistoryCache, peek}
use attyd.Registry.Types.{SessionRegistry}
use attyd.Mirror.Store.{Packages, key_of, require_state, set_state, any_reference}

module _ (J : Json) where
  open J use {Value, get, as_bool, null, string, boolean, object, empty_map, map_insert}

  abbrev pub is_flagged : Value → String → Bool
  is_flagged v k = elim (get v k) [
    | none ↦ false
    | some x ↦ elim (as_bool x) [ none ↦ false | some b ↦ b ]
  ]

  abbrev pub field_or : Value → String → Value → Value
  field_or v k default = elim (get v k) [ none ↦ default | some x ↦ x ]

  unfoldable pub retained_terminal : String → String → Value → Value
  retained_terminal id terminal_id terminal = object (
      map_insert
        (map_insert
          (map_insert
            (map_insert
              (map_insert (map_insert empty_map "sessionId" (string id)) "terminalId"
                (string terminal_id))
              "output" (field_or terminal "output" (string "")))
            "truncated" (field_or terminal "truncated" (boolean false)))
          "exitStatus" (field_or terminal "exitStatus" null))
        "released" (boolean true))

module _ {J : Json} where
  open J use {Value}

  abbrev pub turn_updates : Option (TurnOverlay J) → List Value
  turn_updates none = []
  turn_updates (some turn) = turn.updates

  abbrev pub history_updates : HistoryCache J → SessionKey → List Value
  history_updates h key = elim (peek h key) [ none ↦ [] | some shown ↦ shown.updates ]

  abbrev pub retained_of : SessionRegistry J → SessionKey → Dict Value
  retained_of r key = elim (find key r.retained_terminals) [
    | none ↦ []
    | some terminals ↦ terminals
  ]

  -- The terminal is released with its whole output, is not yet retained, and is referred to.
  unfoldable pub is_retainable :
      SessionRegistry J → SessionKey → SessionState J → String → Value → Bool
  is_retainable r key s terminal_id terminal =
      is_flagged J terminal "released"
      && not (is_flagged J terminal "outputAppend")
      && not (is_some (lookup terminal_id (retained_of r key)))
      && (any_reference J (turn_updates s.active_turn) terminal_id
          || any_reference J (history_updates r.history key) terminal_id)

  unfoldable pub retain_terminal_output :
      Packages J
      → SessionRegistry J
      → String
      → ℕ
      → String
      → Value
      → SessionRegistry J × Result MirrorError Bool
  unfolding require_state set_state is_retainable retained_terminal
  retain_terminal_output k r id incarnation terminal_id terminal =
      elim (require_state r id incarnation) [
        | err e ↦ (r, err e)
        | ok s ↦
            let key = key_of id incarnation in
            if not (is_retainable r key s terminal_id terminal)
            then (r, ok false)
            else (let retained = retained_terminal J id terminal_id terminal in
                let kept = record r {
                  retained_terminal_bytes =
                      saturating_add r.retained_terminal_bytes (k.value_len retained);
                  retained_terminals =
                      put key (insert terminal_id retained (retained_of r key))
                        r.retained_terminals;
                } in
                (set_state kept id (advance_revision s), ok true))
      ]
