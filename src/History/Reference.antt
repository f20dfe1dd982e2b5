-- ===== src/History/Reference.antt =====
-- The fold of an update into a whole history (history_cache.rs: `fold_history_update` and
-- `normalize_history_updates`).
use attyd.Common.{
  ℕ, Bool, true, false, ◌&&◌, Option, none, some, List, [], ◌∷◌, ◌++◌, Result, ok, ◌>>=◌, is_text,
  is_some_and, if◌then◌else◌, set, get_elem?,
}
use attyd.Json.{Json, get_str}
use attyd.Fold.{RuntimeStateError, is_tool, fold_shared_active_turn_update}
use attyd.History.Slots.{rposition, take, drop, first}

module _ (J : Json) where
  open J use {Value, get, value_eq}

  abbrev pub is_user : Value → Bool
  is_user v = is_text (get_str J v "sessionUpdate") "user_message_chunk"

  abbrev pub option_eq : Option Value → Option Value → Bool
  option_eq none none = true
  option_eq (some a) (some b) = value_eq a b
  option_eq _ _ = false

  -- The slot of a tool call anywhere in the session.
  unfoldable pub is_session_tool : Option Value → Value → Bool
  is_session_tool tool_id candidate =
      is_some_and (get_str J candidate "sessionUpdate") is_tool
      && option_eq (get candidate "toolCallId") tool_id

  -- `rposition(..).unwrap_or(0)`.
  abbrev pub turn_start_of : List Value → ℕ
  turn_start_of retained = elim (rposition is_user retained) [ none ↦ 0 | some i ↦ i ]

  -- The last turn is folded, and what is before it is kept.
  unfoldable pub fold_last_turn : List Value → Value → Result RuntimeStateError (List Value)
  fold_last_turn retained update =
      let turn_start = turn_start_of retained in
      fold_shared_active_turn_update J (drop turn_start retained) update >>= λ folded.
      ok (take turn_start retained ++ folded)

  -- The slot at `i` alone is folded; `remove(0)` panics where nothing is left of it.
  unfoldable pub fold_slot : List Value → Value → ℕ → Result RuntimeStateError (List Value)
  fold_slot retained update i = elim (get_elem? retained i) [
    | none ↦ ok retained
    | some slot ↦ fold_shared_active_turn_update J (slot ∷ []) update >>= λ folded.
        ok (elim (first folded) [ none ↦ retained | some v ↦ set retained i v ])
  ]

  -- The slot of an update of a tool call, in any turn.
  unfoldable pub session_place : List Value → Value → Option ℕ
  session_place retained update =
      if is_text (get_str J update "sessionUpdate") "tool_call_update"
      then rposition (is_session_tool (get update "toolCallId")) retained
      else none

  unfoldable pub fold_history_update : List Value → Value → Result RuntimeStateError (List Value)
  unfolding session_place
  fold_history_update retained update = elim (session_place retained update) [
    | some i ↦ fold_slot retained update i
    | none ↦ fold_last_turn retained update
  ]

  unfoldable pub normalize_from : List Value → List Value → Result RuntimeStateError (List Value)
  normalize_from retained [] = ok retained
  normalize_from retained (update ∷ updates) =
      fold_history_update retained update >>= λ folded. normalize_from folded updates

  -- `try_fold` from the empty history.
  unfoldable pub normalize_history_updates : List Value → Result RuntimeStateError (List Value)
  normalize_history_updates = normalize_from []
