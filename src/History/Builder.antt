-- ===== src/History/Builder.antt =====
-- The incremental fold of a replayed history (history_replay.rs: `HistoryBuilder`). `value_bytes` is
-- the length of a value that the serializer writes.
use attyd.Common.{
  ℕ, ◌+◌, ◌-◌, String, Bool, not, ◌&&◌, ◌||◌, Option, none, some, List, [], ◌∷◌, ◌++◌, Result, ok,
  ◌>>=◌, str_eq, is_text, is_some_and, if◌then◌else◌, ltb, set, remove_at, get_elem?, length,
  position, nonempty, wrapping_add, wrapping_sub,
}
use attyd.Common.Dict.{Dict, lookup, insert}
use attyd.Json.{Json, get_str, index}
use attyd.Fold.{RuntimeStateError, is_text_chunk, is_tool, fold_shared_active_turn_update}
use attyd.History.Slots.{drop, unshift}
use attyd.History.Reference.{is_user}

abbrev pub is_plan_kind : String → Bool
is_plan_kind kind = str_eq kind "plan" || str_eq kind "plan_update" || str_eq kind "plan_removed"

abbrev pub plus : ℕ → Option ℕ → Option ℕ
plus n none = none
plus n (some i) = some (i + n)

-- The places of tool calls after the removal of a slot.
unfoldable pub shift_tools : ℕ → Dict ℕ → Dict ℕ
shift_tools i [] = []
shift_tools i ((id, j) ∷ tools) = (id, unshift i j) ∷ shift_tools i tools

module _ (J : Json) where
  open J use {Value, get, value_eq}

  pub record HistoryBuilder : Type 0 where
    pub updates : List Value
    pub bytes : ℕ
    pub turn_start : ℕ
    pub tools : Dict ℕ

  unfoldable pub empty_builder : HistoryBuilder
  empty_builder = record { updates = []; bytes = 0; turn_start = 0; tools = [] }

  -- The slot of a tool call: anywhere for an update, in the turn for a new call.
  abbrev pub tool_place : HistoryBuilder → Value → String → Option ℕ
  tool_place b update kind = elim (get_str J update "toolCallId") [
    | none ↦ none
    | some id ↦ elim (lookup id b.tools) [
      | none ↦ none
      | some i ↦ if str_eq kind "tool_call_update" || not (ltb i b.turn_start) then some i else none
    ]
  ]

  -- The identifier of the plan that an update is about.
  abbrev pub plan_id_in : String → Value → Value
  plan_id_in kind update =
      if str_eq kind "plan_removed"
      then index J update "planId"
      else index J (index J update "plan") "planId"

  unfoldable pub is_plan_place : String → Value → Value → Bool
  is_plan_place kind update candidate =
      if str_eq kind "plan"
      then is_text (get_str J candidate "sessionUpdate") "plan"
      else is_text (get_str J candidate "sessionUpdate") "plan_update"
        && value_eq (index J (index J candidate "plan") "planId") (plan_id_in kind update)

  unfoldable pub kind_place : HistoryBuilder → Value → String → Option ℕ
  kind_place b update kind =
      if is_text_chunk kind
      then (if nonempty b.updates then some (length b.updates - 1) else none)
      else if is_tool kind
      then tool_place b update kind
      else if is_plan_kind kind
      then plus b.turn_start (position (is_plan_place kind update) (drop b.turn_start b.updates))
      else none

  -- The slot that an update folds into.
  unfoldable pub place : HistoryBuilder → Value → Option ℕ
  place b update = elim (get_str J update "sessionUpdate") [
    | none ↦ none
    | some kind ↦ kind_place b update kind
  ]

  -- `slice::from_ref` of a slot; a place out of bounds would panic.
  abbrev pub slot_at : List Value → Option ℕ → List Value
  slot_at updates none = []
  slot_at updates (some i) = elim (get_elem? updates i) [ none ↦ [] | some x ↦ x ∷ [] ]

  -- The place of a new entry that is a tool call.
  abbrev pub tools_with : Value → ℕ → Dict ℕ → Dict ℕ
  tools_with entry i tools = elim (get_str J entry "toolCallId") [
    | none ↦ tools
    | some id ↦
        if is_some_and (get_str J entry "sessionUpdate") is_tool then insert id i tools else tools
  ]

  module _ (value_bytes : Value → ℕ) where
    -- One round of the loop over what is left of the folded slot.
    unfoldable pub push_entry : HistoryBuilder → Value → HistoryBuilder
    push_entry b entry = record {
      updates = b.updates ++ entry ∷ [];
      bytes =
          wrapping_add (if nonempty b.updates then wrapping_add b.bytes 1 else 2)
            (value_bytes entry);
      turn_start = if is_user J entry then length b.updates else b.turn_start;
      tools = tools_with entry (length b.updates) b.tools;
    }

    unfoldable pub push_all : HistoryBuilder → List Value → HistoryBuilder
    push_all b [] = b
    push_all b (entry ∷ entries) = push_all (push_entry b entry) entries

    abbrev pub bytes_at : List Value → ℕ → ℕ
    bytes_at updates i = elim (get_elem? updates i) [ none ↦ 0 | some x ↦ value_bytes x ]

    unfoldable pub replace_slot : HistoryBuilder → ℕ → Value → HistoryBuilder
    replace_slot b i v = record b {
      updates = set b.updates i v;
      bytes = wrapping_add (wrapping_sub b.bytes (bytes_at b.updates i)) (value_bytes v);
    }

    unfoldable pub remove_slot : HistoryBuilder → ℕ → HistoryBuilder
    remove_slot b i =
        let updates = remove_at b.updates i in
        record b {
          updates = updates;
          bytes = wrapping_sub b.bytes (bytes_at b.updates i) - (if nonempty updates then 1 else 0);
          tools = shift_tools i b.tools;
        }

    -- The folded slot goes back to its place, and the rest is pushed.
    unfoldable pub store : HistoryBuilder → Option ℕ → List Value → HistoryBuilder
    unfolding push_entry
    store b none folded = push_all b folded
    store b (some i) [] = remove_slot b i
    store b (some i) (v ∷ rest) = push_all (replace_slot b i v) rest

    unfoldable pub append : HistoryBuilder → Value → Result RuntimeStateError HistoryBuilder
    append b update =
        let at = place b update in
        fold_shared_active_turn_update J (slot_at b.updates at) update >>= λ folded.
        ok (store b at folded)

    unfoldable pub append_all :
        HistoryBuilder → List Value → Result RuntimeStateError HistoryBuilder
    append_all b [] = ok b
    append_all b (update ∷ updates) = append b update >>= λ b'. append_all b' updates
