-- ===== src/Fold.antt =====
-- The folding of session updates into the retained view of a turn
-- (runtime_state.rs: `fold_shared_active_turn_update` and its helpers).
-- An `Arc` is the value that it points to: the code never writes through a shared one.
use Prim.Native.String.{◌++◌ as concat}
use attyd.Common.{
  String, Bool, true, false, not, ◌&&◌, ◌||◌, Option, none, some, List, [], ◌∷◌, ◌++◌, position,
  set, remove_at, get_elem?, last, set_last, Result, ok, err, ◌>>=◌, ok_or, str_eq, is_text,
  is_some_and, if◌then◌else◌,
}
use attyd.Json.{Json, get_str, get_object, map_str, index_set}

pub data RuntimeStateError : Type 0 where
  epoch_mismatch unknown_session stale_incarnation busy_session : RuntimeStateError
  no_active_turn operation_mismatch unknown_interaction : RuntimeStateError
  session_not_active operation_collision interaction_collision : RuntimeStateError

abbrev pub is_text_chunk : String → Bool
is_text_chunk kind =
    str_eq kind "user_message_chunk"
    || str_eq kind "agent_message_chunk"
    || str_eq kind "agent_thought_chunk"

abbrev pub is_tool : String → Bool
is_tool kind = str_eq kind "tool_call" || str_eq kind "tool_call_update"

module _ (J : Json) where
  open J use {
    Value, Map, null, string, object, get, as_str, as_object, is_null, is_string, is_array,
    value_eq, map_get, map_insert, map_remove, entries,
  }

  -- A message identifier is absent, null or a text.
  abbrev pub bad_message_id : Option Value → Bool
  bad_message_id id = is_some_and id (λ v. not (is_null v) && not (is_string v))

  abbrev pub without_id : Value → Value
  without_id update = elim (as_object update) [
    | none ↦ update
    | some m ↦ object (map_remove m "messageId")
  ]

  -- The copy of the chunk with an empty text and no null identifier.
  unfoldable pub chunk_shape : Value → Map → Value
  chunk_shape update content =
      let shape =
        if is_some_and (get update "messageId") is_null then without_id update else update in
      index_set J shape "content" (object (map_insert content "text" (string "")))

  abbrev pub typed_chunk : Value → Map → String → Result RuntimeStateError (Option (Value × String))
  typed_chunk update content kind =
      if bad_message_id (get update "messageId")
      then err operation_mismatch
      else if not (str_eq kind "text")
      then ok none
      else (ok_or (map_str J content "text") operation_mismatch >>= λ text.
          ok (some (chunk_shape update content, text)))

  unfoldable pub text_chunk_shape : Value → Result RuntimeStateError (Option (Value × String))
  text_chunk_shape update =
      if not (is_some_and (get_str J update "sessionUpdate") is_text_chunk) then ok none else do
        content ← ok_or (get_object J update "content") operation_mismatch
        kind ← ok_or (map_str J content "type") operation_mismatch
        typed_chunk update content kind

  -- `previous["content"]["text"]` becomes its text followed by `text`.
  unfoldable pub extend_chunk : Value → String → Result RuntimeStateError Value
  extend_chunk previous text = do
    content ← ok_or (get_object J previous "content") operation_mismatch
    old ← ok_or (map_str J content "text") operation_mismatch
    let merged = object (map_insert content "text" (string (concat old text)))
    ok (index_set J previous "content" merged)

  abbrev pub same_shape : Option (Value × String) → Value → Bool
  same_shape none shape = false
  same_shape (some (previous_shape, _)) shape = value_eq previous_shape shape

  abbrev pub append_text :
      List Value → Value → Value → Value → String → Result RuntimeStateError (List Value)
  append_text folded previous update shape text = do
    previous_shape ← text_chunk_shape previous
    elim (same_shape previous_shape shape) [
      | true ↦ extend_chunk previous text >>= λ merged. ok (set_last folded merged)
      | false ↦ ok (folded ++ update ∷ [])
    ]

  unfoldable pub fold_chunk : List Value → Value → Result RuntimeStateError (List Value)
  fold_chunk folded update = do
    found ← text_chunk_shape update
    elim found [
      | none ↦ ok (folded ++ update ∷ [])
      | some (shape, text) ↦ elim (last folded) [
        | none ↦ ok (folded ++ update ∷ [])
        | some previous ↦ append_text folded previous update shape text
      ]
    ]

  unfoldable pub required_fold_string : Value → String → Result RuntimeStateError String
  required_fold_string value field = elim (get_str J value field) [
    | none ↦ err operation_mismatch
    | some s ↦ if str_eq s "" then err operation_mismatch else ok s
  ]

  -- Every field of the patch but those that are null.
  unfoldable pub insert_fields : Map → List (String × Value) → Map
  insert_fields target [] = target
  insert_fields target ((key, v) ∷ fields) =
      insert_fields (if is_null v then target else map_insert target key v) fields

  unfoldable pub replace_tool_fields : Value → Value → Result RuntimeStateError Value
  replace_tool_fields target patch = do
    m ← ok_or (as_object target) operation_mismatch
    p ← ok_or (as_object patch) operation_mismatch
    ok (object (insert_fields m (entries p)))

  unfoldable pub is_tool_slot : String → Value → Bool
  is_tool_slot id candidate =
      is_some_and (get_str J candidate "sessionUpdate") is_tool
      && is_text (get_str J candidate "toolCallId") id

  -- The slot of a tool call after an update of that call.
  unfoldable pub merge_tool : Value → Value → String → String → Result RuntimeStateError Value
  merge_tool retained update kind id = do
    target ← replace_tool_fields retained update
    let kept : Value = elim (get retained "sessionUpdate") [ none ↦ null | some k ↦ k ]
    let session_update = if str_eq kind "tool_call" then string "tool_call" else kept
    ok (index_set J (index_set J target "sessionUpdate" session_update) "toolCallId" (string id))

  unfoldable pub fold_tool : List Value → Value → String → Result RuntimeStateError (List Value)
  fold_tool folded update kind = do
    id ← required_fold_string update "toolCallId"
    elim (position (is_tool_slot id) folded) [
      | none ↦ ok (folded ++ update ∷ [])
      | some i ↦ elim (get_elem? folded i) [
        | none ↦ ok folded
        | some retained ↦ do merged ← merge_tool retained update kind id; ok (set folded i merged)
      ]
    ]

  unfoldable pub replace_shared_fold_slot : List Value → (Value → Bool) → Value → List Value
  replace_shared_fold_slot folded matches_slot update = elim (position matches_slot folded) [
    | none ↦ folded ++ update ∷ []
    | some i ↦ set folded i update
  ]

  unfoldable pub is_plan_slot : Value → Bool
  is_plan_slot candidate = is_text (get_str J candidate "sessionUpdate") "plan"

  abbrev pub plan_id_of : Value → Option String
  plan_id_of v = elim (get v "plan") [ none ↦ none | some plan ↦ get_str J plan "planId" ]

  unfoldable pub is_plan_update_slot : String → Value → Bool
  is_plan_update_slot id candidate =
      is_text (get_str J candidate "sessionUpdate") "plan_update"
      && is_text (plan_id_of candidate) id

  unfoldable pub fold_plan : List Value → Value → Result RuntimeStateError (List Value)
  fold_plan folded update =
      if not (is_some_and (get update "entries") is_array)
      then err operation_mismatch
      else ok (replace_shared_fold_slot folded is_plan_slot update)

  -- A plan of items lists its entries.
  abbrev pub bad_items : Map → Bool
  bad_items plan =
      is_text (map_str J plan "type") "items" && not (is_some_and (map_get plan "entries") is_array)

  unfoldable pub fold_plan_update : List Value → Value → Result RuntimeStateError (List Value)
  fold_plan_update folded update = do
    plan ← ok_or (get_object J update "plan") operation_mismatch
    id ← ok_or (map_str J plan "planId") operation_mismatch
    if str_eq id "" || bad_items plan
        then err operation_mismatch
        else ok (replace_shared_fold_slot folded (is_plan_update_slot id) update)

  unfoldable pub fold_plan_removed : List Value → Value → Result RuntimeStateError (List Value)
  fold_plan_removed folded update = do
    id ← required_fold_string update "planId"
    elim (position (is_plan_update_slot id) folded) [
      | none ↦ ok folded
      | some i ↦ ok (remove_at folded i)
    ]

  unfoldable pub fold_kind : List Value → Value → String → Result RuntimeStateError (List Value)
  fold_kind folded update kind =
      if is_text_chunk kind
      then fold_chunk folded update
      else if is_tool kind
      then fold_tool folded update kind
      else if str_eq kind "plan"
      then fold_plan folded update
      else if str_eq kind "plan_update"
      then fold_plan_update folded update
      else if str_eq kind "plan_removed"
      then fold_plan_removed folded update
      else ok (folded ++ update ∷ [])

  unfoldable pub fold_shared_active_turn_update :
      List Value → Value → Result RuntimeStateError (List Value)
  fold_shared_active_turn_update retained update = elim (get_str J update "sessionUpdate") [
    | none ↦ ok (retained ++ update ∷ [])
    | some kind ↦ fold_kind retained update kind
  ]
