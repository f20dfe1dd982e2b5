-- ===== src/Mirror/Compare.antt =====
-- The comparison of a replayed history with what the bridge knows (session_mirror.rs).
use attyd.Common.{
  ℕ, ◌+◌, String, Bool, true, false, ◌&&◌, ◌||◌, Option, none, some, List, [], ◌∷◌, ◌++◌, map,
  Result, ok, err, is_text, if◌then◌else◌, retain, nonempty, last, set_last, length, ltb, drop,
}
use Prim.Native.String.{◌++◌ as text_append}
use attyd.Json.{Json, get_str, index_set}
use attyd.Session.Types.{MirrorError, inconsistent_history, TurnOverlay}
use attyd.History.Reference.{fold_history_update, normalize_history_updates}

module _ (J : Json) where
  open J use {Value, get, as_str, as_object, as_array, value_eq, object, string, null, map_remove}

  -- Equality of `Vec<Value>`.
  unfoldable pub values_eq : List Value → List Value → Bool
  values_eq [] [] = true
  values_eq (a ∷ xs) (b ∷ ys) = value_eq a b && values_eq xs ys
  values_eq _ _ = false

  unfoldable pub history_update_identity : Value → Value
  history_update_identity update = elim (as_object update) [
    | none ↦ update
    | some m ↦ object (map_remove m "messageId")
  ]

  abbrev pub is_kind : Value → String → Bool
  is_kind update kind = is_text (get_str J update "sessionUpdate") kind

  abbrev pub is_text_block : Value → Bool
  is_text_block block = is_text (get_str J block "type") "text"

  abbrev pub blank : Value → Value
  blank block = index_set J block "text" null

  -- The text of a text block.
  unfoldable pub block_text : Value → Option String
  block_text block = if is_text_block block then get_str J block "text" else none

  abbrev pub text_or_empty : Option String → String
  text_or_empty none = ""
  text_or_empty (some t) = t

  -- The block joined to the last one where both are text of one shape, or pushed.
  unfoldable pub join_block : List Value → Value → String → List Value
  join_block normalized block text = elim (last normalized) [
    | none ↦ normalized ++ block ∷ []
    | some previous ↦
        if is_text_block previous && value_eq (blank block) (blank previous)
        then set_last normalized (
            index_set J previous "text"
              (string (text_append (text_or_empty (get_str J previous "text")) text)))
        else normalized ++ block ∷ []
  ]

  unfoldable pub normalize_from_blocks : List Value → List Value → List Value
  unfolding block_text join_block
  normalize_from_blocks normalized [] = normalized
  normalize_from_blocks normalized (block ∷ blocks) =
      normalize_from_blocks
        (elim (block_text block) [
          | none ↦ normalized ++ block ∷ []
          | some text ↦ join_block normalized block text
        ])
        blocks

  unfoldable pub normalize_prompt_blocks : List Value → List Value
  unfolding normalize_from_blocks
  normalize_prompt_blocks blocks = normalize_from_blocks [] blocks

  -- The contents of the user's chunks at the front.
  unfoldable pub leading_prompt : List Value → List Value
  leading_prompt [] = []
  leading_prompt (update ∷ updates) =
      let rest = leading_prompt updates in
      if is_kind update "user_message_chunk"
      then elim (get update "content") [ none ↦ rest | some content ↦ content ∷ rest ]
      else []

  unfoldable pub replay_suffix_starts_with_prompt : List Value → List Value → Bool
  unfolding values_eq leading_prompt normalize_prompt_blocks
  replay_suffix_starts_with_prompt updates prompt =
      values_eq (normalize_prompt_blocks (leading_prompt updates)) (normalize_prompt_blocks prompt)

  -- The loop of `history_prefix_end`: how many updates fold to `prior`, or none. A round ends the
  -- loop where the fold fails.
  unfoldable pub prefix_loop : List Value → List Value → List Value → ℕ → Option ℕ
  unfolding values_eq
  prefix_loop prior prefix [] index = none
  prefix_loop prior prefix (update ∷ updates) index =
      elim (fold_history_update J prefix (history_update_identity update)) [
        | err _ ↦ none
        | ok folded ↦
            let rest = prefix_loop prior folded updates (index + 1) in
            if values_eq folded prior then some (index + 1) else rest
      ]

  unfoldable pub history_prefix_end : List Value → List Value → Option ℕ
  unfolding prefix_loop
  history_prefix_end candidate prior =
      elim (normalize_history_updates J (map history_update_identity prior)) [
        | err _ ↦ none
        | ok known ↦ if nonempty known then prefix_loop known [] candidate 0 else some 0
      ]

  unfoldable pub is_durable : Value → Bool
  is_durable update =
      is_kind update "agent_message_chunk"
      || is_kind update "tool_call"
      || is_kind update "tool_call_update"

  -- `live.iter().all(|expected| replay.by_ref().any(..))`: `live` is a subsequence of `replay`.
  unfoldable pub is_subsequence : List Value → List Value → Bool
  is_subsequence [] replay = true
  is_subsequence (expected ∷ live) [] = false
  is_subsequence (expected ∷ live) (found ∷ replay) =
      is_subsequence (if value_eq found expected then live else expected ∷ live) replay

  unfoldable pub identities : List Value → List Value
  identities updates = map history_update_identity updates

  unfoldable pub replay_contains_completed_turn : List Value → List Value → Bool
  unfolding is_durable is_subsequence identities
  replay_contains_completed_turn replay live =
      elim (normalize_history_updates J (identities (retain is_durable replay))) [
        | err _ ↦ false
        | ok replayed ↦ elim (normalize_history_updates J (identities (retain is_durable live))) [
          | err _ ↦ false
          | ok lived ↦ is_subsequence (identities lived) (identities replayed)
        ]
      ]

  -- The verdict of `commit_load` on a replay, in a session that reconciles.
  unfoldable pub compare_replay :
      List Value → List Value → Option (TurnOverlay J) → Result MirrorError (Unit {0})
  unfolding history_prefix_end replay_suffix_starts_with_prompt replay_contains_completed_turn
  compare_replay candidate prior turn = elim (history_prefix_end candidate prior) [
    | none ↦ err inconsistent_history
    | some prefix_end ↦ elim turn [
      | none ↦ err inconsistent_history
      | some t ↦
          if ltb prefix_end (length candidate)
            && replay_suffix_starts_with_prompt (drop prefix_end candidate) t.prompt
            && replay_contains_completed_turn (drop prefix_end candidate) t.updates
          then ok tt
          else err inconsistent_history
    ]
  ]
