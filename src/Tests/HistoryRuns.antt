-- ===== src/Tests/HistoryRuns.antt =====
-- The theorems on whole histories at concrete updates.
use attyd.Common.{String, List, [], ◌∷◌, ◌≡◌, ok, ◌>>=◌}
use attyd.History.Reference.{normalize_history_updates}
use attyd.History.Builder.{empty_builder, append_all}
use attyd.History.Equivalence.{append_all-normalize}
use attyd.Common.{err, refl, arith}
use attyd.Session.Types.{attempt_mismatch}
use attyd.History.Keys.{SessionKey, find, put, key_eq, remove_key}
use attyd.History.Candidate.{replay_append}
use attyd.History.Cache.{
  Encoder, HistoryCache, new_cache, begin_candidate, commit_candidate, abort_candidate, candidate,
}
use attyd.History.Loads.{LoadOutcome, append_replay, load_commits}
use attyd.History.Sealed.{Call, writes, begins, run, aborted, late_append}
use attyd.Tests.Plain.{plain, Plain, text, object, field, end}

abbrev message : String → String → Plain
message kind words = object (
    field "sessionUpdate" (text kind)
      (field "content" (object (field "type" (text "text") (field "text" (text words) end))) end))

abbrev call : String → String → String → Plain
call kind id status = object (
    field "sessionUpdate" (text kind)
      (field "toolCallId" (text id) (field "status" (text status) end)))

-- Two turns; the tool call of the first is updated in the second, and called anew.
abbrev two_turns : List Plain
two_turns =
    message "user_message_chunk" "run"
    ∷ call "tool_call" "tool" "pending"
    ∷ message "agent_message_chunk" "wa"
    ∷ message "agent_message_chunk" "it"
    ∷ message "user_message_chunk" "again"
    ∷ call "tool_call_update" "tool" "completed"
    ∷ call "tool_call" "tool" "pending"
    ∷ []

append_all-normalize_example :
    (append_all plain (λ _. 7) (empty_builder plain) two_turns >>= λ b. ok b.updates)
    ≡ normalize_history_updates plain two_turns
append_all-normalize_example = append_all-normalize plain (λ _. 7) two_turns

abbrev encoder : Encoder plain
encoder = record {
  value_bytes = λ _. 7;
  encoded_len = λ _. 9;
  digest = λ _. [];
  format_revision = λ epoch incarnation generation. epoch;
}

abbrev key : SessionKey
key = record { session_id = "session"; incarnation = 1 }

abbrev cache : HistoryCache plain
cache = new_cache "epoch"

load_commits_example :
    LoadOutcome encoder key "load" (normalize_history_updates plain two_turns) cache (
      commit_candidate encoder
        (append_replay encoder key "load" (begin_candidate cache key "load").0 two_turns)
        key
        "load")
unfolding new_cache find
load_commits_example = load_commits encoder key "load" cache two_turns refl

abbrev loading_cache : HistoryCache plain
loading_cache = (begin_candidate cache key "load").0

abbrev aborted_cache : HistoryCache plain
aborted_cache = (abort_candidate loading_cache key "load").0

-- The loader goes on, and another load of the session begins.
abbrev late_calls : List (Call plain)
late_calls = writes 0 (message "user_message_chunk" "late") ∷ begins key "again" ∷ []

late_append_example :
    replay_append plain encoder.value_bytes
      ((run encoder aborted_cache late_calls).replays 0)
      (message "user_message_chunk" "late")
    ≡ ((run encoder aborted_cache late_calls).replays 0, err attempt_mismatch)
unfolding new_cache find begin_candidate put candidate abort_candidate key_eq remove_key
late_append_example =
    late_append encoder loading_cache key 0 aborted_cache late_calls
      (message "user_message_chunk" "late") (omega arith) (aborted "load" refl refl)
