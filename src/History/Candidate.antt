-- ===== src/History/Candidate.antt =====
-- The private data of a load (history_replay.rs: `ReplayCandidate`). Its lock is taken for each call.
use attyd.Common.{
  ℕ, Bool, true, false, Option, none, some, List, Result, ok, err, max, if◌then◌else◌,
}
use attyd.Json.{Json}
use attyd.Session.Types.{HistoryCacheError, attempt_mismatch, invalid_replay}
use attyd.History.Builder.{HistoryBuilder, empty_builder, append}

module _ (J : Json) where
  open J use {Value}

  -- The fields that hold the wire validation and the control updates are not modelled.
  pub record ReplayData : Type 0 where
    pub history : HistoryBuilder J
    pub invalid : Option HistoryCacheError
    pub sealed : Bool

  unfoldable pub fresh_replay : ReplayData
  fresh_replay = record { history = empty_builder J; invalid = none; sealed = false }

  unfoldable pub replay_updates : ReplayData → Result HistoryCacheError (List Value)
  replay_updates d = elim d.invalid [ some e ↦ err e | none ↦ ok d.history.updates ]

  -- `get_or_insert`.
  unfoldable pub poison : ReplayData → HistoryCacheError → ReplayData
  poison d e = elim d.invalid [ some _ ↦ d | none ↦ record d { invalid = some e } ]

  unfoldable pub seal : ReplayData → ReplayData
  seal d = record d { sealed = true }

  unfoldable pub take_history : ReplayData → ReplayData × Result HistoryCacheError (List Value × ℕ)
  take_history d = elim d.invalid [
    | some e ↦ (d, err e)
    | none ↦ (
      record d { sealed = true; history = empty_builder J },
      ok (d.history.updates, max d.history.bytes 2),
    )
  ]

  unfoldable pub discard : ReplayData → ReplayData
  discard d = record { history = empty_builder J; invalid = some invalid_replay; sealed = true }

  unfoldable pub replay_append :
      (Value → ℕ) → ReplayData → Value → ReplayData × Result HistoryCacheError (Unit {0})
  replay_append value_bytes d update =
      if d.sealed then (d, err attempt_mismatch) else elim d.invalid [
        | some e ↦ (d, err e)
        | none ↦ elim (append J value_bytes d.history update) [
          | err _ ↦ (record d { invalid = some invalid_replay }, err invalid_replay)
          | ok history ↦ (record d { history = history }, ok tt)
        ]
      ]
