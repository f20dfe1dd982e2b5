-- ===== src/Mirror/Loads.antt =====
-- The loads of a session's history, with the cache (session_mirror.rs).
use attyd.Common.{
  ℕ, String, Bool, not, ◌&&◌, ◌||◌, none, some, Result, ok, err, ◌>>=◌, ok_or, is_text,
  if◌then◌else◌, length, Outcome, returned, panicked,
}
use attyd.Common.Dict.{lookup, insert}
use attyd.Json.{Json}
use attyd.Session.Types.{
  MirrorPhase, cold, MirrorError, HistoryCacheError, invalid_replay, history, operation_mismatch,
  inconsistent_history, SessionState,
}
use attyd.Session.Admission.{is_loading_phase}
use attyd.Session.Turn.{is_reconciling}
use attyd.Session.Load
use attyd.Session.Commit
use attyd.Session.Commit.{Reply, done, failed}
use attyd.History.Candidate.{replay_updates}
use attyd.History.Cache.{
  HistorySnapshot, HistoryCache, peek, candidate, begin_candidate, append_candidate,
  poison_candidate, commit_candidate, abort_candidate,
}
use attyd.Registry.Types.{SessionRegistry}
use attyd.Registry.Retirement.{stop_countdown}
use attyd.Mirror.Compare.{compare_replay}
use attyd.Mirror.Store.{
  Packages, key_of, require_state, set_state, discharge, prune_retained_terminals,
}

module _ {J : Json} where
  open J use {Value}

  -- `stop_absence` on the observers of a session that is there.
  unfoldable pub stop_observers : SessionRegistry J → String → SessionRegistry J
  unfolding stop_countdown
  stop_observers r id = elim (lookup id r.sessions) [
    | none ↦ r
    | some entry ↦
        let (m, held) = stop_countdown r.shared entry.resources in
        record r { shared = m; sessions = insert id (record entry { resources = held }) r.sessions }
  ]

  -- The guards are those of `Session.Load.begin_load`; the cache has begun the candidate where that
  -- answers `ok`.
  unfoldable pub begin_load :
      SessionRegistry J → String → ℕ → String → SessionRegistry J × Result MirrorError (Unit {0})
  unfolding require_state set_state stop_observers Load.begin_load
  begin_load r id incarnation attempt = elim (require_state r id incarnation) [
    | err e ↦ (r, err e)
    | ok s ↦
        let (begun, answer) = begin_candidate r.history (key_of id incarnation) attempt in
        let (s', reply) = Load.begin_load s attempt answer in
        elim reply [
          | err e ↦ (r, err e)
          | ok _ ↦ (set_state (stop_observers (record r { history = begun }) id) id s', ok tt)
        ]
  ]

  unfoldable pub load_candidate : SessionRegistry J → String → ℕ → String → Result MirrorError ℕ
  unfolding require_state
  load_candidate r id incarnation attempt = elim (require_state r id incarnation) [
    | err e ↦ err e
    | ok s ↦
        if not (is_text s.load_attempt attempt)
        then err operation_mismatch
        else elim (candidate r.history (key_of id incarnation) attempt) [
          | err e ↦ err (history e)
          | ok address ↦ ok address
        ]
  ]

  -- The attempt is in progress, in a phase of loading.
  unfoldable pub is_attempt : SessionState J → String → Bool
  is_attempt s attempt =
      is_text s.load_attempt attempt && (is_loading_phase s.phase || is_reconciling s.phase)

  -- The answer of a call of the cache, as the mirror passes it on.
  abbrev pub cached :
      SessionRegistry J
      → HistoryCache J × Result HistoryCacheError (Unit {0})
      → SessionRegistry J × Result MirrorError (Unit {0})
  cached r (h, ok _) = (record r { history = h }, ok tt)
  cached r (h, err e) = (record r { history = h }, err (history e))

  unfoldable pub append_load_update :
      Packages J
      → SessionRegistry J
      → String
      → ℕ
      → String
      → Value
      → SessionRegistry J × Result MirrorError (Unit {0})
  unfolding require_state is_attempt
  append_load_update k r id incarnation attempt update = elim (require_state r id incarnation) [
    | err e ↦ (r, err e)
    | ok s ↦
        if is_attempt s attempt
        then cached r (append_candidate k.encoder r.history (key_of id incarnation) attempt update)
        else (r, err operation_mismatch)
  ]

  unfoldable pub invalidate_load :
      SessionRegistry J → String → ℕ → String → SessionRegistry J × Result MirrorError (Unit {0})
  unfolding require_state is_attempt
  invalidate_load r id incarnation attempt = elim (require_state r id incarnation) [
    | err e ↦ (r, err e)
    | ok s ↦
        if is_attempt s attempt
        then cached r (poison_candidate r.history (key_of id incarnation) attempt invalid_replay)
        else (r, err operation_mismatch)
  ]

  -- The comparison that a session in reconciliation asks for before the commit.
  unfoldable pub compared :
      SessionRegistry J → String → ℕ → String → SessionState J → Result MirrorError (Unit {0})
  compared r id incarnation attempt s = do
    prior ← ok_or (peek r.history (key_of id incarnation)) inconsistent_history
    elim (candidate r.history (key_of id incarnation) attempt) [
      | err e ↦ err (history e)
      | ok address ↦ elim (replay_updates J (r.history.replays address)) [
        | err e ↦ err (history e)
        | ok updates ↦ compare_replay J updates prior.updates s.active_turn
      ]
    ]

  abbrev pub stamp :
      Result HistoryCacheError (HistorySnapshot J) → Result HistoryCacheError (String × ℕ)
  stamp (err e) = err e
  stamp (ok made) = ok (made.revision, length made.updates)

  -- What follows `history_committed`: the bytes of the overlay are free, and the terminals that the
  -- new history does not show are dropped.
  unfoldable pub settle_load :
      Packages J
      → SessionRegistry J
      → String
      → ℕ
      → SessionState J
      → SessionState J
      → HistorySnapshot J
      → SessionRegistry J
  unfolding set_state prune_retained_terminals
  settle_load k r id incarnation s s' made =
      prune_retained_terminals k (discharge (set_state r id s') s.active_overlay_bytes)
        (key_of id incarnation) made.updates

  -- The steps are those of `Session.Commit.commit_load`, with the answers of the cache.
  unfoldable pub commit_load :
      Packages J
      → SessionRegistry J
      → String
      → ℕ
      → String
      → SessionRegistry J × Outcome (Result MirrorError (HistorySnapshot J))
  unfolding require_state compared settle_load Commit.commit_load
  commit_load k r id incarnation attempt = elim (require_state r id incarnation) [
    | err e ↦ (r, returned (err e))
    | ok s ↦
        let (installed, snapshot) =
          commit_candidate k.encoder r.history (key_of id incarnation) attempt in
        let (s', reply) =
          Commit.commit_load s attempt (compared r id incarnation attempt s) (stamp snapshot) in
        elim reply [
          | failed e ↦ (r, returned (err e))
          | done ↦ elim snapshot [
            | err e ↦ (r, returned (err (history e)))
            | ok made ↦ (
              settle_load k (record r { history = installed }) id incarnation s s' made,
              returned (ok made),
            )
          ]
          | _ ↦ (r, panicked)
        ]
  ]

  unfoldable pub set_phase : SessionRegistry J → String → MirrorPhase → SessionRegistry J
  unfolding set_state
  set_phase r id phase = elim (lookup id r.sessions) [
    | none ↦ r
    | some entry ↦ set_state r id (record entry.state { phase = phase })
  ]

  unfoldable pub commit_attachment_cache :
      Packages J
      → SessionRegistry J
      → String
      → ℕ
      → String
      → SessionRegistry J × Outcome (Result MirrorError (HistorySnapshot J))
  unfolding commit_load set_phase
  commit_attachment_cache k r id incarnation attempt =
      let (r', answer) = commit_load k r id incarnation attempt in
      elim answer [
        | returned (ok made) ↦ (set_phase r' id cold, returned (ok made))
        | other ↦ (r', other)
      ]

  unfoldable pub fail_load :
      SessionRegistry J
      → String
      → ℕ
      → String
      → String
      → Bool
      → SessionRegistry J × Result MirrorError (Unit {0})
  unfolding require_state set_state Load.fail_load
  fail_load r id incarnation attempt message retryable = elim (require_state r id incarnation) [
    | err e ↦ (r, err e)
    | ok s ↦
        let (aborted, answer) = abort_candidate r.history (key_of id incarnation) attempt in
        let (s', reply) = Load.fail_load s attempt answer message retryable in
        elim reply [
          | err e ↦ (r, err e)
          | ok _ ↦ (set_state (record r { history = aborted }) id s', ok tt)
        ]
  ]
