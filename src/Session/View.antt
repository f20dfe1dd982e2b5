-- ===== src/Session/View.antt =====
-- What a session publishes (session_mirror.rs: `SessionHistoryView`), and its revision.
use Prim.Native.Nat.{ℕ}
use attyd.Common.{
  String, Bool, Option, none, some, List, [], ◌++◌, ◌≡◌, ok, arith, ◌∷◌, str_eq_refl, sym, ap, ◌∙◌,
}
use attyd.Json.{Json, get_str}
use attyd.Session.Types.{
  MirrorPhase, ready, running, TurnOverlay, CompletedTurnOutcome, SessionState, Codec,
}
use attyd.Session.Admission.{begin_exclusive, settle_exclusive}
use attyd.Session.Turn.{
  admit_turn, append_turn_update, complete_turn, block_turn, append_reconciling_update,
}
use attyd.Session.History.{outcome_of}
use attyd.Session.Load.{begin_load, fail_load}
use attyd.Session.Invariant.{Inv}
use attyd.Session.Machine.{
  Command, begin, settle, admit, update, session_update, complete, block, commit_completed,
  commit_load, commit_attachment, touch, load, load_failed, step, run,
}
use attyd.Session.Commit.{
  commit_history, append_session_update, CommitCase, refused, taken, cooled, cool,
  commit_completed-case, commit_load-case, commit_attachment-case, Reply,
  commit_completed_turn_from_memory, commit_snapshot,
}

pub record SessionHistoryView (J : Json) : Type 0 where
  pub session_id : String
  pub incarnation : ℕ
  pub view_revision : ℕ
  pub history_revision : Option String
  pub phase : MirrorPhase
  pub active_turn : Option (TurnOverlay J)
  pub turn_outcomes : List (CompletedTurnOutcome J)
  pub sync_error : Option String
  pub history_notice : Option String

module _ {J : Json} where
  pub history_view : SessionState J → SessionHistoryView J
  history_view state = record {
    session_id = state.session_id;
    incarnation = state.incarnation;
    view_revision = state.view_revision;
    history_revision = state.history_revision;
    phase = state.phase;
    active_turn = state.active_turn;
    turn_outcomes = state.turn_outcomes;
    sync_error = state.sync_error;
    history_notice = state.history_notice;
  }

  commit_history-view :
      (s : SessionState J) (revision : String) (n : ℕ) (replace : Bool)
      → ((commit_history s revision n replace).0.view_revision ≡ s.view_revision
          → history_view (commit_history s revision n replace).0 ≡ history_view s)
        × ((cool (commit_history s revision n replace)).0.view_revision ≡ s.view_revision
            → history_view (cool (commit_history s revision n replace)).0 ≡ history_view s)
  unfolding commit_history history_view
  commit_history-view s revision n replace = (λ h. ground arith, λ h. ground arith)

  commit-view :
      (s : SessionState J) {r : SessionState J × Reply}
      → CommitCase s r
      → r.0.view_revision ≡ s.view_revision
      → history_view r.0 ≡ history_view s
  commit-view s (refused e q) h = ap (λ p. history_view p.0) q
  commit-view s (taken revision n replace q) h =
      ap (λ p. history_view p.0) q
      ∙ (commit_history-view s revision n replace).0 (sym (ap (λ p. p.0.view_revision) q) ∙ h)
  commit-view s (cooled revision n replace q) h =
      ap (λ p. history_view p.0) q
      ∙ (commit_history-view s revision n replace).1 (sym (ap (λ p. p.0.view_revision) q) ∙ h)

  -- A command that leaves the view revision alone changes nothing that the session publishes.
  pub step-view :
      (c : Codec J) (s : SessionState J) (cmd : Command J)
      → (step c s cmd).0.view_revision ≡ s.view_revision
      → history_view (step c s cmd).0 ≡ history_view s
  unfolding history_view step begin_exclusive settle_exclusive admit_turn append_turn_update
      complete_turn block_turn append_session_update append_reconciling_update begin_load fail_load
  step-view c s (begin kind id) h = ground arith
  step-view c s (settle kind id) h = ground arith
  step-view c s (admit op expected intent prompt) h = ground arith
  step-view c s (update op value) h = ground arith
  step-view c s (session_update value appended) h = ground arith
  step-view c s (complete op terminal) h = ground arith
  step-view c s (block op message) h = ground arith
  step-view c s (commit_completed op appended) h =
      commit-view s (commit_completed-case s op appended) h
  step-view c s (commit_load attempt compared snapshot) h =
      commit-view s (commit_load-case s attempt compared snapshot) h
  step-view c s (commit_attachment attempt compared snapshot) h =
      commit-view s (commit_attachment-case s attempt compared snapshot) h
  step-view c s touch h = ground arith
  step-view c s (load attempt candidate) h = ground arith
  step-view c s (load_failed attempt aborted message retryable) h = ground arith

  -- A running turn whose execution is retired, in a session that satisfies the invariant,
  -- completes under its own operation and is committed from memory: the session is ready on the
  -- new revision with no turn, and a response with a stop reason is kept as the last outcome.
  pub complete_commit :
      (c : Codec J) (s : SessionState J) (t : TurnOverlay J) (response : J.Value) (reason : String)
      (revision : String) (n : ℕ)
      → Inv s
      → s.phase ≡ running
      → s.active_turn ≡ some t
      → t.execution ≡ none
      → get_str J response "stopReason" ≡ some reason
      → let u = run c s (
          complete t.operation_id response
          ∷ commit_completed t.operation_id (ok (revision, n))
          ∷ []) in
        (u.phase ≡ ready)
        × (u.active_turn ≡ none)
        × (u.history_revision ≡ some revision)
        × (u.sync_error ≡ none)
        × (u.turn_outcomes
            ≡ s.turn_outcomes
              ++ record { operation_id = t.operation_id; after_update = n; response = response }
                ∷ [])
  unfolding run step complete_turn commit_completed_turn_from_memory commit_snapshot commit_history
      outcome_of
  complete_commit c s t response reason revision n v p e x r =
      ground (arith, str_eq_refl t.operation_id)
