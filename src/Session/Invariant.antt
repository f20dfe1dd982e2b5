-- ===== src/Session/Invariant.antt =====
-- What holds of a session between two operations.
use attyd.Common.{
  ℕ, ◌≤◌, String, Bool, true, false, Option, none, some, List, [], ◌∷◌, ◌≡◌, Result, is_some,
  str_eq_iff, arith,
}
use attyd.Json.{Json}
use attyd.Session.Types.{
  MirrorPhase, cold, loading, ready, running, reconciling, blocked, TurnOverlay, SessionState,
  Codec, SessionOperationKind, SessionAdmission, HistoryCacheError,
}
use attyd.Session.Admission.{new_cold, new_ready, begin_exclusive, settle_exclusive}
use attyd.Session.Fresh.{check_turn_admission-Fresh}
use attyd.Session.Turn.{
  admit_turn, fold_overlay_update, append_turn_update, complete_turn, block_turn,
  append_reconciling_update,
}
use attyd.Session.Load.{failed_phase, begin_load, fail_load}
use attyd.Session.Machine.{
  Command, begin, settle, admit, update, session_update, complete, block, commit_completed,
  commit_load, commit_attachment, touch, load, load_failed, step, run,
}
use attyd.Session.Commit.{
  commit_history, append_session_update, CommitCase, refused, taken, cooled, cool,
  commit_completed-case, commit_load-case, commit_attachment-case, Reply,
}

-- The turn that a phase goes with: none before it, one that still runs, one that has its response.
abbrev pub PhaseTurn : {J : Json} → MirrorPhase → Option (TurnOverlay J) → Type 0
PhaseTurn cold turn = is_some turn ≡ false
PhaseTurn loading turn = is_some turn ≡ false
PhaseTurn ready turn = is_some turn ≡ false
PhaseTurn running none = ⊥
PhaseTurn running (some t) = t.terminal ≡ none
PhaseTurn reconciling none = ⊥
PhaseTurn reconciling (some t) = (is_some t.terminal ≡ true) × (t.execution ≡ none)
PhaseTurn blocked none = Unit
PhaseTurn blocked (some t) = is_some t.terminal ≡ true → t.execution ≡ none

-- A load runs only while the session loads or reconciles.
abbrev pub PhaseLoad : MirrorPhase → Option String → Type 0
PhaseLoad loading attempt = Unit
PhaseLoad reconciling attempt = Unit
PhaseLoad _ attempt = attempt ≡ none

pub record Inv {J : Json} (s : SessionState J) : Type 0 where
  pub turn : PhaseTurn s.phase s.active_turn
  pub load : PhaseLoad s.phase s.load_attempt
  pub digest : is_some s.active_payload_digest ≡ is_some s.active_turn
  pub baseline : is_some s.active_turn ≡ true → is_some s.history_revision ≡ true
  pub origin :
      is_some s.load_attempt ≡ true → PhaseTurn (failed_phase s.load_origin true) s.active_turn
  pub counted : 1 ≤ s.view_revision

module _ {J : Json} where
  pub new_cold-Inv : (id : String) (n : ℕ) → Inv {J = J} (new_cold id n)
  unfolding new_cold
  new_cold-Inv id n = ground arith

  pub new_ready-Inv : (id : String) (n : ℕ) (rev : String) → Inv {J = J} (new_ready id n rev)
  unfolding new_ready
  new_ready-Inv id n rev = ground arith

  begin_exclusive-Inv :
      (s : SessionState J) (k : SessionOperationKind) (id : String)
      → Inv s
      → Inv (begin_exclusive s k id).0
  unfolding begin_exclusive
  begin_exclusive-Inv s k id v = ground arith

  settle_exclusive-Inv :
      (s : SessionState J) (k : SessionAdmission) (id : String)
      → Inv s
      → Inv (settle_exclusive s k id).0
  unfolding settle_exclusive
  settle_exclusive-Inv s k id v = ground arith

  pub admit_turn-Inv :
      (c : Codec J) (s : SessionState J) (op expected intent : String) (prompt : List J.Value)
      → Inv s
      → Inv (admit_turn c s op expected intent prompt).0
  unfolding admit_turn
  admit_turn-Inv c s op expected intent prompt v =
      ground
        (arith, check_turn_admission-Fresh s c expected intent prompt, str_eq_iff expected expected)

  fold_overlay_update-Inv :
      (c : Codec J) (s : SessionState J) (value : J.Value)
      → Inv s
      → Inv (fold_overlay_update c s value).0
  unfolding fold_overlay_update
  fold_overlay_update-Inv c s value v = ground arith

  complete_turn-Inv :
      (c : Codec J) (s : SessionState J) (op : String) (terminal : J.Value)
      → Inv s
      → Inv (complete_turn c s op terminal).0
  unfolding complete_turn
  complete_turn-Inv c s op terminal v = ground arith

  block_turn-Inv :
      (s : SessionState J) (op message : String) → Inv s → Inv (block_turn s op message).0
  unfolding block_turn
  block_turn-Inv s op message v = ground arith

  begin_load-Inv :
      (s : SessionState J) (attempt : String) (r : Result HistoryCacheError (Unit {0}))
      → Inv s
      → Inv (begin_load s attempt r).0
  unfolding begin_load failed_phase
  begin_load-Inv s attempt r v = ground arith

  fail_load-Inv :
      (s : SessionState J) (attempt message : String) (r : Result HistoryCacheError (Unit {0}))
      (retryable : Bool)
      → Inv s
      → Inv (fail_load s attempt r message retryable).0
  unfolding fail_load failed_phase
  fail_load-Inv s attempt message r retryable v = ground arith

  pub commit_history-Inv :
      (s : SessionState J) (revision : String) (after_update : ℕ) (replace : Bool)
      → Inv s
      → Inv (commit_history s revision after_update replace).0
  unfolding commit_history
  commit_history-Inv s revision after_update replace v = ground arith

  append_turn_update-Inv :
      (c : Codec J) (s : SessionState J) (op : String) (value : J.Value)
      → Inv s
      → Inv (append_turn_update c s op value).0
  unfolding append_turn_update
  append_turn_update-Inv c s op value v = ground arith

  append_session_update-Inv :
      (c : Codec J) (s : SessionState J) (value : J.Value) (a : Result HistoryCacheError String)
      → Inv s
      → Inv (append_session_update c s value a).0
  unfolding append_session_update append_reconciling_update
  append_session_update-Inv c s value a v = ground arith

  cool-Inv :
      (s : SessionState J) (revision : String) (n : ℕ) (replace : Bool)
      → Inv s
      → Inv (cool (commit_history s revision n replace)).0
  unfolding commit_history
  cool-Inv s revision n replace v = ground arith

  commit-Inv : (s : SessionState J) {r : SessionState J × Reply} → CommitCase s r → Inv s → Inv r.0
  commit-Inv s (refused e q) v = rw q v
  commit-Inv s (taken revision n replace q) v = rw q (commit_history-Inv s revision n replace v)
  commit-Inv s (cooled revision n replace q) v = rw q (cool-Inv s revision n replace v)

  -- Every command keeps the invariant, whatever its answer.
  pub step-Inv : (c : Codec J) (s : SessionState J) (cmd : Command J) → Inv s → Inv (step c s cmd).0
  unfolding step
  step-Inv c s (begin kind id) v = begin_exclusive-Inv s kind id v
  step-Inv c s (settle kind id) v = settle_exclusive-Inv s kind id v
  step-Inv c s (admit op expected intent prompt) v = admit_turn-Inv c s op expected intent prompt v
  step-Inv c s (update op value) v = append_turn_update-Inv c s op value v
  step-Inv c s (session_update value appended) v = append_session_update-Inv c s value appended v
  step-Inv c s (complete op terminal) v = complete_turn-Inv c s op terminal v
  step-Inv c s (block op message) v = block_turn-Inv s op message v
  step-Inv c s (commit_completed op appended) v =
      commit-Inv s (commit_completed-case s op appended) v
  step-Inv c s (commit_load attempt compared snapshot) v =
      commit-Inv s (commit_load-case s attempt compared snapshot) v
  step-Inv c s (commit_attachment attempt compared snapshot) v =
      commit-Inv s (commit_attachment-case s attempt compared snapshot) v
  step-Inv c s touch v = ground arith
  step-Inv c s (load attempt candidate) v = begin_load-Inv s attempt candidate v
  step-Inv c s (load_failed attempt aborted message retryable) v =
      fail_load-Inv s attempt message aborted retryable v

  -- A session that satisfies the invariant satisfies it after any commands: its phase fits its
  -- turn and its load attempt, a turn has a digest and a base revision, and the view revision is
  -- not 0.
  pub run-Inv :
      (c : Codec J) (s : SessionState J) (cmds : List (Command J)) → Inv s → Inv (run c s cmds)
  unfolding run
  run-Inv c s [] v = v
  run-Inv c s (cmd ∷ cmds) v = run-Inv c (step c s cmd).0 cmds (step-Inv c s cmd v)
