-- ===== src/Session/Machine.antt =====
-- A session as a machine: the operations of the mirror on one session as commands
-- (session_mirror.rs), and runs of commands. What the history cache and the comparison of histories
-- answer stands in the command.
use attyd.Common.{ℕ, String, Bool, List, [], ◌∷◌, Result}
use attyd.Json.{Json}
use attyd.Session.Types.{
  SessionOperationKind, SessionAdmission, MirrorError, HistoryCacheError, SessionState, Codec,
}
use attyd.Session.Admission.{begin_exclusive, settle_exclusive}
use attyd.Session.Turn.{admit_turn, append_turn_update, complete_turn, block_turn}
use attyd.Session.Turn.{advance_revision}
use attyd.Session.Commit
use attyd.Session.Commit.{
  Reply, done, unit_reply, turn_reply, append_session_update, commit_completed_turn_from_memory,
  commit_attachment_cache,
}
use attyd.Session.Load.{begin_load, fail_load}

module _ (J : Json) where
  open J use {Value}

  pub data Command : Type 0 where
    begin : SessionOperationKind → String → Command
    settle : SessionAdmission → String → Command
    admit : String → String → String → List Value → Command
    update : String → Value → Command
    session_update : Value → Result HistoryCacheError String → Command
    complete : String → Value → Command
    block : String → String → Command
    commit_completed : String → Result HistoryCacheError (String × ℕ) → Command
    commit_load :
        String → Result MirrorError (Unit {0}) → Result HistoryCacheError (String × ℕ) → Command
    commit_attachment :
        String → Result MirrorError (Unit {0}) → Result HistoryCacheError (String × ℕ) → Command
    touch : Command
    load : String → Result HistoryCacheError (Unit {0}) → Command
    load_failed : String → Result HistoryCacheError (Unit {0}) → String → Bool → Command

module _ {J : Json} where
  unfoldable pub step : Codec J → SessionState J → Command J → SessionState J × Reply
  step c s (begin kind id) = let (t, r) = begin_exclusive s kind id in (t, unit_reply r)
  step c s (settle kind id) = let (t, r) = settle_exclusive s kind id in (t, unit_reply r)
  step c s (admit op expected intent prompt) =
      let (t, r) = admit_turn c s op expected intent prompt in (t, turn_reply r)
  step c s (update op value) = let (t, r) = append_turn_update c s op value in (t, unit_reply r)
  step c s (session_update value appended) =
      let (t, r) = append_session_update c s value appended in (t, unit_reply r)
  step c s (complete op terminal) = let (t, r) = complete_turn c s op terminal in (t, unit_reply r)
  step c s (block op message) = let (t, r) = block_turn s op message in (t, unit_reply r)
  step c s (commit_completed op appended) = commit_completed_turn_from_memory s op appended
  step c s (commit_load attempt compared snapshot) = Commit.commit_load s attempt compared snapshot
  step c s (commit_attachment attempt compared snapshot) =
      commit_attachment_cache s attempt compared snapshot
  step c s touch = (advance_revision s, done)
  step c s (load attempt candidate) =
      let (t, r) = begin_load s attempt candidate in (t, unit_reply r)
  step c s (load_failed attempt aborted message retryable) =
      let (t, r) = fail_load s attempt aborted message retryable in (t, unit_reply r)

  unfoldable pub run : Codec J → SessionState J → List (Command J) → SessionState J
  run c s [] = s
  run c s (cmd ∷ cmds) = run c (step c s cmd).0 cmds
