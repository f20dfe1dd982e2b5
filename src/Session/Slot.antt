-- ===== src/Session/Slot.antt =====
-- The slot of the exclusive operation: who holds it, and what it excludes.
use attyd.Common.{
  String, Bool, true, false, not, some, List, [], ◌∷◌, ◌≡◌, ◌≢◌, ◌⊎◌, ok, err, is_some, all, arith,
  ap, ◌∙◌,
}
use attyd.Json.{Json}
use attyd.Session.Types.{
  SessionOperationKind, SessionOperationState, SessionAdmission, accepted, wrong_phase,
  SessionState, Codec,
}
use attyd.Session.Admission.{can_begin, begin_exclusive, settle_exclusive, owns_slot, admission}
use attyd.Session.Turn.{
  check_turn_admission, admit_turn, append_turn_update, complete_turn, block_turn, check_settled,
  append_reconciling_update,
}
use attyd.Session.Load.{is_unfinished, begin_load, fail_load}
use attyd.Session.Fresh.{can_begin-prompt}
use attyd.Session.Machine.{
  Command, begin, settle, admit, update, session_update, complete, block, commit_completed,
  commit_load, commit_attachment, touch, load, load_failed, step, run,
}
use attyd.Session.Commit.{
  commit_history, append_session_update, CommitCase, refused, taken, cooled, cool,
  commit_completed-case, commit_load-case, commit_attachment-case, Reply,
}

-- The command settles the operation `o`.
abbrev pub settles : {J : Json} → SessionOperationState → Command J → Bool
unfolding admission
settles o (settle kind id) = owns_slot kind id o
settles o _ = false

module _ {J : Json} where
  -- A turn that has no response yet excludes every operation but control and close.
  pub can_begin_unfinished :
      (s : SessionState J) (a : SessionAdmission)
      → can_begin s a ≡ ok tt
      → (a ≡ SessionAdmission.control)
        ⊎ (a ≡ SessionAdmission.close)
        ⊎ (is_unfinished s.active_turn ≡ false)
  unfolding can_begin
  can_begin_unfinished s a h = ground arith

  commit_history-operation :
      (s : SessionState J) (revision : String) (n : _) (replace : Bool)
      → ((commit_history s revision n replace).0.operation ≡ s.operation)
        × ((cool (commit_history s revision n replace)).0.operation ≡ s.operation)
  unfolding commit_history
  commit_history-operation s revision n replace = (ground arith, ground arith)

  commit-operation :
      (s : SessionState J) {r : SessionState J × Reply}
      → CommitCase s r
      → r.0.operation ≡ s.operation
  commit-operation s (refused e q) = ap (λ p. p.0.operation) q
  commit-operation s (taken revision n replace q) =
      ap (λ p. p.0.operation) q ∙ (commit_history-operation s revision n replace).0
  commit-operation s (cooled revision n replace q) =
      ap (λ p. p.0.operation) q ∙ (commit_history-operation s revision n replace).1

  step-operation :
      (c : Codec J) (s : SessionState J) (cmd : Command J) (o : SessionOperationState)
      → s.operation ≡ some o
      → settles o cmd ≡ false
      → (step c s cmd).0.operation ≡ some o
  unfolding step begin_exclusive settle_exclusive admit_turn append_turn_update complete_turn
      block_turn append_session_update append_reconciling_update begin_load fail_load
  step-operation c s (begin kind id) o e h = ground arith
  step-operation c s (settle kind id) o e h = ground arith
  step-operation c s (admit op expected intent prompt) o e h = ground arith
  step-operation c s (update op value) o e h = ground arith
  step-operation c s (session_update value appended) o e h = ground arith
  step-operation c s (complete op terminal) o e h = ground arith
  step-operation c s (block op message) o e h = ground arith
  step-operation c s (commit_completed op appended) o e h =
      commit-operation s (commit_completed-case s op appended) ∙ e
  step-operation c s (commit_load attempt compared snapshot) o e h =
      commit-operation s (commit_load-case s attempt compared snapshot) ∙ e
  step-operation c s (commit_attachment attempt compared snapshot) o e h =
      commit-operation s (commit_attachment-case s attempt compared snapshot) ∙ e
  step-operation c s touch o e h = ground arith
  step-operation c s (load attempt candidate) o e h = ground arith
  step-operation c s (load_failed attempt aborted message retryable) o e h = ground arith

  run-operation :
      (c : Codec J) (s : SessionState J) (cmds : List (Command J)) (o : SessionOperationState)
      → s.operation ≡ some o
      → all (λ cmd. not (settles o cmd)) cmds ≡ true
      → (run c s cmds).operation ≡ some o
  unfolding run
  run-operation c s [] o e h = e
  run-operation c s (cmd ∷ cmds) o e h =
      run-operation c (step c s cmd).0 cmds o (step-operation c s cmd o e (ground arith))
        (ground arith)

  begin-refused :
      (s : SessionState J) (kind : SessionOperationKind) (id : String)
      → is_some s.operation ≡ true
      → begin_exclusive s kind id ≡ (s, err wrong_phase)
  unfolding begin_exclusive can_begin
  begin-refused s kind id h = ground arith

  not_accepted :
      (c : Codec J) (s : SessionState J) (op expected intent : String) (prompt : List J.Value)
      {id : String}
      → is_some s.operation ≡ true
      → (admit_turn c s op expected intent prompt).1 ≢ ok (accepted id)
  unfolding admit_turn check_turn_admission check_settled
  not_accepted c s op expected intent prompt h e = ground (arith, can_begin-prompt s)

  -- Until the command that settles its operation and kind, an exclusive operation keeps the slot
  -- whatever other commands come, and meanwhile each further exclusive operation is refused and
  -- changes nothing, and no turn is accepted.
  pub slot_exclusive :
      (c : Codec J) (s : SessionState J) (cmds : List (Command J)) (o : SessionOperationState)
      → s.operation ≡ some o
      → all (λ cmd. not (settles o cmd)) cmds ≡ true
      → let t = run c s cmds in
        (t.operation ≡ some o)
        × ((kind : SessionOperationKind) (id : String)
            → begin_exclusive t kind id ≡ (t, err wrong_phase))
        × ((op expected intent : String) (prompt : List J.Value) (id : String)
            → (admit_turn c t op expected intent prompt).1 ≢ ok (accepted id))
  slot_exclusive c s cmds o e h =
      let held = run-operation c s cmds o e h in
      let busy : is_some (run c s cmds).operation ≡ true = rw held in
      (
        held,
        λ kind id. begin-refused _ kind id busy,
        λ op expected intent prompt id. not_accepted c _ op expected intent prompt busy,
      )
