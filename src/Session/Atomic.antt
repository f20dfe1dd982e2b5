-- ===== src/Session/Atomic.antt =====
-- Refused operations of a session.
use attyd.Common.{String, Bool, ◌≡◌, ◌≢◌, arith, sym, ap, ◌∙◌}
use attyd.Json.{Json}
use attyd.Session.Types.{MirrorError, SessionState, Codec}
use attyd.Session.Admission.{begin_exclusive, settle_exclusive}
use attyd.Session.Turn.{
  admit_turn, append_turn_update, complete_turn, block_turn, append_reconciling_update,
}
use attyd.Session.Load.{begin_load, fail_load}
use attyd.Session.Machine.{
  Command, begin, settle, admit, update, session_update, complete, block, commit_completed,
  commit_load, commit_attachment, touch, load, load_failed, step,
}
use attyd.Session.Commit.{
  commit_history, append_session_update, CommitCase, refused, taken, cooled, cool,
  commit_completed-case, commit_load-case, commit_attachment-case, Reply, failed, panicked,
}

module _ {J : Json} where
  commit_history-failed :
      (s : SessionState J) (revision : String) (n : _) (replace : Bool) {e : MirrorError}
      → ((commit_history s revision n replace).1 ≡ failed e
          → (commit_history s revision n replace).0 ≡ s)
        × ((cool (commit_history s revision n replace)).1 ≡ failed e
            → (cool (commit_history s revision n replace)).0 ≡ s)
  unfolding commit_history
  commit_history-failed s revision n replace = (λ h. ground arith, λ h. ground arith)

  commit-failed :
      (s : SessionState J) {r : SessionState J × Reply} {e : MirrorError}
      → CommitCase s r
      → r.1 ≡ failed e
      → r.0 ≡ s
  commit-failed s (refused e q) h = ap (λ p. p.0) q
  commit-failed s (taken revision n replace q) h =
      ap (λ p. p.0) q ∙ (commit_history-failed s revision n replace).0 (sym (ap (λ p. p.1) q) ∙ h)
  commit-failed s (cooled revision n replace q) h =
      ap (λ p. p.0) q ∙ (commit_history-failed s revision n replace).1 (sym (ap (λ p. p.1) q) ∙ h)

  -- A command of the session machine that answers with an error leaves every field of the session
  -- as it was. The commands are the operations of the mirror on one session less two:
  -- use_cached_history, which sets the phase before a step of it can fail, and
  -- clear_history_for_replacement.
  pub step-failed :
      (c : Codec J) (s : SessionState J) (cmd : Command J) (e : MirrorError)
      → (step c s cmd).1 ≡ failed e
      → (step c s cmd).0 ≡ s
  unfolding step begin_exclusive settle_exclusive admit_turn append_turn_update complete_turn
      block_turn append_session_update append_reconciling_update begin_load fail_load
  step-failed c s (begin kind id) e h = ground arith
  step-failed c s (settle kind id) e h = ground arith
  step-failed c s (admit op expected intent prompt) e h = ground arith
  step-failed c s (update op value) e h = ground arith
  step-failed c s (session_update value appended) e h = ground arith
  step-failed c s (complete op terminal) e h = ground arith
  step-failed c s (block op message) e h = ground arith
  step-failed c s (commit_completed op appended) e h =
      commit-failed s (commit_completed-case s op appended) h
  step-failed c s (commit_load attempt compared snapshot) e h =
      commit-failed s (commit_load-case s attempt compared snapshot) h
  step-failed c s (commit_attachment attempt compared snapshot) e h =
      commit-failed s (commit_attachment-case s attempt compared snapshot) h
  step-failed c s touch e h = ground arith
  step-failed c s (load attempt candidate) e h = ground arith
  step-failed c s (load_failed attempt aborted message retryable) e h = ground arith

  commit_history-ne-panicked :
      (s : SessionState J) (revision : String) (n : _) (replace : Bool)
      → ((commit_history s revision n replace).1 ≢ panicked)
        × ((cool (commit_history s revision n replace)).1 ≢ panicked)
  unfolding commit_history
  commit_history-ne-panicked s revision n replace = (λ h. ground arith, λ h. ground arith)

  commit-ne-panicked :
      (s : SessionState J) {r : SessionState J × Reply} → CommitCase s r → r.1 ≢ panicked
  commit-ne-panicked s (refused e q) h = cc
  commit-ne-panicked s (taken revision n replace q) h =
      (commit_history-ne-panicked s revision n replace).0 (sym (ap (λ p. p.1) q) ∙ h)
  commit-ne-panicked s (cooled revision n replace q) h =
      (commit_history-ne-panicked s revision n replace).1 (sym (ap (λ p. p.1) q) ∙ h)

  -- No operation on a session fails an expect: a commit that has been validated finds the digest
  -- of its turn.
  pub step-ne-panicked :
      (c : Codec J) (s : SessionState J) (cmd : Command J) → (step c s cmd).1 ≢ panicked
  unfolding step
  step-ne-panicked c s (begin kind id) = ground arith
  step-ne-panicked c s (settle kind id) = ground arith
  step-ne-panicked c s (admit op expected intent prompt) = ground arith
  step-ne-panicked c s (update op value) = ground arith
  step-ne-panicked c s (session_update value appended) = ground arith
  step-ne-panicked c s (complete op terminal) = ground arith
  step-ne-panicked c s (block op message) = ground arith
  step-ne-panicked c s (commit_completed op appended) =
      commit-ne-panicked s (commit_completed-case s op appended)
  step-ne-panicked c s (commit_load attempt compared snapshot) =
      commit-ne-panicked s (commit_load-case s attempt compared snapshot)
  step-ne-panicked c s (commit_attachment attempt compared snapshot) =
      commit-ne-panicked s (commit_attachment-case s attempt compared snapshot)
  step-ne-panicked c s touch = ground arith
  step-ne-panicked c s (load attempt candidate) = ground arith
  step-ne-panicked c s (load_failed attempt aborted message retryable) = ground arith
