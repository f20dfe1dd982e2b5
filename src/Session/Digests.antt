-- ===== src/Session/Digests.antt =====
-- The digest that a session keeps for its turn, and what it gives a client that tries again.
use attyd.Common.{
  ℕ, String, Bool, Option, none, some, List, [], ◌∷◌, ◌≡◌, arith, subst, ◌∙◌, ◌⊎◌, str_eq_refl,
  refl, ok,
}
use attyd.Json.{Json}
use attyd.Session.Types.{TurnOverlay, SessionState, Codec, duplicate, bytes_eq_iff}
use attyd.Session.Admission.{new_cold, new_ready, begin_exclusive, settle_exclusive}
use attyd.Session.Turn.{
  admit_turn, fold_overlay_update, append_turn_update, complete_turn, block_turn,
  append_reconciling_update, payload_digest, check_turn_admission,
}
use attyd.Session.Load.{begin_load, fail_load}
use attyd.Session.Machine.{
  Command, begin, settle, admit, update, session_update, complete, block, commit_completed,
  commit_load, commit_attachment, touch, load, load_failed, step, run,
}
use attyd.Session.Commit.{
  commit_history, append_session_update, CommitCase, refused, taken, cooled, cool,
  commit_completed-case, commit_load-case, commit_attachment-case, Reply,
}
use attyd.Session.Retries.{retry_answer, committed_retries}
use attyd.Session.History.{consumption}
use attyd.Session.Invariant.{run-Inv, new_ready-Inv}

module _ {J : Json} (c : Codec J) where
  -- The digest of a turn is that of its prompt.
  abbrev pub DigestAt : Option (TurnOverlay J) → Option (List ℕ) → Type 0
  DigestAt none digest = Unit
  DigestAt (some t) digest = digest ≡ some (payload_digest c t.prompt)

  abbrev pub Digested : SessionState J → Type 0
  Digested s = DigestAt s.active_turn s.active_payload_digest

  commit_history-Digested :
      (s : SessionState J) (revision : String) (n : ℕ) (replace : Bool)
      → Digested s
      → Digested (commit_history s revision n replace).0
        × Digested (cool (commit_history s revision n replace)).0
  unfolding commit_history
  commit_history-Digested s revision n replace v = (ground arith, ground arith)

  commit-Digested :
      (s : SessionState J) {r : SessionState J × Reply} → CommitCase s r → Digested s → Digested r.0
  commit-Digested s (refused e q) v = rw q v
  commit-Digested s (taken revision n replace q) v =
      rw q (commit_history-Digested s revision n replace v).0
  commit-Digested s (cooled revision n replace q) v =
      rw q (commit_history-Digested s revision n replace v).1

  step-Digested : (s : SessionState J) (cmd : Command J) → Digested s → Digested (step c s cmd).0
  unfolding step begin_exclusive settle_exclusive admit_turn append_turn_update
      append_session_update append_reconciling_update fold_overlay_update complete_turn block_turn
      begin_load fail_load
  step-Digested s (begin kind id) v = ground arith
  step-Digested s (settle kind id) v = ground arith
  step-Digested s (admit op expected intent prompt) v = ground arith
  step-Digested s (update op value) v = ground arith
  step-Digested s (session_update value appended) v = ground arith
  step-Digested s (complete op terminal) v = ground arith
  step-Digested s (block op message) v = ground arith
  step-Digested s (commit_completed op appended) v =
      commit-Digested s (commit_completed-case s op appended) v
  step-Digested s (commit_load attempt compared snapshot) v =
      commit-Digested s (commit_load-case s attempt compared snapshot) v
  step-Digested s (commit_attachment attempt compared snapshot) v =
      commit-Digested s (commit_attachment-case s attempt compared snapshot) v
  step-Digested s touch v = ground arith
  step-Digested s (load attempt candidate) v = ground arith
  step-Digested s (load_failed attempt aborted message retryable) v = ground arith

  pub run-Digested :
      (s : SessionState J) (cmds : List (Command J)) → Digested s → Digested (run c s cmds)
  unfolding run
  run-Digested s [] v = v
  run-Digested s (cmd ∷ cmds) v = run-Digested (step c s cmd).0 cmds (step-Digested s cmd v)

  new_ready-Digested : (id : String) (n : ℕ) (rev : String) → Digested (new_ready id n rev)
  unfolding new_ready new_cold
  new_ready-Digested id n rev = tt

  turn-digest :
      (s : SessionState J) (t : TurnOverlay J)
      → Digested s
      → s.active_turn ≡ some t
      → s.active_payload_digest ≡ some (payload_digest c t.prompt)
  turn-digest s t v e = subst (λ o. DigestAt o s.active_payload_digest) e v

  same_prompt :
      (t : TurnOverlay J) (old revision expected : String)
      → (expected ≡ old) ⊎ (expected ≡ revision)
      → retry_answer
          (consumption t old (payload_digest c t.prompt) revision)
          expected
          (payload_digest c t.prompt)
        ≡ ok (some (duplicate t.operation_id))
  same_prompt t old revision expected h =
      let same = (bytes_eq_iff (payload_digest c t.prompt) (payload_digest c t.prompt)).1 refl in
      ground (arith, same, h, str_eq_refl expected)

  -- In a session that starts ready and runs any commands, when its turn is committed, a client
  -- that sends the intent and the prompt of the turn again, expecting the revision before or after
  -- the commit, is told after any further commands that it is a duplicate of the operation of the
  -- turn.
  pub retry_duplicate :
      (id : String) (n : ℕ) (rev : String) (before : List (Command J)) (t : TurnOverlay J)
      (old revision : String) (k : ℕ) (replace : Bool) (after : List (Command J))
      (expected : String)
      → (run c (new_ready id n rev) before).active_turn ≡ some t
      → (run c (new_ready id n rev) before).history_revision ≡ some old
      → (expected ≡ old) ⊎ (expected ≡ revision)
      → check_turn_admission c
          (run c (commit_history (run c (new_ready id n rev) before) revision k replace).0 after)
          expected
          t.client_intent_id
          t.prompt
        ≡ ok (some (duplicate t.operation_id))
  retry_duplicate id n rev before t old revision k replace after expected e has_old h =
      let s = run c (new_ready id n rev) before in
      let v = run-Inv c (new_ready id n rev) before (new_ready-Inv id n rev) in
      let d = run-Digested (new_ready id n rev) before (new_ready-Digested id n rev) in
      committed_retries c s revision k replace t old (payload_digest c t.prompt) v e has_old
        (turn-digest s t d e) after expected t.prompt
      ∙ same_prompt t old revision expected h
