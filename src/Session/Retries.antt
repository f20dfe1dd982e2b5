-- ===== src/Session/Retries.antt =====
-- The answers to retries of an intent whose turn is committed.
use attyd.Common.{
  ℕ, String, Bool, false, ◌&&◌, ◌||◌, Option, some, List, [], ◌∷◌, ◌≡◌, Result, ok, err,
  is_some_and, str_eq, str_eq_iff, str_eq_refl, if◌then◌else◌, Option-cases, inl, inr, arith,
}
use attyd.Common.Dict.{lookup, lookup-insert}
use attyd.Json.{Json}
use attyd.Session.Types.{
  TurnAdmission, duplicate, LastConsumption, MirrorError, idempotency_conflict, TurnOverlay,
  SessionState, Codec, bytes_eq,
}
use attyd.Session.Admission.{begin_exclusive, settle_exclusive}
use attyd.Session.Turn.{
  payload_digest, check_settled, check_turn_admission, admit_turn, append_turn_update,
  complete_turn, block_turn, append_reconciling_update,
}
use attyd.Session.History.{consumption}
use attyd.Session.Load.{begin_load, fail_load}
use attyd.Session.Fresh.{check_turn_admission-Fresh}
use attyd.Session.Invariant.{Inv, step-Inv, commit_history-Inv}
use attyd.Session.Intents.{commit_history-some, commit_history-none, cool-same}
use attyd.Session.Machine.{
  Command, begin, settle, admit, update, session_update, complete, block, commit_completed,
  commit_load, commit_attachment, touch, load, load_failed, step, run,
}
use attyd.Session.Commit.{
  commit_history, append_session_update, CommitCase, refused, taken, cooled, cool,
  commit_completed-case, commit_load-case, commit_attachment-case, Reply,
}

-- The answer to a retry: the first operation, for the same prompt at a revision on either side of
-- the commit, and a conflict otherwise.
abbrev pub retry_answer :
    LastConsumption → String → List ℕ → Result MirrorError (Option TurnAdmission)
retry_answer last expected digest =
    if bytes_eq last.payload_digest digest
      && (str_eq expected last.consumed_revision || str_eq expected last.successor_revision)
    then ok (some (duplicate last.operation_id))
    else err idempotency_conflict

module _ {J : Json} where
  -- The intent has been consumed as `last` says, and is not that of the active turn.
  pub record Consumed (s : SessionState J) (intent : String) (last : LastConsumption) : Type 0 where
    pub entry : lookup intent s.consumed_intents ≡ some last
    pub settled : is_some_and s.active_turn (λ t. str_eq t.client_intent_id intent) ≡ false

  admit_turn-Consumed :
      (c : Codec J) (s : SessionState J) (op expected other : String) (prompt : List J.Value)
      (intent : String) {last : LastConsumption}
      → Consumed s intent last
      → Consumed (admit_turn c s op expected other prompt).0 intent last
  unfolding admit_turn
  admit_turn-Consumed c s op expected other prompt intent h =
      ground (arith, check_turn_admission-Fresh s c expected other prompt, str_eq_iff other intent)

  -- A commit ends the turn; only a refused commit leaves one.
  commit_history-settled :
      (s : SessionState J) (revision : String) (n : ℕ) (replace : Bool) (intent : String)
      → is_some_and s.active_turn (λ t. str_eq t.client_intent_id intent) ≡ false
      → is_some_and
          (commit_history s revision n replace).0.active_turn
          (λ t. str_eq t.client_intent_id intent)
        ≡ false
  unfolding commit_history
  commit_history-settled s revision n replace intent h = ground arith

  commit_history-Consumed :
      (s : SessionState J) (revision : String) (n : ℕ) (replace : Bool) (intent : String)
      {last : LastConsumption}
      → Inv s
      → Consumed s intent last
      → Consumed (commit_history s revision n replace).0 intent last
  commit_history-Consumed s revision n replace intent {last} v h = record {
    entry = kept;
    settled = commit_history-settled s revision n replace intent h.settled;
  }
    where
      kept : lookup intent (commit_history s revision n replace).0.consumed_intents ≡ some last
      kept = elim (Option-cases s.active_turn) [
        | inl e ↦ ground (arith, commit_history-none s revision n replace)
        | inr (t, e) ↦
            let (old, digest, _, _, eq) = commit_history-some s revision n replace v e in
            ground (
              arith,
              lookup-insert t.client_intent_id intent (consumption t old digest revision)
                  s.consumed_intents,
            )
      ]

  cool-Consumed :
      (r : SessionState J × Reply) (intent : String) {last : LastConsumption}
      → Consumed r.0 intent last
      → Consumed (cool r).0 intent last
  cool-Consumed r intent h =
      let (turn, intents) = cool-same r in
      record { entry = rw intents h.entry; settled = rw turn h.settled }

  commit-kept :
      (s : SessionState J) {r : SessionState J × Reply}
      → CommitCase s r
      → (intent : String) {last : LastConsumption} → Inv s
      → Consumed s intent last
      → Consumed r.0 intent last
  commit-kept s (refused e q) intent v h = rw q h
  commit-kept s (taken revision n replace q) intent v h =
      rw q (commit_history-Consumed s revision n replace intent v h)
  commit-kept s (cooled revision n replace q) intent v h = rw q (
      cool-Consumed (commit_history s revision n replace) intent
        (commit_history-Consumed s revision n replace intent v h))

  step-Consumed :
      (c : Codec J) (s : SessionState J) (cmd : Command J) (intent : String)
      {last : LastConsumption}
      → Inv s
      → Consumed s intent last
      → Consumed (step c s cmd).0 intent last
  unfolding step begin_exclusive settle_exclusive append_turn_update complete_turn block_turn
      append_session_update append_reconciling_update begin_load fail_load
  step-Consumed c s (begin kind id) intent v h = ground arith
  step-Consumed c s (settle kind id) intent v h = ground arith
  step-Consumed c s (admit op expected other prompt) intent v h =
      admit_turn-Consumed c s op expected other prompt intent h
  step-Consumed c s (update op value) intent v h = ground arith
  step-Consumed c s (session_update value appended) intent v h = ground arith
  step-Consumed c s (complete op terminal) intent v h = ground arith
  step-Consumed c s (block op message) intent v h = ground arith
  step-Consumed c s (commit_completed op appended) intent v h =
      commit-kept s (commit_completed-case s op appended) intent v h
  step-Consumed c s (commit_load attempt compared snapshot) intent v h =
      commit-kept s (commit_load-case s attempt compared snapshot) intent v h
  step-Consumed c s (commit_attachment attempt compared snapshot) intent v h =
      commit-kept s (commit_attachment-case s attempt compared snapshot) intent v h
  step-Consumed c s touch intent v h = ground arith
  step-Consumed c s (load attempt candidate) intent v h = ground arith
  step-Consumed c s (load_failed attempt aborted message retryable) intent v h = ground arith

  run-Consumed :
      (c : Codec J) (s : SessionState J) (cmds : List (Command J)) (intent : String)
      {last : LastConsumption}
      → Inv s
      → Consumed s intent last
      → Consumed (run c s cmds) intent last
  unfolding run
  run-Consumed c s [] intent v h = h
  run-Consumed c s (cmd ∷ cmds) intent v h =
      run-Consumed c (step c s cmd).0 cmds intent (step-Inv c s cmd v)
        (step-Consumed c s cmd intent v h)

  Consumed-answer :
      (c : Codec J) (s : SessionState J) (expected intent : String) (prompt : List J.Value)
      {last : LastConsumption}
      → Consumed s intent last
      → check_turn_admission c s expected intent prompt
        ≡ retry_answer last expected (payload_digest c prompt)
  unfolding check_turn_admission check_settled
  Consumed-answer c s expected intent prompt {last} h = ground (
    arith,
    str_eq_iff last.consumed_revision expected,
    str_eq_iff last.successor_revision expected,
    str_eq_iff expected last.consumed_revision,
    str_eq_iff expected last.successor_revision,
  )

  commit-Consumed :
      (s : SessionState J) (revision : String) (n : ℕ) (replace : Bool) {t : TurnOverlay J}
      {old : String} {digest : List ℕ}
      → Inv s
      → s.active_turn ≡ some t
      → s.history_revision ≡ some old
      → s.active_payload_digest ≡ some digest
      → Consumed
          (commit_history s revision n replace).0
          t.client_intent_id
          (consumption t old digest revision)
  unfolding commit_history
  commit-Consumed s revision n replace {t} {old} {digest} v e has_old has_digest = record {
    entry = ground (
      arith,
      str_eq_refl t.client_intent_id,
      lookup-insert t.client_intent_id t.client_intent_id (consumption t old digest revision)
          s.consumed_intents,
    );
    settled = ground arith;
  }

  -- When the turn of a session that satisfies the invariant is committed, a later request for its
  -- intent is answered, after any commands, with the operation of the turn if the prompt has the
  -- digest of the turn and the client expects the revision before or after the commit, and with a
  -- conflict in every other case.
  pub committed_retries :
      (c : Codec J) (s : SessionState J) (revision : String) (n : ℕ) (replace : Bool)
      (t : TurnOverlay J) (old : String) (digest : List ℕ)
      → Inv s
      → s.active_turn ≡ some t
      → s.history_revision ≡ some old
      → s.active_payload_digest ≡ some digest
      → (cmds : List (Command J)) (expected : String) (prompt : List J.Value)
      → check_turn_admission c
          (run c (commit_history s revision n replace).0 cmds)
          expected
          t.client_intent_id
          prompt
        ≡ retry_answer (consumption t old digest revision) expected (payload_digest c prompt)
  committed_retries c s revision n replace t old digest v e has_old has_digest cmds expected
        prompt =
      Consumed-answer c _ expected t.client_intent_id prompt (
        run-Consumed c _ cmds t.client_intent_id (commit_history-Inv s revision n replace v)
          (commit-Consumed s revision n replace v e has_old has_digest))
