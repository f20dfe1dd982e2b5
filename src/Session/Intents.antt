-- ===== src/Session/Intents.antt =====
-- A client's intent is executed at most once, and its retries get the first answer.
use attyd.Common.{
  ℕ, String, Bool, true, ◌||◌, none, some, List, [], ◌∷◌, ◌≡◌, ◌≢◌, refl, ok, is_some, is_some_and,
  str_eq, str_eq_refl, arith, Option-cases, inl, inr,
}
use attyd.Common.Dict.{lookup, insert, lookup-insert}
use attyd.Json.{Json}
use attyd.Session.Types.{accepted, TurnOverlay, SessionState, Codec}
use attyd.Session.Admission.{begin_exclusive, settle_exclusive}
use attyd.Session.Turn.{
  check_settled, check_turn_admission, admit_turn, append_turn_update, complete_turn, block_turn,
  append_reconciling_update,
}
use attyd.Session.History.{consumption}
use attyd.Session.Load.{begin_load, fail_load}
use attyd.Session.Fresh.{check_turn_admission-Fresh}
use attyd.Session.Invariant.{Inv, step-Inv, admit_turn-Inv}
use attyd.Session.Machine.{
  Command, begin, settle, admit, update, session_update, complete, block, commit_completed,
  commit_load, commit_attachment, touch, load, load_failed, step, run,
}
use attyd.Session.Commit.{
  commit_history, append_session_update, CommitCase, refused, taken, cooled, cool,
  commit_completed-case, commit_load-case, commit_attachment-case, Reply, failed, panicked, done,
  admitted,
}

module _ {J : Json} where
  abbrev pub is_active : SessionState J → String → Bool
  is_active s intent = is_some_and s.active_turn (λ t. str_eq t.client_intent_id intent)

  -- The intent has been accepted: its turn is the active one, or has been committed.
  abbrev pub is_known : SessionState J → String → Bool
  is_known s intent = is_active s intent || is_some (lookup intent s.consumed_intents)

  -- To cool a session keeps its turn and its intents.
  pub cool-same :
      (r : SessionState J × Reply)
      → ((cool r).0.active_turn ≡ r.0.active_turn)
        × ((cool r).0.consumed_intents ≡ r.0.consumed_intents)
  cool-same (s, done) = (refl, refl)
  cool-same (s, panicked) = (refl, refl)
  cool-same (s, admitted a) = (refl, refl)
  cool-same (s, failed e) = (refl, refl)

  cool-known :
      (r : SessionState J × Reply) (intent : String)
      → is_known r.0 intent ≡ true
      → is_known (cool r).0 intent ≡ true
  cool-known r intent h = let (turn, intents) = cool-same r in rw (turn, intents) h

  -- The commit of a running turn consumes its intent.
  pub commit_history-some :
      (s : SessionState J) (revision : String) (n : ℕ) (replace : Bool) {t : TurnOverlay J}
      → Inv s
      → s.active_turn ≡ some t
      → (old : String) × (digest : List ℕ) × (s.history_revision ≡ some old)
        × (s.active_payload_digest ≡ some digest)
        × ((commit_history s revision n replace).0.consumed_intents
            ≡ insert t.client_intent_id (consumption t old digest revision) s.consumed_intents)
  unfolding commit_history
  commit_history-some s revision n replace v e = elim (Option-cases s.history_revision) [
    | inl no_revision ↦ absurd (ground arith)
    | inr (old, has_revision) ↦ elim (Option-cases s.active_payload_digest) [
      | inl no_digest ↦ absurd (ground arith)
      | inr (digest, has_digest) ↦ (old, digest, has_revision, has_digest, ground arith)
    ]
  ]

  pub commit_history-none :
      (s : SessionState J) (revision : String) (n : ℕ) (replace : Bool)
      → s.active_turn ≡ none
      → (commit_history s revision n replace).0.consumed_intents ≡ s.consumed_intents
  unfolding commit_history
  commit_history-none s revision n replace e = ground arith

  commit_history-known :
      (s : SessionState J) (revision : String) (n : ℕ) (replace : Bool) (intent : String)
      → Inv s
      → is_known s intent ≡ true
      → is_known (commit_history s revision n replace).0 intent ≡ true
  commit_history-known s revision n replace intent v h = elim (Option-cases s.active_turn) [
    | inl e ↦ ground (arith, commit_history-none s revision n replace)
    | inr (t, e) ↦
        let (old, digest, _, _, eq) = commit_history-some s revision n replace v e in
        ground (
          arith,
          lookup-insert t.client_intent_id intent (consumption t old digest revision)
              s.consumed_intents,
        )
  ]

  commit-known :
      (s : SessionState J) {r : SessionState J × Reply}
      → CommitCase s r
      → (intent : String) → Inv s
      → is_known s intent ≡ true
      → is_known r.0 intent ≡ true
  commit-known s (refused e q) intent v h = rw q h
  commit-known s (taken revision n replace q) intent v h =
      rw q (commit_history-known s revision n replace intent v h)
  commit-known s (cooled revision n replace q) intent v h = rw q (
      cool-known (commit_history s revision n replace) intent
        (commit_history-known s revision n replace intent v h))

  admit_turn-known :
      (c : Codec J) (s : SessionState J) (op expected other : String) (prompt : List J.Value)
      (intent : String)
      → is_known s intent ≡ true
      → is_known (admit_turn c s op expected other prompt).0 intent ≡ true
  unfolding admit_turn
  admit_turn-known c s op expected other prompt intent h =
      ground (arith, check_turn_admission-Fresh s c expected other prompt)

  step-known :
      (c : Codec J) (s : SessionState J) (cmd : Command J) (intent : String)
      → Inv s
      → is_known s intent ≡ true
      → is_known (step c s cmd).0 intent ≡ true
  unfolding step begin_exclusive settle_exclusive append_turn_update complete_turn block_turn
      append_session_update append_reconciling_update begin_load fail_load
  step-known c s (begin kind id) intent v h = ground arith
  step-known c s (settle kind id) intent v h = ground arith
  step-known c s (admit op expected other prompt) intent v h =
      admit_turn-known c s op expected other prompt intent h
  step-known c s (update op value) intent v h = ground arith
  step-known c s (session_update value appended) intent v h = ground arith
  step-known c s (complete op terminal) intent v h = ground arith
  step-known c s (block op message) intent v h = ground arith
  step-known c s (commit_completed op appended) intent v h =
      commit-known s (commit_completed-case s op appended) intent v h
  step-known c s (commit_load attempt compared snapshot) intent v h =
      commit-known s (commit_load-case s attempt compared snapshot) intent v h
  step-known c s (commit_attachment attempt compared snapshot) intent v h =
      commit-known s (commit_attachment-case s attempt compared snapshot) intent v h
  step-known c s touch intent v h = ground arith
  step-known c s (load attempt candidate) intent v h = ground arith
  step-known c s (load_failed attempt aborted message retryable) intent v h = ground arith

  run-known :
      (c : Codec J) (s : SessionState J) (cmds : List (Command J)) (intent : String)
      → Inv s
      → is_known s intent ≡ true
      → is_known (run c s cmds) intent ≡ true
  unfolding run
  run-known c s [] intent v h = h
  run-known c s (cmd ∷ cmds) intent v h =
      run-known c (step c s cmd).0 cmds intent (step-Inv c s cmd v) (step-known c s cmd intent v h)

  known-not_accepted :
      (c : Codec J) (s : SessionState J) (op expected intent : String) (prompt : List J.Value)
      {id : String}
      → is_known s intent ≡ true
      → (admit_turn c s op expected intent prompt).1 ≢ ok (accepted id)
  unfolding admit_turn check_turn_admission check_settled
  known-not_accepted c s op expected intent prompt h e = ground arith

  accepted-known :
      (c : Codec J) (s : SessionState J) (op expected intent : String) (prompt : List J.Value)
      {id : String}
      → (admit_turn c s op expected intent prompt).1 ≡ ok (accepted id)
      → is_known (admit_turn c s op expected intent prompt).0 intent ≡ true
  unfolding admit_turn check_turn_admission check_settled
  accepted-known c s op expected intent prompt h = ground (arith, str_eq_refl intent)

  -- Once a session that satisfies the invariant has accepted an intent, no later request for it is
  -- accepted, under any operation identifier, revision or prompt, whatever commands of the machine
  -- come in between.
  pub accepted_once :
      (c : Codec J) (s : SessionState J) (op expected intent : String) (prompt : List J.Value)
      (id : String)
      → Inv s
      → (admit_turn c s op expected intent prompt).1 ≡ ok (accepted id)
      → (cmds : List (Command J)) (op' expected' : String) (prompt' : List J.Value) (id' : String)
      → (admit_turn c
          (run c (admit_turn c s op expected intent prompt).0 cmds)
          op'
          expected'
          intent
          prompt').1
        ≢ ok (accepted id')
  accepted_once c s op expected intent prompt id v h cmds op' expected' prompt' id' =
      known-not_accepted c _ op' expected' intent prompt' (
        run-known c _ cmds intent (admit_turn-Inv c s op expected intent prompt v)
          (accepted-known c s op expected intent prompt h))
