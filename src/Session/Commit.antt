-- ===== src/Session/Commit.antt =====
-- The operations of the mirror that commit history to a session (session_mirror.rs:
-- `append_session_update`, `commit_completed_turn_from_memory`, `commit_load` and
-- `commit_attachment_cache`), on the state of the session. The answers of the history cache and of
-- the comparison of a replay with what is known are arguments.
use attyd.Common.{
  ℕ, String, Bool, true, false, not, ◌&&◌, ◌||◌, none, some, Result, ok, err, is_some, is_none,
  is_some_and, str_eq, is_text, if◌then◌else◌, ◌≡◌, arith, inl, inr, refl, ap, subst, ◌∙◌,
  Bool-cases, Result-cases,
}
use attyd.Json.{Json}
use attyd.Session.Types.{
  MirrorPhase, cold, ready, MirrorError, HistoryCacheError, wrong_phase, operation_mismatch,
  inconsistent_history, history, TurnAdmission, SessionState, Codec,
}
use attyd.Session.Admission.{is_loading_phase}
use attyd.Session.Turn.{is_reconciling, advance_revision, append_reconciling_update}
use attyd.Session.History.{validate_history_commit, history_committed}

-- What an operation answers; `panicked` is a failed `expect`.
pub data Reply : Type 0 where
  done panicked : Reply
  admitted : TurnAdmission → Reply
  failed : MirrorError → Reply

abbrev pub unit_reply : Result MirrorError (Unit {0}) → Reply
unit_reply (ok _) = done
unit_reply (err e) = failed e

abbrev pub turn_reply : Result MirrorError TurnAdmission → Reply
turn_reply (ok a) = admitted a
turn_reply (err e) = failed e

abbrev pub is_ready : MirrorPhase → Bool
is_ready ready = true
is_ready _ = false

module _ {J : Json} where
  open J use {Value}

  -- The two steps by which every commit ends.
  unfoldable pub commit_history : SessionState J → String → ℕ → Bool → SessionState J × Reply
  unfolding validate_history_commit history_committed
  commit_history s revision after_update replace = elim (validate_history_commit s) [
    | err e ↦ (s, failed e)
    | ok _ ↦ elim (history_committed s revision after_update replace) [
      | none ↦ (s, panicked)
      | some committed ↦ (committed, done)
    ]
  ]

  -- The session is validated, then the cache installs the history, then the session takes it.
  unfoldable pub commit_snapshot :
      SessionState J → Result HistoryCacheError (String × ℕ) → Bool → SessionState J × Reply
  unfolding validate_history_commit
  commit_snapshot s (ok (revision, n)) replace = commit_history s revision n replace
  commit_snapshot s (err e) replace = elim (validate_history_commit s) [
    | err invalid ↦ (s, failed invalid)
    | ok _ ↦ (s, failed (history e))
  ]

  -- A history update outside a turn; `appended` is the revision that the cache gives it.
  unfoldable pub append_session_update :
      Codec J
      → SessionState J
      → Value
      → Result HistoryCacheError String
      → SessionState J × Result MirrorError (Unit {0})
  unfolding append_reconciling_update
  append_session_update c s update appended =
      if is_some s.load_attempt
      then (s, err wrong_phase)
      else if is_reconciling s.phase
      then append_reconciling_update c s update
      else if not (is_ready s.phase)
      then (s, err wrong_phase)
      else elim appended [
        | err e ↦ (s, err (history e))
        | ok revision ↦ (advance_revision (record s { history_revision = some revision }), ok tt)
      ]

  unfoldable pub commit_completed_turn_from_memory :
      SessionState J → String → Result HistoryCacheError (String × ℕ) → SessionState J × Reply
  unfolding commit_snapshot
  commit_completed_turn_from_memory s operation_id appended =
      if not (is_reconciling s.phase)
      then (s, failed wrong_phase)
      else if not (
          is_some_and s.active_turn (λ t. str_eq t.operation_id operation_id && is_some t.terminal))
      then (s, failed operation_mismatch)
      else if is_none s.history_revision
      then (s, failed inconsistent_history)
      else commit_snapshot s appended false

  -- `compared` is the verdict on the replay, which only a session that reconciles asks for.
  unfoldable pub commit_load :
      SessionState J
      → String
      → Result MirrorError (Unit {0})
      → Result HistoryCacheError (String × ℕ)
      → SessionState J × Reply
  unfolding commit_snapshot
  commit_load s attempt compared snapshot =
      if not (is_text s.load_attempt attempt)
        || not (is_loading_phase s.phase || is_reconciling s.phase)
      then (s, failed operation_mismatch)
      else elim (if is_reconciling s.phase then compared else ok tt) [
        | err e ↦ (s, failed e)
        | ok _ ↦ commit_snapshot s snapshot (is_loading_phase s.phase)
      ]

  abbrev pub cool : SessionState J × Reply → SessionState J × Reply
  cool (s, done) = (record s { phase = cold }, done)
  cool r = r

  unfoldable pub commit_attachment_cache :
      SessionState J
      → String
      → Result MirrorError (Unit {0})
      → Result HistoryCacheError (String × ℕ)
      → SessionState J × Reply
  unfolding commit_load
  commit_attachment_cache s attempt compared snapshot =
      cool (commit_load s attempt compared snapshot)

  -- A commit is refused, or is `commit_history`, after which an attachment cools the session.
  pub data CommitCase (s : SessionState J) (r : SessionState J × Reply) : Type 0 where
    refused : (e : MirrorError) → r ≡ (s, failed e) → CommitCase s r
    taken :
        (revision : String) (n : ℕ) (replace : Bool)
        → r ≡ commit_history s revision n replace
        → CommitCase s r
    cooled :
        (revision : String) (n : ℕ) (replace : Bool)
        → r ≡ cool (commit_history s revision n replace)
        → CommitCase s r

  commit_snapshot-case :
      (s : SessionState J) (a : Result HistoryCacheError (String × ℕ)) (replace : Bool)
      → CommitCase s (commit_snapshot s a replace)
  unfolding commit_snapshot validate_history_commit
  commit_snapshot-case s (ok (revision, n)) replace = taken revision n replace refl
  commit_snapshot-case s (err e) replace =
      elim (Bool-cases (is_some s.active_turn && is_none s.active_payload_digest)) [
        | inl bad ↦ refused inconsistent_history (ground arith)
        | inr good ↦ refused (history e) (ground arith)
      ]

  pub commit_completed-case :
      (s : SessionState J) (op : String) (a : Result HistoryCacheError (String × ℕ))
      → CommitCase s (commit_completed_turn_from_memory s op a)
  unfolding commit_completed_turn_from_memory
  commit_completed-case s op a = elim (Bool-cases (is_reconciling s.phase)) [
    | inr e ↦ refused wrong_phase (ground arith)
    | inl e ↦
        elim (Bool-cases
          (is_some_and s.active_turn (λ t. str_eq t.operation_id op && is_some t.terminal))) [
            | inr f ↦ refused operation_mismatch (ground arith)
            | inl f ↦ elim (Bool-cases (is_none s.history_revision)) [
              | inl g ↦ refused inconsistent_history (ground arith)
              | inr g ↦ rw (e, f, g) (commit_snapshot-case s a false)
            ]
          ]
  ]

  pub commit_load-case :
      (s : SessionState J) (attempt : String) (compared : Result MirrorError (Unit {0}))
      (a : Result HistoryCacheError (String × ℕ))
      → CommitCase s (commit_load s attempt compared a)
  unfolding commit_load
  commit_load-case s attempt compared a =
      elim (Bool-cases
        (is_text s.load_attempt attempt && (is_loading_phase s.phase || is_reconciling s.phase))) [
          | inr e ↦ refused operation_mismatch (ground arith)
          | inl e ↦ elim (Result-cases (if is_reconciling s.phase then compared else ok tt)) [
            | inl (_, f) ↦
                subst (CommitCase s) (ground arith)
                  (commit_snapshot-case s a (is_loading_phase s.phase))
            | inr (e', f) ↦ refused e' (ground arith)
          ]
        ]

  cool-cool : (r : SessionState J × Reply) → cool (cool r) ≡ cool r
  cool-cool (s, done) = refl
  cool-cool (s, panicked) = refl
  cool-cool (s, admitted a) = refl
  cool-cool (s, failed e) = refl

  cool-case :
      (s : SessionState J) (r : SessionState J × Reply) → CommitCase s r → CommitCase s (cool r)
  cool-case s r (refused e q) = refused e (rw q refl)
  cool-case s r (taken revision n replace q) = cooled revision n replace (ap cool q)
  cool-case s r (cooled revision n replace q) =
      cooled revision n replace (ap cool q ∙ cool-cool (commit_history s revision n replace))

  pub commit_attachment-case :
      (s : SessionState J) (attempt : String) (compared : Result MirrorError (Unit {0}))
      (a : Result HistoryCacheError (String × ℕ))
      → CommitCase s (commit_attachment_cache s attempt compared a)
  unfolding commit_attachment_cache
  commit_attachment-case s attempt compared a =
      cool-case s (commit_load s attempt compared a) (commit_load-case s attempt compared a)
