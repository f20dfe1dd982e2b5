-- ===== src/Mirror/Quiets.antt =====
-- The operations of the mirror on loads and on intents take no memory for an overlay.
use attyd.Common.{
  ℕ, String, Bool, List, ◌≡◌, ◌≢◌, ◌⊎◌, refl, inl, inr, Result, ok, err, Result-cases, Option-cases,
  arith, Outcome, returned, panicked,
}
use attyd.Common.Dict.{lookup}
use attyd.Json.{Json}
use attyd.Session.Types.{MirrorPhase, MirrorError, cold}
use attyd.Session.Load
use attyd.Session.Commit
use attyd.Session.Commit.{Reply, done, panicked as failed_expect, admitted, failed}
use attyd.Mirror.Turns.{commit_completed_turn_from_memory, suffix_of}
use attyd.History.Keys.{SessionKey}
use attyd.History.Cache.{
  begin_candidate, abort_candidate, commit_candidate, append_committed_updates, HistorySnapshot,
}
use attyd.Registry.Types.{SessionRegistry}
use attyd.Mirror.Store.{Packages, key_of, require_state, prune_retained_terminals}
use attyd.Mirror.Loads.{
  stop_observers, begin_load, append_load_update, invalidate_load, commit_load, settle_load,
  set_phase, commit_attachment_cache, fail_load, compared, stamp,
}
use attyd.Mirror.Moves.{Quiet, still, chain}
use attyd.Mirror.Accounts.{
  set_state-Quiet, set_state-entry, set_state-freed, stop_observers-Quiet, stop_observers-require,
  begin_load-bytes, fail_load-bytes, commit_load-bytes, commit_completed-bytes,
}

Reply-cases : (p : Reply) → (p ≡ done) ⊎ (p ≢ done)
Reply-cases done = inl refl
Reply-cases failed_expect = inr (λ h. cc)
Reply-cases (admitted a) = inr (λ h. cc)
Reply-cases (failed e) = inr (λ h. cc)

module _ {J : Json} where
  open J use {Value}

  pub begin_load-Quiet :
      (r : SessionRegistry J) (id : String) (n : ℕ) (attempt : String)
      → Quiet r (begin_load r id n attempt).0
  unfolding begin_load
  begin_load-Quiet r id n attempt = elim (Result-cases (require_state r id n)) [
    | inr (x, e) ↦ rw (e, begin_load) (still refl refl)
    | inl (s, e) ↦
        let begun = begin_candidate r.history (key_of id n) attempt in
        let step = Load.begin_load s attempt begun.1 in
        elim (Result-cases step.1) [
          | inr (x, f) ↦ rw (e, begin_load, f) (still refl refl)
          | inl (x, f) ↦
              let t = record r { history = begun.0 } in
              rw (e, begin_load, f)
                (chain (still refl refl) (
                  chain (stop_observers-Quiet t id) (
                    set_state-Quiet (stop_observers t id) id n s step.0
                      (stop_observers-require t id n e) (begin_load-bytes s attempt begun.1))))
        ]
  ]

  pub append_load_update-Quiet :
      (k : Packages J) (r : SessionRegistry J) (id : String) (n : ℕ) (attempt : String)
      (update : Value)
      → Quiet r (append_load_update k r id n attempt update).0
  unfolding append_load_update
  append_load_update-Quiet k r id n attempt update = still (ground arith) (ground arith)

  pub invalidate_load-Quiet :
      (r : SessionRegistry J) (id : String) (n : ℕ) (attempt : String)
      → Quiet r (invalidate_load r id n attempt).0
  unfolding invalidate_load
  invalidate_load-Quiet r id n attempt = still (ground arith) (ground arith)

  pub fail_load-Quiet :
      (r : SessionRegistry J) (id : String) (n : ℕ) (attempt message : String) (retryable : Bool)
      → Quiet r (fail_load r id n attempt message retryable).0
  unfolding fail_load
  fail_load-Quiet r id n attempt message retryable = elim (Result-cases (require_state r id n)) [
    | inr (x, e) ↦ rw (e, fail_load) (still refl refl)
    | inl (s, e) ↦
        let aborted = abort_candidate r.history (key_of id n) attempt in
        let step = Load.fail_load s attempt aborted.1 message retryable in
        elim (Result-cases step.1) [
          | inr (x, f) ↦ rw (e, fail_load, f) (still refl refl)
          | inl (x, f) ↦
              let t = record r { history = aborted.0 } in
              rw (e, fail_load, f)
                (chain (still refl refl) (
                  set_state-Quiet t id n s step.0 e
                    (fail_load-bytes s attempt aborted.1 message retryable)))
        ]
  ]

  prune-Quiet :
      (k : Packages J) (r : SessionRegistry J) (key : SessionKey) (updates : List Value)
      → Quiet r (prune_retained_terminals k r key updates)
  unfolding prune_retained_terminals
  prune-Quiet k r key updates = still (ground arith) (ground arith)

  -- A commit of the session, by its reply.
  pub commit_load-Quiet :
      (k : Packages J) (r : SessionRegistry J) (id : String) (n : ℕ) (attempt : String)
      → Quiet r (commit_load k r id n attempt).0
  unfolding commit_load settle_load
  commit_load-Quiet k r id n attempt = elim (Result-cases (require_state r id n)) [
    | inr (x, e) ↦ rw (e, commit_load) (still refl refl)
    | inl (s, e) ↦
        let got = commit_candidate k.encoder r.history (key_of id n) attempt in
        let step = Commit.commit_load s attempt (compared r id n attempt s) (stamp got.1) in
        elim (Reply-cases step.1) [
          | inr other ↦ rw (e, commit_load) (still (ground arith) (ground arith))
          | inl f ↦ elim (Result-cases got.1) [
            | inr (x, g) ↦ rw (e, commit_load, f, g) (still refl refl)
            | inl (made, g) ↦
                let t = record r { history = got.0 } in
                rw (e, commit_load, f, g)
                  (chain (still refl refl) (
                    chain
                      (set_state-freed t id n s step.0 e
                        (commit_load-bytes s attempt (compared r id n attempt s) (stamp got.1) f))
                      (prune-Quiet k _ (key_of id n) made.updates)))
          ]
        ]
  ]

  pub set_phase-Quiet :
      (r : SessionRegistry J) (id : String) (phase : MirrorPhase) → Quiet r (set_phase r id phase)
  unfolding set_phase
  set_phase-Quiet r id phase = elim (Option-cases (lookup id r.sessions)) [
    | inl absent ↦ rw (absent, set_phase) (still refl refl)
    | inr (e, there) ↦
        rw (there, set_phase) (set_state-entry r id e (record e.state { phase = phase }) there refl)
  ]

  pub commit_attachment-Quiet :
      (k : Packages J) (r : SessionRegistry J) (id : String) (n : ℕ) (attempt : String)
      → Quiet r (commit_attachment_cache k r id n attempt).0
  unfolding commit_attachment_cache
  commit_attachment-Quiet k r id n attempt =
      let c = commit_load k r id n attempt in
      elim c.1
        as (λ (o : Outcome (Result MirrorError (HistorySnapshot J))).
          Quiet r
            (elim o as (λ _. SessionRegistry J × Outcome (Result MirrorError (HistorySnapshot J))) [
              | returned (ok made) ↦ (set_phase c.0 id cold, returned (ok made))
              | other ↦ (c.0, other)
            ]).0) [
              | returned (ok made) ↦
                  chain (commit_load-Quiet k r id n attempt) (set_phase-Quiet c.0 id cold)
              | returned (err x) ↦ commit_load-Quiet k r id n attempt
              | panicked ↦ commit_load-Quiet k r id n attempt
            ]

  pub commit_completed-Quiet :
      (k : Packages J) (r : SessionRegistry J) (id : String) (n : ℕ) (operation_id : String)
      → Quiet r (commit_completed_turn_from_memory k r id n operation_id).0
  unfolding commit_completed_turn_from_memory
  commit_completed-Quiet k r id n operation_id = elim (Result-cases (require_state r id n)) [
    | inr (x, e) ↦ rw (e, commit_completed_turn_from_memory) (still refl refl)
    | inl (s, e) ↦
        let got =
          append_committed_updates k.encoder r.history (key_of id n) (suffix_of s.active_turn) in
        let step = Commit.commit_completed_turn_from_memory s operation_id (stamp got.1) in
        elim (Reply-cases step.1) [
          | inr other ↦
              rw (e, commit_completed_turn_from_memory) (still (ground arith) (ground arith))
          | inl f ↦ elim (Result-cases got.1) [
            | inr (x, g) ↦ rw (e, commit_completed_turn_from_memory, f, g) (still refl refl)
            | inl (made, g) ↦
                let t = record r { history = got.0 } in
                rw (e, commit_completed_turn_from_memory, f, g)
                  (chain (still refl refl) (
                    set_state-freed t id n s step.0 e
                      (commit_completed-bytes s operation_id (stamp got.1) f)))
          ]
        ]
  ]
