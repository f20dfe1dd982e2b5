-- ===== src/Mirror/Overlays.antt =====
-- The count of the bytes of overlays over any calls of the mirror.
use attyd.Common.{
  ℕ, ◌≤◌, String, some, List, [], ◌∷◌, ◌≡◌, refl, inl, inr, Result, ok, err, Result-cases,
  Bool-cases, Option-cases, ◌||◌, is_some, usize_max, Outcome-cases,
}
use attyd.Common.Dict.{lookup}
use attyd.Json.{Json}
use attyd.Session.Types.{cold, MirrorError}
use attyd.Registry.Shared.{Shared}
use attyd.Registry.Types.{SessionRegistry, new_registry}
use attyd.Mirror.Store.{Packages, require_state}
use attyd.Mirror.Loads.{begin_load, append_load_update, commit_load, set_phase}
use attyd.Mirror.Fallback.{
  unless_failed, append_load_updates, set_notice, finish_fallback, replay_fallback,
  use_cached_history, fallback_attempt,
}
use attyd.Mirror.Moves.{Quiet, still, chain, Move, quiet, overlay_total, Accounted, Move-Accounted}
use attyd.Mirror.Accounts.{set_state-entry}
use attyd.Mirror.Quiets.{
  begin_load-Quiet, append_load_update-Quiet, invalidate_load-Quiet, fail_load-Quiet,
  commit_load-Quiet, commit_attachment-Quiet, commit_completed-Quiet, set_phase-Quiet,
}
use attyd.Mirror.Charges.{
  start_turn-Move, append_turn_update-Move, complete_turn-Move, append_session_update-Move,
  block_turn-Move, begin_exclusive-Move, settle_exclusive-Move, touch-Move, view-Move, retain-Move,
}
use attyd.Mirror.Registrations.{clear-Quiet, register-Quiet, remove-Quiet}
use attyd.Mirror.Machine.{
  Action, Call, registers, clears, removes, touches, views, begins_load, invalidates_load,
  commits_load, commits_attachment, appends_load, falls_back, fails_load, starts_turn, updates_turn,
  updates_session, completes_turn, commits_turn, blocks_turn, begins, settles, retains, act, step,
  run,
}

module _ {J : Json} where
  open J use {Value}

  unless_failed-Quiet :
      (r : SessionRegistry J) (got rest : SessionRegistry J × Result MirrorError (Unit {0}))
      → Quiet r got.0
      → Quiet got.0 rest.0
      → Quiet r (unless_failed got rest).0
  unfolding unless_failed
  unless_failed-Quiet r (t, err x) rest p q = p
  unless_failed-Quiet r (t, ok x) rest p q = chain p q

  appends-Quiet :
      (k : Packages J) (r : SessionRegistry J) (id : String) (n : ℕ) (attempt : String)
      (updates : List Value)
      → Quiet r (append_load_updates k r id n attempt updates).0
  unfolding append_load_updates
  appends-Quiet k r id n attempt [] = still refl refl
  appends-Quiet k r id n attempt (update ∷ updates) =
      let got = append_load_update k r id n attempt update in
      unless_failed-Quiet r got (append_load_updates k got.0 id n attempt updates)
        (append_load_update-Quiet k r id n attempt update)
        (appends-Quiet k got.0 id n attempt updates)

  set_notice-Quiet : (r : SessionRegistry J) (id notice : String) → Quiet r (set_notice r id notice)
  unfolding set_notice
  set_notice-Quiet r id notice = elim (Option-cases (lookup id r.sessions)) [
    | inl absent ↦ rw (absent, set_notice) (still refl refl)
    | inr (e, there) ↦
        rw (there, set_notice)
          (set_state-entry r id e (record e.state { history_notice = some notice }) there refl)
  ]

  finish-Quiet :
      (k : Packages J) (r : SessionRegistry J) (id : String) (n : ℕ) (notice : String)
      → Quiet r (finish_fallback k r id n notice).0
  unfolding finish_fallback
  finish-Quiet k r id n notice =
      let c = commit_load k r id n fallback_attempt in
      elim (Outcome-cases c.1) [
        | inl (x, e) ↦ elim (Result-cases x) [
          | inl (made, f) ↦
              rw (e, finish_fallback, f)
                (chain (commit_load-Quiet k r id n fallback_attempt)
                  (set_notice-Quiet c.0 id notice))
          | inr (why, f) ↦ rw (e, finish_fallback, f) (commit_load-Quiet k r id n fallback_attempt)
        ]
        | inr e ↦ rw (e, finish_fallback) (commit_load-Quiet k r id n fallback_attempt)
      ]

  replay-Quiet :
      (k : Packages J) (r : SessionRegistry J) (id : String) (n : ℕ) (updates : List Value)
      (notice : String)
      → Quiet r (replay_fallback k r id n updates notice).0
  unfolding replay_fallback
  replay-Quiet k r id n updates notice =
      let b = begin_load r id n fallback_attempt in
      let a = append_load_updates k b.0 id n fallback_attempt updates in
      elim (Result-cases b.1) [
        | inr (x, e) ↦ rw (e, replay_fallback) (begin_load-Quiet r id n fallback_attempt)
        | inl (x, e) ↦ elim (Result-cases a.1) [
          | inr (y, f) ↦
              rw (e, replay_fallback, f)
                (chain (begin_load-Quiet r id n fallback_attempt)
                  (appends-Quiet k b.0 id n fallback_attempt updates))
          | inl (y, f) ↦
              rw (e, replay_fallback, f)
                (chain (begin_load-Quiet r id n fallback_attempt) (
                  chain (appends-Quiet k b.0 id n fallback_attempt updates)
                    (finish-Quiet k a.0 id n notice)))
        ]
      ]

  fallback-Quiet :
      (k : Packages J) (r : SessionRegistry J) (id : String) (n : ℕ) (updates : List Value)
      (notice : String)
      → Quiet r (use_cached_history k r id n updates notice).0
  unfolding use_cached_history
  fallback-Quiet k r id n updates notice = elim (Result-cases (require_state r id n)) [
    | inr (x, e) ↦ rw (e, use_cached_history) (still refl refl)
    | inl (s, e) ↦ elim (Bool-cases (is_some s.active_turn || is_some s.load_attempt)) [
      | inl busy ↦ rw (e, use_cached_history, busy) (still refl refl)
      | inr free ↦
          rw (e, use_cached_history, free)
            (chain (set_phase-Quiet r id cold)
              (replay-Quiet k (set_phase r id cold) id n updates notice))
    ]
  ]

  act-Move :
      (k : Packages J) (r : SessionRegistry J) (id : String) (n : ℕ) (a : Action J)
      → Move r (act k r id n a)
  unfolding act
  act-Move k r id n (registers ready) = quiet (register-Quiet k r id n ready)
  act-Move k r id n clears = quiet (clear-Quiet k r id n)
  act-Move k r id n removes = quiet (remove-Quiet k r id n)
  act-Move k r id n touches = touch-Move r id n
  act-Move k r id n views = view-Move r id n
  act-Move k r id n (begins_load attempt) = quiet (begin_load-Quiet r id n attempt)
  act-Move k r id n (invalidates_load attempt) = quiet (invalidate_load-Quiet r id n attempt)
  act-Move k r id n (commits_load attempt) = quiet (commit_load-Quiet k r id n attempt)
  act-Move k r id n (commits_attachment attempt) = quiet (commit_attachment-Quiet k r id n attempt)
  act-Move k r id n (appends_load attempt update) =
      quiet (append_load_update-Quiet k r id n attempt update)
  act-Move k r id n (falls_back updates notice) = quiet (fallback-Quiet k r id n updates notice)
  act-Move k r id n (fails_load attempt message retryable) =
      quiet (fail_load-Quiet r id n attempt message retryable)
  act-Move k r id n (starts_turn expected intent prompt) =
      start_turn-Move k r id n expected intent prompt
  act-Move k r id n (updates_turn op update) = append_turn_update-Move k r id n op update
  act-Move k r id n (updates_session update) = append_session_update-Move k r id n update
  act-Move k r id n (completes_turn op terminal) = complete_turn-Move k r id n op terminal
  act-Move k r id n (commits_turn op) = quiet (commit_completed-Quiet k r id n op)
  act-Move k r id n (blocks_turn op message) = block_turn-Move r id n op message
  act-Move k r id n (begins kind op) = begin_exclusive-Move r id n kind op
  act-Move k r id n (settles kind op) = settle_exclusive-Move r id n kind op
  act-Move k r id n (retains terminal_id terminal) = retain-Move k r id n terminal_id terminal

  -- The overlays fit in a `usize` after each call.
  abbrev pub Fits : Packages J → SessionRegistry J → List (Call J) → Type 0
  Fits k r [] = Unit
  Fits k r (call ∷ calls) =
      (overlay_total (step k r call).sessions ≤ usize_max) × Fits k (step k r call) calls

  pub run-Accounted :
      (k : Packages J) (r : SessionRegistry J) (calls : List (Call J))
      → Fits k r calls
      → Accounted r
      → Accounted (run k r calls)
  unfolding run step
  run-Accounted k r [] f a = a
  run-Accounted k r (call ∷ calls) f a =
      run-Accounted k (step k r call) calls f.1
        (Move-Accounted (act-Move k r call.session_id call.incarnation call.action) f.0 a)

  new-Accounted : (epoch : String) (m : Shared) → Accounted (new_registry {J = J} epoch m)
  unfolding new_registry overlay_total
  new-Accounted epoch m = record { distinct = tt; exact = refl }

  -- After any calls of the mirror on a new registry, its count of overlay bytes is the sum of the
  -- overlay bytes of its sessions, if that sum fits in a usize after each call.
  pub overlay_bytes_exact :
      (k : Packages J) (epoch : String) (m : Shared) (calls : List (Call J))
      → Fits k (new_registry epoch m) calls
      → (run k (new_registry epoch m) calls).overlay_bytes
        ≡ overlay_total (run k (new_registry epoch m) calls).sessions
  overlay_bytes_exact k epoch m calls f =
      (run-Accounted k (new_registry epoch m) calls f (new-Accounted epoch m)).exact
