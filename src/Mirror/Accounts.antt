-- ===== src/Mirror/Accounts.antt =====
-- What each operation of the mirror does to the count of overlay bytes.
use attyd.Common.{
  ℕ, ◌-◌, String, Bool, some, ◌≡◌, refl, sym, ◌∙◌, ap, inl, inr, Result, ok, Option-cases, arith,
  saturating_add, str_eq_refl,
}
use attyd.Common.Dict.{lookup, lookup-insert}
use attyd.Json.{Json}
use attyd.Session.Types.{MirrorError, HistoryCacheError, SessionState}
use attyd.Session.Load
use attyd.Session.Commit
use attyd.Session.History.{history_committed}
use attyd.Session.Commit.{done, commit_snapshot, commit_history}
use attyd.Registry.Types.{SessionEntry, SessionRegistry}
use attyd.Mirror.Store.{require_state, set_state, charge, discharge}
use attyd.Mirror.Loads.{stop_observers}
use attyd.Registry.Retirement.{stop_countdown}
use attyd.Mirror.Moves.{Quiet, still, writes, frees, Move, charges}

module _ {J : Json} where
  open J use {Value}

  pub found :
      (r : SessionRegistry J) (id : String) (n : ℕ) {s : SessionState J}
      → require_state r id n ≡ ok s
      → (e : SessionEntry J) × (lookup id r.sessions ≡ some e) × (e.state ≡ s)
  unfolding require_state
  found r id n h = elim (Option-cases (lookup id r.sessions)) [
    | inl none_there ↦ ground arith
    | inr (e, there) ↦ (e, there, ground arith)
  ]

  pub set_state-entry :
      (r : SessionRegistry J) (id : String) (e : SessionEntry J) (s' : SessionState J)
      → lookup id r.sessions ≡ some e
      → s'.active_overlay_bytes ≡ e.state.active_overlay_bytes
      → Quiet r (set_state r id s')
  unfolding set_state
  set_state-entry r id e s' there same =
      rw (there, set_state) (writes id e (record e { state = s' }) there refl same refl)

  pub set_state-Quiet :
      (r : SessionRegistry J) (id : String) (n : ℕ) (s s' : SessionState J)
      → require_state r id n ≡ ok s
      → s'.active_overlay_bytes ≡ s.active_overlay_bytes
      → Quiet r (set_state r id s')
  set_state-Quiet r id n s s' h same =
      let (e, there, state) = found r id n h in
      set_state-entry r id e s' there
        (same ∙ sym (ap (λ (x : SessionState J). x.active_overlay_bytes) state))

  pub set_state-freed :
      (r : SessionRegistry J) (id : String) (n : ℕ) (s s' : SessionState J)
      → require_state r id n ≡ ok s
      → s'.active_overlay_bytes ≡ 0
      → Quiet r (discharge (set_state r id s') s.active_overlay_bytes)
  unfolding set_state
  set_state-freed r id n s s' h zero_left =
      let (e, there, state) = found r id n h in
      rw (there, set_state)
        (frees id e (record e { state = s' }) there refl zero_left
          (ap (λ (x : SessionState J). r.overlay_bytes - x.active_overlay_bytes) (sym state)))

  pub set_state-charged :
      (r : SessionRegistry J) (id : String) (n : ℕ) (s s' : SessionState J)
      → require_state r id n ≡ ok s
      → Move r (charge (set_state r id s') s.active_overlay_bytes s'.active_overlay_bytes)
  unfolding set_state
  set_state-charged r id n s s' h =
      let (e, there, state) = found r id n h in
      rw (there, set_state)
        (charges id e (record e { state = s' }) there refl
          (ap
            (λ (x : SessionState J).
              saturating_add (r.overlay_bytes - x.active_overlay_bytes) s'.active_overlay_bytes)
            (sym state)))

  pub stop_observers-Quiet : (r : SessionRegistry J) (id : String) → Quiet r (stop_observers r id)
  unfolding stop_observers
  stop_observers-Quiet r id = elim (Option-cases (lookup id r.sessions)) [
    | inl none_there ↦ rw (none_there, stop_observers) (still refl refl)
    | inr (e, there) ↦ rw (there, stop_observers) (writes id e _ there refl refl refl)
  ]

  pub stop_observers-require :
      (r : SessionRegistry J) (id : String) (n : ℕ) {s : SessionState J}
      → require_state r id n ≡ ok s
      → require_state (stop_observers r id) id n ≡ ok s
  unfolding require_state stop_observers
  stop_observers-require r id n h = elim (Option-cases (lookup id r.sessions)) [
    | inl none_there ↦ rw (none_there, stop_observers) h
    | inr (e, there) ↦
        rw (there, stop_observers)
          (ground (
            arith,
            there,
            lookup-insert id id (record e { resources = (stop_countdown r.shared e.resources).1 })
                r.sessions,
            str_eq_refl id,
          ))
  ]

  -- The states that the session's operations leave.
  pub begin_load-bytes :
      (s : SessionState J) (attempt : String) (answer : Result HistoryCacheError (Unit {0}))
      → (Load.begin_load s attempt answer).0.active_overlay_bytes ≡ s.active_overlay_bytes
  unfolding Load.begin_load
  begin_load-bytes s attempt answer = ground arith

  pub fail_load-bytes :
      (s : SessionState J) (attempt : String) (answer : Result HistoryCacheError (Unit {0}))
      (message : String) (retryable : Bool)
      → (Load.fail_load s attempt answer message retryable).0.active_overlay_bytes
        ≡ s.active_overlay_bytes
  unfolding Load.fail_load
  fail_load-bytes s attempt answer message retryable = ground arith

  pub commit_load-bytes :
      (s : SessionState J) (attempt : String) (c : Result MirrorError (Unit {0}))
      (snapshot : Result HistoryCacheError (String × ℕ))
      → (Commit.commit_load s attempt c snapshot).1 ≡ done
      → (Commit.commit_load s attempt c snapshot).0.active_overlay_bytes ≡ 0
  unfolding Commit.commit_load commit_snapshot commit_history history_committed
  commit_load-bytes s attempt c snapshot h = ground arith

  pub commit_completed-bytes :
      (s : SessionState J) (operation_id : String)
      (snapshot : Result HistoryCacheError (String × ℕ))
      → (Commit.commit_completed_turn_from_memory s operation_id snapshot).1 ≡ done
      → (Commit.commit_completed_turn_from_memory s operation_id snapshot).0.active_overlay_bytes
        ≡ 0
  unfolding Commit.commit_completed_turn_from_memory commit_snapshot commit_history
      history_committed
  commit_completed-bytes s operation_id snapshot h = ground arith
