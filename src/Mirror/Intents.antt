-- ===== src/Mirror/Intents.antt =====
-- The exclusive operations of a session in the registry, its view, and the output of its terminals
-- that is kept (session_mirror.rs).
use attyd.Common.{ℕ, String, Option, none, some, Result, ok, err, if◌then◌else◌}
use attyd.Json.{Json}
use attyd.Session.Types.{
  SessionOperationKind, SessionAdmission, MirrorError, operation_mismatch, wrong_phase,
}
use attyd.Session.Admission
use attyd.Session.Turn.{advance_revision}
use attyd.Session.View.{SessionHistoryView, history_view}
use attyd.History.Cache.{HistorySnapshot, snapshot}
use attyd.Registry.Types.{SessionRegistry}
use attyd.Runtime.InUse.{operation_in_use}
use attyd.Mirror.Store.{key_of, require_state, set_state}

pub record SessionView (J : Json) : Type 0 where
  pub session : SessionHistoryView J
  pub baseline : HistorySnapshot J

module _ {J : Json} where
  unfoldable pub can_begin :
      SessionRegistry J → String → ℕ → SessionAdmission → Result MirrorError (Unit {0})
  unfolding require_state
  can_begin r id incarnation admission = elim (require_state r id incarnation) [
    | err e ↦ err e
    | ok s ↦ Admission.can_begin s admission
  ]

  unfoldable pub begin_exclusive :
      SessionRegistry J
      → String
      → ℕ
      → SessionOperationKind
      → String
      → SessionRegistry J × Result MirrorError (Unit {0})
  unfolding require_state set_state operation_in_use
  begin_exclusive r id incarnation kind operation_id = elim (require_state r id incarnation) [
    | err e ↦ (r, err e)
    | ok s ↦
        if operation_in_use r operation_id
        then (r, err operation_mismatch)
        else (let (s', answer) = Admission.begin_exclusive s kind operation_id in
            (set_state r id s', answer))
  ]

  unfoldable pub settle_exclusive :
      SessionRegistry J
      → String
      → ℕ
      → SessionAdmission
      → String
      → SessionRegistry J × Result MirrorError (Unit {0})
  unfolding require_state set_state
  settle_exclusive r id incarnation kind operation_id = elim (require_state r id incarnation) [
    | err e ↦ (r, err e)
    | ok s ↦
        let (s', answer) = Admission.settle_exclusive s kind operation_id in
        (set_state r id s', answer)
  ]

  unfoldable pub touch : SessionRegistry J → String → ℕ → SessionRegistry J × Result MirrorError ℕ
  unfolding require_state set_state
  touch r id incarnation = elim (require_state r id incarnation) [
    | err e ↦ (r, err e)
    | ok s ↦ (set_state r id (advance_revision s), ok (advance_revision s).view_revision)
  ]

  unfoldable pub view :
      SessionRegistry J → String → ℕ → SessionRegistry J × Result MirrorError (SessionView J)
  unfolding require_state
  view r id incarnation = elim (require_state r id incarnation) [
    | err e ↦ (r, err e)
    | ok s ↦
        let (read, baseline) = snapshot r.history (key_of id incarnation) in
        (
          record r { history = read },
          elim baseline [
            | none ↦ err wrong_phase
            | some shown ↦ ok (record { session = history_view s; baseline = shown })
          ],
        )
  ]

  unfoldable pub load_attempt : SessionRegistry J → String → ℕ → Option String
  unfolding require_state
  load_attempt r id incarnation = elim (require_state r id incarnation) [
    | err _ ↦ none
    | ok s ↦ s.load_attempt
  ]

  unfoldable pub active_operation_id : SessionRegistry J → String → ℕ → Option String
  unfolding require_state
  active_operation_id r id incarnation = elim (require_state r id incarnation) [
    | err _ ↦ none
    | ok s ↦ elim s.active_turn [ none ↦ none | some turn ↦ some turn.operation_id ]
  ]
