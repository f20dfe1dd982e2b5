-- ===== src/Registry/Retirement.antt =====
-- History workflows, the work of a session, and the release of its resources (session_registry.rs,
-- session_observers.rs).
use attyd.Common.{
  ℕ, String, Bool, false, not, ◌&&◌, ◌||◌, Option, none, some, List, [], ◌∷◌, Result, ok, err,
  str_eq, ◌==◌, is_some, is_some_and, is_none_or, if◌then◌else◌, retain, nonempty,
}
use attyd.Common.Dict.{Dict, lookup, remove}
use attyd.Json.{Json}
use attyd.Session.Types.{MirrorError, operation_mismatch, SessionLiveState}
use attyd.Registry.Shared.{Shared}
use attyd.Registry.Observers.{SessionWork, awaiting_interaction, running, stop_absence}
use attyd.Registry.Resources.{
  SessionResources, SessionResourceOwner, UrlRegistration, HistorySyncOwner, HistorySyncResources,
  owner_eq, owned_by, cancel,
}
use attyd.Registry.Types.{SessionEntry, SessionRegistry}
use attyd.Registry.Owners.{entry_of, set_resources, owner_of}

pub data HistorySyncStatus : Type 0 where
  owned superseded gone : HistorySyncStatus

abbrev pub is_flow : Option HistorySyncResources → String → Bool
is_flow sync flow_id = is_some_and sync (λ s. str_eq s.flow_id flow_id)

-- The routes that do not lead to the owner.
unfoldable pub without_owner :
    SessionResourceOwner → Dict SessionResourceOwner → Dict SessionResourceOwner
without_owner owner routes =
    retain (λ (e : String × SessionResourceOwner). not (owner_eq e.1 owner)) routes

unfoldable pub without_registration :
    SessionResourceOwner → Dict UrlRegistration → Dict UrlRegistration
without_registration owner routes =
    retain (λ (e : String × UrlRegistration). not (owned_by e.1.owner (some owner))) routes

-- `HashSet::insert`.
abbrev pub add_retired : String → List String → List String
add_retired id [] = id ∷ []
add_retired id (x ∷ xs) = let rest = add_retired id xs in if str_eq x id then x ∷ xs else x ∷ rest

abbrev pub contains : String → List String → Bool
contains id [] = false
contains id (x ∷ xs) = str_eq x id || contains id xs

module _ (J : Json) where
  open J use {Value, get, as_bool, is_null}

  abbrev pub flag_of : Value → String → Bool
  flag_of v k = elim (get v k) [
    | none ↦ false
    | some x ↦ elim (as_bool x) [ none ↦ false | some b ↦ b ]
  ]

  unfoldable pub terminal_is_running : Value → Bool
  terminal_is_running terminal =
      not (flag_of terminal "released") && is_none_or (get terminal "exitStatus") is_null

  abbrev pub any_running : Dict Value → Bool
  any_running [] = false
  any_running ((id, terminal) ∷ rest) = terminal_is_running terminal || any_running rest

module _ {J : Json} where
  abbrev pub awaits : Option (SessionLiveState J) → Bool
  awaits live =
      is_some_and live
        (λ l. nonempty l.permissions || nonempty l.elicitations || nonempty l.url_flows)

  unfoldable pub work_of : SessionEntry J → SessionWork
  work_of entry =
      if awaits entry.state.live
      then awaiting_interaction
      else if is_some entry.state.active_turn
          || is_some entry.state.operation
          || is_some entry.state.load_attempt
          || is_some_and entry.state.live (λ l. any_running J l.terminals)
          || is_some entry.resources.materialization
          || is_some entry.resources.history_sync
      then running
      else SessionWork.idle

  unfoldable pub work : SessionRegistry J → String → Option SessionWork
  unfolding work_of
  work r id = elim (lookup id r.sessions) [ none ↦ none | some entry ↦ some (work_of entry) ]

  -- `stop_absence` on the observers of an entry, with its shared cells.
  unfoldable pub stop_countdown : Shared → SessionResources J → Shared × SessionResources J
  stop_countdown m held =
      let (m', observers) = stop_absence m held.observers in
      (m', record held { observers = observers })

  unfoldable pub begin_history_sync :
      SessionRegistry J → HistorySyncOwner → SessionRegistry J × Result MirrorError (Unit {0})
  unfolding entry_of stop_countdown
  begin_history_sync r owner =
      if not (str_eq owner.session.epoch r.epoch)
      then (r, err operation_mismatch)
      else elim (entry_of r owner.session.session_id owner.session.incarnation) [
        | err e ↦ (r, err e)
        | ok entry ↦
            if is_some entry.resources.history_sync
            then (r, err operation_mismatch)
            else (let (m', held) = stop_countdown r.shared entry.resources in
                let sync : HistorySyncResources = record {
                  flow_id = owner.flow_id;
                  cancellation = owner.cancellation;
                } in
                (
                  record (set_resources r owner.session.session_id entry
                      (record held { history_sync = some sync })) { shared = m' },
                  ok tt,
                ))
      ]

  abbrev pub clear_sync : SessionRegistry J → String → SessionEntry J → SessionRegistry J
  clear_sync r id entry = set_resources r id entry (record entry.resources { history_sync = none })

  unfoldable pub supersede_history_sync : SessionRegistry J → String → ℕ → SessionRegistry J
  unfolding entry_of
  supersede_history_sync r id incarnation = elim (entry_of r id incarnation) [
    | err _ ↦ r
    | ok entry ↦ clear_sync r id entry
  ]

  unfoldable pub finish_history_sync : SessionRegistry J → HistorySyncOwner → SessionRegistry J
  unfolding entry_of
  finish_history_sync r owner =
      elim (entry_of r owner.session.session_id owner.session.incarnation) [
        | err _ ↦ r
        | ok entry ↦
            if is_flow entry.resources.history_sync owner.flow_id
            then clear_sync r owner.session.session_id entry
            else r
      ]

  unfoldable pub history_sync_status : SessionRegistry J → HistorySyncOwner → HistorySyncStatus
  history_sync_status r owner = elim (lookup owner.session.session_id r.sessions) [
    | none ↦ gone
    | some entry ↦
        if str_eq owner.session.epoch r.epoch
          && (entry.state.incarnation == owner.session.incarnation)
        then (if is_flow entry.resources.history_sync owner.flow_id then owned else superseded)
        else gone
  ]

  unfoldable pub release_entry :
      SessionRegistry J → String → SessionEntry J → ℕ → String → SessionRegistry J
  unfolding without_owner without_registration
  release_entry r id entry incarnation reason =
      let owner = owner_of r id incarnation in
      let (m', held) = cancel r.shared entry.resources reason in
      record (set_resources r id entry held) {
        permission_owners = without_owner owner r.permission_owners;
        elicitation_owners = without_owner owner r.elicitation_owners;
        url_owners = without_registration owner r.url_owners;
        shared = m';
      }

  unfoldable pub cancel_resources : SessionRegistry J → String → ℕ → String → SessionRegistry J
  unfolding entry_of release_entry
  cancel_resources r id incarnation reason = elim (entry_of r id incarnation) [
    | err _ ↦ r
    | ok entry ↦ release_entry r id entry incarnation reason
  ]

  unfoldable pub is_retired : SessionRegistry J → String → Bool
  is_retired r id = contains id r.retired_ids

  unfoldable pub retire_entry : SessionRegistry J → String → ℕ → String → SessionRegistry J
  unfolding entry_of cancel_resources
  retire_entry r id incarnation reason = elim (entry_of r id incarnation) [
    | err _ ↦ r
    | ok _ ↦
        let r' = cancel_resources r id incarnation reason in
        record r' { sessions = remove id r'.sessions; retired_ids = add_retired id r.retired_ids }
  ]
