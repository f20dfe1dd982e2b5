-- ===== src/Mirror/Sessions.antt =====
-- The registration and the removal of a session's history (session_mirror.rs).
use attyd.Common.{
  ℕ, String, Bool, true, false, ◌&&◌, Option, none, some, ok, err, ◌==◌, is_none, is_some_and,
  if◌then◌else◌, max, next_counter,
}
use attyd.Common.Dict.{lookup, insert}
use attyd.Json.{Json}
use attyd.Session.Types.{SessionState}
use attyd.Session.Admission.{new_cold, new_ready}
use attyd.History.Cache.{install_empty, remove as remove_history}
use attyd.Registry.Types.{SessionEntry, SessionRegistry, new_entry}
use attyd.Registry.Retirement.{retire_entry}
use attyd.Mirror.Store.{
  Packages, key_of, require_state, set_state, discharge, remove_retained_terminals,
}

module _ {J : Json} where
  -- The state that is left of a session whose history is cleared.
  unfoldable pub cleared : SessionState J → String → ℕ → SessionState J
  cleared s id incarnation = record (new_cold id incarnation) {
    live = s.live;
    operation = s.operation;
    view_revision = next_counter s.view_revision;
  }

  unfoldable pub clear_history_for_replacement :
      Packages J → SessionRegistry J → String → ℕ → SessionRegistry J
  unfolding require_state set_state cleared remove_retained_terminals
  clear_history_for_replacement k r id incarnation = elim (require_state r id incarnation) [
    | err _ ↦ r
    | ok s ↦
        let r' =
          remove_retained_terminals k
            (discharge (set_state r id (cleared s id incarnation)) s.active_overlay_bytes)
            (key_of id incarnation) in
        record r' { history = remove_history r'.history (key_of id incarnation) }
  ]

  -- The end of a previous registration under the same identifier.
  unfoldable pub replace_previous : Packages J → SessionRegistry J → String → ℕ → SessionRegistry J
  unfolding clear_history_for_replacement
  replace_previous k r id incarnation = elim (lookup id r.sessions) [
    | none ↦ r
    | some entry ↦
        let previous = entry.state.incarnation in
        let r' = clear_history_for_replacement k r id previous in
        if previous == incarnation
        then r'
        else retire_entry r' id previous "session incarnation was replaced"
  ]

  -- The new state takes the live half and the operation of an entry that is still there.
  unfoldable pub install_state : SessionRegistry J → String → SessionState J → SessionRegistry J
  install_state r id state = elim (lookup id r.sessions) [
    | none ↦ record r { sessions = insert id (new_entry state) r.sessions }
    | some entry ↦
        let state' = record state {
          live = entry.state.live;
          operation = entry.state.operation;
          view_revision = entry.state.view_revision;
        } in
        record r { sessions = insert id (record entry { state = state' }) r.sessions }
  ]

  unfoldable pub register_history :
      Packages J → SessionRegistry J → String → ℕ → Bool → SessionRegistry J
  unfolding replace_previous install_state
  register_history k r id incarnation ready =
      let r' =
        replace_previous k (record r { next_incarnation = max r.next_incarnation incarnation }) id
          incarnation in
      let (history, snapshot) = install_empty k.encoder r'.history (key_of id incarnation) in
      install_state (record r' { history = history }) id
        (if ready then new_ready id incarnation snapshot.revision else new_cold id incarnation)

  unfoldable pub register_cold : Packages J → SessionRegistry J → String → ℕ → SessionRegistry J
  unfolding register_history
  register_cold k r id incarnation = register_history k r id incarnation false

  unfoldable pub register_new : Packages J → SessionRegistry J → String → ℕ → SessionRegistry J
  unfolding register_history
  register_new k r id incarnation = register_history k r id incarnation true

  -- Nothing but its history keeps this entry.
  unfoldable pub is_removable : Option (SessionEntry J) → ℕ → Bool
  is_removable found incarnation = is_some_and found (λ entry.
      (entry.state.incarnation == incarnation)
      && is_none entry.state.live
      && is_none entry.state.operation
      && is_none entry.resources.materialization)

  unfoldable pub remove : Packages J → SessionRegistry J → String → ℕ → SessionRegistry J
  unfolding clear_history_for_replacement is_removable
  remove k r id incarnation =
      let r' = clear_history_for_replacement k r id incarnation in
      if is_removable (lookup id r'.sessions) incarnation
      then retire_entry r' id incarnation "session was removed"
      else r'
