-- ===== src/Registry/Owners.antt =====
-- The operations of the registry on the resources of a session (session_registry.rs).
use attyd.Common.{
  ℕ, String, Bool, true, false, ◌&&◌, Option, none, some, Result, ok, err, ◌>>=◌, ok_or, str_eq,
  ◌==◌, is_some, is_some_and, if◌then◌else◌,
}
use attyd.Common.Dict.{lookup, insert, remove}
use attyd.Json.{Json}
use attyd.Session.Types.{
  SessionLifecycle, attaching, active, closing, closing_for_delete, MirrorError, unknown_session,
  stale_incarnation, operation_mismatch, SessionState, SessionLiveState, UrlFlow,
}
use attyd.Registry.Resources.{
  SessionResources, SessionResourceOwner, UrlRegistration, owner_eq, registration_eq,
}
use attyd.Registry.Types.{SessionEntry, SessionRegistry}

pub data HistorySyncStatus : Type 0 where
  owned superseded gone : HistorySyncStatus

abbrev pub same_owner : Option SessionResourceOwner → SessionResourceOwner → Bool
same_owner o expected = is_some_and o (λ found. owner_eq found expected)

abbrev pub holds_resources : SessionLifecycle → Bool
holds_resources attaching = true
holds_resources active = true
holds_resources closing = true
holds_resources closing_for_delete = true
holds_resources _ = false

abbrev pub lifecycle_active : SessionLifecycle → Bool
lifecycle_active active = true
lifecycle_active _ = false

module _ {J : Json} where
  abbrev pub live_of : SessionEntry J → Option (SessionLiveState J)
  live_of entry = entry.state.live

  unfoldable pub session_ref :
      SessionRegistry J → String → Option (SessionState J × SessionLiveState J)
  session_ref r id = elim (lookup id r.sessions) [
    | none ↦ none
    | some entry ↦ elim entry.state.live [ none ↦ none | some live ↦ some (entry.state, live) ]
  ]

  abbrev pub filter_live :
      (SessionLifecycle → Bool)
      → Option (SessionState J × SessionLiveState J)
      → Option (SessionState J × SessionLiveState J)
  filter_live p none = none
  filter_live p (some (state, live)) = if p live.lifecycle then some (state, live) else none

  unfoldable pub active_session :
      SessionRegistry J → String → Option (SessionState J × SessionLiveState J)
  unfolding session_ref
  active_session r id = filter_live lifecycle_active (session_ref r id)

  unfoldable pub resource_session :
      SessionRegistry J → String → Option (SessionState J × SessionLiveState J)
  unfolding session_ref
  resource_session r id = filter_live holds_resources (session_ref r id)

  -- The entry of this incarnation: the lookup that `resources` and `resources_mut` share.
  unfoldable pub entry_of : SessionRegistry J → String → ℕ → Result MirrorError (SessionEntry J)
  entry_of r id incarnation = elim (lookup id r.sessions) [
    | none ↦ err unknown_session
    | some entry ↦
        if entry.state.incarnation == incarnation then ok entry else err stale_incarnation
  ]

  unfoldable pub resources :
      SessionRegistry J → String → ℕ → Result MirrorError (SessionResources J)
  unfolding entry_of
  resources r id incarnation = do entry ← entry_of r id incarnation; ok entry.resources

  -- The registry after a write through `resources_mut`.
  abbrev pub set_resources :
      SessionRegistry J → String → SessionEntry J → SessionResources J → SessionRegistry J
  set_resources r id entry new = record r {
    sessions = insert id (record entry { resources = new }) r.sessions;
  }

  abbrev pub owner_of : SessionRegistry J → String → ℕ → SessionResourceOwner
  owner_of r id incarnation = record { epoch = r.epoch; session_id = id; incarnation = incarnation }

  unfoldable pub resource_owner :
      SessionRegistry J → String → ℕ → Result MirrorError SessionResourceOwner
  unfolding resources
  resource_owner r id incarnation = do
    _ ← resources r id incarnation
    ok (owner_of r id incarnation)

  unfoldable pub owns_resources : SessionRegistry J → SessionResourceOwner → Bool
  owns_resources r owner =
      str_eq owner.epoch r.epoch
      && is_some_and (lookup owner.session_id r.sessions)
          (λ entry. entry.state.incarnation == owner.incarnation)

  abbrev pub flow_of : SessionRegistry J → SessionResourceOwner → String → Option (UrlFlow J)
  flow_of r owner elicitation_id = elim (lookup owner.session_id r.sessions) [
    | none ↦ none
    | some entry ↦ elim entry.state.live [
      | none ↦ none
      | some live ↦ lookup elicitation_id live.url_flows
    ]
  ]

  unfoldable pub find_flow :
      SessionRegistry J → String → Option SessionResourceOwner → Result MirrorError (UrlFlow J)
  unfolding owns_resources
  find_flow r elicitation_id none =
      ok_or (lookup elicitation_id r.request_url_flows) operation_mismatch
  find_flow r elicitation_id (some owner) =
      if owns_resources r owner
      then ok_or (flow_of r owner elicitation_id) operation_mismatch
      else err stale_incarnation

  unfoldable pub register_url_route :
      SessionRegistry J
      → String
      → Option SessionResourceOwner
      → SessionRegistry J × Result MirrorError (Unit {0})
  unfolding find_flow
  register_url_route r elicitation_id owner =
      if is_some (lookup elicitation_id r.url_owners)
      then (r, err operation_mismatch)
      else elim (find_flow r elicitation_id owner) [
        | err e ↦ (r, err e)
        | ok flow ↦ (
          record r {
            url_owners =
                insert elicitation_id
                  (record { owner = owner; registration_id = flow.registration_id }) r.url_owners;
          },
          ok tt,
        )
      ]

  unfoldable pub take_url_route :
      SessionRegistry J → String → UrlRegistration → SessionRegistry J × Option UrlRegistration
  take_url_route r elicitation_id expected = elim (lookup elicitation_id r.url_owners) [
    | none ↦ (r, none)
    | some found ↦
        if registration_eq found expected
        then (record r { url_owners = remove elicitation_id r.url_owners }, some found)
        else (r, none)
  ]
