-- ===== src/Mirror/Fallback.antt =====
-- A load from updates that the bridge has kept (session_mirror.rs: `use_cached_history`).
use attyd.Common.{
  ℕ, String, ◌||◌, none, some, List, [], ◌∷◌, Result, ok, err, is_some, if◌then◌else◌, Outcome,
  returned, panicked,
}
use attyd.Common.Dict.{lookup}
use attyd.Json.{Json}
use attyd.Session.Types.{cold, MirrorError, wrong_phase}
use attyd.Registry.Types.{SessionRegistry}
use attyd.Mirror.Store.{Packages, require_state, set_state}
use attyd.Mirror.Loads.{begin_load, append_load_update, commit_load, set_phase}

abbrev pub fallback_attempt : String
fallback_attempt = "bridge-cache-fallback"

module _ {J : Json} where
  open J use {Value}

  -- An error ends the loop.
  unfoldable pub unless_failed :
      SessionRegistry J × Result MirrorError (Unit {0})
      → SessionRegistry J × Result MirrorError (Unit {0})
      → SessionRegistry J × Result MirrorError (Unit {0})
  unless_failed (r, err e) rest = (r, err e)
  unless_failed (r, ok _) rest = rest

  -- The loop over the updates.
  unfoldable pub append_load_updates :
      Packages J
      → SessionRegistry J
      → String
      → ℕ
      → String
      → List Value
      → SessionRegistry J × Result MirrorError (Unit {0})
  unfolding unless_failed
  append_load_updates k r id incarnation attempt [] = (r, ok tt)
  append_load_updates k r id incarnation attempt (update ∷ updates) =
      let (r', answer) = append_load_update k r id incarnation attempt update in
      unless_failed (r', answer) (append_load_updates k r' id incarnation attempt updates)

  unfoldable pub set_notice : SessionRegistry J → String → String → SessionRegistry J
  unfolding set_state
  set_notice r id notice = elim (lookup id r.sessions) [
    | none ↦ r
    | some entry ↦ set_state r id (record entry.state { history_notice = some notice })
  ]

  unfoldable pub finish_fallback :
      Packages J
      → SessionRegistry J
      → String
      → ℕ
      → String
      → SessionRegistry J × Outcome (Result MirrorError (Unit {0}))
  unfolding set_notice
  finish_fallback k r id incarnation notice =
      let (r', answer) = commit_load k r id incarnation fallback_attempt in
      elim answer [
        | panicked ↦ (r', panicked)
        | returned (err e) ↦ (r', returned (err e))
        | returned (ok _) ↦ (set_notice r' id notice, returned (ok tt))
      ]

  unfoldable pub replay_fallback :
      Packages J
      → SessionRegistry J
      → String
      → ℕ
      → List Value
      → String
      → SessionRegistry J × Outcome (Result MirrorError (Unit {0}))
  unfolding append_load_updates finish_fallback
  replay_fallback k r id incarnation updates notice =
      let (r', begun) = begin_load r id incarnation fallback_attempt in
      let (r'', appended) = append_load_updates k r' id incarnation fallback_attempt updates in
      elim begun [
        | err e ↦ (r', returned (err e))
        | ok _ ↦ elim appended [
          | err e ↦ (r'', returned (err e))
          | ok _ ↦ finish_fallback k r'' id incarnation notice
        ]
      ]

  unfoldable pub use_cached_history :
      Packages J
      → SessionRegistry J
      → String
      → ℕ
      → List Value
      → String
      → SessionRegistry J × Outcome (Result MirrorError (Unit {0}))
  unfolding replay_fallback
  use_cached_history k r id incarnation updates notice = elim (require_state r id incarnation) [
    | err e ↦ (r, returned (err e))
    | ok s ↦
        if is_some s.active_turn || is_some s.load_attempt
        then (r, returned (err wrong_phase))
        else replay_fallback k (set_phase r id cold) id incarnation updates notice
  ]
