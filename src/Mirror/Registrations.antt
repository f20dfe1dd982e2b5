-- ===== src/Mirror/Registrations.antt =====
-- Registrations, removals, intents and the fallback take no memory for an overlay.
use attyd.Common.{
  ◌==◌, ℕ, String, Bool, true, false, some, ◌≡◌, refl, subst, ◌∙◌, ap, inl, inr, ok, err,
  Result-cases, Bool-cases, Option-cases, arith, max, str_eq_refl, if◌then◌else◌,
}
use attyd.Common.Dict.{lookup, insert, lookup-insert, lookup-remove}
use attyd.Json.{Json}
use attyd.Session.Types.{SessionState, MirrorError}
use attyd.Session.Admission.{new_cold, new_ready}
use attyd.History.Keys.{SessionKey}
use attyd.History.Cache.{install_empty}
use attyd.Registry.Types.{SessionEntry, SessionRegistry, new_entry}
use attyd.Registry.Owners.{entry_of}
use attyd.Registry.Resources.{cancel}
use attyd.Registry.Retirement.{retire_entry, cancel_resources, release_entry}
use attyd.Mirror.Store.{
  Packages, key_of, require_state, set_state, discharge, remove_retained_terminals,
}
use attyd.Mirror.Sessions.{
  cleared, clear_history_for_replacement, replace_previous, install_state, register_history,
  is_removable, remove,
}
use attyd.Mirror.Moves.{Quiet, still, writes, installs, retires, chain, bytes_of}
use attyd.Mirror.Accounts.{found, set_state-freed}

fresh-bytes :
    (J : Json) (id : String) (n : ℕ) (ready : Bool) (revision : String)
    → (if ready then new_ready {J = J} id n revision else new_cold id n).active_overlay_bytes ≡ 0
unfolding new_ready new_cold
fresh-bytes J id n true revision = refl
fresh-bytes J id n false revision = refl

module _ {J : Json} where
  open J use {Value}

  retained-sessions :
      (k : Packages J) (r : SessionRegistry J) (key : SessionKey)
      → (remove_retained_terminals k r key).sessions ≡ r.sessions
  unfolding remove_retained_terminals
  retained-sessions k r key = ground arith

  retained-Quiet :
      (k : Packages J) (r : SessionRegistry J) (key : SessionKey)
      → Quiet r (remove_retained_terminals k r key)
  unfolding remove_retained_terminals
  retained-Quiet k r key = still (retained-sessions k r key) (ground arith)

  cleared-bytes :
      (s : SessionState J) (id : String) (n : ℕ) → (cleared s id n).active_overlay_bytes ≡ 0
  unfolding cleared new_cold
  cleared-bytes s id n = refl

  pub clear-Quiet :
      (k : Packages J) (r : SessionRegistry J) (id : String) (n : ℕ)
      → Quiet r (clear_history_for_replacement k r id n)
  unfolding clear_history_for_replacement
  clear-Quiet k r id n = elim (Result-cases (require_state r id n)) [
    | inr (x, e) ↦ rw (e, clear_history_for_replacement) (still refl refl)
    | inl (s, e) ↦
        rw (e, clear_history_for_replacement)
          (chain (set_state-freed r id n s (cleared s id n) e (cleared-bytes s id n))
            (chain (retained-Quiet k _ (key_of id n)) (still refl refl)))
  ]

  set_state-sessions :
      (r : SessionRegistry J) (id : String) (e : SessionEntry J) (s : SessionState J)
      → lookup id r.sessions ≡ some e
      → (set_state r id s).sessions ≡ insert id (record e { state = s }) r.sessions
  unfolding set_state
  set_state-sessions r id e s there = ground arith

  require_state-there :
      (r : SessionRegistry J) (id : String) (e : SessionEntry J)
      → lookup id r.sessions ≡ some e
      → require_state r id e.state.incarnation ≡ ok e.state
  unfolding require_state
  require_state-there r id e there = ground arith

  -- A session that is cleared has no overlay.
  clear-lookup :
      (k : Packages J) (r : SessionRegistry J) (id : String) (e : SessionEntry J)
      → lookup id r.sessions ≡ some e
      → lookup id (clear_history_for_replacement k r id e.state.incarnation).sessions
        ≡ some (record e { state = cleared e.state id e.state.incarnation })
  unfolding clear_history_for_replacement
  clear-lookup k r id e there =
      let s' = cleared e.state id e.state.incarnation in
      let t = discharge (set_state r id s') e.state.active_overlay_bytes in
      rw (require_state-there r id e there, clear_history_for_replacement)
        (ap (lookup id) (
            retained-sessions k t (key_of id e.state.incarnation)
            ∙ set_state-sessions r id e s' there)
          ∙ lookup-insert id id (record e { state = s' }) r.sessions
          ∙ ap (λ (b : Bool). if b then some (record e { state = s' }) else lookup id r.sessions)
              (str_eq_refl id))

  release-Quiet :
      (r : SessionRegistry J) (id : String) (e : SessionEntry J) (n : ℕ) (reason : String)
      → lookup id r.sessions ≡ some e
      → Quiet r (release_entry r id e n reason)
  unfolding release_entry
  release-Quiet r id e n reason there =
      writes id e (record e { resources = (cancel r.shared e.resources reason).1 }) there refl refl
        refl

  set_resources-bytes :
      (r : SessionRegistry J) (id : String) (e : SessionEntry J) (n : ℕ) (reason : String)
      → lookup id r.sessions ≡ some e
      → bytes_of (lookup id (release_entry r id e n reason).sessions) ≡ e.state.active_overlay_bytes
  unfolding release_entry
  set_resources-bytes r id e n reason there = ground (
    arith,
    lookup-insert id id (record e { resources = (cancel r.shared e.resources reason).1 })
        r.sessions,
    str_eq_refl id,
  )

  entry_of-there :
      (r : SessionRegistry J) (id : String) (n : ℕ) (e g : SessionEntry J)
      → lookup id r.sessions ≡ some e
      → entry_of r id n ≡ ok g
      → g ≡ e
  unfolding entry_of
  entry_of-there r id n e g there f = ground arith

  -- The retirement of a session without an overlay.
  retire-Quiet :
      (r : SessionRegistry J) (id : String) (n : ℕ) (reason : String) (e : SessionEntry J)
      → lookup id r.sessions ≡ some e
      → e.state.active_overlay_bytes ≡ 0
      → Quiet r (retire_entry r id n reason)
  unfolding retire_entry cancel_resources
  retire-Quiet r id n reason e there zero_left = elim (Result-cases (entry_of r id n)) [
    | inr (x, f) ↦ rw (f, retire_entry) (still refl refl)
    | inl (g, f) ↦
        let f' : entry_of r id n ≡ ok e = f ∙ ap ok (entry_of-there r id n e g there f) in
        rw (f', retire_entry)
          (rw (f', cancel_resources)
            (chain (release-Quiet r id e n reason there)
              (retires id (set_resources-bytes r id e n reason there ∙ zero_left) refl refl)))
  ]

  retire-bytes :
      (r : SessionRegistry J) (id : String) (n : ℕ) (reason : String) (e : SessionEntry J)
      → lookup id r.sessions ≡ some e
      → e.state.active_overlay_bytes ≡ 0
      → bytes_of (lookup id (retire_entry r id n reason).sessions) ≡ 0
  unfolding retire_entry
  retire-bytes r id n reason e there zero_left =
      ground (arith, lookup-remove id id (cancel_resources r id n reason).sessions, str_eq_refl id)

  replace-Quiet :
      (k : Packages J) (r : SessionRegistry J) (id : String) (n : ℕ)
      → Quiet r (replace_previous k r id n)
        × (bytes_of (lookup id (replace_previous k r id n).sessions) ≡ 0)
  unfolding replace_previous
  replace-Quiet k r id n = elim (Option-cases (lookup id r.sessions)) [
    | inl absent ↦ rw (absent, replace_previous) (still refl refl, rw absent refl)
    | inr (e, there) ↦
        let m = e.state.incarnation in
        let c = clear_history_for_replacement k r id m in
        let found_after = clear-lookup k r id e there in
        let e' = record e { state = cleared e.state id m } in
        let zeroed = cleared-bytes e.state id m in
        elim (Bool-cases (m == n)) [
          | inl same ↦
              rw (there, replace_previous, same)
                (clear-Quiet k r id m, ap bytes_of found_after ∙ zeroed)
          | inr other ↦
              rw (there, replace_previous, other)
                (
                  chain (clear-Quiet k r id m) (retire-Quiet c id m _ e' found_after zeroed),
                  retire-bytes c id m _ e' found_after zeroed,
                )
        ]
  ]

  install-Quiet :
      (r : SessionRegistry J) (id : String) (s : SessionState J)
      → bytes_of (lookup id r.sessions) ≡ 0
      → s.active_overlay_bytes ≡ 0
      → Quiet r (install_state r id s)
  unfolding install_state
  install-Quiet r id s absent zeroed = elim (Option-cases (lookup id r.sessions)) [
    | inl none_there ↦
        rw (none_there, install_state) (installs id (new_entry s) absent refl zeroed refl)
    | inr (e, there) ↦
        let s' = record s {
          live = e.state.live;
          operation = e.state.operation;
          view_revision = e.state.view_revision;
        } in
        rw (there, install_state) (installs id (record e { state = s' }) absent refl zeroed refl)
  ]

  pub register-Quiet :
      (k : Packages J) (r : SessionRegistry J) (id : String) (n : ℕ) (ready : Bool)
      → Quiet r (register_history k r id n ready)
  unfolding register_history
  register-Quiet k r id n ready =
      let r1 = record r { next_incarnation = max r.next_incarnation n } in
      let r2 = replace_previous k r1 id n in
      let made = install_empty k.encoder r2.history (key_of id n) in
      let (q, zero_left) = replace-Quiet k r1 id n in
      chain (still refl refl) (
        chain q (
          chain (still refl refl) (
            install-Quiet (record r2 { history = made.0 }) id
              (if ready then new_ready id n made.1.revision else new_cold id n) zero_left
              (fresh-bytes J id n ready made.1.revision))))

  clear-same :
      (k : Packages J) (r : SessionRegistry J) (id : String) (n : ℕ) (x : MirrorError)
      → require_state r id n ≡ err x
      → clear_history_for_replacement k r id n ≡ r
  unfolding clear_history_for_replacement
  clear-same k r id n x e = rw (e, clear_history_for_replacement) refl

  not-removable :
      (r : SessionRegistry J) (id : String) (n : ℕ) (x : MirrorError)
      → require_state r id n ≡ err x
      → is_removable (lookup id r.sessions) n ≡ false
  unfolding require_state is_removable
  not-removable r id n x e = ground arith

  -- What `remove` retires has just been cleared.
  removable-cleared :
      (k : Packages J) (r : SessionRegistry J) (id : String) (n : ℕ)
      → is_removable (lookup id (clear_history_for_replacement k r id n).sessions) n ≡ true
      → (e : SessionEntry J) × (lookup id (clear_history_for_replacement k r id n).sessions
          ≡ some e)
        × (e.state.active_overlay_bytes ≡ 0)
  removable-cleared k r id n h = elim (Result-cases (require_state r id n)) [
    | inr (x, e) ↦ cc (clear-same k r id n x e, not-removable r id n x e)
    | inl (s, e) ↦
        let (entry, there, state) = found r id n e in
        let same : entry.state.incarnation ≡ n = unfold require_state in ground (arith, there) in
        (
          record entry { state = cleared entry.state id entry.state.incarnation },
          subst
              (λ m.
                lookup id (clear_history_for_replacement k r id m).sessions
                ≡ some (record entry { state = cleared entry.state id entry.state.incarnation }))
              same (clear-lookup k r id entry there),
          cleared-bytes entry.state id entry.state.incarnation,
        )
  ]

  pub remove-Quiet :
      (k : Packages J) (r : SessionRegistry J) (id : String) (n : ℕ) → Quiet r (remove k r id n)
  unfolding remove
  remove-Quiet k r id n =
      let c = clear_history_for_replacement k r id n in
      elim (Bool-cases (is_removable (lookup id c.sessions) n)) [
        | inr kept ↦ rw (kept, remove) (clear-Quiet k r id n)
        | inl gone ↦
            let (e, there, zeroed) = removable-cleared k r id n gone in
            rw (gone, remove)
              (chain (clear-Quiet k r id n)
                (retire-Quiet c id n "session was removed" e there zeroed))
      ]
