-- ===== src/Runtime/Permissions.antt =====
-- What holds of the permissions of a live session over any calls (runtime_state.rs).
use attyd.Common.{
  ℕ, String, Bool, true, Option, none, some, List, [], ◌∷◌, ◌++◌, ok, err, ◌≡◌, ◌⊎◌, inl, inr, refl,
  arith, ap, subst, sym, ◌∙◌, str_eq, str_eq_iff, Option-cases, ◌||◌,
}
use attyd.Common.Dict.{lookup, remove, lookup-insert, lookup-remove}
use attyd.Json.{Json}
use attyd.Fold.{unknown_interaction}
use attyd.Session.Types.{SessionLifecycle, SessionLiveState}
use attyd.Registry.Retirement.{contains}
use attyd.Runtime.Interactions.{
  InteractionResolution, InteractionUpsert, upsert_permission, resolve_permission,
  begin_permission_response, complete_permission_response, seal_live, settle_permission,
  settle_permissions, settle_elicitations, drain_session_liveness, belonging, enter,
}

contains-append :
    (id : String) (xs : List String) (x : String)
    → contains id (xs ++ x ∷ []) ≡ (contains id xs || str_eq x id)
contains-append id [] x = ground arith
contains-append id (y ∷ xs) x = ground (arith, contains-append id xs x)

module _ (J : Json) where
  open J use {Value}

  -- `asks` is a request of the agent, `resolves` its end, `begins` and `completes` the answer of a
  -- client under an operation.
  pub data Call : Type 0 where
    asks : String → Value → Option String → Call
    resolves : String → Call
    begins : String → String → Bool → Call
    completes : String → String → Call
    seals : String → Option SessionLifecycle → Call
    drains : String → ℕ → Call

module _ {J : Json} where
  open J use {Value}

  unfoldable pub step : SessionLiveState J → Call J → SessionLiveState J
  unfolding upsert_permission resolve_permission begin_permission_response
      complete_permission_response seal_live drain_session_liveness
  step live (asks id request active) = (upsert_permission live id request active).0
  step live (resolves id) = (resolve_permission live id).0
  step live (begins id operation in_use) = (begin_permission_response live id operation in_use).0
  step live (completes id operation) = (complete_permission_response live id operation).0
  step live (seals operation lifecycle) = (seal_live live operation lifecycle).0
  step live (drains session incarnation) = (drain_session_liveness session incarnation live).0

  unfoldable pub run : SessionLiveState J → List (Call J) → SessionLiveState J
  run live [] = live
  run live (c ∷ cs) = run (step live c) cs

  -- The permission is resolved, and not pending.
  abbrev pub Settled : String → SessionLiveState J → Type 0
  Settled id live =
      (contains id live.resolved_permissions ≡ true) × (lookup id live.permissions ≡ none)

  pub settle-Settled :
      (id : String) (live : SessionLiveState J) (other : String)
      → Settled id live
      → Settled id (settle_permission live other)
  settle-Settled id live other h = ground (
    arith,
    contains-append id live.resolved_permissions other,
    lookup-remove other id live.permissions,
  )

  settle_permissions-Settled :
      (id : String) (live : SessionLiveState J) (ids : List String)
      → Settled id live
      → Settled id (settle_permissions live ids)
  unfolding settle_permissions
  settle_permissions-Settled id live [] h = h
  settle_permissions-Settled id live (other ∷ ids) h =
      settle_permissions-Settled id (settle_permission live other) ids
        (settle-Settled id live other h)

  pub settle_elicitations-permissions :
      (live : SessionLiveState J) (ids : List String)
      → ((settle_elicitations live ids).permissions ≡ live.permissions)
        × ((settle_elicitations live ids).resolved_permissions ≡ live.resolved_permissions)
  unfolding settle_elicitations
  settle_elicitations-permissions live [] = (refl, refl)
  settle_elicitations-permissions live (id ∷ ids) =
      settle_elicitations-permissions
        (record live {
          elicitations = remove id live.elicitations;
          resolved_elicitations = live.resolved_elicitations ++ id ∷ [];
        })
        ids

  enter-Settled :
      (id : String) (live : SessionLiveState J) (lifecycle : Option SessionLifecycle)
      → Settled id live
      → Settled id (enter live lifecycle)
  enter-Settled id live none h = h
  enter-Settled id live (some l) h = h

  seal-Settled :
      (id : String) (live : SessionLiveState J) (operation : String)
      (lifecycle : Option SessionLifecycle)
      → Settled id live
      → Settled id (seal_live live operation lifecycle).0
  unfolding seal_live
  seal-Settled id live operation lifecycle h =
      let entered = enter live lifecycle in
      let ids = belonging operation entered.permissions in
      let settled = settle_permissions entered ids in
      let (p, q) =
        settle_elicitations-permissions settled (belonging operation settled.elicitations) in
      let kept = settle_permissions-Settled id entered ids (enter-Settled id live lifecycle h) in
      rw (seal_live, p, q) kept

  pub step-Settled :
      (id : String) (live : SessionLiveState J) (c : Call J)
      → Settled id live
      → Settled id (step live c)
  unfolding step upsert_permission resolve_permission begin_permission_response
      complete_permission_response drain_session_liveness
  step-Settled id live (asks other request active) h =
      let (_, gone) = h in
      elim (Option-cases (lookup other live.permissions)) [
        | inl e ↦ ground (
          arith,
          str_eq_iff other id,
          lookup-insert other id
              (record {
                interaction_id = other;
                request = request;
                operation_id = active;
                responding_operation_id = none;
              })
              live.permissions,
        )
        | inr (p, e) ↦ ground arith
      ]
  step-Settled id live (resolves other) h = elim (Option-cases (lookup other live.permissions)) [
    | inl e ↦ ground arith
    | inr (p, e) ↦ ground (arith, settle-Settled id live other h)
  ]
  step-Settled id live (begins other operation in_use) h =
      elim (Option-cases (lookup other live.permissions)) [
        | inl e ↦ ground arith
        | inr (p, e) ↦ ground (
          arith,
          str_eq_iff other id,
          lookup-insert other id (record p { responding_operation_id = some operation })
              live.permissions,
        )
      ]
  step-Settled id live (completes other operation) h =
      elim (Option-cases (lookup other live.permissions)) [
        | inl e ↦ ground arith
        | inr (p, e) ↦ ground (arith, settle-Settled id live other h)
      ]
  step-Settled id live (seals operation lifecycle) h = seal-Settled id live operation lifecycle h
  step-Settled id live (drains session incarnation) h = (h.0, unfold lookup in refl)

  run-Settled :
      (id : String) (live : SessionLiveState J) (cs : List (Call J))
      → Settled id live
      → Settled id (run live cs)
  unfolding run
  run-Settled id live [] h = h
  run-Settled id live (c ∷ cs) h = run-Settled id (step live c) cs (step-Settled id live c h)

  pub settle-new :
      (id : String) (live : SessionLiveState J) → Settled id (settle_permission live id)
  settle-new id live = ground (
    arith,
    str_eq_iff id id,
    contains-append id live.resolved_permissions id,
    lookup-remove id id live.permissions,
  )

  resolve-now :
      (id : String) (live : SessionLiveState J)
      → (resolve_permission live id).1 ≡ ok InteractionResolution.applied
      → (resolve_permission live id).0 ≡ settle_permission live id
  unfolding resolve_permission
  resolve-now id live e = elim (Option-cases (lookup id live.permissions)) [
    | inl f ↦ ground arith
    | inr (p, f) ↦ ground arith
  ]

  complete-now :
      (id : String) (live : SessionLiveState J) (operation : String)
      → (complete_permission_response live id operation).1 ≡ ok InteractionResolution.applied
      → (complete_permission_response live id operation).0 ≡ settle_permission live id
  unfolding complete_permission_response
  complete-now id live operation e = elim (Option-cases (lookup id live.permissions)) [
    | inl f ↦ ground arith
    | inr (p, f) ↦ ground arith
  ]

  resolved-Settled :
      (id : String) (live first : SessionLiveState J) (operation : String)
      → ((resolve_permission live id ≡ (first, ok InteractionResolution.applied))
          ⊎ (complete_permission_response live id operation
              ≡ (first, ok InteractionResolution.applied)))
      → Settled id first
  resolved-Settled id live first operation (inl e) =
      let now = resolve-now id live (ap (λ p. p.1) e) in
      subst (Settled id) (sym now ∙ ap (λ p. p.0) e) (settle-new id live)
  resolved-Settled id live first operation (inr e) =
      let now = complete-now id live operation (ap (λ p. p.1) e) in
      subst (Settled id) (sym now ∙ ap (λ p. p.0) e) (settle-new id live)

  -- Once a permission of a live session has been resolved, by the agent or by the answer of a
  -- client, whatever calls follow, it is not pending: a request for it and an end or an answer of
  -- it find it resolved, no answer to it begins, and none of these changes anything.
  pub resolved_once :
      (id : String) (live first : SessionLiveState J) (operation : String) (cs : List (Call J))
      → ((resolve_permission live id ≡ (first, ok InteractionResolution.applied))
          ⊎ (complete_permission_response live id operation
              ≡ (first, ok InteractionResolution.applied)))
      → let later = run first cs in
        (lookup id later.permissions ≡ none)
        × (resolve_permission later id ≡ (later, ok InteractionResolution.already_resolved))
        × ((request : Value) (active : Option String)
            → upsert_permission later id request active
              ≡ (later, ok InteractionUpsert.already_resolved))
        × ((other : String)
            → complete_permission_response later id other
              ≡ (later, ok InteractionResolution.already_resolved))
        × ((other : String) (in_use : Bool)
            → begin_permission_response later id other in_use ≡ (later, err unknown_interaction))
  unfolding resolve_permission upsert_permission complete_permission_response
      begin_permission_response
  resolved_once id live first operation cs h =
      let (kept, gone) = run-Settled id first cs (resolved-Settled id live first operation h) in
      (
        gone,
        ground arith,
        λ request active. ground arith,
        λ other. ground arith,
        λ other in_use. ground arith,
      )
