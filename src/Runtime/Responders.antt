-- ===== src/Runtime/Responders.antt =====
-- One answer at a time to a permission of a live session (runtime_state.rs).
use attyd.Common.{
  All, String, Bool, true, false, Option, none, some, List, [], ◌∷◌, ok, ◌≡◌, ◌≢◌, ◌⊎◌, inl, inr,
  refl, subst, sym, arith, str_eq, str_eq_iff, is_text, Bool-cases, Option-cases,
}
use attyd.Common.Dict.{lookup, lookup-insert, lookup-remove}
use attyd.Json.{Json}
use attyd.Session.Types.{SessionLifecycle, SessionLiveState, PendingInteraction}
use attyd.Registry.Retirement.{contains}
use attyd.Runtime.Interactions.{
  InteractionResolution, InteractionResponseStart, upsert_permission, resolve_permission,
  begin_permission_response, complete_permission_response, seal_live, settle_permission,
  settle_permissions, belonging, enter,
}
use attyd.Runtime.Permissions.{
  Call, asks, resolves, begins, completes, seals, drains, step, run, Settled, settle-Settled,
  settle-new, step-Settled, settle_elicitations-permissions,
}

module _ {J : Json} where
  open J use {Value}

  abbrev pub is_drain : Call J → Bool
  is_drain (drains _ _) = true
  is_drain _ = false

  -- The permission waits for the answer under the operation.
  abbrev Awaits : String → String → SessionLiveState J → Type 0
  Awaits id operation live =
      (p : PendingInteraction J) × (lookup id live.permissions ≡ some p)
      × (p.responding_operation_id ≡ some operation)

  abbrev Answering : String → String → SessionLiveState J → Type 0
  Answering id operation live = Settled id live ⊎ Awaits id operation live

  settle-Answering :
      (id operation : String) (live : SessionLiveState J) (other : String)
      → Answering id operation live
      → Answering id operation (settle_permission live other)
  settle-Answering id operation live other (inl h) = inl (settle-Settled id live other h)
  settle-Answering id operation live other (inr (p, e, r)) = elim (Bool-cases (str_eq other id)) [
    | inl same ↦ let eq = (str_eq_iff other id).0 same in rw eq (inl (settle-new id live))
    | inr different ↦ inr (p, ground (arith, lookup-remove other id live.permissions), r)
  ]

  settle_permissions-Answering :
      (id operation : String) (live : SessionLiveState J) (ids : List String)
      → Answering id operation live
      → Answering id operation (settle_permissions live ids)
  unfolding settle_permissions
  settle_permissions-Answering id operation live [] h = h
  settle_permissions-Answering id operation live (other ∷ ids) h =
      settle_permissions-Answering id operation (settle_permission live other) ids
        (settle-Answering id operation live other h)

  enter-Answering :
      (id operation : String) (live : SessionLiveState J) (lifecycle : Option SessionLifecycle)
      → Answering id operation live
      → Answering id operation (enter live lifecycle)
  enter-Answering id operation live none h = h
  enter-Answering id operation live (some l) h = h

  seal-Answering :
      (id operation : String) (live : SessionLiveState J) (sealed : String)
      (lifecycle : Option SessionLifecycle)
      → Answering id operation live
      → Answering id operation (seal_live live sealed lifecycle).0
  unfolding seal_live
  seal-Answering id operation live sealed lifecycle h =
      let entered = enter live lifecycle in
      let ids = belonging sealed entered.permissions in
      let settled = settle_permissions entered ids in
      let (p, q) =
        settle_elicitations-permissions settled (belonging sealed settled.elicitations) in
      let kept =
        settle_permissions-Answering id operation entered ids
          (enter-Answering id operation live lifecycle h) in
      rw (seal_live, p, q) kept

  resolve-changes :
      (live : SessionLiveState J) (id : String)
      → ((resolve_permission live id).0 ≡ live)
        ⊎ ((resolve_permission live id).0 ≡ settle_permission live id)
  unfolding resolve_permission
  resolve-changes live id = elim (Bool-cases (contains id live.resolved_permissions)) [
    | inl c ↦ inl (ground arith)
    | inr c ↦ elim (Option-cases (lookup id live.permissions)) [
      | inl e ↦ inl (ground arith)
      | inr (p, e) ↦ inr (ground arith)
    ]
  ]

  complete-changes :
      (live : SessionLiveState J) (id operation : String)
      → ((complete_permission_response live id operation).0 ≡ live)
        ⊎ ((complete_permission_response live id operation).0 ≡ settle_permission live id)
  unfolding complete_permission_response
  complete-changes live id operation = elim (Bool-cases (contains id live.resolved_permissions)) [
    | inl c ↦ inl (ground arith)
    | inr c ↦ elim (Option-cases (lookup id live.permissions)) [
      | inl e ↦ inl (ground arith)
      | inr (p, e) ↦ elim (Bool-cases (is_text p.responding_operation_id operation)) [
        | inl t ↦ inr (ground arith)
        | inr t ↦ inl (ground arith)
      ]
    ]
  ]

  -- A call that changes nothing or settles a permission.
  changes-Answering :
      (id operation : String) (live live' : SessionLiveState J) (other : String)
      → ((live' ≡ live) ⊎ (live' ≡ settle_permission live other))
      → Awaits id operation live
      → Answering id operation live'
  changes-Answering id operation live live' other (inl e) h =
      subst (Answering id operation) (sym e) (inr h)
  changes-Answering id operation live live' other (inr e) h =
      subst (Answering id operation) (sym e) (settle-Answering id operation live other (inr h))

  step-Awaits :
      (id operation : String) (live : SessionLiveState J) (c : Call J)
      → is_drain c ≡ false
      → Awaits id operation live
      → Answering id operation (step live c)
  unfolding step upsert_permission resolve_permission begin_permission_response
      complete_permission_response
  step-Awaits id operation live (asks other request active) d (p, e, r) = inr (
    p,
    ground (
      arith,
      str_eq_iff other id,
      lookup-insert other id
          (record {
            interaction_id = other;
            request = request;
            operation_id = active;
            responding_operation_id = none;
          })
          live.permissions,
    ),
    r,
  )
  step-Awaits id operation live (resolves other) d h =
      changes-Answering id operation live (step live (resolves other)) other
        (resolve-changes live other) h
  step-Awaits id operation live (begins other answer in_use) d (p, e, r) =
      elim (Bool-cases (str_eq other id)) [
        | inl same ↦ inr (p, ground (arith, str_eq_iff other id), r)
        | inr different ↦ elim (Option-cases (lookup other live.permissions)) [
          | inl f ↦ inr (p, ground arith, r)
          | inr (o, f) ↦ inr (
            p,
            ground (
              arith,
              lookup-insert other id (record o { responding_operation_id = some answer })
                  live.permissions,
            ),
            r,
          )
        ]
      ]
  step-Awaits id operation live (completes other answer) d h =
      changes-Answering id operation live (step live (completes other answer)) other
        (complete-changes live other answer) h
  step-Awaits id operation live (seals sealed lifecycle) d h =
      seal-Answering id operation live sealed lifecycle (inr h)
  step-Awaits id operation live (drains _ _) d h = cc

  run-Answering :
      (id operation : String) (live : SessionLiveState J) (cs : List (Call J))
      → All (λ c. is_drain c ≡ false) cs
      → Answering id operation live
      → Answering id operation (run live cs)
  unfolding run
  run-Answering id operation live [] d h = h
  run-Answering id operation live (c ∷ cs) d (inl h) =
      run-Answering id operation (step live c) cs d.1 (inl (step-Settled id live c h))
  run-Answering id operation live (c ∷ cs) d (inr h) =
      run-Answering id operation (step live c) cs d.1 (step-Awaits id operation live c d.0 h)

  began :
      (id operation : String) (in_use : Bool) (live : SessionLiveState J)
      → (begin_permission_response live id operation in_use).1 ≡ ok InteractionResponseStart.applied
      → Awaits id operation (begin_permission_response live id operation in_use).0
  unfolding begin_permission_response
  began id operation in_use live e = elim (Option-cases (lookup id live.permissions)) [
    | inl f ↦ ground arith
    | inr (p, f) ↦
        let answered = record p { responding_operation_id = some operation } in
        (
          answered,
          ground (arith, str_eq_iff id id, lookup-insert id id answered live.permissions),
          refl,
        )
  ]

  Answering-begin :
      (id operation other : String) (used : Bool) (live : SessionLiveState J)
      → Answering id operation live
      → (begin_permission_response live id other used).1 ≢ ok InteractionResponseStart.applied
  unfolding begin_permission_response
  Answering-begin id operation other used live (inl h) = ground arith
  Answering-begin id operation other used live (inr (p, e, r)) = ground arith

  Answering-complete :
      (id operation other : String) (live : SessionLiveState J)
      → Answering id operation live
      → other ≢ operation
      → (complete_permission_response live id other).1 ≢ ok InteractionResolution.applied
  unfolding complete_permission_response
  Answering-complete id operation other live (inl h) ne = ground arith
  Answering-complete id operation other live (inr (p, e, r)) ne =
      ground (arith, str_eq_iff operation other)

  -- Once an answer to a permission of a live session has begun under an operation, whatever calls
  -- follow short of a drain of the session, no answer to that permission begins again, and an
  -- answer under another operation does not complete.
  pub one_responder :
      (id operation : String) (in_use : Bool) (live : SessionLiveState J) (cs : List (Call J))
      → (begin_permission_response live id operation in_use).1 ≡ ok InteractionResponseStart.applied
      → All (λ c. is_drain c ≡ false) cs
      → let later = run (begin_permission_response live id operation in_use).0 cs in
        ((other : String) (used : Bool)
          → (begin_permission_response later id other used).1 ≢ ok InteractionResponseStart.applied)
        × ((other : String)
            → other ≢ operation
            → (complete_permission_response later id other).1 ≢ ok InteractionResolution.applied)
  one_responder id operation in_use live cs e d =
      let first = (begin_permission_response live id operation in_use).0 in
      let kept = run-Answering id operation first cs d (inr (began id operation in_use live e)) in
      (
        λ other used. Answering-begin id operation other used (run first cs) kept,
        λ other ne. Answering-complete id operation other (run first cs) kept ne,
      )
