-- ===== src/Runtime/Interactions.antt =====
-- The permissions of the live half of a session (runtime_state.rs: the module `session_live` and
-- `drain_session_liveness`).
use attyd.Common.{
  ℕ, String, Bool, true, false, Option, none, some, List, [], ◌∷◌, ◌++◌, map, Result, ok, err,
  str_eq, is_text, if◌then◌else◌,
}
use attyd.Common.Dict.{Dict, lookup, insert, remove}
use attyd.Json.{Json}
use attyd.Fold.{
  RuntimeStateError, unknown_session, no_active_turn, operation_mismatch, unknown_interaction,
  operation_collision, interaction_collision,
}
use attyd.Session.Types.{
  SessionLifecycle, SessionLiveState, SessionState, PendingInteraction, UrlFlow, UrlFlowStatus,
  waiting,
}
use attyd.Registry.Retirement.{contains, flag_of}
use attyd.Runtime.Changes.{
  RuntimeEffect, cancel_permission_responder, cancel_elicitation_responder, abort_url_flow,
  release_terminal,
}

pub data InteractionResolution : Type 0 where
  applied already_resolved : InteractionResolution

pub data InteractionResponseStart : Type 0 where
  applied duplicate : InteractionResponseStart

pub data InteractionUpsert : Type 0 where
  inserted duplicate already_resolved : InteractionUpsert

pub record TurnRetirement : Type 0 where
  pub permissions : List String
  pub elicitations : List String

-- The derived equality of `Option<String>`.
abbrev pub text_option_eq : Option String → Option String → Bool
text_option_eq none none = true
text_option_eq (some a) (some b) = str_eq a b
text_option_eq _ _ = false

abbrev pub keys : {V : Type 0} → Dict V → List String
keys [] = []
keys ((k, _) ∷ rest) = k ∷ keys rest

abbrev pub is_waiting : UrlFlowStatus → Bool
is_waiting waiting = true
is_waiting _ = false

module _ (J : Json) where
  open J use {Value}

  abbrev pub unreleased : String → Dict Value → List RuntimeEffect
  unreleased session_id [] = []
  unreleased session_id ((id, terminal) ∷ rest) =
      let others = unreleased session_id rest in
      if flag_of J terminal "released" then others else release_terminal session_id id ∷ others

module _ {J : Json} where
  open J use {Value, value_eq}

  abbrev pub remember_resolved_permission : SessionLiveState J → String → SessionLiveState J
  remember_resolved_permission live id = record live {
    resolved_permissions = live.resolved_permissions ++ id ∷ [];
  }

  -- The permission is no longer pending, and is remembered as resolved.
  abbrev pub settle_permission : SessionLiveState J → String → SessionLiveState J
  settle_permission live id =
      remember_resolved_permission (record live { permissions = remove id live.permissions }) id

  unfoldable pub upsert_permission :
      SessionLiveState J
      → String
      → Value
      → Option String
      → SessionLiveState J × Result RuntimeStateError InteractionUpsert
  upsert_permission live id request active =
      if contains id live.resolved_permissions
      then (live, ok InteractionUpsert.already_resolved)
      else elim (lookup id live.permissions) [
        | some existing ↦
            if value_eq existing.request request
            then if text_option_eq existing.operation_id active
              then (live, ok InteractionUpsert.duplicate)
              else (live, err interaction_collision)
            else (live, err interaction_collision)
        | none ↦ (
          record live {
            permissions =
                insert id
                  (record {
                    interaction_id = id;
                    request = request;
                    operation_id = active;
                    responding_operation_id = none;
                  })
                  live.permissions;
          },
          ok inserted,
        )
      ]

  unfoldable pub resolve_permission :
      SessionLiveState J
      → String
      → SessionLiveState J × Result RuntimeStateError InteractionResolution
  resolve_permission live id =
      if contains id live.resolved_permissions
      then (live, ok InteractionResolution.already_resolved)
      else elim (lookup id live.permissions) [
        | none ↦ (live, err unknown_interaction)
        | some _ ↦ (settle_permission live id, ok InteractionResolution.applied)
      ]

  unfoldable pub begin_permission_response :
      SessionLiveState J
      → String
      → String
      → Bool
      → SessionLiveState J × Result RuntimeStateError InteractionResponseStart
  begin_permission_response live id operation_id in_use = elim (lookup id live.permissions) [
    | none ↦ (live, err unknown_interaction)
    | some pending ↦ elim pending.responding_operation_id [
      | some existing ↦
          if str_eq existing operation_id
          then (live, ok InteractionResponseStart.duplicate)
          else (live, err interaction_collision)
      | none ↦ if in_use then (live, err operation_collision) else (
        record live {
          permissions =
              insert id (record pending { responding_operation_id = some operation_id })
                live.permissions;
        },
        ok InteractionResponseStart.applied,
      )
    ]
  ]

  unfoldable pub complete_permission_response :
      SessionLiveState J
      → String
      → String
      → SessionLiveState J × Result RuntimeStateError InteractionResolution
  complete_permission_response live id operation_id =
      if contains id live.resolved_permissions
      then (live, ok InteractionResolution.already_resolved)
      else elim (lookup id live.permissions) [
        | none ↦ (live, err unknown_interaction)
        | some pending ↦
            if is_text pending.responding_operation_id operation_id
            then (settle_permission live id, ok InteractionResolution.applied)
            else (live, err operation_mismatch)
      ]

  -- The interactions that belong to the operation.
  abbrev pub belonging : String → Dict (PendingInteraction J) → List String
  belonging operation_id [] = []
  belonging operation_id ((id, interaction) ∷ rest) =
      let others = belonging operation_id rest in
      if is_text interaction.operation_id operation_id then id ∷ others else others

  unfoldable pub settle_permissions : SessionLiveState J → List String → SessionLiveState J
  settle_permissions live [] = live
  settle_permissions live (id ∷ ids) = settle_permissions (settle_permission live id) ids

  unfoldable pub settle_elicitations : SessionLiveState J → List String → SessionLiveState J
  settle_elicitations live [] = live
  settle_elicitations live (id ∷ ids) =
      settle_elicitations
        (record live {
          elicitations = remove id live.elicitations;
          resolved_elicitations = live.resolved_elicitations ++ id ∷ [];
        })
        ids

  abbrev pub enter : SessionLiveState J → Option SessionLifecycle → SessionLiveState J
  enter live none = live
  enter live (some lifecycle) = record live { lifecycle = lifecycle }

  -- What `seal_turn` does to the live half, for the operation and the lifecycle that it leaves.
  unfoldable pub seal_live :
      SessionLiveState J → String → Option SessionLifecycle → SessionLiveState J × TurnRetirement
  unfolding settle_permissions settle_elicitations
  seal_live live operation_id lifecycle =
      let entered = enter live lifecycle in
      let permissions = belonging operation_id entered.permissions in
      let settled = settle_permissions entered permissions in
      let elicitations = belonging operation_id settled.elicitations in
      (
        settle_elicitations settled elicitations,
        record { permissions = permissions; elicitations = elicitations },
      )

  unfoldable pub seal_turn :
      SessionState J
      → String
      → Option SessionLifecycle
      → SessionState J × Result RuntimeStateError TurnRetirement
  unfolding seal_live
  seal_turn owner operation_id lifecycle = elim owner.live [
    | none ↦ (owner, err unknown_session)
    | some live ↦ elim owner.active_turn [
      | none ↦ (owner, err no_active_turn)
      | some overlay ↦ elim overlay.execution [
        | none ↦ (owner, err no_active_turn)
        | some execution ↦
            if str_eq execution.rpc_operation_id operation_id
            then (
              record owner {
                live = some (seal_live live operation_id lifecycle).0;
                active_turn = some (record overlay { execution = none });
              },
              ok (seal_live live operation_id lifecycle).1,
            )
            else (owner, err operation_mismatch)
      ]
    ]
  ]

  abbrev pub aborts : String → ℕ → Dict (UrlFlow J) → List RuntimeEffect
  aborts session_id incarnation [] = []
  aborts session_id incarnation ((id, flow) ∷ rest) =
      let others = aborts session_id incarnation rest in
      if is_waiting flow.status
      then abort_url_flow (some session_id) (some incarnation) id flow.registration_id ∷ others
      else others

  unfoldable pub drain_session_liveness :
      String → ℕ → SessionLiveState J → SessionLiveState J × List RuntimeEffect
  drain_session_liveness session_id incarnation live = (
    record live { permissions = []; elicitations = []; url_flows = []; terminals = [] },
    map (λ id. cancel_permission_responder session_id incarnation id) (keys live.permissions)
        ++ map (λ id. cancel_elicitation_responder (some session_id) (some incarnation) id)
            (keys live.elicitations)
        ++ aborts session_id incarnation live.url_flows
        ++ unreleased J session_id live.terminals,
  )
