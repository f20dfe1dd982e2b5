-- ===== src/Registry/Interactions.antt =====
-- The permissions and elicitations that wait for an answer (session_registry.rs).
use attyd.Common.{String, not, Option, none, some, Result, ok, err, is_some, if◌then◌else◌}
use attyd.Common.Dict.{lookup, insert, remove}
use attyd.Json.{Json}
use attyd.Session.Types.{MirrorError, stale_incarnation, operation_mismatch}
use attyd.Registry.Resources.{SessionResourceOwner, PermissionResponder, ElicitationResponder}
use attyd.Registry.Types.{SessionRegistry}
use attyd.Registry.Owners.{entry_of, resources, set_resources, owns_resources, same_owner}

module _ {J : Json} where
  unfoldable pub permission :
      SessionRegistry J → String → Option (SessionResourceOwner × PermissionResponder)
  unfolding owns_resources resources
  permission r id = elim (lookup id r.permission_owners) [
    | none ↦ none
    | some owner ↦
        if owns_resources r owner
        then elim (resources r owner.session_id owner.incarnation) [
          | err _ ↦ none
          | ok held ↦ elim (lookup id held.permissions) [ none ↦ none | some p ↦ some (owner, p) ]
        ]
        else none
  ]

  unfoldable pub insert_permission :
      SessionRegistry J
      → SessionResourceOwner
      → String
      → PermissionResponder
      → SessionRegistry J × Result MirrorError (Unit {0})
  unfolding owns_resources entry_of
  insert_permission r owner id new =
      if not (owns_resources r owner)
      then (r, err stale_incarnation)
      else if is_some (lookup id r.permission_owners)
      then (r, err operation_mismatch)
      else elim (entry_of r owner.session_id owner.incarnation) [
        | err e ↦ (r, err e)
        | ok entry ↦
            let held = record entry.resources {
              permissions = insert id new entry.resources.permissions;
            } in
            (
              record (set_resources r owner.session_id entry held) {
                permission_owners = insert id owner r.permission_owners;
              },
              ok tt,
            )
      ]

  unfoldable pub take_permission :
      SessionRegistry J
      → String
      → SessionResourceOwner
      → SessionRegistry J × Option PermissionResponder
  unfolding owns_resources entry_of
  take_permission r id expected =
      if not (same_owner (lookup id r.permission_owners) expected)
      then (r, none)
      else (let r' = record r { permission_owners = remove id r.permission_owners } in
          if not (owns_resources r expected)
          then (r', none)
          else elim (entry_of r expected.session_id expected.incarnation) [
            | err _ ↦ (r', none)
            | ok entry ↦
                let held = record entry.resources {
                  permissions = remove id entry.resources.permissions;
                } in
                (
                  set_resources r' expected.session_id entry held,
                  lookup id entry.resources.permissions,
                )
          ])

  unfoldable pub elicitation :
      SessionRegistry J → String → Option (SessionResourceOwner × ElicitationResponder J)
  unfolding owns_resources resources
  elicitation r id = elim (lookup id r.elicitation_owners) [
    | none ↦ none
    | some owner ↦
        if owns_resources r owner
        then elim (resources r owner.session_id owner.incarnation) [
          | err _ ↦ none
          | ok held ↦ elim (lookup id held.elicitations) [ none ↦ none | some p ↦ some (owner, p) ]
        ]
        else none
  ]

  unfoldable pub insert_elicitation :
      SessionRegistry J
      → SessionResourceOwner
      → String
      → ElicitationResponder J
      → SessionRegistry J × Result MirrorError (Unit {0})
  unfolding owns_resources entry_of
  insert_elicitation r owner id new =
      if not (owns_resources r owner)
      then (r, err stale_incarnation)
      else if is_some (lookup id r.elicitation_owners)
      then (r, err operation_mismatch)
      else elim (entry_of r owner.session_id owner.incarnation) [
        | err e ↦ (r, err e)
        | ok entry ↦
            let held = record entry.resources {
              elicitations = insert id new entry.resources.elicitations;
            } in
            (
              record (set_resources r owner.session_id entry held) {
                elicitation_owners = insert id owner r.elicitation_owners;
              },
              ok tt,
            )
      ]

  unfoldable pub take_elicitation :
      SessionRegistry J
      → String
      → SessionResourceOwner
      → SessionRegistry J × Option (ElicitationResponder J)
  unfolding owns_resources entry_of
  take_elicitation r id expected =
      if not (same_owner (lookup id r.elicitation_owners) expected)
      then (r, none)
      else (let r' = record r { elicitation_owners = remove id r.elicitation_owners } in
          if not (owns_resources r expected)
          then (r', none)
          else elim (entry_of r expected.session_id expected.incarnation) [
            | err _ ↦ (r', none)
            | ok entry ↦
                let held = record entry.resources {
                  elicitations = remove id entry.resources.elicitations;
                } in
                (
                  set_resources r' expected.session_id entry held,
                  lookup id entry.resources.elicitations,
                )
          ])
