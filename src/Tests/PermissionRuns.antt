-- ===== src/Tests/PermissionRuns.antt =====
-- The theorems on the permissions of a live session at concrete inputs.
use attyd.Common.{
  String, Bool, false, none, some, Option, List, [], ◌∷◌, ok, err, ◌≡◌, ◌≢◌, refl, inr,
}
use attyd.Common.Dict.{lookup, remove}
use attyd.Fold.{unknown_interaction}
use attyd.Session.Types.{SessionLiveState, SessionLifecycle, MirrorPhase, PendingInteraction}
use attyd.Runtime.Interactions.{
  InteractionResolution, InteractionResponseStart, InteractionUpsert, upsert_permission,
  resolve_permission, begin_permission_response, complete_permission_response,
}
use attyd.Runtime.Permissions.{Call, asks, begins, completes, seals, drains, run, resolved_once}
use attyd.Runtime.Responders.{one_responder}
use attyd.Tests.Plain.{Plain, null, plain}

abbrev asked : Option String → PendingInteraction plain
asked responding = record {
  interaction_id = "p";
  request = null;
  operation_id = none;
  responding_operation_id = responding;
}

abbrev live_with : List (String × PendingInteraction plain) → List String → SessionLiveState plain
live_with permissions resolved = record {
  revision = 1;
  cwd = "/";
  session = null;
  control_state = [];
  lifecycle = SessionLifecycle.active;
  permissions = permissions;
  elicitations = [];
  url_flows = [];
  terminals = [];
  history_revision = none;
  phase = MirrorPhase.ready;
  sync_error = none;
  resolved_permissions = resolved;
  resolved_elicitations = [];
  resolved_url_flows = [];
  released_terminals = [];
  attachment_candidate = [];
  attachment_candidate_bytes = 0;
}

abbrev asking : SessionLiveState plain
asking = live_with (("p", asked none) ∷ []) []

abbrev answered : SessionLiveState plain
answered = live_with (("p", asked (some "answer")) ∷ []) []

abbrev resolved : SessionLiveState plain
resolved = live_with [] ("p" ∷ [])

abbrev late_calls : List (Call plain)
late_calls = asks "p" null none ∷ seals "turn" none ∷ drains "a" 1 ∷ asks "p" null none ∷ []

resolved_once_example :
    let later = run resolved late_calls in
    (lookup "p" later.permissions ≡ none)
    × (resolve_permission later "p" ≡ (later, ok InteractionResolution.already_resolved))
    × ((request : Plain) (active : Option String)
        → upsert_permission later "p" request active
          ≡ (later, ok InteractionUpsert.already_resolved))
    × ((other : String)
        → complete_permission_response later "p" other
          ≡ (later, ok InteractionResolution.already_resolved))
    × ((other : String) (in_use : Bool)
        → begin_permission_response later "p" other in_use ≡ (later, err unknown_interaction))
unfolding complete_permission_response lookup remove
resolved_once_example = resolved_once "p" answered resolved "answer" late_calls (inr refl)

abbrev calls : List (Call plain)
calls = asks "p" null none ∷ begins "p" "another" false ∷ completes "p" "another" ∷ []

one_responder_example :
    let later = run (begin_permission_response asking "p" "answer" false).0 calls in
    ((other : String) (used : Bool)
      → (begin_permission_response later "p" other used).1 ≢ ok InteractionResponseStart.applied)
    × ((other : String)
        → other ≢ "answer"
        → (complete_permission_response later "p" other).1 ≢ ok InteractionResolution.applied)
unfolding begin_permission_response lookup
one_responder_example =
    one_responder "p" "answer" false asking calls refl (refl, (refl, (refl, tt)))
