-- ===== src/Tests/HandoffRuns.antt =====
-- The theorems on the ingress and the handoff of completions at concrete inputs.
use attyd.Common.{
  ℕ, ◌+◌, ◌≤◌, true, false, none, some, List, [], ◌∷◌, ◌++◌, ok, returned, length, ◌≡◌, ◌⊎◌, refl,
  All, ◌==◌, ==_iff,
}
use attyd.Common.Keyed.{get}
use attyd.Ingress.Types.{
  Sdk, RequestOwner, OrderedCompletion, CompletionSource, Dispatch, Effect, routes, no,
}
use attyd.Ingress.Ops.{new_ingress, intercept}
use attyd.Ingress.Calls.{
  World as Ingress, Call as IngressCall, registers, intercepts, fails, waiting, declined, is_event,
  run as run_ingress,
}
use attyd.Ingress.Bound.{completions, registrations, as_number, completions_bounded}
use attyd.Ingress.Accounts.{intercept_routes}
use attyd.Handoff.Types.{CompletionTurn}
use attyd.Handoff.System.{Call, hands_off, binds, delivers, waits, closes, start, run}
use attyd.Handoff.System
use attyd.Handoff.Matched.{Matched, sent_to_own_request}

abbrev sdk : Sdk
sdk = record {
  RequestId = ℕ;
  Value = ℕ;
  Error = ℕ;
  Router = ℕ;
  Other = ℕ;
  Sent = ℕ;
  id_eq = λ a b. a == b;
  id_eq_iff = ==_iff;
  router_id = λ router. router;
  route = λ router result. ok tt;
  write_value = λ value. ok ((1 ∷ []) ∷ []);
  write_error = λ e. ok ((1 ∷ 2 ∷ []) ∷ []);
}

abbrev owner : RequestOwner
owner = record {
  epoch = "epoch";
  session_id = some "a";
  incarnation = some 1;
  operation_id = "operation";
  attempt_id = none;
}

abbrev ingress : Ingress sdk (OrderedCompletion sdk)
ingress = record {
  ingress = new_ingress 0 0 (λ completion. completion);
  io = record { closed = λ queue. false; effects = [] };
}

abbrev ingress_calls : List (IngressCall sdk (OrderedCompletion sdk))
ingress_calls =
    registers (record { identity = 0; owner = owner; method = ""; delivery = 0 }) "prompt"
      (returned (record { request_id = 7; sent = 0 }))
    ∷ intercepts (Dispatch.response (ok 3) 7)
    ∷ fails 7 4
    ∷ []

completions_bounded_example :
    completions (λ event. event.request_id) 7 (run_ingress ingress ingress_calls).io.effects
      + as_number (waiting (run_ingress ingress ingress_calls) 7)
    ≤ completions (λ event. event.request_id) 7 ingress.io.effects
      + as_number (waiting ingress 7)
      + registrations (λ event. event.request_id) ingress 7 ingress_calls
completions_bounded_example =
    completions_bounded (λ event. event.request_id) ingress 7 ingress_calls (λ c. refl)

abbrev turn : CompletionTurn sdk
turn = record {
  completion = record {
    owner = owner;
    method = "prompt";
    request_id = 7;
    result = ok 3;
    source = CompletionSource.response;
    response_bytes = 1;
  };
  guard = record { busy = some 5; session = none; global = none };
}

abbrev handoff_calls : List (Call sdk)
handoff_calls =
    System.registers owner
    ∷ hands_off turn
    ∷ hands_off turn
    ∷ binds 0 7
    ∷ delivers 0
    ∷ waits 0
    ∷ closes
    ∷ []

sent_to_own_request_example :
    All Matched (run start handoff_calls).sending × ((run start handoff_calls).panicked ≡ false)
sent_to_own_request_example = sent_to_own_request handoff_calls

-- The request 7 is waiting.
abbrev registered : Ingress sdk (OrderedCompletion sdk)
registered = run_ingress ingress (
    registers (record { identity = 0; owner = owner; method = ""; delivery = 0 }) "prompt"
      (returned (record { request_id = 7; sent = 0 }))
    ∷ [])

intercept_routes_example :
    let (i, io, answer) = intercept registered.ingress registered.io (Dispatch.response (ok 3) 7) in
    ((registered.ingress.poisoned ≡ false)
      × (waiting registered 7 ≡ false)
      × (i ≡ registered.ingress)
      × (io ≡ registered.io)
      × (answer ≡ ok (no (Dispatch.response (ok 3) 7) false)))
    ⊎ (((registered.ingress.poisoned ≡ true) ⊎ (waiting registered 7 ≡ true))
        × (sent : List (Effect sdk (OrderedCompletion sdk))) × (length sent ≤ 1)
        × All (λ e. is_event e ≡ true) sent
        × (io.effects ≡ registered.io.effects ++ (sent ++ routes 7 (ok 3) ∷ []))
        × (declined answer ≡ false)
        × (registered.ingress.poisoned ≡ false → get (λ a b. a == b) i.pending 7 ≡ none)
        × ((j : ℕ)
            → (7 == j) ≡ false
            → get (λ a b. a == b) i.pending j ≡ get (λ a b. a == b) registered.ingress.pending j))
intercept_routes_example = intercept_routes registered (ok 3) 7
