-- ===== src/Tests/DispatchRuns.antt =====
-- The theorems on the dispatcher at concrete calls.
use attyd.Common.{ℕ, false, List, [], ◌∷◌, ◌++◌, ◌≡◌, refl, ◌⊎◌, if◌then◌else◌, ok, ◌≢◌}
use attyd.Common.Dict.{lookup, insert}
use attyd.Dispatch.Types.{ordinary, reserved, SessionHandle, handle_eq}
use attyd.Dispatch.Ops.{
  new, register, register_new, allocate, try_next, drop_queue, validate_handle, try_route, accept,
  enqueue, returned, remove, detach,
}
use attyd.Dispatch.Sound.{Sound}
use attyd.Dispatch.Owned.{Owned, run-Owned, start-Owned}
use attyd.Dispatch.Safety.{run-Sound, start-Sound, never_panics}
use attyd.Dispatch.Progress.{GaveNothing, Waits, Took, try_next-Took}
use attyd.Dispatch.Fifo.{events_in, events_out, waiting, fifo}
use attyd.Dispatch.Exclusive.{holders, one_delivery}
use attyd.Dispatch.System.{
  World, Action, registers, routes, takes, finishes, step, run, start, panics, removes,
}
use attyd.Dispatch.Revoked.{removed_handle}

abbrev handle : SessionHandle
handle = record {
  epoch = "epoch";
  session_id = "session";
  incarnation = 1;
  allocation = 1;
  registry = 7;
}

abbrev opening : List (Action ℕ)
opening = registers "session" 1 ∷ routes handle ordinary 4 10 ∷ []

abbrev traffic : List (Action ℕ)
traffic = takes ∷ routes handle reserved 0 11 ∷ takes ∷ finishes 0 ∷ takes ∷ []

abbrev opened : World ℕ
opened = run (start "epoch" 7) opening

opened-Sound : Sound opened.dispatch
opened-Sound = run-Sound (start "epoch" 7) opening (start-Sound "epoch" 7)

opened-Owned : Owned opened.dispatch.registry
opened-Owned = run-Owned (start "epoch" 7) opening (start-Sound "epoch" 7) (start-Owned ℕ "epoch" 7)

never_panics_example :
    (panics (step (run (start {E = ℕ} "epoch" 7) opening) takes).1 ≡ false)
    × ((run (start {E = ℕ} "epoch" 7) opening).dispatch.poisoned ≡ false)
never_panics_example = never_panics "epoch" 7 opening takes

try_next-Took_example :
    (GaveNothing opened.dispatch (try_next opened.dispatch) × Waits opened.dispatch)
    ⊎ Took opened.dispatch (try_next opened.dispatch)
unfolding run start step new register register_new allocate drop_queue try_route accept enqueue
    validate_handle lookup insert handle_eq
try_next-Took_example = try_next-Took opened.dispatch opened-Sound.lock refl opened-Sound.ready

fifo_example :
    events_out "session" opened traffic ++ waiting "session" (run opened traffic)
    ≡ waiting "session" opened ++ events_in "session" opened traffic
fifo_example = fifo opened traffic "session" opened-Sound opened-Owned refl

one_delivery_example :
    let w = run (start {E = ℕ} "epoch" 7) (opening ++ takes ∷ []) in
    holders 1 w.held ≡ (if w.dispatch.busy 1 then 1 else 0)
one_delivery_example = one_delivery "epoch" 7 (opening ++ takes ∷ []) 1

-- The session is registered again after the removal of its handle.
abbrev reopening : List (Action ℕ)
reopening = registers "session" 1 ∷ routes handle ordinary 1 12 ∷ []

removed_handle_example :
    let w = run (step (run (start {E = ℕ} "epoch" 7) opening) (removes handle)).0 reopening in
    (validate_handle w.dispatch handle ≢ ok tt)
    × ((try_route w.dispatch handle ordinary 4 13).1 ≢ returned (ok tt))
    × ((remove w.dispatch handle).1 ≢ ok tt)
unfolding run start step new register register_new allocate drop_queue try_route accept enqueue
    validate_handle lookup insert handle_eq remove detach
removed_handle_example = removed_handle "epoch" 7 opening handle reopening ordinary 4 13 refl
