-- ===== src/Dispatch/Safety.antt =====
-- No call of the dispatcher fails an `expect`, so its mutex is never poisoned.
use attyd.Common.{ℕ, String, false, List, [], ◌∷◌, ◌≡◌, refl, ◌∙◌, arith}
use attyd.Common.Dict.{lookup}
use attyd.Dispatch.Ops.{new, drop_guard}
use attyd.Dispatch.Next.{try_next-Safe}
use attyd.Dispatch.Sound.{Sound, register-Sound, try_route-Sound, remove-Sound, close-Sound}
use attyd.Dispatch.System.{
  World, Action, registers, routes, takes, finishes, removes, closes, finish, step, run, start,
  panics,
}

module _ {E : Type 0} where
  pub step-Sound : (w : World E) (a : Action E) → Sound w.dispatch → Sound (step w a).0.dispatch
  unfolding step finish drop_guard
  step-Sound w (registers id n) v = register-Sound w.dispatch id n v
  step-Sound w (routes handle class bytes event) v =
      (try_route-Sound w.dispatch handle class bytes event v).0
  step-Sound w takes v =
      let safe = try_next-Safe w.dispatch v.ready in
      record { lock = safe.lock ∙ v.lock; ready = safe.kept }
  step-Sound w (finishes i) v = record {
    lock = ground (arith, v.lock);
    ready = λ k. ground (arith, v.ready k);
  }
  step-Sound w (removes handle) v = remove-Sound w.dispatch handle v
  step-Sound w closes v = close-Sound w.dispatch v

  step-no_panic : (w : World E) (a : Action E) → Sound w.dispatch → panics (step w a).1 ≡ false
  unfolding step
  step-no_panic w (registers id n) v = refl
  step-no_panic w (routes handle class bytes event) v =
      ground (arith, (try_route-Sound w.dispatch handle class bytes event v).1)
  step-no_panic w takes v = ground (arith, (try_next-Safe w.dispatch v.ready).no_panic)
  step-no_panic w (finishes i) v = refl
  step-no_panic w (removes handle) v = refl
  step-no_panic w closes v = refl

  pub run-Sound :
      (w : World E) (actions : List (Action E)) → Sound w.dispatch → Sound (run w actions).dispatch
  unfolding run
  run-Sound w [] v = v
  run-Sound w (a ∷ actions) v = run-Sound (step w a).0 actions (step-Sound w a v)

  pub start-Sound : (epoch : String) (identity : ℕ) → Sound (start {E = E} epoch identity).dispatch
  unfolding start new lookup
  start-Sound epoch identity = record { lock = refl; ready = λ k. refl }

  -- In a new dispatcher no sequence of calls makes one panic, and its mutex is never poisoned.
  pub never_panics :
      (epoch : String) (identity : ℕ) (actions : List (Action E)) (a : Action E)
      → (panics (step (run (start epoch identity) actions) a).1 ≡ false)
        × ((run (start epoch identity) actions).dispatch.poisoned ≡ false)
  never_panics epoch identity actions a =
      let v = run-Sound (start epoch identity) actions (start-Sound epoch identity) in
      (step-no_panic _ a v, v.lock)
