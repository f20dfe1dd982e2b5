-- ===== src/Dispatch/System.antt =====
-- The dispatcher and its callers: the calls in the order of the registry's lock, and the guards of
-- the deliveries that callers still hold.
use attyd.Common.{
  ℕ, String, Bool, true, false, Option, none, some, List, [], ◌∷◌, Result, ok, get_elem?, remove_at,
}
use attyd.Dispatch.Types.{
  TrafficClass, DispatchError, SessionHandle, DeliveryGuard, Delivery, Rejected, SessionDispatch,
}
use attyd.Dispatch.Ops.{
  Outcome, returned, panicked, new, drop_guard, register, try_route, try_next, remove, close,
}

pub record World (E : Type 0) : Type 0 where
  pub dispatch : SessionDispatch E
  pub held : List DeliveryGuard

-- `finish i` drops the guard of the delivery at place `i` among those that are held.
pub data Action (E : Type 0) : Type 0 where
  registers : String → ℕ → Action E
  routes : SessionHandle → TrafficClass → ℕ → E → Action E
  takes : Action E
  finishes : ℕ → Action E
  removes : SessionHandle → Action E
  closes : Action E

pub data Answer (E : Type 0) : Type 0 where
  registered : Result DispatchError SessionHandle → Answer E
  routed : Outcome (Result (Rejected E) (Unit {0})) → Answer E
  taken : Outcome (Result DispatchError (Option (Delivery E))) → Answer E
  finished : Answer E
  removed : Result DispatchError (Unit {0}) → Answer E

module _ {E : Type 0} where
  -- The guard that a call of `try_next` hands out.
  abbrev pub hold :
      Outcome (Result DispatchError (Option (Delivery E))) → List DeliveryGuard → List DeliveryGuard
  hold (returned (ok (some delivery))) held = delivery.guard ∷ held
  hold _ held = held

  unfoldable pub finish : World E → ℕ → World E
  finish w i = elim (get_elem? w.held i) [
    | none ↦ w
    | some guard ↦ record { dispatch = drop_guard w.dispatch guard; held = remove_at w.held i }
  ]

  unfoldable pub step : World E → Action E → World E × Answer E
  step w (registers id n) =
      let (d, r) = register w.dispatch id n in (record w { dispatch = d }, registered r)
  step w (routes handle class bytes event) =
      let (d, r) = try_route w.dispatch handle class bytes event in
      (record w { dispatch = d }, routed r)
  step w takes =
      let (d, r) = try_next w.dispatch in (record { dispatch = d; held = hold r w.held }, taken r)
  step w (finishes i) = (finish w i, finished)
  step w (removes handle) =
      let (d, r) = remove w.dispatch handle in (record w { dispatch = d }, removed r)
  step w closes = let (d, r) = close w.dispatch in (record w { dispatch = d }, removed r)

  unfoldable pub run : World E → List (Action E) → World E
  run w [] = w
  run w (a ∷ actions) = run (step w a).0 actions

  unfoldable pub start : String → ℕ → World E
  start epoch identity = record { dispatch = new epoch identity; held = [] }

  abbrev pub panics : Answer E → Bool
  panics (routed panicked) = true
  panics (taken panicked) = true
  panics _ = false
