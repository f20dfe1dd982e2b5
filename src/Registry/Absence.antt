-- ===== src/Registry/Absence.antt =====
-- The observers of one session over time: what the bridge does to them and to their shared cells
-- (session_observers.rs, auto_close.rs, session_observation.rs).
use attyd.Common.{ℕ, Option, List, [], ◌∷◌}
use attyd.Session.Types.{SessionLifecycle}
use attyd.Registry.Shared.{
  Shared, AutoClosePermit, ObservationLease, claim, new_lease, cancel_lease, finish_lease,
}
use attyd.Registry.Observers.{
  SessionWork, SessionObservers, observe, unobserve, refresh, mark_close_attempted, shutdown,
  stop_absence, drain_for_finish,
}

pub record Watch : Type 0 where
  pub shared : Shared
  pub observers : SessionObservers

pub data Event : Type 0 where
  observes unobserves : ℕ → ObservationLease → Event
  refreshes : Option SessionLifecycle → SessionWork → Option ℕ → ℕ → Event
  attempts_close stops drains shuts_down creates_lease : Event
  claims : AutoClosePermit → Event
  cancels_lease finishes_lease : ObservationLease → Event

abbrev watch : Shared → SessionObservers → Watch
watch m o = record { shared = m; observers = o }

unfoldable pub step : Watch → Event → Watch
unfolding observe unobserve refresh mark_close_attempted shutdown stop_absence drain_for_finish
step w (observes id lease) = let (m, o, _) = observe w.shared w.observers id lease in watch m o
step w (unobserves id lease) = let (m, o, _) = unobserve w.shared w.observers id lease in watch m o
step w (refreshes lifecycle work timeout now) =
    let (m, o, _) = refresh w.shared w.observers lifecycle work timeout now in watch m o
step w attempts_close = watch w.shared (mark_close_attempted w.observers)
step w stops = let (m, o) = stop_absence w.shared w.observers in watch m o
step w drains = let (m, o, _) = drain_for_finish w.shared w.observers in watch m o
step w shuts_down = let (m, o) = shutdown w.shared w.observers in watch m o
step w creates_lease = watch (new_lease w.shared).0 w.observers
step w (claims permit) = watch (claim w.shared permit).0 w.observers
step w (cancels_lease lease) = watch (cancel_lease w.shared lease) w.observers
step w (finishes_lease lease) = watch (finish_lease w.shared lease) w.observers

unfoldable pub run : Watch → List Event → Watch
run w [] = w
run w (e ∷ es) = run (step w e) es
