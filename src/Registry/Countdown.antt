-- ===== src/Registry/Countdown.antt =====
-- What holds of the countdown of absence over any events.
use attyd.Common.{
  All, nonempty-nil, ℕ, ◌<◌, Bool, true, false, Option, none, some, List, [], ◌∷◌, ◌≡◌, ◌≢◌, inl,
  inr, refl, arith, Option-cases,
}
use attyd.Common.NatDict.{NatDict, entry_at, store}
use attyd.Registry.Shared.{
  pending, Shared, AutoClosePermit, ObservationLease, new_permit, new_lease, claim, cancel_permit,
  cancel_lease, finish_lease, cancel_token, is_cancelled, is_finished,
}
use attyd.Session.Types.{SessionLifecycle, active}
use attyd.Registry.Observers.{
  SessionWork, live_observers, is_busy, SessionObservers, AbsenceTimer, cancel_absence, observe,
  observe_new, unobserve, refresh, start_absence, mark_close_attempted, shutdown, stop_absence,
  drain_for_finish, cancel_leases,
}
use attyd.Registry.Absence.{
  Watch, Event, observes, unobserves, refreshes, attempts_close, stops, drains, shuts_down,
  creates_lease, claims, cancels_lease, finishes_lease, step, run,
}

-- The cell of a permit that is claimed or cancelled keeps its value `v`.
abbrev Settled : ℕ → ℕ → Shared → Type 0
Settled a v m = (m.permits a ≡ v) × (a < m.next_address)

module _ (a v : ℕ) (ne : v ≢ 0) where
  cancel_permit-Settled :
      (m : Shared) (p : AutoClosePermit) → Settled a v m → Settled a v (cancel_permit m p)
  unfolding cancel_permit cancel_token
  cancel_permit-Settled m p h = ground arith

  cancel_absence-Settled :
      (m : Shared) (o : SessionObservers) → Settled a v m → Settled a v (cancel_absence m o).0
  unfolding cancel_absence
  cancel_absence-Settled m o h = elim (Option-cases o.absence) [
    | inl e ↦ rw e h
    | inr (t, e) ↦ rw e (cancel_permit-Settled m t.permit h)
  ]

  cancel_leases-Settled :
      (m : Shared) (l : NatDict ObservationLease) → Settled a v m → Settled a v (cancel_leases m l)
  unfolding cancel_leases cancel_lease cancel_token
  cancel_leases-Settled m [] h = h
  cancel_leases-Settled m ((id, lease) ∷ rest) h =
      cancel_leases-Settled (cancel_lease m lease) rest h

  observe-Settled :
      (m : Shared) (o : SessionObservers) (id : ℕ) (lease : ObservationLease)
      → Settled a v m
      → Settled a v (observe m o id lease).0
  unfolding observe observe_new
  observe-Settled m o id lease h =
      ground (arith, cancel_absence-Settled m (record o { observers = store o.observers id lease }))

  refresh-Settled :
      (m : Shared) (o : SessionObservers) (lifecycle : Option SessionLifecycle) (work : SessionWork)
      (timeout : Option ℕ) (now : ℕ)
      → Settled a v m
      → Settled a v (refresh m o lifecycle work timeout now).0
  unfolding refresh start_absence new_permit
  refresh-Settled m o lifecycle work timeout now h =
      ground (arith, cancel_absence-Settled m (live_observers m o))

  step-Settled : (w : Watch) (e : Event) → Settled a v w.shared → Settled a v (step w e).shared
  unfolding step
  step-Settled w (observes id lease) h = observe-Settled w.shared w.observers id lease h
  step-Settled w (unobserves id lease) h =
      unfold unobserve cancel_lease cancel_token in ground arith
  step-Settled w (refreshes lifecycle work timeout now) h =
      refresh-Settled w.shared w.observers lifecycle work timeout now h
  step-Settled w attempts_close h = h
  step-Settled w stops h = unfold stop_absence in cancel_absence-Settled w.shared w.observers h
  step-Settled w drains h = unfold drain_for_finish in cancel_absence-Settled w.shared w.observers h
  step-Settled w shuts_down h =
      unfold shutdown in
      cancel_leases-Settled (cancel_absence w.shared w.observers).0
        (cancel_absence w.shared w.observers).1.observers
        (cancel_absence-Settled w.shared w.observers h)
  step-Settled w creates_lease h = unfold new_lease in ground arith
  step-Settled w (claims permit) h = unfold claim in ground arith
  step-Settled w (cancels_lease lease) h = unfold cancel_lease cancel_token in h
  step-Settled w (finishes_lease lease) h = unfold finish_lease cancel_token in h

  pub run-Settled :
      (w : Watch) (es : List Event) → Settled a v w.shared → Settled a v (run w es).shared
  unfolding run
  run-Settled w [] h = h
  run-Settled w (e ∷ es) h = run-Settled (step w e) es (step-Settled w e h)

-- The countdown that is armed: nobody observes, and its permit is not cancelled.
abbrev pub Armed : Watch → Type 0
Armed w = elim w.observers.absence [
  | none ↦ Unit
  | some t ↦
      (w.observers.observers ≡ [])
      × (t.permit.state < w.shared.next_address)
      × (w.shared.permits t.permit.state ≢ 2)
]

step-Armed : (w : Watch) (e : Event) → Armed w → Armed (step w e)
unfolding step observe observe_new unobserve refresh start_absence mark_close_attempted shutdown
    stop_absence drain_for_finish cancel_absence new_permit new_lease claim cancel_lease
    finish_lease cancel_token
step-Armed w (observes id lease) h = ground (arith)
step-Armed w (unobserves id lease) h = unfold entry_at in ground arith
step-Armed w (refreshes lifecycle work timeout now) h =
    unfold is_busy in ground (arith, nonempty-nil (live_observers w.shared w.observers).observers)
step-Armed w attempts_close h = h
step-Armed w stops h = tt
step-Armed w drains h = tt
step-Armed w shuts_down h = tt
step-Armed w creates_lease h = ground arith
step-Armed w (claims permit) h = ground arith
step-Armed w (cancels_lease lease) h = h
step-Armed w (finishes_lease lease) h = h

-- Over any events, while the countdown of a session is armed nobody observes it and its permit has
-- not been cancelled.
pub run-Armed : (w : Watch) (es : List Event) → Armed w → Armed (run w es)
unfolding run
run-Armed w [] h = h
run-Armed w (e ∷ es) h = run-Armed (step w e) es (step-Armed w e h)

-- The observer that returns.
observe-revokes :
    (w : Watch) (t : AbsenceTimer) (id : ℕ) (lease : ObservationLease)
    → w.observers.absence ≡ some t
    → Armed w
    → is_cancelled w.shared lease ≡ false
    → is_finished w.shared lease ≡ false
    → ((step w (observes id lease)).shared.permits t.permit.state ≢ 0)
      × (t.permit.state < (step w (observes id lease)).shared.next_address)
      × ((step w (observes id lease)).observers.absence ≡ none)
unfolding step observe observe_new cancel_absence cancel_permit cancel_token entry_at
observe-revokes w t id lease e h c f = ground arith

-- When an observer with a live lease comes to a session whose countdown is armed, the permit of
-- the countdown can never be claimed afterwards, whatever events follow.
pub returning_observer :
    (w : Watch) (t : AbsenceTimer) (id : ℕ) (lease : ObservationLease) (es : List Event)
    → w.observers.absence ≡ some t
    → Armed w
    → is_cancelled w.shared lease ≡ false
    → is_finished w.shared lease ≡ false
    → (claim (run (step w (observes id lease)) es).shared t.permit).1 ≡ false
unfolding claim
returning_observer w t id lease es e h c f =
    let (ne, lt, _) = observe-revokes w t id lease e h c f in
    let kept =
      run-Settled t.permit.state ((step w (observes id lease)).shared.permits t.permit.state) ne
        (step w (observes id lease)) es (refl, lt) in
    ground arith

-- A permit that has been claimed stays claimed and is never claimed again, whatever observers,
-- refreshes and cancellations follow.
pub claimed_once :
    (w : Watch) (es : List Event) (p : AutoClosePermit)
    → p.state < w.shared.next_address
    → (claim w.shared p).1 ≡ true
    → let w' = run (step w (claims p)) es in
      ((claim w'.shared p).1 ≡ false) × (w'.shared.permits p.state ≡ 1)
unfolding claim
claimed_once w es p lt h =
    let kept =
      run-Settled p.state 1 (omega arith) (step w (claims p)) es (unfold step in ground arith) in
    ground arith

abbrev pub is_observation : Event → Bool
is_observation (observes _ _) = true
is_observation _ = false

step-close_attempted :
    (w : Watch) (e : Event)
    → is_observation e ≡ false
    → w.observers.close_attempted ≡ true
    → (step w e).observers.close_attempted ≡ true
unfolding step unobserve refresh start_absence mark_close_attempted shutdown stop_absence
    drain_for_finish cancel_absence
step-close_attempted w (observes id lease) q h = cc
step-close_attempted w (unobserves id lease) q h = ground arith
step-close_attempted w (refreshes lifecycle work timeout now) q h = ground arith
step-close_attempted w (claims permit) q h = h
step-close_attempted w (cancels_lease lease) q h = h
step-close_attempted w (finishes_lease lease) q h = h
step-close_attempted w attempts_close q h = refl
step-close_attempted w _ q h = h

run-close_attempted :
    (w : Watch) (es : List Event)
    → All (λ e. is_observation e ≡ false) es
    → w.observers.close_attempted ≡ true
    → (run w es).observers.close_attempted ≡ true
unfolding run
run-close_attempted w [] q h = h
run-close_attempted w (e ∷ es) q h =
    run-close_attempted (step w e) es q.1 (step-close_attempted w e q.0 h)

-- Once an automatic close has been attempted, no refresh arms a new countdown until an observer
-- comes, whatever other events occur in between.
pub close_attempted_once :
    (w : Watch) (es : List Event) (lifecycle : Option SessionLifecycle) (work : SessionWork)
    (timeout : Option ℕ) (now : ℕ)
    → All (λ e. is_observation e ≡ false) es
    → let w' = run (step w attempts_close) es in
      (refresh w'.shared w'.observers lifecycle work timeout now).2 ≡ none
unfolding refresh
close_attempted_once w es lifecycle work timeout now q =
    let kept =
      run-close_attempted (step w attempts_close) es q (unfold step mark_close_attempted in refl) in
    ground arith

-- A refresh gives a timer only for an active, idle session with a timeout of 0 or more, no
-- observer whose lease is live, no countdown and no close attempted; the timer then has that
-- timeout, starts now, is the countdown of the session, and its permit is pending.
pub refresh_arms :
    (m : Shared) (o : SessionObservers) (lifecycle : Option SessionLifecycle) (work : SessionWork)
    (timeout : Option ℕ) (now : ℕ) (t : AbsenceTimer)
    → (refresh m o lifecycle work timeout now).2 ≡ some t
    → (lifecycle ≡ some active)
      × (work ≡ SessionWork.idle)
      × (timeout ≡ some t.timeout)
      × (t.started ≡ now)
      × ((live_observers m o).observers ≡ [])
      × (o.absence ≡ none)
      × (o.close_attempted ≡ false)
      × ((refresh m o lifecycle work timeout now).1.absence ≡ some t)
      × (pending (refresh m o lifecycle work timeout now).0 t.permit ≡ true)
unfolding refresh start_absence new_permit pending is_busy
refresh_arms m o lifecycle work timeout now t h =
    ground (arith, nonempty-nil (live_observers m o).observers)
