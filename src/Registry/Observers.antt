-- ===== src/Registry/Observers.antt =====
-- The observers of a session and the countdown of their absence (session_observers.rs).
use attyd.Common.{
  ℕ, Bool, true, false, not, ◌&&◌, ◌||◌, Option, none, some, [], ◌∷◌, ◌==◌, if◌then◌else◌, is_some,
  is_none, retain, next_counter, nonempty, all,
}
use attyd.Common.NatDict.{NatDict, entry_at, store, forget}
use attyd.Session.Types.{SessionLifecycle, active, deleting, closed}
use attyd.Registry.Shared.{
  Shared, AutoClosePermit, ObservationLease, new_permit, same_permit, cancel_permit, cancel_lease,
  is_cancelled, is_finished, same_lease,
}

pub data SessionWork : Type 0 where
  idle running awaiting_interaction : SessionWork

pub record AbsenceTimer : Type 0 where
  pub id : ℕ
  pub started : ℕ
  pub timeout : ℕ
  pub permit : AutoClosePermit

pub record SessionObservers : Type 0 where
  pub observers : NatDict ObservationLease
  pub next_absence : ℕ
  pub absence : Option AbsenceTimer
  pub close_attempted : Bool

abbrev pub no_observers : SessionObservers
no_observers = record { observers = []; next_absence = 0; absence = none; close_attempted = false }

abbrev pub is_idle : SessionWork → Bool
is_idle SessionWork.idle = true
is_idle _ = false

abbrev pub is_active : Option SessionLifecycle → Bool
is_active (some active) = true
is_active _ = false

-- `lifecycle.is_none_or(...)` in `refresh`.
abbrev pub is_over : Option SessionLifecycle → Bool
is_over none = true
is_over (some closed) = true
is_over (some deleting) = true
is_over _ = false

unfoldable pub cancel_absence : Shared → SessionObservers → Shared × SessionObservers
cancel_absence m o = (
  elim o.absence [ none ↦ m | some timer ↦ cancel_permit m timer.permit ],
  record o { absence = none },
)

-- A lease that is new here.
unfoldable pub observe_new :
    Shared → SessionObservers → ℕ → ObservationLease → Shared × SessionObservers
unfolding cancel_absence
observe_new m o id lease =
    let (m', o') = cancel_absence m (record o { observers = store o.observers id lease }) in
    (m', record o' { close_attempted = false })

unfoldable pub observe :
    Shared → SessionObservers → ℕ → ObservationLease → Shared × SessionObservers × Bool
unfolding observe_new
observe m o id lease =
    if is_cancelled m lease || is_finished m lease
    then (m, o, false)
    else elim (entry_at o.observers id) [
      | some existing ↦ (m, o, same_lease existing lease)
      | none ↦ let (m', o') = observe_new m o id lease in (m', o', true)
    ]

unfoldable pub unobserve :
    Shared → SessionObservers → ℕ → ObservationLease → Shared × SessionObservers × Bool
unobserve m o id lease = elim (entry_at o.observers id) [
  | none ↦ (m, o, false)
  | some existing ↦
      if same_lease existing lease
      then (cancel_lease m existing, record o { observers = forget o.observers id }, true)
      else (m, o, false)
]

abbrev pub live_observers : Shared → SessionObservers → SessionObservers
live_observers m o = record o {
  observers = retain (λ (e : ℕ × ObservationLease). not (is_cancelled m e.1)) o.observers;
}

-- What clears the deadline in `refresh`; a negative timeout is `none`.
unfoldable pub is_busy : SessionObservers → Option SessionLifecycle → SessionWork → Option ℕ → Bool
is_busy o lifecycle work timeout =
    is_none timeout || is_over lifecycle || nonempty o.observers || not (is_idle work)

-- The new timer of `refresh`.
unfoldable pub start_absence :
    Shared → SessionObservers → ℕ → ℕ → Shared × SessionObservers × Option AbsenceTimer
start_absence m o timeout now =
    let (m', permit) = new_permit m in
    let id = next_counter o.next_absence in
    let timer : AbsenceTimer = record {
      id = id;
      started = now;
      timeout = timeout;
      permit = permit;
    } in
    (m', record o { next_absence = id; absence = some timer }, some timer)

unfoldable pub refresh :
    Shared
    → SessionObservers
    → Option SessionLifecycle
    → SessionWork
    → Option ℕ
    → ℕ
    → Shared × SessionObservers × Option AbsenceTimer
unfolding cancel_absence start_absence
refresh m o lifecycle work timeout now =
    let o' = live_observers m o in
    if is_busy o' lifecycle work timeout
    then (let (m', o'') = cancel_absence m o' in (m', o'', none))
    else if is_some o'.absence || o'.close_attempted || not (is_active lifecycle)
    then (m, o', none)
    else elim timeout [ none ↦ (m, o', none) | some seconds ↦ start_absence m o' seconds now ]

unfoldable pub mark_close_attempted : SessionObservers → SessionObservers
mark_close_attempted o = record o { close_attempted = true }

unfoldable pub matches_absence : Shared → SessionObservers → ℕ → AutoClosePermit → Bool
matches_absence m o id permit =
    elim o.absence [ none ↦ false | some timer ↦ timer.id == id && same_permit timer.permit permit ]
    && all (λ (e : ℕ × ObservationLease). is_cancelled m e.1) o.observers

unfoldable pub cancel_leases : Shared → NatDict ObservationLease → Shared
cancel_leases m [] = m
cancel_leases m ((id, lease) ∷ rest) = cancel_leases (cancel_lease m lease) rest

unfoldable pub shutdown : Shared → SessionObservers → Shared × SessionObservers
unfolding cancel_absence cancel_leases
shutdown m o =
    let (m', o') = cancel_absence m o in
    (cancel_leases m' o'.observers, record o' { observers = [] })

unfoldable pub stop_absence : Shared → SessionObservers → Shared × SessionObservers
unfolding cancel_absence
stop_absence m o = cancel_absence m o

unfoldable pub drain_for_finish :
    Shared → SessionObservers → Shared × SessionObservers × NatDict ObservationLease
unfolding cancel_absence
drain_for_finish m o =
    let (m', o') = cancel_absence m o in (m', record o' { observers = [] }, o'.observers)
