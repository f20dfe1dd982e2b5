-- ===== src/Tests/RegistryRuns.antt =====
-- The theorems on the registry, the mirror and the journal at concrete inputs.
use attyd.Common.{ℕ, true, false, none, some, List, [], ◌∷◌, ◌≡◌, refl, arith}
use attyd.Session.Types.{SessionLifecycle, active}
use attyd.Session.Turn.{
  count_bytes, admit_turn, check_turn_admission, check_settled, serialized_len,
}
use attyd.Session.Admission.{
  new_ready, new_cold, can_begin, phase_allows, turn_execution, observation_retired,
}
use attyd.History.Keys.{find, put, remove_key, key_eq}
use attyd.Common.{Option}
use attyd.Common.Dict.{lookup, insert}
use attyd.Mirror.Sessions.{register_history, replace_previous, install_state}
use attyd.Mirror.Turns.{start_turn, admit}
use attyd.Registry.Shared.{is_cancelled, is_finished, new_permit}
use attyd.History.Cache.{install_empty, new_cache}
use attyd.Registry.Shared.{Shared, AutoClosePermit, ObservationLease, claim, pending}
use attyd.Registry.Observers.{
  is_busy, SessionWork, AbsenceTimer, no_observers, refresh, live_observers,
}
use attyd.Registry.Absence.{Watch, Event, observes, refreshes, attempts_close, claims, step, run}
use attyd.Registry.Countdown.{
  Armed, run-Armed, returning_observer, claimed_once, close_attempted_once, refresh_arms,
}
use attyd.Runtime.Changes.{Wire, session_removed}
use attyd.Runtime.Journal.{
  new_journal, deltas_after, commit, delta_bytes, release_through, retire_turn_payload,
}
use attyd.Runtime.Feed.{
  Publication, commits, releases, retires, publish, publish_all, advance_all, empty_feed, since,
}
use attyd.Runtime.Refinement.{journal_feed}
use attyd.Runtime.Bytes.{total, journal_bytes}
use attyd.Registry.Types.{new_registry}
use attyd.Mirror.Store.{Packages, require_state, set_state}
use attyd.Mirror.Machine
use attyd.Mirror.Machine.{Call, registers, starts_turn}
use attyd.Mirror.Moves.{overlay_total}
use attyd.Mirror.Overlays.{overlay_bytes_exact}
use attyd.Tests.Plain.{plain, codec}

abbrev cells : Shared
cells = record { tokens = λ _. false; permits = λ _. 0; sent = []; next_address = 9 }

abbrev permit : AutoClosePermit
permit = record { state = 0; cancelled = 0 }

abbrev lease : ObservationLease
lease = record { cancellation = 3; finished = 4 }

abbrev timer : AbsenceTimer
timer = record { id = 1; started = 0; timeout = 30; permit = permit }

-- A session that nobody observes, with its countdown.
abbrev unobserved : Watch
unobserved = record {
  shared = cells;
  observers = record no_observers { next_absence = 1; absence = some timer };
}

unobserved-Armed : Armed unobserved
unobserved-Armed = (refl, omega arith, omega arith)

abbrev later : List Event
later = refreshes (some active) SessionWork.idle (some 30) 5 ∷ claims permit ∷ []

run-Armed_example : Armed (run unobserved later)
run-Armed_example = run-Armed unobserved later unobserved-Armed

returning_observer_example :
    (claim (run (step unobserved (observes 1 lease)) later).shared permit).1 ≡ false
unfolding is_cancelled is_finished
returning_observer_example =
    returning_observer unobserved timer 1 lease later refl unobserved-Armed refl refl

claimed_once_example :
    let w = run (step unobserved (claims permit)) later in
    ((claim w.shared permit).1 ≡ false) × (w.shared.permits 0 ≡ 1)
unfolding claim
claimed_once_example = claimed_once unobserved later permit (omega arith) refl

close_attempted_once_example :
    let w = run (step unobserved attempts_close) later in
    (refresh w.shared w.observers (some active) SessionWork.idle (some 30) 6).2 ≡ none
close_attempted_once_example =
    close_attempted_once unobserved later (some active) SessionWork.idle (some 30) 6
      (refl, (refl, tt))

abbrev armed : AbsenceTimer
armed = record { id = 1; started = 5; timeout = 30; permit = record { state = 9; cancelled = 9 } }

refresh_arms_example :
    (◌≡◌ {A = Option SessionLifecycle} (some active) (some active))
    × (SessionWork.idle ≡ SessionWork.idle)
    × (◌≡◌ {A = Option ℕ} (some 30) (some 30))
    × (◌≡◌ {A = ℕ} 5 5)
    × ((live_observers cells no_observers).observers ≡ [])
    × (no_observers.absence ≡ none)
    × (no_observers.close_attempted ≡ false)
    × ((refresh cells no_observers (some active) SessionWork.idle (some 30) 5).1.absence
        ≡ some armed)
    × (pending
          (refresh cells no_observers (some active) SessionWork.idle (some 30) 5).0
          armed.permit
        ≡ true)
unfolding refresh is_busy new_permit
refresh_arms_example =
    refresh_arms cells no_observers (some active) SessionWork.idle (some 30) 5 armed refl

abbrev wire : Wire plain
wire = record { to_writer = λ _. some ((1 ∷ 2 ∷ []) ∷ []) }

abbrev publications : List (Publication plain)
publications =
    commits "epoch" none (session_removed "a" 1)
    ∷ commits "epoch" none (session_removed "b" 2)
    ∷ releases 1
    ∷ retires "a" 1 "operation"
    ∷ []

journal_feed_example :
    deltas_after (publish_all wire new_journal publications) 1
    ≡ since (advance_all empty_feed publications) 1
journal_feed_example = journal_feed wire publications 1 (omega arith)

journal_bytes_example :
    (publish_all wire new_journal publications).bytes
    ≡ total (publish_all wire new_journal publications).deltas
unfolding publish commit delta_bytes release_through retire_turn_payload count_bytes
journal_bytes_example = journal_bytes wire publications (omega arith)

abbrev packages : Packages plain
packages = record {
  codec = codec;
  encoder = record {
    value_bytes = λ _. 1;
    encoded_len = λ _. 2;
    digest = λ _. [];
    format_revision = λ _ _ _. "revision";
  };
  format_operation = λ _ _. "operation";
  value_len = λ _. 1;
}

abbrev calls : List (Call plain)
calls =
    record { session_id = "a"; incarnation = 1; action = registers true }
    ∷ record { session_id = "a"; incarnation = 1; action = starts_turn "revision" "intent" [] }
    ∷ []

overlay_bytes_exact_example :
    (Machine.run packages (new_registry "epoch" cells) calls).overlay_bytes
    ≡ overlay_total (Machine.run packages (new_registry "epoch" cells) calls).sessions
unfolding Machine.step register_history start_turn overlay_total lookup insert new_registry
    new_ready new_cold install_empty new_cache require_state set_state admit admit_turn
    check_turn_admission check_settled can_begin phase_allows turn_execution serialized_len
    count_bytes find put remove_key key_eq observation_retired replace_previous install_state
overlay_bytes_exact_example = overlay_bytes_exact packages "epoch" cells calls (omega arith)
