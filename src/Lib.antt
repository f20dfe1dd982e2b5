-- ===== src/Lib.antt =====
-- A verification of the core of attyd, the bridge between a coding agent and its web clients.
--
-- The program keeps one record per session and orders the events of all sessions through one
-- dispatcher. Clients send business intents (prompts, exclusive operations); the agent sends
-- updates, which are folded into the turn in progress; completed turns and replays of history are
-- committed. The files:
--
-- - Json: `serde_json::Value` as a parameter of the model, with the laws that its documentation
--   gives. Session/Types has the parameter `Codec` for SHA-256 and the serializer.
-- - Fold: src/runtime_state.rs, `fold_shared_active_turn_update` and its helpers.
-- - History: Reference is `fold_history_update` of src/history_cache.rs; Builder is `HistoryBuilder`
--   of src/history_replay.rs, which finds the slot of an update by an index in place of a search.
--   Its byte count wraps as in a release build; `value_bytes` is a parameter. Candidate is
--   `ReplayCandidate` less its validation and its controls, Cache `HistoryCache`, where an address
--   stands for the `Arc` of a load's data; the parameter `Encoder` has the serializer, SHA-256 and
--   the formatting of a revision.
-- - Session: src/session_state.rs. Types has the record `SessionState`; Admission `can_begin`,
--   `begin_exclusive` and `settle_exclusive`; Turn `check_turn_admission`, `admit_turn`, the updates,
--   `complete_turn` and `block_turn`; History `validate_history_commit` and `history_committed`.
--   Load, Commit and View are the operations of src/session_mirror.rs on the state of one session:
--   `begin_load`, `fail_load`, the commits, and `SessionHistoryView`. Machine puts the operations
--   together as commands; what the history cache and the comparison of a replay with what is known
--   answer stands in the command, so the theorems hold for every answer.
-- - Dispatch: src/session_dispatch.rs. Ops has `register`, `try_route`, `try_next`, `remove` and
--   `close`; System the calls in the order in which they take the lock, and the guards that
--   callers hold.
-- - Registry: src/session_registry.rs, src/session_resources.rs and the observers of a session.
--   Shared has the cells that clones of a handle share (tokens, permits, leases: src/auto_close.rs and
--   src/session_observation.rs); Observers is src/session_observers.rs; Owners, Interactions and
--   Retirement are the operations of the registry; Absence is one session's observers over time.
-- - Ingress: src/ordered_ingress.rs. Types has the parameter `Sdk` for the protocol package; Ops the
--   operations with the effects that leave them in order; Calls the calls in the order in which they
--   take the lock. A panic of the call that sends leaves the lock poisoned; a queue that is closed
--   between the two tests of `complete` gives what it gives when it is closed before them.
-- - Handoff: src/completion_handoff.rs. Ops has what is done under the lock and what is left for
--   after it; System the handoff with its registrations, the sends that have left the lock, and the
--   turns that tasks hold or have dropped; Surrendered what the calls give up by their answers. Its
--   lock is never poisoned by an operation.
-- - Mirror: src/session_mirror.rs on the registry. Sessions registers and removes, Loads and Fallback
--   load a history through the cache, Turns and Intents apply the operations of Session to the state
--   in the registry, Terminals keeps the output of terminals, Compare compares a replay with what is
--   known. Machine has the calls in order; its parameter `Packages` is the serializer, SHA-256 and
--   formatting.
-- - Runtime: src/runtime_state.rs. Changes has what is published, Journal `RuntimeJournal`, Feed the
--   log that the journal stands for, InUse the check of identifiers. Interactions has the permissions
--   of one live session, the sealing of its turn and the drain of what is live.
-- - Tests: a concrete `Json` and `Codec`, and the theorems at concrete inputs.
--
-- A method returns the state that it leaves and its result; a failed `expect` is an answer of its
-- own. Machine integers keep their wrapping and saturating additions. `HashMap` and `BTreeMap` are
-- association lists, an `Arc` of an immutable value is the value, and the counters and busy flags
-- that are shared by `Arc` are a memory with the allocation number of the session as address. The
-- loop of `try_next` runs for the length of the ready list, as in the source.
--
-- A timeout of an absence is `none` where the source has a negative number. Fresh addresses of
-- shared cells are never given twice.
--
-- Not modelled: the asynchronous bridge, the server, processes and terminals, which are input and
-- output; the elicitations, terminals and lifecycle operations of the live half of a session
-- (src/runtime_state.rs); the event queue; of `ReplayCandidate`, `ingest`, `reject` and
-- `take_controls`, which validate and fold control updates. (`ingest`, by which the bridge feeds a
-- load, does nothing on sealed data and answers `Ok(())`; `append` answers a mismatch there.)
-- The commands of Session/Machine leave out `use_cached_history` and
-- `clear_history_for_replacement`, which Mirror/Machine has; the first sets the phase of the session
-- before a step of it can fail.
pub mod Common
pub mod Json
pub mod Dispatch
pub mod Fold
pub mod Handoff
pub mod History
pub mod Ingress
pub mod Mirror
pub mod Registry
pub mod Runtime
pub mod Session
pub mod Tests
