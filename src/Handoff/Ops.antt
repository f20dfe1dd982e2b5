-- ===== src/Handoff/Ops.antt =====
-- The operations of `CompletionHandoff` and `CompletionRegistration` (completion_handoff.rs).
use attyd.Common.{
  ℕ, String, Bool, true, false, not, ◌&&◌, ◌||◌, Option, none, some, List, [], ◌∷◌, ◌++◌, Result,
  ok, err, is_some, is_some_and, is_text, str_eq, ◌==◌, if◌then◌else◌, length, retain,
}
use attyd.Common.Keyed.{get, take_out, replace}
use attyd.Ingress.Types.{Sdk, RequestOwner}
use attyd.Handoff.Types.{
  HandoffError, HandoffDisposition, DiscardDisposition, BindDisposition, CompletionTurn, Entry,
  CompletionHandoff, CompletionRegistration, owner_eq, closed, duplicate_owner, registry_poisoned,
  withdrawn, already_bound, early_completion_already_parked, awaiting_completion, unbound,
  completion_unavailable,
}

-- What a call answers with the turns that it drops, or the turn that it is to send when it has left
-- the lock, with the entry that has the sender.
pub data Handed (S : Sdk) (A : Type 0) : Type 0 where
  answers : Result HandoffError A → List (CompletionTurn S) → Handed S A
  sends : Entry S → CompletionTurn S → Handed S A
  unreachable : Handed S A

abbrev pub parked : {A : Type 0} → Option A → List A
parked none = []
parked (some a) = a ∷ []

module _ (S : Sdk) where
  open S use {RequestId, id_eq}

  abbrev pub is_id : Option RequestId → RequestId → Bool
  is_id none id = false
  is_id (some found) id = id_eq found id

module _ {S : Sdk} where
  open S use {RequestId, id_eq}

  abbrev pub new_handoff : CompletionHandoff S
  new_handoff = record { closed = false; poisoned = false; entries = [] }

  abbrev pub new_entry : ℕ → Entry S
  new_entry allocation = record {
    allocation = allocation;
    request_id = none;
    sender = allocation;
    early = none;
    discarded_early = none;
  }

  unfoldable pub register :
      CompletionHandoff S
      → RequestOwner
      → ℕ
      → CompletionHandoff S × Result HandoffError (CompletionRegistration S)
  register h owner allocation =
      if h.poisoned
      then (h, err registry_poisoned)
      else if h.closed
      then (h, err closed)
      else if is_some (get owner_eq h.entries owner)
      then (h, err duplicate_owner)
      else (
        record h { entries = (owner, new_entry allocation) ∷ h.entries },
        ok (record { owner = owner; allocation = allocation; bound = false; receiver = none }),
      )

  abbrev pub with_entry : CompletionHandoff S → RequestOwner → Entry S → CompletionHandoff S
  with_entry h owner entry = record h { entries = replace owner_eq h.entries owner entry }

  abbrev pub without : CompletionHandoff S → RequestOwner → CompletionHandoff S
  without h owner = record h { entries = take_out owner_eq h.entries owner }

  -- The part of `handoff` under the lock.
  unfoldable pub handoff :
      CompletionHandoff S → CompletionTurn S → CompletionHandoff S × Handed S HandoffDisposition
  handoff h turn =
      let owner = turn.completion.owner in
      if h.poisoned
      then (h, answers (err registry_poisoned) (turn ∷ []))
      else if h.closed
      then (h, answers (err closed) (turn ∷ []))
      else elim (get owner_eq h.entries owner) [
        | none ↦ (h, answers (ok HandoffDisposition.unregistered) (turn ∷ []))
        | some entry ↦ elim entry.request_id [
          | none ↦
              if is_some entry.early || is_some entry.discarded_early
              then (h, answers (err early_completion_already_parked) (turn ∷ []))
              else (
                with_entry h owner (record entry { early = some turn }),
                answers (ok HandoffDisposition.parked_until_bound) [],
              )
          | some id ↦
              if id_eq id turn.completion.request_id
              then (without h owner, sends entry turn)
              else (h, answers (ok HandoffDisposition.stale_request_id) (turn ∷ []))
        ]
      ]

  -- The sender of an entry that has left the lock, and the registration with its receiver where a
  -- task still holds it. (A receiver that holds a turn has no sender left; a turn that it held
  -- would be dropped here.)
  unfoldable pub send :
      Entry S
      → CompletionTurn S
      → Option (CompletionRegistration S)
      → Option (CompletionRegistration S) × List (CompletionTurn S)
  send entry turn none = (none, turn ∷ parked entry.early)
  send entry turn (some registration) = (
    some (record registration { receiver = some turn }),
    parked registration.receiver ++ parked entry.early,
  )

  unfoldable pub discard :
      CompletionHandoff S
      → RequestOwner
      → RequestId
      → CompletionHandoff S × Result HandoffError DiscardDisposition × List (CompletionTurn S)
  discard h owner id =
      if h.poisoned then (h, err registry_poisoned, []) else elim (get owner_eq h.entries owner) [
        | none ↦ (h, ok DiscardDisposition.unregistered, [])
        | some entry ↦ elim entry.request_id [
          | some bound ↦
              if id_eq bound id
              then (without h owner, ok DiscardDisposition.discarded, parked entry.early)
              else (h, ok DiscardDisposition.stale_request_id, [])
          | none ↦
              if is_some_and entry.discarded_early (λ tombstone. not (id_eq tombstone id))
                || is_some_and entry.early (λ turn. not (id_eq turn.completion.request_id id))
              then (h, err early_completion_already_parked, [])
              else (
                with_entry h owner (record entry { discarded_early = some id; early = none }),
                ok DiscardDisposition.parked_until_bound,
                parked entry.early,
              )
        ]
      ]

  abbrev pub of_session : String → String → ℕ → RequestOwner × Entry S → Bool
  of_session epoch session_id incarnation (owner, _) =
      str_eq owner.epoch epoch
      && is_text owner.session_id session_id
      && is_some_and owner.incarnation (λ n. n == incarnation)

  abbrev pub early_turns : List (RequestOwner × Entry S) → List (CompletionTurn S)
  early_turns [] = []
  early_turns ((_, entry) ∷ rest) = parked entry.early ++ early_turns rest

  unfoldable pub discard_session :
      CompletionHandoff S
      → String
      → String
      → ℕ
      → CompletionHandoff S × Result HandoffError ℕ × List (CompletionTurn S)
  discard_session h epoch session_id incarnation =
      let here = of_session epoch session_id incarnation in
      let removed = retain here h.entries in
      if h.poisoned then (h, err registry_poisoned, []) else (
        record h { entries = retain (λ e. not (here e)) h.entries },
        ok (length removed),
        early_turns removed,
      )

  unfoldable pub close : CompletionHandoff S → CompletionHandoff S × List (CompletionTurn S)
  close h = (record h { closed = true; entries = [] }, early_turns h.entries)

  -- The entry that the registration made, if it is still there.
  abbrev pub own_entry : CompletionHandoff S → CompletionRegistration S → Option (Entry S)
  own_entry h registration = elim (get owner_eq h.entries registration.owner) [
    | none ↦ none
    | some entry ↦ if entry.allocation == registration.allocation then some entry else none
  ]

  -- `CompletionRegistration::bind` past the lock: what came early, whether the entry was removed,
  -- whether the tombstone is that of this request, and the tombstone.
  abbrev pub bound_early :
      Entry S → RequestId → Option (CompletionTurn S) → Bool → Bool → Handed S (BindDisposition S)
  bound_early entry id early removed true = answers (ok BindDisposition.discarded) (parked early)
  bound_early entry id (some turn) true false =
      sends (record entry { request_id = some id; early = none; discarded_early = none }) turn
  bound_early entry id (some turn) false false =
      answers (ok (awaiting_completion (some turn.completion.request_id))) (turn ∷ [])
  bound_early entry id none false false =
      answers (ok (awaiting_completion entry.discarded_early)) []
  bound_early entry id none true false = unreachable

  -- The part of `CompletionRegistration::bind` under the lock, and what follows. The handoff is
  -- absent when its last handle has been dropped.
  unfoldable pub bind :
      CompletionHandoff S
      → CompletionRegistration S
      → RequestId
      → CompletionHandoff S × CompletionRegistration S × Handed S (BindDisposition S)
  bind h registration id =
      if registration.bound
      then (h, registration, answers (err already_bound) [])
      else if h.poisoned
      then (h, registration, answers (err registry_poisoned) [])
      else if h.closed
      then (h, registration, answers (err closed) [])
      else elim (own_entry h registration) [
        | none ↦ (h, registration, answers (err withdrawn) [])
        | some entry ↦
            let tombstone = is_id S entry.discarded_early id in
            let removed =
              tombstone || is_some_and entry.early (λ turn. id_eq turn.completion.request_id id) in
            (
              (if removed
                  then without h registration.owner
                  else with_entry h registration.owner (record entry {
                    request_id = some id;
                    early = none;
                    discarded_early = none;
                  })),
              record registration { bound = true },
              bound_early entry id entry.early removed tombstone,
            )
      ]

  -- `Drop` of a registration: what leaves the map and the receiver.
  unfoldable pub drop_registration :
      CompletionHandoff S → CompletionRegistration S → CompletionHandoff S × List (CompletionTurn S)
  drop_registration h registration = elim (own_entry h registration) [
    | none ↦ (h, parked registration.receiver)
    | some entry ↦
        (without h registration.owner, parked entry.early ++ parked registration.receiver)
  ]

  -- `CompletionRegistration::wait`, polled; `sender` says whether a sender for it is left.
  unfoldable pub wait :
      CompletionRegistration S → Bool → Option (Result HandoffError (CompletionTurn S))
  wait registration sender =
      if not registration.bound then some (err unbound) else elim registration.receiver [
        | some turn ↦ some (ok turn)
        | none ↦ if sender then none else some (err completion_unavailable)
      ]
