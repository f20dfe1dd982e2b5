-- ===== src/Handoff/Surrendered.antt =====
-- What the calls of a handoff give up, by their answers (completion_handoff.rs).
use attyd.Common.{
  ℕ, ◌+◌, String, Bool, Option, none, some, ◌++◌, Result, ok, err, ◌≡◌, inl, inr, arith,
  Option-cases, Result-cases, get_elem?, retain,
}
use attyd.Common.Keyed.{get, weigh}
use attyd.Ingress.Types.{Sdk, RequestOwner}
use attyd.Handoff.Types.{
  HandoffDisposition, DiscardDisposition, BindDisposition, HandoffError, CompletionTurn, Entry,
  CompletionHandoff, CompletionRegistration, owner_eq, awaiting_completion,
}
use attyd.Handoff.Ops.{
  Handed, answers, sends, unreachable, parked, register, handoff, send, discard, discard_session,
  close, bind, wait, drop_registration, own_entry, early_turns, of_session,
}
use attyd.Handoff.System.{
  World, Call, registers, hands_off, delivers, waits, drops, releases, binds, discards,
  discards_session, closes, step, same, finish, lose, receive, arrive, bind_one, has_sender,
}
use attyd.Handoff.Loads.{
  load, early_load, receiver_load, parked_load, load-append, early_turns-load,
}

module _ {S : Sdk} (weight : CompletionTurn S → ℕ) where
  -- The turn that waits in an entry.
  abbrev entry_load : Option (Entry S) → ℕ
  entry_load none = 0
  entry_load (some entry) = early_load weight entry

  -- A completion that is handed off is given up unless it is parked or on its way.
  abbrev refused : CompletionTurn S → Handed S HandoffDisposition → ℕ
  refused turn (answers (ok HandoffDisposition.parked_until_bound) _) = 0
  refused turn (answers _ _) = weight turn
  refused turn (sends _ _) = 0
  refused turn unreachable = 0

  -- A registration that is bound gives up what came early for another request, or for one that was
  -- discarded, and says so.
  abbrev rejected : Option (Entry S) → Handed S (BindDisposition S) → ℕ
  rejected entry (answers (ok BindDisposition.discarded) _) = entry_load entry
  rejected entry (answers (ok (awaiting_completion (some _))) _) = entry_load entry
  rejected entry _ = 0

  abbrev forgotten : Option (Entry S) → Result HandoffError DiscardDisposition → ℕ
  forgotten entry (ok DiscardDisposition.discarded) = entry_load entry
  forgotten entry (ok DiscardDisposition.parked_until_bound) = entry_load entry
  forgotten entry _ = 0

  -- A registration that is dropped gives up what its receiver and its entry hold; one that has
  -- received only what its entry holds.
  abbrev ended :
      CompletionHandoff S
      → CompletionRegistration S
      → Option (Result HandoffError (CompletionTurn S))
      → ℕ
  ended h r none = 0
  ended h r (some (err _)) = entry_load (own_entry h r) + receiver_load weight r
  ended h r (some (ok _)) = entry_load (own_entry h r)

  abbrev arrived : Entry S × CompletionTurn S → Option (CompletionRegistration S) → ℕ
  arrived (entry, turn) none = weight turn + early_load weight entry
  arrived (entry, turn) (some r) = receiver_load weight r + early_load weight entry

  abbrev session_load :
      CompletionHandoff S → (RequestOwner × Entry S → Bool) → Result HandoffError ℕ → ℕ
  session_load h here (err _) = 0
  session_load h here (ok _) = weigh owner_eq (early_load weight) (retain here h.entries)

  -- What a call gives up, by its answer.
  abbrev pub surrendered : World S → Call S → ℕ
  surrendered w (registers owner) = 0
  surrendered w (hands_off turn) = refused turn (handoff w.handoff turn).1
  surrendered w (delivers i) = elim (get_elem? w.sending i) [
    | none ↦ 0
    | some p ↦ arrived p (get same w.registrations p.0.sender)
  ]
  surrendered w (binds a id) = elim (get same w.registrations a) [
    | none ↦ 0
    | some r ↦ rejected (own_entry w.handoff r) (bind w.handoff r id).2
  ]
  surrendered w (waits a) = elim (get same w.registrations a) [
    | none ↦ 0
    | some r ↦ ended w.handoff r (wait r (has_sender w a))
  ]
  surrendered w (drops a) = elim (get same w.registrations a) [
    | none ↦ 0
    | some r ↦ entry_load (own_entry w.handoff r) + receiver_load weight r
  ]
  surrendered w (releases i) = elim (get_elem? w.held i) [ none ↦ 0 | some turn ↦ weight turn ]
  surrendered w (discards owner id) =
      forgotten (get owner_eq w.handoff.entries owner) (discard w.handoff owner id).1
  surrendered w (discards_session epoch session_id incarnation) =
      session_load w.handoff (of_session epoch session_id incarnation)
        (discard_session w.handoff epoch session_id incarnation).1
  surrendered w closes = parked_load weight w.handoff

  handoff-dropped :
      (w : World S) (turn : CompletionTurn S)
      → load weight
          (finish
            (record w { handoff = (handoff w.handoff turn).0 })
            (handoff w.handoff turn).1).dropped
        ≡ load weight w.dropped + refused turn (handoff w.handoff turn).1
  unfolding handoff
  handoff-dropped w turn = ground arith

  bind-dropped :
      (w : World S) (a : ℕ) (id : S.RequestId) (r : CompletionRegistration S)
      → load weight (bind_one w a id r).dropped
        ≡ load weight w.dropped + rejected (own_entry w.handoff r) (bind w.handoff r id).2
  unfolding bind
  bind-dropped w a id r = elim (Option-cases (own_entry w.handoff r)) [
    | inl e ↦ ground arith
    | inr (entry, e) ↦ elim (Option-cases entry.early) [
      | inl f ↦ ground arith
      | inr (turn, f) ↦ ground arith
    ]
  ]

  lose-dropped :
      (w : World S) (a : ℕ) (r : CompletionRegistration S)
      → load weight (lose w a r).dropped
        ≡ load weight w.dropped + entry_load (own_entry w.handoff r) + receiver_load weight r
  unfolding drop_registration
  lose-dropped w a r = elim (Option-cases (own_entry w.handoff r)) [
    | inl e ↦ ground (arith, load-append weight (parked r.receiver) w.dropped)
    | inr (entry, e) ↦ ground (
      arith,
      load-append weight (parked entry.early ++ parked r.receiver) w.dropped,
      load-append weight (parked entry.early) (parked r.receiver),
    )
  ]

  discard-dropped :
      (h : CompletionHandoff S) (owner : RequestOwner) (id : S.RequestId)
      → load weight (discard h owner id).2
        ≡ forgotten (get owner_eq h.entries owner) (discard h owner id).1
  unfolding discard
  discard-dropped h owner id = ground arith

  discard_session-dropped :
      (h : CompletionHandoff S) (epoch session_id : String) (incarnation : ℕ)
      → load weight (discard_session h epoch session_id incarnation).2
        ≡ session_load h
            (of_session epoch session_id incarnation)
            (discard_session h epoch session_id incarnation).1
  unfolding discard_session
  discard_session-dropped h epoch session_id incarnation =
      let here : RequestOwner × Entry S → Bool = of_session epoch session_id incarnation in
      ground (arith, early_turns-load weight (retain here h.entries))

  receive-dropped :
      (w : World S) (a : ℕ) (r : CompletionRegistration S) (sender : Bool)
      → load weight (receive w a r (wait r sender)).dropped
        ≡ load weight w.dropped + ended w.handoff r (wait r sender)
  unfolding wait
  receive-dropped w a r sender = elim (Option-cases r.receiver) [
    | inl h ↦ ground (arith, lose-dropped w a r)
    | inr (turn, h) ↦
        ground (arith, lose-dropped w a r, lose-dropped w a (record r { receiver = none }))
  ]

  arrive-dropped :
      (w : World S) (i : ℕ) (entry : Entry S) (turn : CompletionTurn S)
      → load weight (arrive w i (entry, turn)).dropped
        ≡ load weight w.dropped + arrived (entry, turn) (get same w.registrations entry.sender)
  unfolding send
  arrive-dropped w i entry turn = elim (Option-cases (get same w.registrations entry.sender)) [
    | inl h ↦ ground (arith, load-append weight (parked entry.early) w.dropped)
    | inr (r, h) ↦ ground (
      arith,
      load-append weight (parked r.receiver ++ parked entry.early) w.dropped,
      load-append weight (parked r.receiver) (parked entry.early),
    )
  ]

  pub step-dropped :
      (w : World S) (c : Call S)
      → load weight (step w c).dropped ≡ load weight w.dropped + surrendered w c
  unfolding step close
  step-dropped w (registers owner) =
      elim (Result-cases (register w.handoff owner w.next_allocation).1) [
        | inl (r, e) ↦ ground arith
        | inr (e, h) ↦ ground arith
      ]
  step-dropped w (hands_off turn) = handoff-dropped w turn
  step-dropped w (delivers i) = elim (Option-cases (get_elem? w.sending i)) [
    | inl e ↦ ground arith
    | inr ((entry, turn), e) ↦ ground (arith, arrive-dropped w i entry turn)
  ]
  step-dropped w (binds a id) = elim (Option-cases (get same w.registrations a)) [
    | inl e ↦ ground arith
    | inr (r, e) ↦ ground (arith, bind-dropped w a id r)
  ]
  step-dropped w (waits a) = elim (Option-cases (get same w.registrations a)) [
    | inl e ↦ ground arith
    | inr (r, e) ↦ ground (arith, receive-dropped w a r (has_sender w a))
  ]
  step-dropped w (drops a) = elim (Option-cases (get same w.registrations a)) [
    | inl e ↦ ground arith
    | inr (r, e) ↦ ground (arith, lose-dropped w a r)
  ]
  step-dropped w (releases i) = elim (Option-cases (get_elem? w.held i)) [
    | inl e ↦ ground arith
    | inr (turn, e) ↦ ground arith
  ]
  step-dropped w (discards owner id) = omega (
    arith,
    discard-dropped w.handoff owner id,
    load-append weight (discard w.handoff owner id).2 w.dropped,
  )
  step-dropped w (discards_session epoch session_id incarnation) =
      let (_, _, turns) = discard_session w.handoff epoch session_id incarnation in
      omega (
        arith,
        discard_session-dropped w.handoff epoch session_id incarnation,
        load-append weight turns w.dropped,
      )
  step-dropped w closes = omega (
    arith,
    early_turns-load weight w.handoff.entries,
    load-append weight (early_turns w.handoff.entries) w.dropped,
  )
