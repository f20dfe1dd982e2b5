-- ===== src/Handoff/Loads.antt =====
-- What each operation of the handoff does to the turns that are parked (completion_handoff.rs).
use attyd.Common.{
  ℕ, ◌+◌, String, Bool, not, none, some, List, [], ◌∷◌, ◌++◌, ◌≡◌, inl, inr, refl, arith,
  Option-cases, get_elem?, remove_at, retain, zero, suc,
}
use attyd.Common.Keyed.{get, weigh, weigh-take_out, weigh-replace}
use attyd.Ingress.Types.{Sdk, RequestOwner}
use attyd.Handoff.Types.{CompletionTurn, Entry, CompletionHandoff, CompletionRegistration, owner_eq}
use attyd.Handoff.Ops.{
  Handed, answers, sends, unreachable, parked, register, handoff, discard, discard_session, close,
  bind, drop_registration, own_entry, early_turns, of_session,
}
use attyd.Handoff.System.{World, same}

module _ {S : Sdk} (weight : CompletionTurn S → ℕ) where
  abbrev pub load : List (CompletionTurn S) → ℕ
  load [] = 0
  load (turn ∷ turns) = weight turn + load turns

  abbrev pub early_load : Entry S → ℕ
  early_load entry = load (parked entry.early)

  abbrev pub receiver_load : CompletionRegistration S → ℕ
  receiver_load r = load (parked r.receiver)

  abbrev pub sending_load : List (Entry S × CompletionTurn S) → ℕ
  sending_load [] = 0
  sending_load ((entry, turn) ∷ rest) = early_load entry + weight turn + sending_load rest

  abbrev pub parked_load : CompletionHandoff S → ℕ
  parked_load h = weigh owner_eq early_load h.entries

  -- The turns that are parked, on their way, in receivers, with tasks, and dropped.
  abbrev pub total : World S → ℕ
  total w =
      parked_load w.handoff
      + weigh same receiver_load w.registrations
      + sending_load w.sending
      + load w.held
      + load w.dropped

  abbrev pub handed_load : {A : Type 0} → Handed S A → ℕ
  handed_load (answers _ turns) = load turns
  handed_load (sends entry turn) = early_load entry + weight turn
  handed_load unreachable = 0

  pub load-append : (xs ys : List (CompletionTurn S)) → load (xs ++ ys) ≡ load xs + load ys
  load-append [] ys = omega arith
  load-append (x ∷ xs) ys = omega (arith, load-append xs ys)

  pub load-remove_at :
      (turns : List (CompletionTurn S)) (i : ℕ) (turn : CompletionTurn S)
      → get_elem? turns i ≡ some turn
      → load turns ≡ weight turn + load (remove_at turns i)
  load-remove_at [] i turn e = cc
  load-remove_at (x ∷ xs) zero turn e = ground arith
  load-remove_at (x ∷ xs) (suc i) turn e = omega (arith, load-remove_at xs i turn e)

  pub sending_load-remove_at :
      (l : List (Entry S × CompletionTurn S)) (i : ℕ) (entry : Entry S) (turn : CompletionTurn S)
      → get_elem? l i ≡ some (entry, turn)
      → sending_load l ≡ early_load entry + weight turn + sending_load (remove_at l i)
  sending_load-remove_at [] i entry turn e = cc
  sending_load-remove_at (x ∷ xs) zero entry turn e = ground arith
  sending_load-remove_at (x ∷ xs) (suc i) entry turn e =
      omega (arith, sending_load-remove_at xs i entry turn e)

  pub handoff-load :
      (h : CompletionHandoff S) (turn : CompletionTurn S)
      → let (h', handed) = handoff h turn in
        parked_load h' + handed_load handed ≡ parked_load h + weight turn
  unfolding handoff
  handoff-load h turn = elim (Option-cases (get owner_eq h.entries turn.completion.owner)) [
    | inl e ↦ ground arith
    | inr (entry, e) ↦ ground (
      arith,
      weigh-take_out owner_eq early_load h.entries turn.completion.owner entry e,
      weigh-replace owner_eq early_load h.entries turn.completion.owner entry
          (record entry { early = some turn }) e,
    )
  ]

  pub discard-load :
      (h : CompletionHandoff S) (owner : RequestOwner) (id : S.RequestId)
      → let (h', _, turns) = discard h owner id in parked_load h' + load turns ≡ parked_load h
  unfolding discard
  discard-load h owner id = elim (Option-cases (get owner_eq h.entries owner)) [
    | inl e ↦ ground arith
    | inr (entry, e) ↦ ground (
      arith,
      weigh-take_out owner_eq early_load h.entries owner entry e,
      weigh-replace owner_eq early_load h.entries owner entry
          (record entry { discarded_early = some id; early = none }) e,
    )
  ]

  pub early_turns-load :
      (l : List (RequestOwner × Entry S)) → load (early_turns l) ≡ weigh owner_eq early_load l
  early_turns-load [] = refl
  early_turns-load ((owner, entry) ∷ rest) =
      omega (arith, load-append (parked entry.early) (early_turns rest), early_turns-load rest)

  weigh-split :
      (p : RequestOwner × Entry S → Bool) (l : List (RequestOwner × Entry S))
      → weigh owner_eq early_load (retain (λ e. not (p e)) l)
          + weigh owner_eq early_load (retain p l)
        ≡ weigh owner_eq early_load l
  weigh-split p [] = refl
  weigh-split p ((owner, entry) ∷ rest) = ground (arith, weigh-split p rest)

  pub discard_session-load :
      (h : CompletionHandoff S) (epoch session_id : String) (incarnation : ℕ)
      → let (h', _, turns) = discard_session h epoch session_id incarnation in
        parked_load h' + load turns ≡ parked_load h
  unfolding discard_session
  discard_session-load h epoch session_id incarnation =
      let here : RequestOwner × Entry S → Bool = of_session epoch session_id incarnation in
      ground (arith, weigh-split here h.entries, early_turns-load (retain here h.entries))

  pub close-load :
      (h : CompletionHandoff S)
      → let (h', turns) = close h in parked_load h' + load turns ≡ parked_load h
  unfolding close
  close-load h = omega (arith, early_turns-load h.entries)

  pub register-load :
      (h : CompletionHandoff S) (owner : RequestOwner) (a : ℕ)
      → parked_load (register h owner a).0 ≡ parked_load h
  unfolding register
  register-load h owner a = ground arith

  own_entry-found :
      (h : CompletionHandoff S) (r : CompletionRegistration S) (entry : Entry S)
      → own_entry h r ≡ some entry
      → get owner_eq h.entries r.owner ≡ some entry
  own_entry-found h r entry e = ground arith

  pub bind-load :
      (h : CompletionHandoff S) (r : CompletionRegistration S) (id : S.RequestId)
      → let (h', r', handed) = bind h r id in
        (parked_load h' + handed_load handed ≡ parked_load h) × (receiver_load r' ≡ receiver_load r)
  unfolding bind
  bind-load h r id = elim (Option-cases (own_entry h r)) [
    | inl e ↦ ground arith
    | inr (entry, e) ↦
        let found = own_entry-found h r entry e in
        ground (
          arith,
          weigh-take_out owner_eq early_load h.entries r.owner entry found,
          weigh-replace owner_eq early_load h.entries r.owner entry
              (record entry { request_id = some id; early = none; discarded_early = none }) found,
        )
  ]

  pub drop_registration-load :
      (h : CompletionHandoff S) (r : CompletionRegistration S)
      → let (h', turns) = drop_registration h r in
        parked_load h' + load turns ≡ parked_load h + receiver_load r
  unfolding drop_registration
  drop_registration-load h r = elim (Option-cases (own_entry h r)) [
    | inl e ↦ ground arith
    | inr (entry, e) ↦
        let found = own_entry-found h r entry e in
        ground (
          arith,
          load-append (parked entry.early) (parked r.receiver),
          weigh-take_out owner_eq early_load h.entries r.owner entry found,
        )
  ]
