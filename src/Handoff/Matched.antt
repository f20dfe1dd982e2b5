-- ===== src/Handoff/Matched.antt =====
-- A turn reaches only the task that waits for its request (completion_handoff.rs).
use attyd.Common.{
  All, ℕ, zero, suc, false, Option, none, some, List, [], ◌∷◌, Result, ok, err, ◌≡◌, ◌≢◌, inl, inr,
  refl, arith, Option-cases, Result-cases, get_elem?, remove_at,
}
use attyd.Common.Keyed.{get, replace}
use attyd.Ingress.Types.{Sdk}
use attyd.Handoff.Types.{
  CompletionTurn, Entry, CompletionHandoff, CompletionRegistration, owner_eq, HandoffError,
}
use attyd.Handoff.Ops.{
  Handed, answers, sends, unreachable, register, handoff, bind, wait, own_entry,
}
use attyd.Handoff.System.{
  World, Call, registers, hands_off, delivers, waits, drops, releases, binds, discards,
  discards_session, closes, start, step, run, same, finish, lose, receive, arrive, bind_one,
  has_sender,
}

All-remove_at {ℓ κ} :
    {A : Type ℓ} (P : A → Type κ) (xs : List A) (i : ℕ) → All P xs → All P (remove_at xs i)
All-remove_at P [] i h = h
All-remove_at P (x ∷ xs) zero h = h.1
All-remove_at P (x ∷ xs) (suc i) h = (h.0, All-remove_at P xs i h.1)

module _ {S : Sdk} where
  -- The entry with the sender is bound to the request of the turn.
  abbrev pub Matched : Entry S × CompletionTurn S → Type 0
  Matched (entry, turn) = entry.request_id ≡ some turn.completion.request_id

  abbrev Good : World S → Type 0
  Good w = All Matched w.sending × (w.panicked ≡ false)

  abbrev Fine : {A : Type 0} → Handed S A → Type 0
  Fine (answers _ _) = Unit
  Fine (sends entry turn) = Matched (entry, turn)
  Fine unreachable = ⊥

  finish-Good :
      {A : Type 0} (w : World S) (handed : Handed S A)
      → Good w
      → Fine handed
      → Good (finish w handed)
  finish-Good w (answers _ _) g f = g
  finish-Good w (sends entry turn) g f = ((f, g.0), g.1)
  finish-Good w unreachable g f = absurd f

  handoff-sends :
      (h : CompletionHandoff S) (turn t : CompletionTurn S) (entry : Entry S)
      → (handoff h turn).1 ≡ sends entry t
      → entry.request_id ≡ some t.completion.request_id
  unfolding handoff
  handoff-sends h turn t entry e =
      elim (Option-cases (get owner_eq h.entries turn.completion.owner)) [
        | inl f ↦ ground arith
        | inr (found, f) ↦ elim (Option-cases found.request_id) [
          | inl g ↦ ground arith
          | inr (id, g) ↦ ground (arith, S.id_eq_iff id turn.completion.request_id)
        ]
      ]

  handoff-ne-unreachable :
      (h : CompletionHandoff S) (turn : CompletionTurn S) → (handoff h turn).1 ≢ unreachable
  unfolding handoff
  handoff-ne-unreachable h turn = ground arith

  bind-sends :
      (h : CompletionHandoff S) (r : CompletionRegistration S) (id : S.RequestId)
      (t : CompletionTurn S) (entry : Entry S)
      → (bind h r id).2 ≡ sends entry t
      → entry.request_id ≡ some t.completion.request_id
  unfolding bind
  bind-sends h r id t entry e = elim (Option-cases (own_entry h r)) [
    | inl f ↦ ground arith
    | inr (found, f) ↦ elim (Option-cases found.early) [
      | inl g ↦ ground arith
      | inr (turn, g) ↦ ground (arith, S.id_eq_iff turn.completion.request_id id)
    ]
  ]

  bind-ne-unreachable :
      (h : CompletionHandoff S) (r : CompletionRegistration S) (id : S.RequestId)
      → (bind h r id).2 ≢ unreachable
  unfolding bind
  bind-ne-unreachable h r id = ground arith

  handed-Fine :
      {A : Type 0} (handed : Handed S A)
      → ((entry : Entry S) (t : CompletionTurn S) → handed ≡ sends entry t → Matched (entry, t))
      → handed ≢ unreachable
      → Fine handed
  handed-Fine (answers _ _) m n = tt
  handed-Fine (sends entry turn) m n = m entry turn refl
  handed-Fine unreachable m n = n refl

  lose-Good : (w : World S) (a : ℕ) (r : CompletionRegistration S) → Good w → Good (lose w a r)
  lose-Good w a r g = g

  receive-Good :
      (w : World S) (a : ℕ) (r : CompletionRegistration S)
      (answer : Option (Result HandoffError (CompletionTurn S)))
      → Good w
      → Good (receive w a r answer)
  receive-Good w a r none g = g
  receive-Good w a r (some (err _)) g = g
  receive-Good w a r (some (ok turn)) g = g

  arrive-Good :
      (w : World S) (i : ℕ) (p : Entry S × CompletionTurn S) → Good w → Good (arrive w i p)
  arrive-Good w i (entry, turn) g = (All-remove_at Matched w.sending i g.0, g.1)

  bind_one-Good :
      (w : World S) (a : ℕ) (id : S.RequestId) (r : CompletionRegistration S)
      → Good w
      → Good (bind_one w a id r)
  bind_one-Good w a id r g =
      let (h, r', handed) = bind w.handoff r id in
      finish-Good (record w { handoff = h; registrations = replace same w.registrations a r' })
        handed g
        (handed-Fine handed (λ entry t e. bind-sends w.handoff r id t entry e)
          (bind-ne-unreachable w.handoff r id))

  step-Good : (w : World S) (c : Call S) → Good w → Good (step w c)
  unfolding step
  step-Good w (registers owner) g =
      elim (Result-cases (register w.handoff owner w.next_allocation).1) [
        | inl (r, e) ↦ rw (step, e) g
        | inr (r, e) ↦ rw (step, e) g
      ]
  step-Good w (hands_off turn) g =
      let (h, handed) = handoff w.handoff turn in
      finish-Good (record w { handoff = h }) handed g
        (handed-Fine handed (λ entry t e. handoff-sends w.handoff turn t entry e)
          (handoff-ne-unreachable w.handoff turn))
  step-Good w (delivers i) g = elim (Option-cases (get_elem? w.sending i)) [
    | inl e ↦ rw (step, e) g
    | inr (p, e) ↦ rw (step, e) (arrive-Good w i p g)
  ]
  step-Good w (binds a id) g = elim (Option-cases (get same w.registrations a)) [
    | inl e ↦ rw (step, e) g
    | inr (r, e) ↦ rw (step, e) (bind_one-Good w a id r g)
  ]
  step-Good w (waits a) g = elim (Option-cases (get same w.registrations a)) [
    | inl e ↦ rw (step, e) g
    | inr (r, e) ↦ rw (step, e) (receive-Good w a r (wait r (has_sender w a)) g)
  ]
  step-Good w (drops a) g = elim (Option-cases (get same w.registrations a)) [
    | inl e ↦ rw (step, e) g
    | inr (r, e) ↦ rw (step, e) g
  ]
  step-Good w (releases i) g = elim (Option-cases (get_elem? w.held i)) [
    | inl e ↦ rw (step, e) g
    | inr (turn, e) ↦ rw (step, e) g
  ]
  step-Good w (discards owner id) g = g
  step-Good w (discards_session epoch session_id incarnation) g = g
  step-Good w closes g = g

  run-Good : (w : World S) (cs : List (Call S)) → Good w → Good (run w cs)
  unfolding run
  run-Good w [] g = g
  run-Good w (c ∷ cs) g = run-Good (step w c) cs (step-Good w c g)

  -- After any calls on a new handoff, every turn on its way to a receiver goes through an entry
  -- that is bound to the request of the turn, and no call has reached the arm of bind that the
  -- source calls unreachable.
  pub sent_to_own_request :
      (cs : List (Call S)) → All Matched (run start cs).sending × ((run start cs).panicked ≡ false)
  sent_to_own_request cs = run-Good start cs (tt, refl)
