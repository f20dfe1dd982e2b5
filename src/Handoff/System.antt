-- ===== src/Handoff/System.antt =====
-- A handoff with the tasks that use it (completion_handoff.rs): the calls in the order in which they
-- take the lock, and what they do when they have left it.
use attyd.Common.{
  ℕ, String, Bool, true, false, Option, none, some, List, [], ◌∷◌, ◌++◌, Result, ok, err, ◌==◌,
  get_elem?, remove_at, retain, nonempty, suc, ◌||◌,
}
use attyd.Common.Keyed.{get, take_out, replace}
use attyd.Ingress.Types.{Sdk, RequestOwner}
use attyd.Handoff.Types.{
  CompletionTurn, Entry, CompletionHandoff, CompletionRegistration, HandoffError,
}
use attyd.Handoff.Ops.{
  Handed, answers, sends, unreachable, new_handoff, register, handoff, send, discard,
  discard_session, close, bind, wait, drop_registration,
}

abbrev pub same : ℕ → ℕ → Bool
same a b = a == b

module _ (S : Sdk) where
  open S use {RequestId}

  -- `registrations` are those that tasks hold, by their allocation, `sending` what has left the lock to be sent, `held`
  -- the turns that tasks have received, `dropped` those that were dropped, which releases their
  -- guards.
  pub record World : Type 0 where
    pub handoff : CompletionHandoff S
    pub registrations : List (ℕ × CompletionRegistration S)
    pub sending : List (Entry S × CompletionTurn S)
    pub held : List (CompletionTurn S)
    pub dropped : List (CompletionTurn S)
    pub next_allocation : ℕ
    pub panicked : Bool

  -- A number says which of the registrations, sends or held turns a call is about.
  pub data Call : Type 0 where
    registers : RequestOwner → Call
    hands_off : CompletionTurn S → Call
    delivers waits drops releases : ℕ → Call
    binds : ℕ → RequestId → Call
    discards : RequestOwner → RequestId → Call
    discards_session : String → String → ℕ → Call
    closes : Call

module _ {S : Sdk} where
  open S use {RequestId}

  abbrev pub start : World S
  start = record {
    handoff = new_handoff;
    registrations = [];
    sending = [];
    held = [];
    dropped = [];
    next_allocation = 0;
    panicked = false;
  }

  abbrev pub finish : {A : Type 0} → World S → Handed S A → World S
  finish w (answers _ turns) = record w { dropped = turns ++ w.dropped }
  finish w (sends entry turn) = record w { sending = (entry, turn) ∷ w.sending }
  finish w unreachable = record w { panicked = true }

  abbrev pub has_sender : World S → ℕ → Bool
  has_sender w a =
      nonempty (retain (λ (e : RequestOwner × Entry S). e.1.sender == a) w.handoff.entries)
      || nonempty (retain (λ (p : Entry S × CompletionTurn S). p.0.sender == a) w.sending)

  -- The task drops the registration, whose receiver holds what is given.
  abbrev pub lose : World S → ℕ → CompletionRegistration S → World S
  lose w a registration =
      let (h, turns) = drop_registration w.handoff registration in
      record w {
        handoff = h;
        registrations = take_out same w.registrations a;
        dropped = turns ++ w.dropped;
      }

  abbrev pub receive :
      World S
      → ℕ
      → CompletionRegistration S
      → Option (Result HandoffError (CompletionTurn S))
      → World S
  receive w a registration none = w
  receive w a registration (some (err _)) = lose w a registration
  receive w a registration (some (ok turn)) =
      let left = lose w a (record registration { receiver = none }) in
      record left { held = turn ∷ left.held }

  abbrev pub arrive : World S → ℕ → Entry S × CompletionTurn S → World S
  arrive w i (entry, turn) =
      let (registration, turns) = send entry turn (get same w.registrations entry.sender) in
      record w {
        sending = remove_at w.sending i;
        dropped = turns ++ w.dropped;
        registrations = elim registration [
          | none ↦ w.registrations
          | some r ↦ replace same w.registrations entry.sender r
        ];
      }

  abbrev pub bind_one : World S → ℕ → RequestId → CompletionRegistration S → World S
  bind_one w a id registration =
      let (h, r, handed) = bind w.handoff registration id in
      finish (record w { handoff = h; registrations = replace same w.registrations a r }) handed

  unfoldable pub step : World S → Call S → World S
  step w (registers owner) =
      let (h, answer) = register w.handoff owner w.next_allocation in
      elim answer [
        | err _ ↦ record w { handoff = h }
        | ok r ↦ record w {
          handoff = h;
          registrations = (w.next_allocation, r) ∷ w.registrations;
          next_allocation = suc w.next_allocation;
        }
      ]
  step w (hands_off turn) =
      let (h, handed) = handoff w.handoff turn in finish (record w { handoff = h }) handed
  step w (delivers i) = elim (get_elem? w.sending i) [ none ↦ w | some p ↦ arrive w i p ]
  step w (binds a id) = elim (get same w.registrations a) [ none ↦ w | some r ↦ bind_one w a id r ]
  step w (waits a) = elim (get same w.registrations a) [
    | none ↦ w
    | some r ↦ receive w a r (wait r (has_sender w a))
  ]
  step w (drops a) = elim (get same w.registrations a) [ none ↦ w | some r ↦ lose w a r ]
  step w (releases i) = elim (get_elem? w.held i) [
    | none ↦ w
    | some turn ↦ record w { held = remove_at w.held i; dropped = turn ∷ w.dropped }
  ]
  step w (discards owner id) =
      let (h, _, turns) = discard w.handoff owner id in
      record w { handoff = h; dropped = turns ++ w.dropped }
  step w (discards_session epoch session_id incarnation) =
      let (h, _, turns) = discard_session w.handoff epoch session_id incarnation in
      record w { handoff = h; dropped = turns ++ w.dropped }
  step w closes =
      let (h, turns) = close w.handoff in record w { handoff = h; dropped = turns ++ w.dropped }

  unfoldable pub run : World S → List (Call S) → World S
  run w [] = w
  run w (c ∷ cs) = run (step w c) cs
