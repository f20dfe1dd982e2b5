-- ===== src/Handoff/Turns.antt =====
-- No turn that is handed off is lost or duplicated (completion_handoff.rs).
use attyd.Common.{ℕ, ◌+◌, List, [], ◌∷◌}
use attyd.Common.Keyed.{weigh}
use attyd.Ingress.Types.{Sdk}
use attyd.Handoff.Types.{CompletionTurn}
use attyd.Handoff.Ops.{handoff}
use attyd.Handoff.System.{World, Call, hands_off, step, same}
use attyd.Handoff.Surrendered.{surrendered}
use attyd.Handoff.Loads.{parked_load, sending_load, load, receiver_load}

module _ {S : Sdk} (weight : CompletionTurn S → ℕ) where
  -- What a call hands off.
  abbrev pub given : Call S → ℕ
  given (hands_off turn) = weight turn
  given _ = 0

  abbrev pub all_given : List (Call S) → ℕ
  all_given [] = 0
  all_given (c ∷ cs) = given c + all_given cs

  -- The turns that are parked, on their way to a receiver, in a receiver, or with a task.
  abbrev pub in_flight : World S → ℕ
  in_flight w =
      parked_load weight w.handoff
      + weigh same (receiver_load weight) w.registrations
      + sending_load weight w.sending
      + load weight w.held

  abbrev pub all_surrendered : World S → List (Call S) → ℕ
  all_surrendered w [] = 0
  all_surrendered w (c ∷ cs) = surrendered weight w c + all_surrendered (step w c) cs
