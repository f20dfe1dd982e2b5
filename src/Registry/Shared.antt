-- ===== src/Registry/Shared.antt =====
-- The cells that cloned handles share: cancellation tokens, the states of permits to close
-- (auto_close.rs), and what is sent through the senders that are used once. A handle is the address
-- of its cell; `next_address` is the first address that is not in use.
use attyd.Common.{ℕ, ◌+◌, String, Bool, true, false, List, [], ◌∷◌, ◌++◌, ◌==◌, if◌then◌else◌}

pub data Sent : Type 0 where
  permission_cancelled : ℕ → Sent
  elicitation_cancelled : ℕ → Sent
  waiter_cancelled : ℕ → String → Sent

pub record Shared : Type 0 where
  pub tokens : ℕ → Bool
  pub permits : ℕ → ℕ
  pub sent : List Sent
  pub next_address : ℕ

-- `CancellationToken::cancel`.
unfoldable pub cancel_token : Shared → ℕ → Shared
cancel_token m a = record m { tokens = λ i. if a == i then true else m.tokens i }

abbrev pub write_permit : Shared → ℕ → ℕ → Shared
write_permit m a v = record m { permits = λ i. if a == i then v else m.permits i }

abbrev pub send : Shared → Sent → Shared
send m s = record m { sent = m.sent ++ s ∷ [] }

pub record AutoClosePermit : Type 0 where
  pub state : ℕ
  pub cancelled : ℕ

-- A fresh permit: its state is 0, and its token is not cancelled.
unfoldable pub new_permit : Shared → Shared × AutoClosePermit
new_permit m = (
  record m {
    tokens = λ i. if m.next_address == i then false else m.tokens i;
    permits = λ i. if m.next_address == i then 0 else m.permits i;
    next_address = m.next_address + 1;
  },
  record { state = m.next_address; cancelled = m.next_address },
)

unfoldable pub same_permit : AutoClosePermit → AutoClosePermit → Bool
same_permit p q = p.state == q.state

unfoldable pub pending : Shared → AutoClosePermit → Bool
pending m p = m.permits p.state == 0

-- `compare_exchange(0, 1)`.
unfoldable pub claim : Shared → AutoClosePermit → Shared × Bool
claim m p = if m.permits p.state == 0 then (write_permit m p.state 1, true) else (m, false)

-- `compare_exchange(0, 2)`, and the token.
unfoldable pub cancel_permit : Shared → AutoClosePermit → Shared
unfolding cancel_token
cancel_permit m p =
    cancel_token (if m.permits p.state == 0 then write_permit m p.state 2 else m) p.cancelled

-- The lifetime of an observer (session_observation.rs).
pub record ObservationLease : Type 0 where
  pub cancellation : ℕ
  pub finished : ℕ

unfoldable pub new_lease : Shared → Shared × ObservationLease
new_lease m = (
  record m {
    tokens = λ i.
        if m.next_address == i
        then false
        else if m.next_address + 1 == i
        then false
        else m.tokens i;
    next_address = m.next_address + 2;
  },
  record { cancellation = m.next_address; finished = m.next_address + 1 },
)

unfoldable pub cancel_lease : Shared → ObservationLease → Shared
unfolding cancel_token
cancel_lease m l = cancel_token m l.cancellation

unfoldable pub finish_lease : Shared → ObservationLease → Shared
unfolding cancel_token
finish_lease m l = cancel_token m l.finished

unfoldable pub is_cancelled : Shared → ObservationLease → Bool
is_cancelled m l = m.tokens l.cancellation

unfoldable pub is_finished : Shared → ObservationLease → Bool
is_finished m l = m.tokens l.finished

unfoldable pub same_lease : ObservationLease → ObservationLease → Bool
same_lease k l = k.cancellation == l.cancellation
