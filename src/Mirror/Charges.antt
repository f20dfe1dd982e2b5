-- ===== src/Mirror/Charges.antt =====
-- The operations of the mirror on turns, intents and registrations, by what they do to the count of
-- overlay bytes.
use attyd.Common.{
  ℕ, ◌-◌, String, List, [], ◌∷◌, ◌≡◌, refl, sym, ap, inl, inr, Result, ok, err, Result-cases,
  Bool-cases, arith, is_some, saturating_add,
}
use attyd.Json.{Json}
use attyd.Session.Types.{
  SessionState, SessionOperationKind, SessionAdmission, MirrorError, TurnAdmission,
}
use attyd.Session.Turn
use attyd.Session.Turn.{advance_revision, is_reconciling}
use attyd.Session.Commit
use attyd.Runtime.InUse.{operation_in_use}
use attyd.Session.Admission
use attyd.History.Cache.{append_committed_updates}
use attyd.Registry.Types.{SessionRegistry}
use attyd.Mirror.Store.{Packages, key_of, require_state, set_state}
use attyd.Mirror.Turns.{
  write_turn, admit, start_turn, append_turn_update, complete_turn, append_ready_update,
  append_session_update, block_turn,
}
use attyd.Mirror.Intents.{begin_exclusive, settle_exclusive, touch, view}
use attyd.Mirror.Terminals.{is_retainable, retain_terminal_output}
use attyd.Mirror.Moves.{still, chain, Move, quiet, charges}
use attyd.Mirror.Accounts.{found, set_state-Quiet, set_state-charged}

module _ {J : Json} where
  open J use {Value}

  write_turn-Move :
      (r : SessionRegistry J) (id : String) (n : ℕ) (s : SessionState J)
      (got : SessionState J × Result MirrorError (Unit {0}))
      → require_state r id n ≡ ok s
      → Move r (write_turn r id s got).0
  unfolding write_turn
  write_turn-Move r id n s (s', err x) e = quiet (still refl refl)
  write_turn-Move r id n s (s', ok x) e = set_state-charged r id n s s' e

  admit-Move :
      (r : SessionRegistry J) (id : String) (n next : ℕ) (s : SessionState J)
      (got : SessionState J × Result MirrorError TurnAdmission)
      → require_state r id n ≡ ok s
      → Move r (admit r id s next got).0
  unfolding admit set_state
  admit-Move r id n next s (s', err x) e = quiet (still refl refl)
  admit-Move r id n next s (s', ok x) e =
      let (entry, there, state) = found r id n e in
      rw (there, set_state)
        (charges id entry (record entry { state = s' }) there refl
          (ap
            (λ (x : SessionState J).
              saturating_add (r.overlay_bytes - x.active_overlay_bytes) s'.active_overlay_bytes)
            (sym state)))

  -- An operation on a state that is required.
  pub required :
      (r t : SessionRegistry J) (id : String) (n : ℕ)
      → ((x : MirrorError) → require_state r id n ≡ err x → Move r t)
      → ((s : SessionState J) → require_state r id n ≡ ok s → Move r t)
      → Move r t
  required r t id n no_state some_state = elim (Result-cases (require_state r id n)) [
    | inr (x, e) ↦ no_state x e
    | inl (s, e) ↦ some_state s e
  ]

  pub start_turn-Move :
      (k : Packages J) (r : SessionRegistry J) (id : String) (n : ℕ) (expected intent : String)
      (prompt : List Value)
      → Move r (start_turn k r id n expected intent prompt).0
  unfolding start_turn
  start_turn-Move k r id n expected intent prompt =
      required r (start_turn k r id n expected intent prompt).0 id n
        (λ x e. rw (e, start_turn) (quiet (still refl refl)))
        (λ s e. rw (e, start_turn) (admit-Move r id n _ s _ e))

  pub append_turn_update-Move :
      (k : Packages J) (r : SessionRegistry J) (id : String) (n : ℕ) (op : String) (update : Value)
      → Move r (append_turn_update k r id n op update).0
  unfolding append_turn_update
  append_turn_update-Move k r id n op update =
      required r (append_turn_update k r id n op update).0 id n
        (λ x e. rw (e, append_turn_update) (quiet (still refl refl)))
        (λ s e.
          rw (e, append_turn_update)
            (write_turn-Move r id n s (Turn.append_turn_update k.codec s op update) e))

  pub complete_turn-Move :
      (k : Packages J) (r : SessionRegistry J) (id : String) (n : ℕ) (op : String)
      (terminal : Value)
      → Move r (complete_turn k r id n op terminal).0
  unfolding complete_turn
  complete_turn-Move k r id n op terminal =
      required r (complete_turn k r id n op terminal).0 id n
        (λ x e. rw (e, complete_turn) (quiet (still refl refl)))
        (λ s e.
          rw (e, complete_turn)
            (write_turn-Move r id n s (Turn.complete_turn k.codec s op terminal) e))

  append_ready_update-Move :
      (k : Packages J) (r : SessionRegistry J) (id : String) (n : ℕ) (s : SessionState J)
      (update : Value)
      → require_state r id n ≡ ok s
      → Move r (append_ready_update k r id n s update).0
  unfolding append_ready_update require_state
  append_ready_update-Move k r id n s update e =
      let got = append_committed_updates k.encoder r.history (key_of id n) (update ∷ []) in
      elim (Result-cases got.1) [
        | inr (x, g) ↦ rw (g, append_ready_update) (quiet (still refl refl))
        | inl (made, g) ↦
            rw (g, append_ready_update)
              (quiet (
                chain (still refl refl)
                  (set_state-Quiet (record r { history = got.0 }) id n s _ e refl)))
      ]

  pub append_session_update-Move :
      (k : Packages J) (r : SessionRegistry J) (id : String) (n : ℕ) (update : Value)
      → Move r (append_session_update k r id n update).0
  unfolding append_session_update
  append_session_update-Move k r id n update =
      required r (append_session_update k r id n update).0 id n
        (λ x e. rw (e, append_session_update) (quiet (still refl refl)))
        (λ s e. elim (Bool-cases (is_some s.load_attempt)) [
          | inl a ↦ rw (e, append_session_update, a) (quiet (still refl refl))
          | inr a ↦ elim (Bool-cases (is_reconciling s.phase)) [
            | inl b ↦
                rw (e, append_session_update, a, b)
                  (write_turn-Move r id n s (Turn.append_reconciling_update k.codec s update) e)
            | inr b ↦ elim (Bool-cases (Commit.is_ready s.phase)) [
              | inl c ↦
                  rw (e, append_session_update, a, b, c)
                    (append_ready_update-Move k r id n s update e)
              | inr c ↦ rw (e, append_session_update, a, b, c) (quiet (still refl refl))
            ]
          ]
        ])

  block_turn-bytes :
      (s : SessionState J) (op message : String)
      → (Turn.block_turn s op message).0.active_overlay_bytes ≡ s.active_overlay_bytes
  unfolding Turn.block_turn
  block_turn-bytes s op message = ground arith

  begin_exclusive-bytes :
      (s : SessionState J) (kind : SessionOperationKind) (op : String)
      → (Admission.begin_exclusive s kind op).0.active_overlay_bytes ≡ s.active_overlay_bytes
  unfolding Admission.begin_exclusive
  begin_exclusive-bytes s kind op = ground arith

  settle_exclusive-bytes :
      (s : SessionState J) (kind : SessionAdmission) (op : String)
      → (Admission.settle_exclusive s kind op).0.active_overlay_bytes ≡ s.active_overlay_bytes
  unfolding Admission.settle_exclusive
  settle_exclusive-bytes s kind op = ground arith

  pub block_turn-Move :
      (r : SessionRegistry J) (id : String) (n : ℕ) (op message : String)
      → Move r (block_turn r id n op message).0
  unfolding block_turn
  block_turn-Move r id n op message =
      required r (block_turn r id n op message).0 id n
        (λ x e. rw (e, block_turn) (quiet (still refl refl)))
        (λ s e.
          rw (e, block_turn) (quiet (set_state-Quiet r id n s _ e (block_turn-bytes s op message))))

  pub begin_exclusive-Move :
      (r : SessionRegistry J) (id : String) (n : ℕ) (kind : SessionOperationKind) (op : String)
      → Move r (begin_exclusive r id n kind op).0
  unfolding begin_exclusive
  begin_exclusive-Move r id n kind op =
      required r (begin_exclusive r id n kind op).0 id n
        (λ x e. rw (e, begin_exclusive) (quiet (still refl refl)))
        (λ s e. elim (Bool-cases (operation_in_use r op)) [
          | inl used ↦ rw (e, begin_exclusive, used) (quiet (still refl refl))
          | inr free ↦
              rw (e, begin_exclusive, free)
                (quiet (set_state-Quiet r id n s _ e (begin_exclusive-bytes s kind op)))
        ])

  pub settle_exclusive-Move :
      (r : SessionRegistry J) (id : String) (n : ℕ) (kind : SessionAdmission) (op : String)
      → Move r (settle_exclusive r id n kind op).0
  unfolding settle_exclusive
  settle_exclusive-Move r id n kind op =
      required r (settle_exclusive r id n kind op).0 id n
        (λ x e. rw (e, settle_exclusive) (quiet (still refl refl)))
        (λ s e.
          rw (e, settle_exclusive)
            (quiet (set_state-Quiet r id n s _ e (settle_exclusive-bytes s kind op))))

  pub touch-Move : (r : SessionRegistry J) (id : String) (n : ℕ) → Move r (touch r id n).0
  unfolding touch
  touch-Move r id n =
      required r (touch r id n).0 id n (λ x e. rw (e, touch) (quiet (still refl refl)))
        (λ s e. rw (e, touch) (quiet (set_state-Quiet r id n s (advance_revision s) e refl)))

  pub view-Move : (r : SessionRegistry J) (id : String) (n : ℕ) → Move r (view r id n).0
  unfolding view
  view-Move r id n = quiet (still (ground arith) (ground arith))

  pub retain-Move :
      (k : Packages J) (r : SessionRegistry J) (id : String) (n : ℕ) (terminal_id : String)
      (terminal : Value)
      → Move r (retain_terminal_output k r id n terminal_id terminal).0
  unfolding retain_terminal_output
  retain-Move k r id n terminal_id terminal =
      required r (retain_terminal_output k r id n terminal_id terminal).0 id n
        (λ x e. rw (e, retain_terminal_output) (quiet (still refl refl)))
        (λ s e. elim (Bool-cases (is_retainable r (key_of id n) s terminal_id terminal)) [
          | inr no_room ↦ rw (e, retain_terminal_output, no_room) (quiet (still refl refl))
          | inl fits ↦
              rw (e, retain_terminal_output, fits)
                (quiet
                  (chain (still refl refl) (set_state-Quiet _ id n s (advance_revision s) e refl)))
        ])
