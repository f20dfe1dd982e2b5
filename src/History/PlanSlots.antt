-- ===== src/History/PlanSlots.antt =====
-- An update that takes its slot in the turn or gets one, or that removes a slot, in the builder as
-- in the reference fold.
use attyd.Common.{
  ℕ, ◌+◌, String, Bool, true, false, Option, none, some, List, [], ◌∷◌, ◌++◌, ◌≡◌, refl, ap, sym,
  ◌∙◌, ok, str_eq, is_text→eq, set, remove_at, get_elem?, position, arith, inl, inr, Option-cases,
}
use attyd.Json.{Json, get_str}
use attyd.Fold.{
  is_tool, is_tool_slot, replace_shared_fold_slot, is_plan_slot, is_plan_update_slot,
  fold_shared_active_turn_update,
}
use attyd.History.Slots.{position-get, drop, take-push, take-set, take-remove, take-drop, drop-get}
use attyd.History.Reference.{is_user, turn_start_of, fold_last_turn, session_place}
use attyd.History.Builder.{HistoryBuilder, place, plus, push_all, store}
use attyd.History.Effects.{SameSlot}
use attyd.History.Places.{Inv, New}
use attyd.History.Steps.{
  Step, pushes, writes, removes, ignores, append-none, append-some, fold-last_turn,
}

module _ (J : Json) where
  open J use {Value, get, as_str}

  -- Neither a user message nor a tool call.
  pub record Quiet (x : Value) : Type 0 where
    pub user : is_user J x ≡ false
    pub tool : (id : String) → is_tool_slot J id x ≡ false

  pub quiet :
      (x : Value) (k : String)
      → get_str J x "sessionUpdate" ≡ some k
      → str_eq k "user_message_chunk" ≡ false
      → is_tool k ≡ false
      → Quiet x
  unfolding is_tool_slot
  quiet x k e h t = record { user = ground arith; tool = λ id. ground arith }

  pub Quiet-SameSlot : (v x : Value) → Quiet v → Quiet x → SameSlot J v x
  Quiet-SameSlot v x a b = record {
    user = a.user ∙ sym b.user;
    tool = λ id. a.tool id ∙ sym (b.tool id);
  }

  pub plan_slot-Quiet : (x : Value) → is_plan_slot J x ≡ true → Quiet x
  unfolding is_plan_slot
  plan_slot-Quiet x h = quiet x "plan" (is_text→eq (get_str J x "sessionUpdate") "plan" h) refl refl

  pub plan_update_slot-Quiet :
      (id : String) (x : Value) → is_plan_update_slot J id x ≡ true → Quiet x
  unfolding is_plan_update_slot
  plan_update_slot-Quiet id x h =
      quiet x "plan_update" (is_text→eq (get_str J x "sessionUpdate") "plan_update" (ground arith))
        refl refl

  abbrev pub without : List Value → Option ℕ → List Value
  without ys none = ys
  without ys (some i) = remove_at ys i

  abbrev pub without_slot : (Value → Bool) → List Value → List Value
  without_slot p ys = without ys (position p ys)

  module _ (value_bytes : Value → ℕ) (b : HistoryBuilder J) (u : Value) (p : Value → Bool)
      (v : Inv J b) (q : (x : Value) → p x ≡ true → Quiet x)
      (placed : place J b u ≡ plus b.turn_start (position p (drop b.turn_start b.updates)))
      (last : session_place J b.updates u ≡ none) where
    -- A slot of the turn, as a slot of the history.
    pub turn_slot :
        (j : ℕ)
        → position p (drop b.turn_start b.updates) ≡ some j
        → (x : Value) × (get_elem? b.updates (b.turn_start + j) ≡ some x)
          × (p x ≡ true)
          × (place J b u ≡ some (b.turn_start + j))
    turn_slot j e =
        let (x, at, h) = position-get p (drop b.turn_start b.updates) j e in
        (x, sym (drop-get b.turn_start b.updates j) ∙ at, h, placed ∙ ground (arith, e))

    pub in_turn :
        {o : Option ℕ}
        → position p (drop b.turn_start b.updates) ≡ o
        → position p (drop (turn_start_of J b.updates) b.updates) ≡ o
    in_turn e = ap (λ n. position p (drop n b.updates)) (sym v.start) ∙ e

    abbrev pub replaced : List Value → Option ℕ → List Value
    replaced ys none = ys ++ u ∷ []
    replaced ys (some i) = set ys i u

    pub replace_slot-replaced :
        (ys : List Value) (o : Option ℕ)
        → position p ys ≡ o
        → replace_shared_fold_slot J ys p u ≡ replaced ys o
    unfolding replace_shared_fold_slot
    replace_slot-replaced ys o e = ground arith

    pub replace-Step :
        New J value_bytes b u
        → Quiet u
        → ((ys : List Value)
            → fold_shared_active_turn_update J ys u ≡ ok (replace_shared_fold_slot J ys p u))
        → Step J value_bytes b u
    unfolding push_all store position replace_shared_fold_slot fold_last_turn
    replace-Step new calm all =
        let n = turn_start_of J b.updates in
        elim (Option-cases (position p (drop b.turn_start b.updates))) [
          | inl e ↦
              pushes new (append-none J value_bytes b u (placed ∙ rw e refl) ∙ rw (all []) refl) (
                fold-last_turn J value_bytes b.updates u last
                ∙ rw
                    (all (drop n b.updates)
                      ∙ ap ok (replace_slot-replaced (drop n b.updates) none (in_turn e)))
                    (ap ok (take-push n b.updates u)))
          | inr (j, e) ↦
              let (x, at, h, placed_at) = turn_slot j e in
              writes (b.turn_start + j) x u at (Quiet-SameSlot u x calm (q x h))
                (append-some J value_bytes b u (b.turn_start + j) x placed_at at
                  ∙ rw (all (x ∷ []) ∙ ap ok (replace_slot-replaced (x ∷ []) (some 0) (rw h refl)))
                      refl)
                (fold-last_turn J value_bytes b.updates u last
                  ∙ rw
                      (all (drop n b.updates)
                        ∙ ap ok (replace_slot-replaced (drop n b.updates) (some j) (in_turn e)))
                      (ap ok (
                        take-set n b.updates j u
                        ∙ ap (λ m. set b.updates (m + j) u) (sym v.start))))
        ]

    pub remove-Step :
        ((ys : List Value) → fold_shared_active_turn_update J ys u ≡ ok (without_slot p ys))
        → Step J value_bytes b u
    unfolding push_all store position fold_last_turn
    remove-Step all =
        let n = turn_start_of J b.updates in
        elim (Option-cases (position p (drop b.turn_start b.updates))) [
          | inl e ↦
              ignores (append-none J value_bytes b u (placed ∙ rw e refl) ∙ rw (all []) refl) (
                fold-last_turn J value_bytes b.updates u last
                ∙ rw
                    (all (drop n b.updates)
                      ∙ ap (λ o. ok (without (drop n b.updates) o)) (in_turn e))
                    (ap ok (take-drop n b.updates)))
          | inr (j, e) ↦
              let (x, at, h, placed_at) = turn_slot j e in
              removes j x at (q x h).user (q x h).tool
                (append-some J value_bytes b u (b.turn_start + j) x placed_at at
                  ∙ rw (all (x ∷ []), h) refl)
                (fold-last_turn J value_bytes b.updates u last
                  ∙ rw (all (drop n b.updates), in_turn e)
                      (ap ok (
                        take-remove n b.updates j
                        ∙ ap (λ m. remove_at b.updates (m + j)) (sym v.start))))
        ]
