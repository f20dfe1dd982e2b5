-- ===== src/History/Places.antt =====
-- The builder's places are those that a search of the history finds.
use attyd.Common.{
  ℕ, ◌+◌, ◌≤◌, String, Bool, true, false, none, some, List, [], ◌∷◌, ◌++◌, ◌≡◌, refl, ap, sym, ◌∙◌,
  if◌then◌else◌, Option-cases, Bool-cases, inl, inr, arith, remove_at, get_elem?, length, position,
}
use attyd.Common.Dict.{Dict, lookup, lookup-insert}
use attyd.Json.{Json, get_str}
use attyd.Fold.{is_tool_slot}
use attyd.History.Slots.{
  rposition, drop, unshift, map_place, within, rposition-bound, rposition-push, position-push,
  rposition-set, position-drop-set, rposition-remove, position-remove, drop-push, drop-remove,
  drop-get, drop-all, length-drop,
}
use attyd.History.Reference.{is_user, turn_start_of}
use attyd.History.Builder.{
  HistoryBuilder, empty_builder, tools_with, shift_tools, push_entry, replace_slot, remove_slot,
}
use attyd.History.Effects.{SameSlot, is_tool-not_user}

module _ (J : Json) where
  open J use {Value}

  -- The turn starts at the last user message; each tool call is known at its last slot, of which a
  -- turn has one at most.
  pub record Inv (b : HistoryBuilder J) : Type 0 where
    pub start : b.turn_start ≡ turn_start_of J b.updates
    pub tools : (id : String) → lookup id b.tools ≡ rposition (is_tool_slot J id) b.updates
    pub unique :
        (id : String)
        → position (is_tool_slot J id) (drop b.turn_start b.updates)
          ≡ within b.turn_start (rposition (is_tool_slot J id) b.updates)

  pub empty-Inv : Inv (empty_builder J)
  unfolding empty_builder lookup rposition position
  empty-Inv = record { start = refl; tools = λ id. refl; unique = λ id. refl }

  pub start_bound : (b : HistoryBuilder J) → Inv b → b.turn_start ≤ length b.updates
  start_bound b v = elim (Option-cases (rposition (is_user J) b.updates)) [
    | inl e ↦ ground (arith, v.start)
    | inr (i, e) ↦ ground (arith, v.start, rposition-bound (is_user J) b.updates i e)
  ]

  module _ (value_bytes : Value → ℕ) where
    pub replace_slot-Inv :
        (b : HistoryBuilder J) (i : ℕ) (x v : Value)
        → Inv b
        → get_elem? b.updates i ≡ some x
        → SameSlot J v x
        → Inv (replace_slot J value_bytes b i v)
    unfolding replace_slot
    replace_slot-Inv b i x v inv e same = record {
      start =
          inv.start
          ∙ ap (λ r. elim r as (λ _. ℕ) [ none ↦ 0 | some j ↦ j ])
              (sym (rposition-set (is_user J) b.updates i x v e same.user));
      tools = λ id.
          inv.tools id ∙ sym (rposition-set (is_tool_slot J id) b.updates i x v e (same.tool id));
      unique = λ id.
          position-drop-set (is_tool_slot J id) b.turn_start b.updates i x v e (same.tool id)
          ∙ inv.unique id
          ∙ ap (within b.turn_start)
              (sym (rposition-set (is_tool_slot J id) b.updates i x v e (same.tool id)));
    }

    lookup-tools_with :
        (v : Value) (n : ℕ) (tools : Dict ℕ) (id : String)
        → lookup id (tools_with J v n tools)
          ≡ (if is_tool_slot J id v then some n else lookup id tools)
    unfolding is_tool_slot
    lookup-tools_with v n tools id = elim (Option-cases (get_str J v "toolCallId")) [
      | inl e ↦ ground arith
      | inr (t, e) ↦ ground (arith, lookup-insert t id n tools)
    ]

    -- The entry is no slot of a tool call that the turn has a slot of.
    abbrev pub New : HistoryBuilder J → Value → Type 0
    New b v =
        (id : String)
        → is_tool_slot J id v ≡ true
        → within b.turn_start (rposition (is_tool_slot J id) b.updates) ≡ none

    tool-not_user : (v : Value) (id : String) → is_user J v ≡ true → is_tool_slot J id v ≡ false
    unfolding is_tool_slot
    tool-not_user v id h = elim (Option-cases (get_str J v "sessionUpdate")) [
      | inl e ↦ ground arith
      | inr (k, e) ↦ ground (arith, is_tool-not_user k)
    ]

    push_user_unique :
        (xs : List Value) (v : Value) (id : String)
        → is_user J v ≡ true
        → position (is_tool_slot J id) (drop (length xs) (xs ++ v ∷ []))
          ≡ within (length xs) (rposition (is_tool_slot J id) (xs ++ v ∷ []))
    unfolding position
    push_user_unique xs v id h = elim (Option-cases (rposition (is_tool_slot J id) xs)) [
      | inl e ↦
          ground
            (arith, drop-all xs v, tool-not_user v id h, rposition-push (is_tool_slot J id) xs v)
      | inr (i, e) ↦ ground (
        arith,
        drop-all xs v,
        tool-not_user v id h,
        rposition-push (is_tool_slot J id) xs v,
        rposition-bound (is_tool_slot J id) xs i e,
      )
    ]

    push_in_turn_unique :
        (p : Value → Bool) (n : ℕ) (xs : List Value) (v : Value)
        → n ≤ length xs
        → position p (drop n xs) ≡ within n (rposition p xs)
        → (p v ≡ true → within n (rposition p xs) ≡ none)
        → position p (drop n (xs ++ v ∷ [])) ≡ within n (rposition p (xs ++ v ∷ []))
    push_in_turn_unique p n xs v h u new =
        ap (position p) (drop-push n xs v h)
        ∙ position-push p (drop n xs) v
        ∙ ground (arith, u, new, length-drop n xs)
        ∙ ap (within n) (sym (rposition-push p xs v))

    pub push_entry-Inv :
        (b : HistoryBuilder J) (v : Value) → Inv b → New b v → Inv (push_entry J value_bytes b v)
    unfolding push_entry
    push_entry-Inv b v inv new = record {
      start = ground (arith, inv.start, rposition-push (is_user J) b.updates v);
      tools = λ id.
          lookup-tools_with v (length b.updates) b.tools id
          ∙ ap (λ r. if is_tool_slot J id v then some (length b.updates) else r) (inv.tools id)
          ∙ sym (rposition-push (is_tool_slot J id) b.updates v);
      unique = λ id. elim (Bool-cases (is_user J v)) [
        | inl h ↦ rw h (push_user_unique b.updates v id h)
        | inr h ↦ rw h (
            push_in_turn_unique (is_tool_slot J id) b.turn_start b.updates v (start_bound b inv)
              (inv.unique id) (new id))
      ];
    }

    lookup-shift_tools :
        (i : ℕ) (tools : Dict ℕ) (id : String)
        → lookup id (shift_tools i tools) ≡ map_place (unshift i) (lookup id tools)
    unfolding shift_tools lookup
    lookup-shift_tools i [] id = refl
    lookup-shift_tools i ((k, j) ∷ tools) id = ground (arith, lookup-shift_tools i tools id)

    remove_unique :
        (p : Value → Bool) (n j : ℕ) (xs : List Value) (x : Value)
        → get_elem? xs (n + j) ≡ some x
        → p x ≡ false
        → position p (drop n xs) ≡ within n (rposition p xs)
        → position p (drop n (remove_at xs (n + j))) ≡ within n (rposition p (remove_at xs (n + j)))
    remove_unique p n j xs x e h u =
        ap (position p) (drop-remove n xs j)
        ∙ position-remove p (drop n xs) j x (drop-get n xs j ∙ e) h
        ∙ ground (arith, u)
        ∙ ap (within n) (sym (rposition-remove p xs (n + j) x e h))

    -- A slot of the turn that is neither a user message nor a tool call is removed.
    pub remove_slot-Inv :
        (b : HistoryBuilder J) (j : ℕ) (x : Value)
        → Inv b
        → get_elem? b.updates (b.turn_start + j) ≡ some x
        → is_user J x ≡ false
        → ((id : String) → is_tool_slot J id x ≡ false)
        → Inv (remove_slot J value_bytes b (b.turn_start + j))
    unfolding remove_slot
    remove_slot-Inv b j x inv e h t = record {
      start =
          ground
            (arith, inv.start, rposition-remove (is_user J) b.updates (b.turn_start + j) x e h);
      tools = λ id.
          lookup-shift_tools (b.turn_start + j) b.tools id
          ∙ ap (map_place (unshift (b.turn_start + j))) (inv.tools id)
          ∙ sym (rposition-remove (is_tool_slot J id) b.updates (b.turn_start + j) x e (t id));
      unique = λ id.
          remove_unique (is_tool_slot J id) b.turn_start j b.updates x e (t id) (inv.unique id);
    }
