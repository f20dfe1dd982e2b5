-- ===== src/History/Steps.antt =====
-- How the builder and the reference fold answer an update, side by side.
use attyd.Common.{
  ℕ, ◌+◌, String, false, none, some, List, [], ◌∷◌, ◌++◌, ◌≡◌, refl, ap, sym, ◌∙◌, Result, ok, err,
  ◌>>=◌, is_text, set, remove_at, get_elem?, arith, Option-cases, Bool-cases, inl, inr,
}
use attyd.Json.{Json, get_str}
use attyd.Fold.{RuntimeStateError, is_tool_slot, fold_shared_active_turn_update}
use attyd.History.Slots.{drop, take-push, set-same, rposition-get, first}
use attyd.History.Reference.{
  is_user, turn_start_of, fold_last_turn, fold_history_update, session_place, fold_slot,
  is_session_tool,
}
use attyd.History.Builder.{
  HistoryBuilder, place, slot_at, push_entry, push_all, replace_slot, remove_slot, store, append,
}
use attyd.History.Effects.{SameSlot}
use attyd.History.Places.{Inv, New, push_entry-Inv, replace_slot-Inv, remove_slot-Inv}

module _ (J : Json) (value_bytes : J.Value → ℕ) where
  open J use {Value}

  -- The answers of both: the same error, or the same change of the history.
  pub data Step (b : HistoryBuilder J) (u : Value) : Type 0 where
    fails :
        (e : RuntimeStateError)
        → append J value_bytes b u ≡ err e
        → fold_history_update J b.updates u ≡ err e
        → Step b u
    pushes :
        New J value_bytes b u
        → append J value_bytes b u ≡ ok (push_entry J value_bytes b u)
        → fold_history_update J b.updates u ≡ ok (b.updates ++ u ∷ [])
        → Step b u
    follows :
        (i : ℕ) (x : Value)
        → get_elem? b.updates i ≡ some x
        → New J value_bytes b u
        → append J value_bytes b u
          ≡ ok (push_entry J value_bytes (replace_slot J value_bytes b i x) u)
        → fold_history_update J b.updates u ≡ ok (b.updates ++ u ∷ [])
        → Step b u
    writes :
        (i : ℕ) (x m : Value)
        → get_elem? b.updates i ≡ some x
        → SameSlot J m x
        → append J value_bytes b u ≡ ok (replace_slot J value_bytes b i m)
        → fold_history_update J b.updates u ≡ ok (set b.updates i m)
        → Step b u
    removes :
        (j : ℕ) (x : Value)
        → get_elem? b.updates (b.turn_start + j) ≡ some x
        → is_user J x ≡ false
        → ((id : String) → is_tool_slot J id x ≡ false)
        → append J value_bytes b u ≡ ok (remove_slot J value_bytes b (b.turn_start + j))
        → fold_history_update J b.updates u ≡ ok (remove_at b.updates (b.turn_start + j))
        → Step b u
    ignores :
        append J value_bytes b u ≡ ok b
        → fold_history_update J b.updates u ≡ ok b.updates
        → Step b u

  -- The builder's result is the reference's, and keeps the invariant.
  abbrev pub Agrees :
      Result RuntimeStateError (HistoryBuilder J) → Result RuntimeStateError (List Value) → Type 0
  Agrees (err e) r = r ≡ err e
  Agrees (ok b) r = (r ≡ ok b.updates) × Inv J b

  same-SameSlot : (x : Value) → SameSlot J x x
  same-SameSlot x = record { user = refl; tool = λ id. refl }

  replace_same :
      (b : HistoryBuilder J) (i : ℕ) (x : Value)
      → get_elem? b.updates i ≡ some x
      → (replace_slot J value_bytes b i x).updates ≡ b.updates
  unfolding replace_slot
  replace_same b i x e = set-same b.updates i x e

  replace-New :
      (b : HistoryBuilder J) (i : ℕ) (x u : Value)
      → get_elem? b.updates i ≡ some x
      → New J value_bytes b u
      → New J value_bytes (replace_slot J value_bytes b i x) u
  unfolding replace_slot
  replace-New b i x u e new = rw (set-same b.updates i x e) new

  pub Step-Agrees :
      (b : HistoryBuilder J) (u : Value)
      → Inv J b
      → Step b u
      → Agrees (append J value_bytes b u) (fold_history_update J b.updates u)
  unfolding push_entry replace_slot remove_slot
  Step-Agrees b u v (fails e p q) = rw (p, q) refl
  Step-Agrees b u v (pushes new p q) = rw (p, q) (refl, push_entry-Inv J value_bytes b u v new)
  Step-Agrees b u v (follows i x e new p q) =
      rw (p, q)
        (
          ap (λ xs. ok (xs ++ u ∷ [])) (sym (set-same b.updates i x e)),
          push_entry-Inv J value_bytes (replace_slot J value_bytes b i x) u
              (replace_slot-Inv J value_bytes b i x x v e (same-SameSlot x))
              (replace-New b i x u e new),
        )
  Step-Agrees b u v (writes i x m e same p q) =
      rw (p, q) (refl, replace_slot-Inv J value_bytes b i x m v e same)
  Step-Agrees b u v (removes j x e h t p q) =
      rw (p, q) (refl, remove_slot-Inv J value_bytes b j x v e h t)
  Step-Agrees b u v (ignores p q) = rw (p, q) (refl, v)

  pub append-none :
      (b : HistoryBuilder J) (u : Value)
      → place J b u ≡ none
      → append J value_bytes b u
        ≡ (fold_shared_active_turn_update J [] u >>= λ folded. ok (push_all J value_bytes b folded))
  unfolding append store
  append-none b u e = rw e refl

  slot_at-some :
      (xs : List Value) (i : ℕ) (x : Value)
      → get_elem? xs i ≡ some x
      → slot_at J xs (some i) ≡ x ∷ []
  slot_at-some xs i x h = ground arith

  pub append-some :
      (b : HistoryBuilder J) (u : Value) (i : ℕ) (x : Value)
      → place J b u ≡ some i
      → get_elem? b.updates i ≡ some x
      → append J value_bytes b u ≡ (
          fold_shared_active_turn_update J (x ∷ []) u >>= λ folded.
          ok (store J value_bytes b (some i) folded))
  unfolding append
  append-some b u i x e f = rw (e, slot_at-some b.updates i x f) refl

  pub fold-last_turn :
      (xs : List Value) (u : Value)
      → session_place J xs u ≡ none
      → fold_history_update J xs u ≡ fold_last_turn J xs u
  unfolding fold_history_update
  fold-last_turn xs u h = rw (h, fold_history_update) refl

  pub fold-session_place :
      (xs : List Value) (u : Value) (i : ℕ)
      → session_place J xs u ≡ some i
      → fold_history_update J xs u ≡ fold_slot J xs u i
  unfolding fold_history_update
  fold-session_place xs u i h = rw (h, fold_history_update) refl

  pub no_session_place :
      (xs : List Value) (u : Value)
      → is_text (get_str J u "sessionUpdate") "tool_call_update" ≡ false
      → session_place J xs u ≡ none
  unfolding session_place
  no_session_place xs u h = ground arith

  session_place-get :
      (xs : List Value) (u : Value) (i : ℕ)
      → session_place J xs u ≡ some i
      → (x : Value) × (get_elem? xs i ≡ some x)
  unfolding session_place
  session_place-get xs u i h =
      elim (Bool-cases (is_text (get_str J u "sessionUpdate") "tool_call_update")) [
        | inr f ↦ absurd (ground arith)
        | inl f ↦
            let (x, e, _) =
              rposition-get (is_session_tool J (J.get u "toolCallId")) xs i (ground arith) in
            (x, e)
      ]

  abbrev pub put_back : List Value → ℕ → List Value → List Value
  put_back xs i folded = elim (first folded) [ none ↦ xs | some v ↦ set xs i v ]

  pub fold_slot-at :
      (xs : List Value) (u : Value) (i : ℕ) (x : Value)
      → get_elem? xs i ≡ some x
      → fold_slot J xs u i
        ≡ (fold_shared_active_turn_update J (x ∷ []) u >>= λ folded. ok (put_back xs i folded))
  unfolding fold_slot
  fold_slot-at xs u i x at = rw (at, fold_slot) refl

  -- An update that no list takes.
  pub fail-Step :
      (b : HistoryBuilder J) (u : Value) (e : RuntimeStateError)
      → ((ys : List Value) → fold_shared_active_turn_update J ys u ≡ err e)
      → Step b u
  unfolding append fold_last_turn fold_slot
  fail-Step b u e all =
      fails e (rw (all (slot_at J b.updates (place J b u))) refl)
        (elim (Option-cases (session_place J b.updates u)) [
          | inl none_found ↦
              fold-last_turn b.updates u none_found
              ∙ rw (all (drop (turn_start_of J b.updates) b.updates)) refl
          | inr (i, found) ↦
              let (x, at) = session_place-get b.updates u i found in
              fold-session_place b.updates u i found
              ∙ fold_slot-at b.updates u i x at
              ∙ rw (all (x ∷ [])) refl
        ])

  -- An update that every list takes at its end.
  pub push-Step :
      (b : HistoryBuilder J) (u : Value)
      → Inv J b
      → New J value_bytes b u
      → place J b u ≡ none
      → fold_history_update J b.updates u ≡ fold_last_turn J b.updates u
      → ((ys : List Value) → fold_shared_active_turn_update J ys u ≡ ok (ys ++ u ∷ []))
      → Step b u
  unfolding push_all fold_last_turn
  push-Step b u v new at last all = pushes new (append-none b u at ∙ rw (all []) refl) (
      last
      ∙ rw (all (drop (turn_start_of J b.updates) b.updates))
          (ap ok (take-push (turn_start_of J b.updates) b.updates u)))
