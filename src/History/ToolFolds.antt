-- ===== src/History/ToolFolds.antt =====
-- The fold of a tool call into a list, and the two searches for its slot.
use attyd.Common.{
  ℕ, String, true, false, ◌&&◌, Option, none, some, List, [], ◌∷◌, ◌++◌, ◌≡◌, refl, ap, sym, ◌∙◌,
  ok, ◌>>=◌, str_eq_refl, is_text, is_some_and, set, get_elem?, position, arith, inl, inr,
  Bool-cases, is_text→eq,
}
use mathlib.Core.Path.{fun_ext}
use attyd.Json.{Json, get_str}
use attyd.Fold.{
  is_tool, is_text_chunk, is_tool_slot, required_fold_string, merge_tool, fold_tool, fold_kind,
  fold_shared_active_turn_update,
}
use attyd.History.Reference.{is_session_tool, option_eq}
use attyd.History.Chunks.{fold-kind, chunk-not_tool}

module _ (J : Json) where
  open J use {Value, get, as_str, value_eq}

  pub tool-not_chunk : (k : String) → is_tool k ≡ true → is_text_chunk k ≡ false
  tool-not_chunk k h = elim (Bool-cases (is_text_chunk k)) [
    | inl c ↦ absurd (ground (arith, chunk-not_tool k c))
    | inr c ↦ c
  ]

  pub fold-tool :
      (ys : List Value) (u : Value) (k : String)
      → get_str J u "sessionUpdate" ≡ some k
      → is_tool k ≡ true
      → fold_shared_active_turn_update J ys u ≡ fold_tool J ys u k
  unfolding fold_kind
  fold-tool ys u k e h = fold-kind J ys u k e ∙ rw (tool-not_chunk k h, h, fold_kind) refl

  pub fold_tool-push :
      (ys : List Value) (u : Value) (k id : String)
      → required_fold_string J u "toolCallId" ≡ ok id
      → position (is_tool_slot J id) ys ≡ none
      → fold_tool J ys u k ≡ ok (ys ++ u ∷ [])
  unfolding fold_tool
  fold_tool-push ys u k id e p = ground arith

  pub fold_tool-write :
      (ys : List Value) (u x : Value) (k id : String) (i : ℕ)
      → required_fold_string J u "toolCallId" ≡ ok id
      → position (is_tool_slot J id) ys ≡ some i
      → get_elem? ys i ≡ some x
      → fold_tool J ys u k ≡ (merge_tool J x u k id >>= λ m. ok (set ys i m))
  unfolding fold_tool
  fold_tool-write ys u x k id i e p q = ground arith

  pub required-text :
      (u : Value) (field s : String)
      → required_fold_string J u field ≡ ok s
      → get_str J u field ≡ some s
  unfolding required_fold_string
  required-text u field s h = ground arith

  -- A value equals a text value exactly when it is that text.
  pub value_eq-text :
      (w x : Value) (s : String) → as_str x ≡ some s → value_eq w x ≡ is_text (as_str w) s
  value_eq-text w x s e = elim (Bool-cases (value_eq w x)) [
    | inl h ↦
        let same : w ≡ x = (J.value_eq_iff w x).0 h in
        let t : as_str w ≡ some s = ap as_str same ∙ e in ground (arith, str_eq_refl s)
    | inr h ↦ elim (Bool-cases (is_text (as_str w) s)) [
      | inr f ↦ h ∙ sym f
      | inl f ↦
          let w_text = J.string_of_as_str w s (is_text→eq (as_str w) s f) in
          let x_text = J.string_of_as_str x s e in
          let t : value_eq w x ≡ true = (J.value_eq_iff w x).1 (w_text ∙ sym x_text) in
          absurd (ground arith)
    ]
  ]

  pub option_eq-text :
      (o p : Option Value) (s : String)
      → elim p as (λ _. Option String) [ none ↦ none | some x ↦ as_str x ] ≡ some s
      → option_eq J o p
        ≡ is_text (elim o as (λ _. Option String) [ none ↦ none | some x ↦ as_str x ]) s
  option_eq-text none none s e = absurd (cc)
  option_eq-text none (some x) s e = refl
  option_eq-text (some w) none s e = absurd (cc)
  option_eq-text (some w) (some x) s e = value_eq-text w x s e

  -- The two ways to find the slots of a tool call are one.
  pub session_tool-same :
      (u : Value) (id : String)
      → get_str J u "toolCallId" ≡ some id
      → is_session_tool J (get u "toolCallId") ≡ is_tool_slot J id
  unfolding is_session_tool is_tool_slot
  session_tool-same u id e = fun_ext λ c.
      ap (λ t. is_some_and (get_str J c "sessionUpdate") is_tool && t)
        (option_eq-text (get c "toolCallId") (get u "toolCallId") id e)
