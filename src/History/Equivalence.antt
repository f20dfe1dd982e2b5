-- ===== src/History/Equivalence.antt =====
-- The incremental builder gives the history of the reference fold.
use attyd.Common.{
  ℕ, String, true, false, none, some, List, [], ◌∷◌, ◌≡◌, refl, ap, sym, ◌∙◌, Result, ok, err,
  ◌>>=◌, str_eq, str_eq_iff, arith, inl, inr, Option-cases, Bool-cases,
}
use attyd.Json.{Json, get_str}
use attyd.Fold.{
  RuntimeStateError, is_tool, is_text_chunk, is_tool_slot, fold_kind,
  fold_shared_active_turn_update,
}
use attyd.History.Reference.{fold_history_update, normalize_from, normalize_history_updates}
use attyd.History.Builder.{
  HistoryBuilder, empty_builder, is_plan_kind, place, kind_place, append, append_all,
}
use attyd.History.Places.{Inv, empty-Inv}
use attyd.History.Chunks.{fold-kind, place-kind, not_tool-New, chunk-Step}
use attyd.History.Tools.{tool-Step}
use attyd.History.Plans.{plan-Step, plan_update-Step, plan_removed-Step}
use attyd.History.Steps.{Step, Agrees, Step-Agrees, push-Step, no_session_place, fold-last_turn}

module _ (J : Json) (value_bytes : J.Value → ℕ) where
  open J use {Value}

  untyped-Step :
      (b : HistoryBuilder J) (u : Value)
      → Inv J b
      → get_str J u "sessionUpdate" ≡ none
      → Step J value_bytes b u
  unfolding is_tool_slot place fold_shared_active_turn_update
  untyped-Step b u v e =
      push-Step J value_bytes b u v (λ id s. absurd (ground arith)) (rw (e, place) refl)
        (fold-last_turn J value_bytes b.updates u
          (no_session_place J value_bytes b.updates u (rw e refl)))
        (λ ys. rw (e, fold_shared_active_turn_update) refl)

  -- A kind that the fold does not know.
  other-Step :
      (b : HistoryBuilder J) (u : Value) (k : String)
      → Inv J b
      → get_str J u "sessionUpdate" ≡ some k
      → is_text_chunk k ≡ false
      → is_tool k ≡ false
      → is_plan_kind k ≡ false
      → Step J value_bytes b u
  unfolding fold_kind kind_place
  other-Step b u k v e c t p =
      push-Step J value_bytes b u v (not_tool-New J value_bytes b u k e t)
        (place-kind J b u k e ∙ rw (c, t, p, kind_place) refl)
        (fold-last_turn J value_bytes b.updates u
          (no_session_place J value_bytes b.updates u (ground arith)))
        (λ ys. fold-kind J ys u k e ∙ ground arith)

  plan_kind-Step :
      (b : HistoryBuilder J) (u : Value) (k : String)
      → Inv J b
      → get_str J u "sessionUpdate" ≡ some k
      → is_plan_kind k ≡ true
      → Step J value_bytes b u
  plan_kind-Step b u k v e p = elim (Bool-cases (str_eq k "plan")) [
    | inl q ↦ plan-Step J value_bytes b u v (e ∙ ap some ((str_eq_iff k "plan").0 q))
    | inr q ↦ elim (Bool-cases (str_eq k "plan_update")) [
      | inl r ↦
          plan_update-Step J value_bytes b u v (e ∙ ap some ((str_eq_iff k "plan_update").0 r))
      | inr r ↦
          plan_removed-Step J value_bytes b u v
            (e ∙ ap some ((str_eq_iff k "plan_removed").0 (ground arith)))
    ]
  ]

  any-Step : (b : HistoryBuilder J) (u : Value) → Inv J b → Step J value_bytes b u
  any-Step b u v = elim (Option-cases (get_str J u "sessionUpdate")) [
    | inl e ↦ untyped-Step b u v e
    | inr (k, e) ↦ elim (Bool-cases (is_text_chunk k)) [
      | inl c ↦ chunk-Step J value_bytes b u k e c
      | inr c ↦ elim (Bool-cases (is_tool k)) [
        | inl t ↦ tool-Step J value_bytes b u k v e t
        | inr t ↦ elim (Bool-cases (is_plan_kind k)) [
          | inl p ↦ plan_kind-Step b u k v e p
          | inr p ↦ other-Step b u k v e c t p
        ]
      ]
    ]
  ]

  bind-Agrees :
      (r : Result RuntimeStateError (HistoryBuilder J)) (s : Result RuntimeStateError (List Value))
      (us : List Value)
      → Agrees J value_bytes r s
      → ((b : HistoryBuilder J)
          → Inv J b
          → Agrees J value_bytes (append_all J value_bytes b us) (normalize_from J b.updates us))
      → Agrees J value_bytes
          (r >>= λ b. append_all J value_bytes b us)
          (s >>= λ folded. normalize_from J folded us)
  bind-Agrees (err e) s us h ih = rw h refl
  bind-Agrees (ok b) s us h ih = rw h.0 (ih b h.1)

  append_all-Agrees :
      (b : HistoryBuilder J) (us : List Value)
      → Inv J b
      → Agrees J value_bytes (append_all J value_bytes b us) (normalize_from J b.updates us)
  unfolding append_all normalize_from
  append_all-Agrees b [] v = (refl, v)
  append_all-Agrees b (u ∷ us) v =
      bind-Agrees (append J value_bytes b u) (fold_history_update J b.updates u) us
        (Step-Agrees J value_bytes b u v (any-Step b u v)) (λ b' v'. append_all-Agrees b' us v')

  Agrees-updates :
      (r : Result RuntimeStateError (HistoryBuilder J)) (s : Result RuntimeStateError (List Value))
      → Agrees J value_bytes r s
      → (r >>= λ b. ok b.updates) ≡ s
  Agrees-updates (err e) s h = sym h
  Agrees-updates (ok b) s h = sym h.0

  -- For every sequence of updates, the builder started empty fails exactly where the reference
  -- fold of the whole history fails, with the same error, and otherwise holds the same history.
  pub append_all-normalize :
      (us : List Value)
      → (append_all J value_bytes (empty_builder J) us >>= λ b. ok b.updates)
        ≡ normalize_history_updates J us
  unfolding normalize_history_updates empty_builder
  append_all-normalize us =
      Agrees-updates (append_all J value_bytes (empty_builder J) us) (normalize_from J [] us)
        (append_all-Agrees (empty_builder J) us (empty-Inv J))
