-- ===== src/History/Plans.antt =====
-- A plan takes its slot in the turn or gets one, and is removed from it, in the builder as in the
-- reference fold.
use attyd.Common.{
  ℕ, String, Bool, false, ◌&&◌, ◌||◌, some, List, ◌≡◌, refl, ap, ◌∙◌, ok, err, str_eq, is_text,
  is_some_and, position, arith, inl, inr, Option-cases, Result-cases, Bool-cases, ◌⊎◌,
}
use mathlib.Core.Path.{fun_ext}
use attyd.Json.{Json, get_str, get_object, map_str, index}
use attyd.Fold.{
  RuntimeStateError, operation_mismatch, required_fold_string, replace_shared_fold_slot,
  is_plan_slot, plan_id_of, is_plan_update_slot, fold_plan, bad_items, fold_plan_update,
  fold_plan_removed, fold_kind,
}
use attyd.History.Slots.{drop}
use attyd.History.Builder.{HistoryBuilder, place, kind_place, is_plan_place, plan_id_in, plus}
use attyd.History.Places.{Inv}
use attyd.History.Chunks.{fold-kind, place-kind, not_tool-New}
use attyd.History.ToolFolds.{value_eq-text, required-text}
use attyd.History.Steps.{Step, no_session_place, fail-Step}
use attyd.History.PlanSlots.{
  quiet, plan_slot-Quiet, plan_update_slot-Quiet, without_slot, replace-Step, remove-Step,
}

module _ (J : Json) where
  open J use {Value, get, as_str}

  -- The three kinds of plan updates.
  plan_place-plan : (u : Value) → is_plan_place J "plan" u ≡ is_plan_slot J
  unfolding is_plan_place is_plan_slot
  plan_place-plan u = refl

  index-text : (v : Value) (k : String) → as_str (index J v k) ≡ get_str J v k
  index-text v k = elim (Option-cases (get v k)) [
    | inl e ↦ ground (arith, J.as_str_of_null)
    | inr (x, e) ↦ ground arith
  ]

  -- The plan identifier as the builder reads it, and as the fold does.
  plan_id-index : (x : Value) → as_str (index J (index J x "plan") "planId") ≡ plan_id_of J x
  plan_id-index x = index-text (index J x "plan") "planId" ∙ (elim (Option-cases (get x "plan")) [
    | inl e ↦ ground (arith, J.get_of_null "planId")
    | inr (plan, e) ↦ ground arith
  ])

  plan_place-update :
      (k : String) (u : Value) (id : String)
      → str_eq k "plan" ≡ false
      → as_str (plan_id_in J k u) ≡ some id
      → is_plan_place J k u ≡ is_plan_update_slot J id
  unfolding is_plan_place is_plan_update_slot
  plan_place-update k u id h e = fun_ext λ x. rw h (
      ap (λ t. is_text (get_str J x "sessionUpdate") "plan_update" && t)
        (value_eq-text J (index J (index J x "plan") "planId") (plan_id_in J k u) id e
          ∙ ap (λ o. is_text o id) (plan_id-index x)))

  object_plan_id :
      (u : Value) (plan : J.Map)
      → get_object J u "plan" ≡ some plan
      → plan_id_of J u ≡ map_str J plan "planId"
  object_plan_id u plan e = elim (Option-cases (get u "plan")) [
    | inl n ↦ absurd (ground arith)
    | inr (x, n) ↦ ground (arith, J.object_of_as_object x plan, J.get_of_object plan "planId")
  ]

  -- `plan_update` either takes the slot of its plan, or fails in every list.
  plan_update-cases :
      (u : Value)
      → ((id : String) × (plan_id_of J u ≡ some id)
          × ((ys : List Value)
              → fold_plan_update J ys u
                ≡ ok (replace_shared_fold_slot J ys (is_plan_update_slot J id) u)))
        ⊎ ((ys : List Value) → fold_plan_update J ys u ≡ err operation_mismatch)
  unfolding fold_plan_update
  plan_update-cases u = elim (Option-cases (get_object J u "plan")) [
    | inl e ↦ inr (λ ys. ground arith)
    | inr (plan, e) ↦ elim (Option-cases (map_str J plan "planId")) [
      | inl f ↦ inr (λ ys. ground arith)
      | inr (id, f) ↦ elim (Bool-cases (str_eq id "" || bad_items J plan)) [
        | inl bad ↦ inr (λ ys. ground arith)
        | inr good ↦ inl (id, object_plan_id u plan e ∙ f, λ ys. ground arith)
      ]
    ]
  ]

  place-plan :
      (b : HistoryBuilder J) (u : Value) (k : String) {p : Value → Bool}
      → get_str J u "sessionUpdate" ≡ some k
      → kind_place J b u k
        ≡ plus b.turn_start (position (is_plan_place J k u) (drop b.turn_start b.updates))
      → is_plan_place J k u ≡ p
      → place J b u ≡ plus b.turn_start (position p (drop b.turn_start b.updates))
  place-plan b u k e kind same =
      place-kind J b u k e
      ∙ kind
      ∙ ap (λ p. plus b.turn_start (position p (drop b.turn_start b.updates))) same

  fold_plan-cases :
      (u : Value)
      → ((ys : List Value)
          → fold_plan J ys u ≡ ok (replace_shared_fold_slot J ys (is_plan_slot J) u))
        ⊎ ((ys : List Value) → fold_plan J ys u ≡ err operation_mismatch)
  unfolding fold_plan
  fold_plan-cases u = elim (Bool-cases (is_some_and (get u "entries") J.is_array)) [
    | inl e ↦ inl (λ ys. ground arith)
    | inr e ↦ inr (λ ys. ground arith)
  ]

  fold_plan_removed-cases :
      (u : Value)
      → ((id : String) × (get_str J u "planId" ≡ some id)
          × ((ys : List Value)
              → fold_plan_removed J ys u ≡ ok (without_slot J (is_plan_update_slot J id) ys)))
        ⊎ ((e : RuntimeStateError) × ((ys : List Value) → fold_plan_removed J ys u ≡ err e))
  unfolding fold_plan_removed
  fold_plan_removed-cases u = elim (Result-cases (required_fold_string J u "planId")) [
    | inl (id, r) ↦ inl (id, required-text J u "planId" id r, λ ys. ground arith)
    | inr (e, r) ↦ inr (e, λ ys. ground arith)
  ]

  module _ (value_bytes : Value → ℕ) (b : HistoryBuilder J) (u : Value) (v : Inv J b) where
    pub plan-Step : get_str J u "sessionUpdate" ≡ some "plan" → Step J value_bytes b u
    unfolding fold_kind kind_place
    plan-Step e = elim (fold_plan-cases u) [
      | inr bad ↦
          fail-Step J value_bytes b u operation_mismatch (λ ys. fold-kind J ys u "plan" e ∙ bad ys)
      | inl good ↦
          replace-Step J value_bytes b u (is_plan_slot J) v (plan_slot-Quiet J)
            (place-plan b u "plan" e refl (plan_place-plan u))
            (no_session_place J value_bytes b.updates u (rw e refl))
            (not_tool-New J value_bytes b u "plan" e refl) (quiet J u "plan" e refl refl)
            (λ ys. fold-kind J ys u "plan" e ∙ good ys)
    ]

    pub plan_update-Step : get_str J u "sessionUpdate" ≡ some "plan_update" → Step J value_bytes b u
    unfolding fold_kind kind_place
    plan_update-Step e = elim (plan_update-cases u) [
      | inr bad ↦
          fail-Step J value_bytes b u operation_mismatch
            (λ ys. fold-kind J ys u "plan_update" e ∙ bad ys)
      | inl (id, f, good) ↦
          replace-Step J value_bytes b u (is_plan_update_slot J id) v (plan_update_slot-Quiet J id)
            (place-plan b u "plan_update" e refl
              (plan_place-update "plan_update" u id refl (plan_id-index u ∙ f)))
            (no_session_place J value_bytes b.updates u (rw e refl))
            (not_tool-New J value_bytes b u "plan_update" e refl)
            (quiet J u "plan_update" e refl refl) (λ ys. fold-kind J ys u "plan_update" e ∙ good ys)
    ]

    pub plan_removed-Step :
        get_str J u "sessionUpdate" ≡ some "plan_removed" → Step J value_bytes b u
    unfolding fold_kind kind_place
    plan_removed-Step e = elim (fold_plan_removed-cases u) [
      | inr (err', bad) ↦
          fail-Step J value_bytes b u err' (λ ys. fold-kind J ys u "plan_removed" e ∙ bad ys)
      | inl (id, f, good) ↦
          remove-Step J value_bytes b u (is_plan_update_slot J id) v (plan_update_slot-Quiet J id)
            (place-plan b u "plan_removed" e refl
              (plan_place-update "plan_removed" u id refl (index-text u "planId" ∙ f)))
            (no_session_place J value_bytes b.updates u (rw e refl))
            (λ ys. fold-kind J ys u "plan_removed" e ∙ good ys)
    ]
