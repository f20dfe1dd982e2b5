-- ===== src/History/Effects.antt =====
-- What folding into a slot does to the fields by which slots are found.
use Prim.Native.String.{◌++◌ as concat}
use attyd.Common.{
  String, true, false, none, some, ◌≡◌, refl, ap, ◌∙◌, ok, str_eq, str_eq_iff, is_text→eq,
  if◌then◌else◌, Option-cases, inl, inr, arith, Bool-cases,
}
use attyd.Json.{Json, get_str, get_object, map_str, index_set}
use attyd.Fold.{is_tool, extend_chunk, replace_tool_fields, insert_fields, is_tool_slot, merge_tool}
use attyd.History.Reference.{is_user}

pub is_tool-not_user : (k : String) → is_tool k ≡ true → str_eq k "user_message_chunk" ≡ false
is_tool-not_user k h = ground (
  arith,
  str_eq_iff k "tool_call",
  str_eq_iff k "tool_call_update",
  str_eq_iff k "user_message_chunk",
  str_eq_iff "tool_call" "user_message_chunk",
  str_eq_iff "tool_call_update" "user_message_chunk",
)

module _ (J : Json) where
  open J use {Value, get, as_object, as_str, object, map_insert}

  pub get-index_set :
      (v : Value) (m : J.Map) (k j : String) (x : Value)
      → as_object v ≡ some m
      → get (index_set J v k x) j ≡ (if str_eq k j then some x else get v j)
  get-index_set v m k j x e = ground (
    arith,
    J.object_of_as_object v m e,
    J.get_of_object (map_insert m k x) j,
    J.get_of_object m j,
    J.map_get-insert m k j x,
  )

  pub get-index_set_other :
      (v : Value) (k j : String) (x : Value)
      → str_eq k j ≡ false
      → get (index_set J v k x) j ≡ get v j
  get-index_set_other v k j x h = elim (Option-cases (as_object v)) [
    | inl e ↦ ground arith
    | inr (m, e) ↦ ground (arith, get-index_set v m k j x e)
  ]

  -- Two slots that no search tells apart: both start a turn or neither, and they are slots of the
  -- same tool calls.
  pub record SameSlot (v x : Value) : Type 0 where
    pub user : is_user J v ≡ is_user J x
    pub tool : (id : String) → is_tool_slot J id v ≡ is_tool_slot J id x

  pub same_fields :
      (v x : Value)
      → get v "sessionUpdate" ≡ get x "sessionUpdate"
      → get v "toolCallId" ≡ get x "toolCallId"
      → SameSlot v x
  unfolding is_tool_slot
  same_fields v x e f = record { user = ground arith; tool = λ id. ground arith }

  pub extend_chunk-SameSlot :
      (x m : Value) (text : String) → extend_chunk J x text ≡ ok m → SameSlot m x
  unfolding extend_chunk
  extend_chunk-SameSlot x m text h = elim (Option-cases (get_object J x "content")) [
    | inl e ↦ absurd (ground arith)
    | inr (content, e) ↦ elim (Option-cases (map_str J content "text")) [
      | inl f ↦ absurd (ground arith)
      | inr (old, f) ↦
          let merged = object (map_insert content "text" (J.string (concat old text))) in
          let same : m ≡ index_set J x "content" merged = ground arith in
          same_fields m x
            (ap (λ v. get v "sessionUpdate") same
              ∙ get-index_set_other x "content" "sessionUpdate" merged refl)
            (ap (λ v. get v "toolCallId") same
              ∙ get-index_set_other x "content" "toolCallId" merged refl)
    ]
  ]

  -- Two slots of one tool call.
  tool_fields :
      (v x : Value) (id k l : String)
      → get_str J v "sessionUpdate" ≡ some k
      → get_str J x "sessionUpdate" ≡ some l
      → is_tool k ≡ true
      → is_tool l ≡ true
      → get_str J v "toolCallId" ≡ some id
      → get_str J x "toolCallId" ≡ some id
      → SameSlot v x
  unfolding is_tool_slot
  tool_fields v x id k l vk xl hk hl vi xi = record {
    user = ground (arith, is_tool-not_user k hk, is_tool-not_user l hl);
    tool = λ id. ground arith;
  }

  abbrev merged_kind : Value → String → Value
  merged_kind x kind =
      if str_eq kind "tool_call"
      then J.string "tool_call"
      else elim (get x "sessionUpdate") [ none ↦ J.null | some k ↦ k ]

  merged_value :
      (x u m : Value) (kind id : String)
      → merge_tool J x u kind id ≡ ok m
      → (t : J.Map) × (m
          ≡ index_set J
              (index_set J (object t) "sessionUpdate" (merged_kind x kind))
              "toolCallId"
              (J.string id))
  unfolding merge_tool replace_tool_fields
  merged_value x u m kind id e = elim (Option-cases (as_object x)) [
    | inl a ↦ absurd (ground arith)
    | inr (mx, a) ↦ elim (Option-cases (as_object u)) [
      | inl b ↦ absurd (ground arith)
      | inr (mu, b) ↦ (insert_fields J mx (J.entries mu), ground arith)
    ]
  ]

  merged_fields :
      (t : J.Map) (su : Value) (id : String)
      → let m =
          index_set J (index_set J (object t) "sessionUpdate" su) "toolCallId" (J.string id) in
        (get m "sessionUpdate" ≡ some su) × (get m "toolCallId" ≡ some (J.string id))
  merged_fields t su id =
      let v = index_set J (object t) "sessionUpdate" su in
      let is_object : as_object v ≡ some (map_insert t "sessionUpdate" su) =
        ground (
          arith,
          J.as_object_of_object t,
          J.as_object_of_object (map_insert t "sessionUpdate" su),
        ) in
      (
        get-index_set_other v "toolCallId" "sessionUpdate" (J.string id) refl
            ∙ get-index_set (object t) t "sessionUpdate" "sessionUpdate" su
                (J.as_object_of_object t),
        get-index_set v (map_insert t "sessionUpdate" su) "toolCallId" "toolCallId" (J.string id)
            is_object,
      )

  -- The kind of a merged slot is that of a tool call.
  merged_kind-is_tool :
      (x : Value) (kind l : String)
      → get_str J x "sessionUpdate" ≡ some l
      → is_tool l ≡ true
      → (k : String) × (as_str (merged_kind x kind) ≡ some k) × (is_tool k ≡ true)
  merged_kind-is_tool x kind l e h = elim (Bool-cases (str_eq kind "tool_call")) [
    | inl t ↦ ("tool_call", rw t (J.as_str_of_string "tool_call"), refl)
    | inr t ↦ (l, ground arith, h)
  ]

  tool_slot-fields :
      (x : Value) (id : String)
      → is_tool_slot J id x ≡ true
      → (l : String) × (get_str J x "sessionUpdate" ≡ some l)
        × (is_tool l ≡ true)
        × (get_str J x "toolCallId" ≡ some id)
  unfolding is_tool_slot
  tool_slot-fields x id h = elim (Option-cases (get_str J x "sessionUpdate")) [
    | inl e ↦ absurd (ground arith)
    | inr (l, e) ↦ (l, e, ground arith, is_text→eq (get_str J x "toolCallId") id (ground arith))
  ]

  get_str-of :
      (v x : Value) (k s : String) → get v k ≡ some x → as_str x ≡ some s → get_str J v k ≡ some s
  get_str-of v x k s e h = ground arith

  -- A slot of the tool call `id` stays one, and is a slot of no other call.
  pub merge_tool-SameSlot :
      (x u m : Value) (kind id : String)
      → is_tool_slot J id x ≡ true
      → merge_tool J x u kind id ≡ ok m
      → SameSlot m x
  merge_tool-SameSlot x u m kind id h e =
      let (l, xl, hl, xi) = tool_slot-fields x id h in
      let (t, same) = merged_value x u m kind id e in
      let (k, mk, hk) = merged_kind-is_tool x kind l xl hl in
      let (su, ti) = merged_fields t (merged_kind x kind) id in
      tool_fields m x id k l
        (get_str-of m (merged_kind x kind) "sessionUpdate" k
          (ap (λ v. get v "sessionUpdate") same ∙ su) mk)
        xl hk hl
        (get_str-of m (J.string id) "toolCallId" id (ap (λ v. get v "toolCallId") same ∙ ti)
          (J.as_str_of_string id))
        xi
