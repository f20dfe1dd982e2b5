-- ===== src/History/Chunks.antt =====
-- A message chunk extends the last update or follows it, in the builder as in the reference fold.
use attyd.Common.{
  ℕ, ◌-◌, ◌<◌, String, true, false, Option, none, some, List, [], ◌∷◌, ◌++◌, ◌≡◌, refl, ap, sym,
  ◌∙◌, Result, ok, ◌>>=◌, str_eq_iff, if◌then◌else◌, get_elem?, last, set_last, length, nonempty,
  arith, inl, inr, Option-cases, Result-cases, Bool-cases, bind-ok,
}
use attyd.Json.{Json, get_str}
use attyd.Fold.{
  RuntimeStateError, is_tool, is_text_chunk, is_tool_slot, text_chunk_shape, extend_chunk,
  same_shape, fold_chunk, fold_kind, fold_shared_active_turn_update,
}
use attyd.History.Slots.{
  rposition, rposition-bound, drop, take, take-push, last-drop, take-set_last, get-last, is_empty,
  nonempty-length,
}
use attyd.History.Reference.{is_user, turn_start_of, fold_last_turn, fold_history_update}
use attyd.History.Builder.{HistoryBuilder, place, kind_place, push_all, store, append}
use attyd.History.Effects.{extend_chunk-SameSlot}
use attyd.History.Places.{New}
use attyd.History.Steps.{
  Step, fails, pushes, follows, writes, append-none, append-some, fold-last_turn, no_session_place,
}

pub chunk-not_tool : (k : String) → is_text_chunk k ≡ true → is_tool k ≡ false
chunk-not_tool k h = ground (
  arith,
  str_eq_iff k "user_message_chunk",
  str_eq_iff k "agent_message_chunk",
  str_eq_iff k "agent_thought_chunk",
  str_eq_iff k "tool_call",
  str_eq_iff k "tool_call_update",
  str_eq_iff "tool_call" "user_message_chunk",
  str_eq_iff "tool_call" "agent_message_chunk",
  str_eq_iff "tool_call" "agent_thought_chunk",
  str_eq_iff "tool_call_update" "user_message_chunk",
  str_eq_iff "tool_call_update" "agent_message_chunk",
  str_eq_iff "tool_call_update" "agent_thought_chunk",
)

module _ (J : Json) where
  open J use {Value}

  pub not_tool-New :
      (value_bytes : Value → ℕ) (b : HistoryBuilder J) (u : Value) (k : String)
      → get_str J u "sessionUpdate" ≡ some k
      → is_tool k ≡ false
      → New J value_bytes b u
  unfolding is_tool_slot
  not_tool-New value_bytes b u k e h id s = absurd (ground arith)

  pub fold-kind :
      (ys : List Value) (u : Value) (k : String)
      → get_str J u "sessionUpdate" ≡ some k
      → fold_shared_active_turn_update J ys u ≡ fold_kind J ys u k
  unfolding fold_shared_active_turn_update
  fold-kind ys u k e = rw (e, fold_shared_active_turn_update) refl

  pub place-kind :
      (b : HistoryBuilder J) (u : Value) (k : String)
      → get_str J u "sessionUpdate" ≡ some k
      → place J b u ≡ kind_place J b u k
  unfolding place
  place-kind b u k e = rw (e, place) refl

  fold-chunk :
      (ys : List Value) (u : Value) (k : String)
      → get_str J u "sessionUpdate" ≡ some k
      → is_text_chunk k ≡ true
      → fold_shared_active_turn_update J ys u ≡ fold_chunk J ys u
  unfolding fold_kind
  fold-chunk ys u k e h = fold-kind ys u k e ∙ rw (h, fold_kind) refl

  place-chunk :
      (b : HistoryBuilder J) (u : Value) (k : String)
      → get_str J u "sessionUpdate" ≡ some k
      → is_text_chunk k ≡ true
      → place J b u ≡ (if nonempty b.updates then some (length b.updates - 1) else none)
  unfolding kind_place
  place-chunk b u k e h = place-kind b u k e ∙ rw (h, kind_place) refl

  -- What a chunk does after the update `l`: nothing yet, or an extension of it.
  unfoldable chunk_step : Value → Value → Result RuntimeStateError (Option Value)
  chunk_step l u = text_chunk_shape J u >>= λ found. elim found [
    | none ↦ ok none
    | some (shape, text) ↦ text_chunk_shape J l >>= λ previous_shape.
        elim (same_shape J previous_shape shape) [
          | true ↦ extend_chunk J l text >>= λ merged. ok (some merged)
          | false ↦ ok none
        ]
  ]

  abbrev after : List Value → Value → Option Value → List Value
  after ys u none = ys ++ u ∷ []
  after ys u (some m) = set_last ys m

  fold_chunk-last :
      (ys : List Value) (u l : Value)
      → last ys ≡ some l
      → fold_chunk J ys u ≡ (chunk_step l u >>= λ r. ok (after ys u r))
  unfolding fold_chunk chunk_step
  fold_chunk-last ys u l e = ground arith

  fold_chunk-empty : (u : Value) → fold_chunk J [] u ≡ (text_chunk_shape J u >>= λ _. ok (u ∷ []))
  unfolding fold_chunk
  fold_chunk-empty u = ground arith

  -- A chunk that is taken in extends `l`.
  chunk_step-text :
      (l u m : Value)
      → chunk_step l u ≡ ok (some m)
      → (text : String) × (extend_chunk J l text ≡ ok m)
  unfolding chunk_step
  chunk_step-text l u m h = elim (Result-cases (text_chunk_shape J u)) [
    | inr (e, q) ↦ absurd (ground arith)
    | inl (found, q) ↦ elim (Option-cases found) [
      | inl n ↦ absurd (ground arith)
      | inr ((shape, text), n) ↦ (text, ground arith)
    ]
  ]

  module _ (value_bytes : Value → ℕ) where
    -- The chunk `u` comes after the last update `l`.
    module _ (b : HistoryBuilder J) (u l : Value) (k : String)
        (e : get_str J u "sessionUpdate" ≡ some k) (h : is_text_chunk k ≡ true)
        (full : nonempty b.updates ≡ true)
        (at : get_elem? b.updates (length b.updates - 1) ≡ some l)
        (lt : turn_start_of J b.updates < length b.updates) where
      append-chunk : append J value_bytes b u ≡ (
          chunk_step l u >>= λ r.
          ok (store J value_bytes b (some (length b.updates - 1)) (after (l ∷ []) u r)))
      append-chunk =
          append-some J value_bytes b u (length b.updates - 1) l
            (place-chunk b u k e h ∙ rw full refl) at
          ∙ ap
              (λ m. m >>= λ folded. ok (store J value_bytes b (some (length b.updates - 1)) folded))
              (fold-chunk (l ∷ []) u k e h ∙ fold_chunk-last (l ∷ []) u l refl)
          ∙ bind-ok (chunk_step l u) (after (l ∷ []) u)
              (store J value_bytes b (some (length b.updates - 1)))

      fold_history-chunk :
          let n = turn_start_of J b.updates in
          fold_history_update J b.updates u
          ≡ (chunk_step l u >>= λ r. ok (take n b.updates ++ after (drop n b.updates) u r))
      unfolding fold_last_turn
      fold_history-chunk =
          let n = turn_start_of J b.updates in
          fold-last_turn J value_bytes b.updates u
            (no_session_place J value_bytes b.updates u (ground (arith, chunk-not_tool k h)))
          ∙ ap (λ m. m >>= λ folded. ok (take n b.updates ++ folded))
              (fold-chunk (drop n b.updates) u k e h
                ∙ fold_chunk-last (drop n b.updates) u l (last-drop n b.updates lt ∙ at))
          ∙ bind-ok (chunk_step l u) (after (drop n b.updates) u) (λ f. take n b.updates ++ f)

      chunk-after : Step J value_bytes b u
      unfolding push_all store
      chunk-after = elim (Result-cases (chunk_step l u)) [
        | inr (err', q) ↦ fails err' (append-chunk ∙ rw q refl) (fold_history-chunk ∙ rw q refl)
        | inl (r, q) ↦ elim (Option-cases r) [
          | inl z ↦
              follows (length b.updates - 1) l at
                (not_tool-New value_bytes b u k e (chunk-not_tool k h))
                (append-chunk ∙ rw (q, z) refl)
                (fold_history-chunk
                  ∙ rw (q, z) (ap ok (take-push (turn_start_of J b.updates) b.updates u)))
          | inr (m, z) ↦
              let (text, extended) = chunk_step-text l u m (rw (q, z) refl) in
              writes (length b.updates - 1) l m at (extend_chunk-SameSlot J l m text extended)
                (append-chunk ∙ rw (q, z) refl)
                (fold_history-chunk
                  ∙ rw (q, z) (ap ok (take-set_last (turn_start_of J b.updates) b.updates m lt)))
        ]
      ]

    start_lt : (xs : List Value) → nonempty xs ≡ true → turn_start_of J xs < length xs
    start_lt xs h = elim (Option-cases (rposition (is_user J) xs)) [
      | inl e ↦ ground (arith, nonempty-length xs h)
      | inr (i, e) ↦ ground (arith, rposition-bound (is_user J) xs i e)
    ]

    fold_history-empty :
        (u : Value) (k : String)
        → get_str J u "sessionUpdate" ≡ some k
        → is_text_chunk k ≡ true
        → fold_history_update J [] u ≡ (text_chunk_shape J u >>= λ _. ok (u ∷ []))
    unfolding fold_last_turn rposition
    fold_history-empty u k e h =
        fold-last_turn J value_bytes [] u
          (no_session_place J value_bytes [] u (ground (arith, chunk-not_tool k h)))
        ∙ ap (λ m. m >>= λ folded. ok ([] ++ folded)) (fold-chunk [] u k e h ∙ fold_chunk-empty u)
        ∙ bind-ok (text_chunk_shape J u) (λ _. u ∷ []) (λ f. [] ++ f)

    chunk-first :
        (b : HistoryBuilder J) (u : Value) (k : String)
        → get_str J u "sessionUpdate" ≡ some k
        → is_text_chunk k ≡ true
        → nonempty b.updates ≡ false
        → Step J value_bytes b u
    unfolding push_all
    chunk-first b u k e h none_yet =
        let empty = is_empty b.updates none_yet in
        let built =
          append-none J value_bytes b u (place-chunk b u k e h ∙ rw none_yet refl)
          ∙ ap (λ m. m >>= λ folded. ok (push_all J value_bytes b folded))
              (fold-chunk [] u k e h ∙ fold_chunk-empty u)
          ∙ bind-ok (text_chunk_shape J u) (λ _. u ∷ []) (push_all J value_bytes b) in
        let folded = ap (λ xs. fold_history_update J xs u) empty ∙ fold_history-empty u k e h in
        elim (Result-cases (text_chunk_shape J u)) [
          | inr (err', q) ↦ fails err' (built ∙ rw q refl) (folded ∙ rw q refl)
          | inl (found, q) ↦
              pushes (not_tool-New value_bytes b u k e (chunk-not_tool k h)) (built ∙ rw q refl)
                (folded ∙ rw q (ap (λ xs. ok (xs ++ u ∷ [])) (sym empty)))
        ]

    pub chunk-Step :
        (b : HistoryBuilder J) (u : Value) (k : String)
        → get_str J u "sessionUpdate" ≡ some k
        → is_text_chunk k ≡ true
        → Step J value_bytes b u
    chunk-Step b u k e h = elim (Bool-cases (nonempty b.updates)) [
      | inr none_yet ↦ chunk-first b u k e h none_yet
      | inl full ↦
          let (l, at) = get-last b.updates full in
          chunk-after b u l k e h full at (start_lt b.updates full)
    ]
