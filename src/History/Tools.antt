-- ===== src/History/Tools.antt =====
-- A tool call updates its slot or gets one, in the builder as in the reference fold.
use attyd.Common.{
  ℕ, ◌+◌, ◌-◌, String, true, false, not, ◌||◌, Option, none, some, List, [], ◌∷◌, ◌++◌, ◌≡◌, refl,
  ap, sym, subst, ◌∙◌, ok, err, ◌>>=◌, bind-ok, str_eq, str_eq_iff, ltb, if◌then◌else◌, set,
  get_elem?, position, arith, inl, inr, Option-cases, Result-cases, Bool-cases,
}
use mathlib.Core.Path.{fun_ext}
use attyd.Json.{Json, get_str}
use attyd.Fold.{
  RuntimeStateError, is_tool, is_tool_slot, required_fold_string, merge_tool, fold_tool,
}
use attyd.History.Slots.{
  rposition, rposition-get, drop, take, take-push, take-set, drop-get, within,
}
use attyd.History.Reference.{turn_start_of, fold_last_turn, fold_history_update, session_place}
use attyd.History.Builder.{HistoryBuilder, place, kind_place, push_all, store, tool_place}
use attyd.History.Effects.{merge_tool-SameSlot}
use attyd.History.Places.{Inv}
use attyd.History.Chunks.{place-kind}
use attyd.History.Steps.{
  Step, fails, pushes, writes, append-none, append-some, fold-last_turn, fold-session_place,
  fold_slot-at, put_back, no_session_place, fail-Step,
}
use attyd.History.ToolFolds.{
  tool-not_chunk, fold-tool, fold_tool-push, fold_tool-write, session_tool-same, required-text,
}

module _ (J : Json) where
  open J use {Value, get, as_str, value_eq}

  module _ (value_bytes : Value → ℕ) (b : HistoryBuilder J) (u : Value) (k id : String)
      (v : Inv J b) (e : get_str J u "sessionUpdate" ≡ some k) (h : is_tool k ≡ true)
      (r : required_fold_string J u "toolCallId" ≡ ok id) where
    unfold_slot_id : (id' : String) → is_tool_slot J id' u ≡ true → id ≡ id'
    unfolding is_tool_slot
    unfold_slot_id id' s = ground (arith, required-text J u "toolCallId" id r, str_eq_iff id id')

    -- The call has no slot in the turn.
    tool-push :
        place J b u ≡ none
        → session_place J b.updates u ≡ none
        → within b.turn_start (rposition (is_tool_slot J id) b.updates) ≡ none
        → Step J value_bytes b u
    unfolding push_all fold_last_turn position
    tool-push at last away =
        let n = turn_start_of J b.updates in
        pushes
          (λ id' s.
            subst (λ i. within b.turn_start (rposition (is_tool_slot J i) b.updates) ≡ none)
              (unfold_slot_id id' s) away)
          (append-none J value_bytes b u at
            ∙ rw (fold-tool J [] u k e h ∙ fold_tool-push J [] u k id r refl) refl)
          (fold-last_turn J value_bytes b.updates u last
            ∙ rw
                (fold-tool J (drop n b.updates) u k e h
                  ∙ fold_tool-push J (drop n b.updates) u k id r (
                      ap (λ m. position (is_tool_slot J id) (drop m b.updates)) (sym v.start)
                      ∙ v.unique id
                      ∙ away))
                (ap ok (take-push n b.updates u)))

    -- The call has the slot `x` at `i`, in which both write.
    tool-write :
        (i : ℕ) (x : Value)
        → get_elem? b.updates i ≡ some x
        → is_tool_slot J id x ≡ true
        → place J b u ≡ some i
        → fold_history_update J b.updates u
          ≡ (merge_tool J x u k id >>= λ m. ok (set b.updates i m))
        → Step J value_bytes b u
    unfolding push_all store position
    tool-write i x at slot placed folded =
        let built =
          append-some J value_bytes b u i x placed at
          ∙ ap (λ m. m >>= λ f. ok (store J value_bytes b (some i) f))
              (fold-tool J (x ∷ []) u k e h
                ∙ fold_tool-write J (x ∷ []) u x k id 0 r (rw slot refl) refl)
          ∙ bind-ok (merge_tool J x u k id) (λ m. set (x ∷ []) 0 m)
              (store J value_bytes b (some i)) in
        elim (Result-cases (merge_tool J x u k id)) [
          | inr (err', q) ↦ fails err' (built ∙ rw q refl) (folded ∙ rw q refl)
          | inl (m, q) ↦
              writes i x m at (merge_tool-SameSlot J x u m k id slot q) (built ∙ rw q refl)
                (folded ∙ rw q refl)
        ]

    kind_place-tool : kind_place J b u k ≡ tool_place J b u k
    unfolding kind_place
    kind_place-tool = rw (tool-not_chunk J k h, h, kind_place) refl

    -- The slot that the builder takes, among those of the history.
    place-tool : place J b u ≡ elim (rposition (is_tool_slot J id) b.updates) as (λ _. Option ℕ) [
      | none ↦ none
      | some i ↦ if str_eq k "tool_call_update" || not (ltb i b.turn_start) then some i else none
    ]
    place-tool =
        place-kind J b u k e
        ∙ kind_place-tool
        ∙ ground (arith, required-text J u "toolCallId" id r, v.tools id)

    session_place-update :
        str_eq k "tool_call_update" ≡ true
        → session_place J b.updates u ≡ rposition (is_tool_slot J id) b.updates
    unfolding session_place
    session_place-update upd =
        rw (e, upd, session_place)
          (ap (λ p. rposition p b.updates)
            (session_tool-same J u id (required-text J u "toolCallId" id r)))

    -- The write in the turn is a write in the history.
    turn-write :
        (i : ℕ) (x : Value)
        → get_elem? b.updates i ≡ some x
        → rposition (is_tool_slot J id) b.updates ≡ some i
        → ltb i b.turn_start ≡ false
        → session_place J b.updates u ≡ none
        → fold_history_update J b.updates u
          ≡ (merge_tool J x u k id >>= λ m. ok (set b.updates i m))
    unfolding fold_last_turn
    turn-write i x at found late last =
        let n = turn_start_of J b.updates in
        let from : n + (i - n) ≡ i = ground (arith, v.start) in
        fold-last_turn J value_bytes b.updates u last
        ∙ ap (λ m. m >>= λ f. ok (take n b.updates ++ f))
            (fold-tool J (drop n b.updates) u k e h
              ∙ fold_tool-write J (drop n b.updates) u x k id (i - n) r
                  (ap (λ m. position (is_tool_slot J id) (drop m b.updates)) (sym v.start)
                    ∙ v.unique id
                    ∙ ground (arith, found, v.start))
                  (drop-get n b.updates (i - n) ∙ ap (get_elem? b.updates) from ∙ at))
        ∙ bind-ok (merge_tool J x u k id) (λ m. set (drop n b.updates) (i - n) m)
            (λ f. take n b.updates ++ f)
        ∙ ap (λ f. merge_tool J x u k id >>= λ m. ok (f m))
            (fun_ext λ m. take-set n b.updates (i - n) m ∙ ap (λ j. set b.updates j m) from)

    session-write :
        (i : ℕ) (x : Value)
        → get_elem? b.updates i ≡ some x
        → is_tool_slot J id x ≡ true
        → session_place J b.updates u ≡ some i
        → fold_history_update J b.updates u
          ≡ (merge_tool J x u k id >>= λ m. ok (set b.updates i m))
    unfolding position
    session-write i x at slot found =
        fold-session_place J value_bytes b.updates u i found
        ∙ fold_slot-at J value_bytes b.updates u i x at
        ∙ ap (λ m. m >>= λ f. ok (put_back J value_bytes b.updates i f))
            (fold-tool J (x ∷ []) u k e h
              ∙ fold_tool-write J (x ∷ []) u x k id 0 r (rw slot refl) refl)
        ∙ bind-ok (merge_tool J x u k id) (λ m. set (x ∷ []) 0 m)
            (put_back J value_bytes b.updates i)

    call-Step :
        (i : ℕ) (x : Value)
        → get_elem? b.updates i ≡ some x
        → is_tool_slot J id x ≡ true
        → rposition (is_tool_slot J id) b.updates ≡ some i
        → str_eq k "tool_call_update" ≡ false
        → Step J value_bytes b u
    call-Step i x at slot found call =
        let last = no_session_place J value_bytes b.updates u (rw e call) in
        elim (Bool-cases (ltb i b.turn_start)) [
          | inl early ↦
              tool-push (place-tool ∙ rw (found, call, early) refl) last (ground (arith, found))
          | inr late ↦
              tool-write i x at slot (place-tool ∙ rw (found, call, late) refl)
                (turn-write i x at found late last)
        ]

    tool-found : Step J value_bytes b u
    unfolding session_place
    tool-found = elim (Option-cases (rposition (is_tool_slot J id) b.updates)) [
      | inl missing ↦
          tool-push (place-tool ∙ rw missing refl)
            (elim (Bool-cases (str_eq k "tool_call_update")) [
              | inl upd ↦ session_place-update upd ∙ missing
              | inr call ↦ no_session_place J value_bytes b.updates u (rw e call)
            ])
            (rw missing refl)
      | inr (i, found) ↦
          let (x, at, slot) = rposition-get (is_tool_slot J id) b.updates i found in
          elim (Bool-cases (str_eq k "tool_call_update")) [
            | inr call ↦ call-Step i x at slot found call
            | inl upd ↦
                tool-write i x at slot (place-tool ∙ rw (found, upd) refl)
                  (session-write i x at slot (session_place-update upd ∙ found))
          ]
    ]

  fold_tool-fails :
      (ys : List Value) (u : Value) (k : String) (e : RuntimeStateError)
      → required_fold_string J u "toolCallId" ≡ err e
      → fold_tool J ys u k ≡ err e
  unfolding fold_tool
  fold_tool-fails ys u k e h = ground arith

  pub tool-Step :
      (value_bytes : Value → ℕ) (b : HistoryBuilder J) (u : Value) (k : String)
      → Inv J b
      → get_str J u "sessionUpdate" ≡ some k
      → is_tool k ≡ true
      → Step J value_bytes b u
  tool-Step value_bytes b u k v e h = elim (Result-cases (required_fold_string J u "toolCallId")) [
    | inl (id, r) ↦ tool-found value_bytes b u k id v e h r
    | inr (err', r) ↦
        fail-Step J value_bytes b u err'
          (λ ys. fold-tool J ys u k e h ∙ fold_tool-fails ys u k err' r)
  ]
