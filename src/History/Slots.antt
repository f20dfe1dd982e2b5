-- ===== src/History/Slots.antt =====
-- Places in a list: the last place, parts of a list, and how places move.
use attyd.Common.{
  ℕ, zero, suc, ◌+◌, ◌-◌, ◌≤◌, ◌<◌, Bool, true, false, Option, none, some, List, [], ◌∷◌, ◌++◌, ◌≡◌,
  refl, ap, ◌∙◌, nonempty, ltb, if◌then◌else◌, length, position, set, remove_at, get_elem?, last,
  set_last, arith,
}

-- A place after the removal of the place `i`.
abbrev pub unshift : ℕ → ℕ → ℕ
unshift i j = if ltb i j then j - 1 else j

abbrev pub map_place : (ℕ → ℕ) → Option ℕ → Option ℕ
map_place f none = none
map_place f (some i) = some (f i)

-- A place counted from `n`, where it is not before it.
abbrev pub within : ℕ → Option ℕ → Option ℕ
within n none = none
within n (some i) = if ltb i n then none else some (i - n)

module _ {ℓ} {A : Type ℓ} where
  -- `Iterator::rposition`.
  unfoldable pub rposition : (A → Bool) → List A → Option ℕ
  rposition p [] = none
  rposition p (x ∷ xs) = elim (rposition p xs) [
    | some i ↦ some (suc i)
    | none ↦ if p x then some 0 else none
  ]

  abbrev pub take : ℕ → List A → List A
  take zero xs = []
  take (suc n) [] = []
  take (suc n) (x ∷ xs) = x ∷ take n xs

  abbrev pub drop : ℕ → List A → List A
  drop zero xs = xs
  drop (suc n) [] = []
  drop (suc n) (x ∷ xs) = drop n xs

  abbrev pub first : List A → Option A
  first [] = none
  first (x ∷ _) = some x

  pub take-drop : (n : ℕ) (xs : List A) → take n xs ++ drop n xs ≡ xs
  take-drop zero xs = refl
  take-drop (suc n) [] = refl
  take-drop (suc n) (x ∷ xs) = ap (λ ys. x ∷ ys) (take-drop n xs)

  pub rposition-bound :
      (p : A → Bool) (xs : List A) (i : ℕ) → rposition p xs ≡ some i → i < length xs
  unfolding rposition
  rposition-bound p [] i h = absurd (cc)
  rposition-bound p (x ∷ xs) zero h = omega arith
  rposition-bound p (x ∷ xs) (suc i) h = ground (arith, rposition-bound p xs i)

  pub rposition-get :
      (p : A → Bool) (xs : List A) (i : ℕ)
      → rposition p xs ≡ some i
      → (x : A) × (get_elem? xs i ≡ some x) × (p x ≡ true)
  unfolding rposition
  rposition-get p [] i h = absurd (cc)
  rposition-get p (x ∷ xs) zero h = (x, refl, ground arith)
  rposition-get p (x ∷ xs) (suc i) h = rposition-get p xs i (ground arith)

  pub position-get :
      (p : A → Bool) (xs : List A) (i : ℕ)
      → position p xs ≡ some i
      → (x : A) × (get_elem? xs i ≡ some x) × (p x ≡ true)
  unfolding position
  position-get p [] i h = absurd (cc)
  position-get p (x ∷ xs) zero h = (x, refl, ground arith)
  position-get p (x ∷ xs) (suc i) h = position-get p xs i (ground arith)

  pub rposition-push :
      (p : A → Bool) (xs : List A) (v : A)
      → rposition p (xs ++ v ∷ []) ≡ (if p v then some (length xs) else rposition p xs)
  unfolding rposition
  rposition-push p [] v = ground arith
  rposition-push p (x ∷ xs) v = ground (arith, rposition-push p xs v)

  pub position-push :
      (p : A → Bool) (xs : List A) (v : A)
      → position p (xs ++ v ∷ [])
        ≡ elim (position p xs) [ some i ↦ some i | none ↦ if p v then some (length xs) else none ]
  unfolding position
  position-push p [] v = ground arith
  position-push p (x ∷ xs) v = ground (arith, position-push p xs v)

  -- A write that the test does not see moves no place.
  pub rposition-set :
      (p : A → Bool) (xs : List A) (i : ℕ) (x v : A)
      → get_elem? xs i ≡ some x
      → p v ≡ p x
      → rposition p (set xs i v) ≡ rposition p xs
  unfolding rposition
  rposition-set p [] i x v h e = refl
  rposition-set p (y ∷ xs) zero x v h e = ground arith
  rposition-set p (y ∷ xs) (suc i) x v h e = ground (arith, rposition-set p xs i x v h e)

  pub position-set :
      (p : A → Bool) (xs : List A) (i : ℕ) (x v : A)
      → get_elem? xs i ≡ some x
      → p v ≡ p x
      → position p (set xs i v) ≡ position p xs
  unfolding position
  position-set p [] i x v h e = refl
  position-set p (y ∷ xs) zero x v h e = ground arith
  position-set p (y ∷ xs) (suc i) x v h e = ground (arith, position-set p xs i x v h e)

  pub rposition-remove :
      (p : A → Bool) (xs : List A) (i : ℕ) (x : A)
      → get_elem? xs i ≡ some x
      → p x ≡ false
      → rposition p (remove_at xs i) ≡ map_place (unshift i) (rposition p xs)
  unfolding rposition
  rposition-remove p [] i x h e = refl
  rposition-remove p (y ∷ xs) zero x h e = ground arith
  rposition-remove p (y ∷ xs) (suc i) x h e = ground (arith, rposition-remove p xs i x h e)

  pub position-remove :
      (p : A → Bool) (xs : List A) (i : ℕ) (x : A)
      → get_elem? xs i ≡ some x
      → p x ≡ false
      → position p (remove_at xs i) ≡ map_place (unshift i) (position p xs)
  unfolding position
  position-remove p [] i x h e = refl
  position-remove p (y ∷ xs) zero x h e = ground arith
  position-remove p (y ∷ xs) (suc i) x h e = ground (arith, position-remove p xs i x h e)

  -- The part from `n` on, and what is done in it.
  pub drop-push :
      (n : ℕ) (xs : List A) (v : A) → n ≤ length xs → drop n (xs ++ v ∷ []) ≡ drop n xs ++ v ∷ []
  drop-push zero xs v h = refl
  drop-push (suc n) [] v h = absurd (omega arith)
  drop-push (suc n) (x ∷ xs) v h = drop-push n xs v (omega arith)

  pub take-push : (n : ℕ) (xs : List A) (v : A) → take n xs ++ (drop n xs ++ v ∷ []) ≡ xs ++ v ∷ []
  take-push zero xs v = refl
  take-push (suc n) [] v = refl
  take-push (suc n) (x ∷ xs) v = ap (λ ys. x ∷ ys) (take-push n xs v)

  pub drop-get : (n : ℕ) (xs : List A) (i : ℕ) → get_elem? (drop n xs) i ≡ get_elem? xs (n + i)
  drop-get zero xs i = ground arith
  drop-get (suc n) [] i = ground arith
  drop-get (suc n) (x ∷ xs) i = ground (arith, drop-get n xs i)

  pub take-set :
      (n : ℕ) (xs : List A) (i : ℕ) (v : A) → take n xs ++ set (drop n xs) i v ≡ set xs (n + i) v
  take-set zero xs i v = ground arith
  take-set (suc n) [] i v = ground arith
  take-set (suc n) (x ∷ xs) i v = ground (arith, take-set n xs i v)

  pub take-remove :
      (n : ℕ) (xs : List A) (i : ℕ) → take n xs ++ remove_at (drop n xs) i ≡ remove_at xs (n + i)
  take-remove zero xs i = ground arith
  take-remove (suc n) [] i = ground arith
  take-remove (suc n) (x ∷ xs) i = ground (arith, take-remove n xs i)

  pub drop-remove :
      (n : ℕ) (xs : List A) (i : ℕ) → drop n (remove_at xs (n + i)) ≡ remove_at (drop n xs) i
  drop-remove zero xs i = ground arith
  drop-remove (suc n) [] i = ground arith
  drop-remove (suc n) (x ∷ xs) i = ground (arith, drop-remove n xs i)

  pub position-drop-set :
      (p : A → Bool) (n : ℕ) (xs : List A) (i : ℕ) (x v : A)
      → get_elem? xs i ≡ some x
      → p v ≡ p x
      → position p (drop n (set xs i v)) ≡ position p (drop n xs)
  position-drop-set p zero xs i x v h e = position-set p xs i x v h e
  position-drop-set p (suc n) [] i x v h e = refl
  position-drop-set p (suc n) (y ∷ xs) zero x v h e = refl
  position-drop-set p (suc n) (y ∷ xs) (suc i) x v h e = position-drop-set p n xs i x v h e

  pub drop-all : (xs : List A) (v : A) → drop (length xs) (xs ++ v ∷ []) ≡ v ∷ []
  drop-all [] v = refl
  drop-all (x ∷ xs) v = drop-all xs v

  -- The last element, by its place.
  pub last-get : (xs : List A) → last xs ≡ get_elem? xs (length xs - 1)
  last-get [] = refl
  last-get (x ∷ []) = refl
  last-get (x ∷ y ∷ xs) = ground (arith, last-get (y ∷ xs))

  pub set_last-set : (xs : List A) (v : A) → set_last xs v ≡ set xs (length xs - 1) v
  set_last-set [] v = refl
  set_last-set (x ∷ []) v = refl
  set_last-set (x ∷ y ∷ xs) v = ground (arith, set_last-set (y ∷ xs) v)

  pub length-drop : (n : ℕ) (xs : List A) → length (drop n xs) ≡ length xs - n
  length-drop zero xs = omega arith
  length-drop (suc n) [] = omega arith
  length-drop (suc n) (x ∷ xs) = omega (arith, length-drop n xs)

  pub length-set : (xs : List A) (i : ℕ) (v : A) → length (set xs i v) ≡ length xs
  length-set [] i v = refl
  length-set (x ∷ xs) zero v = refl
  length-set (x ∷ xs) (suc i) v = ap suc (length-set xs i v)

  pub get-bound : (xs : List A) (i : ℕ) (x : A) → get_elem? xs i ≡ some x → i < length xs
  get-bound [] i x h = absurd (cc)
  get-bound (y ∷ xs) zero x h = omega arith
  get-bound (y ∷ xs) (suc i) x h = omega (arith, get-bound xs i x h)

  pub set-same : (xs : List A) (i : ℕ) (x : A) → get_elem? xs i ≡ some x → set xs i x ≡ xs
  set-same [] i x h = refl
  set-same (y ∷ xs) zero x h = ground arith
  set-same (y ∷ xs) (suc i) x h = ap (λ ys. y ∷ ys) (set-same xs i x h)

  last_place : (n : ℕ) (xs : List A) → n < length xs → n + (length (drop n xs) - 1) ≡ length xs - 1
  last_place n xs h = omega (arith, length-drop n xs)

  pub last-drop :
      (n : ℕ) (xs : List A) → n < length xs → last (drop n xs) ≡ get_elem? xs (length xs - 1)
  last-drop n xs h =
      last-get (drop n xs)
      ∙ drop-get n xs (length (drop n xs) - 1)
      ∙ ap (get_elem? xs) (last_place n xs h)

  pub take-set_last :
      (n : ℕ) (xs : List A) (v : A)
      → n < length xs
      → take n xs ++ set_last (drop n xs) v ≡ set xs (length xs - 1) v
  take-set_last n xs v h =
      ap (λ ys. take n xs ++ ys) (set_last-set (drop n xs) v)
      ∙ take-set n xs (length (drop n xs) - 1) v
      ∙ ap (λ i. set xs i v) (last_place n xs h)

  pub get-last :
      (xs : List A) → nonempty xs ≡ true → (x : A) × (get_elem? xs (length xs - 1) ≡ some x)
  get-last [] h = absurd (cc)
  get-last (x ∷ []) h = (x, ground arith)
  get-last (x ∷ y ∷ xs) h = let (z, e) = get-last (y ∷ xs) refl in (z, ground arith)

  pub is_empty : (xs : List A) → nonempty xs ≡ false → xs ≡ []
  is_empty [] h = refl
  is_empty (x ∷ xs) h = absurd (cc)

  pub nonempty-length : (xs : List A) → nonempty xs ≡ true → 0 < length xs
  nonempty-length [] h = absurd (cc)
  nonempty-length (x ∷ xs) h = omega arith
