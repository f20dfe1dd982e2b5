-- ===== src/Runtime/Numbered.antt =====
-- Records numbered in order, and the scans of the journal over them.
use native.Mathlib.Nat.{add-zero}
use attyd.Common.{
  subst, inl, inr, drop-nil, drop_none, drop_cons, ℕ, zero, suc, ◌+◌, ◌-◌, ◌≤◌, Bool, none, some,
  List, [], ◌∷◌, ◌++◌, map, ◌≡◌, refl, sym, ◌==◌, leb, if◌then◌else◌, length, drop, retain, arith,
  Bool-cases,
}
use attyd.Json.{Json}
use attyd.Runtime.Changes.{RuntimeChange, RuntimeDelta}
use attyd.Runtime.Journal.{JournalDelta, later, release, drop_through, last_owner}
use attyd.Runtime.Feed.{last_position}

module _ {J : Json} where
  -- The numbers are n + 1, n + 2 and so on.
  abbrev pub Numbered : ℕ → List (RuntimeDelta J) → Type 0
  Numbered n [] = Unit
  Numbered n (d ∷ ds) = (d.seq ≡ suc n) × Numbered (suc n) ds

  abbrev pub payloads : List (JournalDelta J) → List (RuntimeDelta J)
  payloads = map (λ (entry : JournalDelta J). entry.delta)

  pub Numbered-drop :
      (k n : ℕ) (ds : List (RuntimeDelta J)) → Numbered n ds → Numbered (n + k) (drop k ds)
  Numbered-drop zero n ds h = subst (λ m. Numbered m ds) (sym (add-zero n)) h
  Numbered-drop (suc k) n [] h = tt
  Numbered-drop (suc k) n (d ∷ ds) h =
      let e : n + suc k ≡ suc n + k = omega arith in rw e (Numbered-drop k (suc n) ds h.1)

  pub Numbered-append :
      (n : ℕ) (ds : List (RuntimeDelta J)) (d : RuntimeDelta J)
      → Numbered n ds
      → d.seq ≡ suc (n + length ds)
      → Numbered n (ds ++ d ∷ [])
  Numbered-append n [] d h e = (omega (arith, e), tt)
  Numbered-append n (x ∷ ds) d h e = (h.0, Numbered-append (suc n) ds d h.1 (omega (arith, e)))

  pub retain-later :
      (s n : ℕ) (es : List (JournalDelta J))
      → Numbered n (payloads es)
      → payloads (retain (later s) es) ≡ drop (s - n) (payloads es)
  retain-later s n [] h = sym (drop-nil (s - n))
  retain-later s n (e ∷ es) h = elim (Bool-cases (leb s n)) [
    | inl le ↦ ground (
      arith,
      drop_none s n (e.delta ∷ payloads es),
      drop_none s (suc n) (payloads es),
      retain-later s (suc n) es,
    )
    | inr gt ↦ ground (arith, drop_cons s n e.delta (payloads es), retain-later s (suc n) es)
  ]

  pub release-drop :
      (s n b : ℕ) (es : List (JournalDelta J))
      → Numbered n (payloads es)
      → payloads (release s es b).0 ≡ drop (s - n) (payloads es)
  unfolding release
  release-drop s n b [] h = sym (drop-nil (s - n))
  release-drop s n b (e ∷ es) h = elim (Bool-cases (leb s n)) [
    | inl le ↦ ground (
      arith,
      drop_none s n (e.delta ∷ payloads es),
      drop_none s (suc n) (payloads es),
      release-drop s (suc n) (b - e.bytes) es,
    )
    | inr gt ↦
        ground (arith, drop_cons s n e.delta (payloads es), release-drop s (suc n) (b - e.bytes) es)
  ]

  pub drop_through-drop :
      (s n : ℕ) (es : List (JournalDelta J))
      → Numbered n (payloads es)
      → payloads (drop_through s es) ≡ drop (s - n) (payloads es)
  unfolding drop_through
  drop_through-drop s n [] h = sym (drop-nil (s - n))
  drop_through-drop s n (e ∷ es) h = elim (Bool-cases (leb s n)) [
    | inl le ↦ ground (
      arith,
      drop_none s n (e.delta ∷ payloads es),
      drop_none s (suc n) (payloads es),
      drop_through-drop s (suc n) es,
    )
    | inr gt ↦ ground (arith, drop_cons s n e.delta (payloads es), drop_through-drop s (suc n) es)
  ]

  pub last_owner-position :
      (p : RuntimeChange J → Bool) (n : ℕ) (es : List (JournalDelta J))
      → Numbered n (payloads es)
      → last_owner p es ≡ (
          if last_position p (payloads es) == 0
          then none
          else some (n + last_position p (payloads es)))
  unfolding last_owner last_position
  last_owner-position p n [] h = refl
  last_owner-position p n (e ∷ es) h = ground (arith, last_owner-position p (suc n) es)

  pub last_position-drop :
      (p : RuntimeChange J → Bool) (b : ℕ) (ds : List (RuntimeDelta J))
      → last_position p (drop b ds) ≡ last_position p ds - b
  unfolding last_position
  last_position-drop p zero ds = omega arith
  last_position-drop p (suc b) [] = omega arith
  last_position-drop p (suc b) (d ∷ ds) = ground (arith, last_position-drop p b ds)

  pub last_position-le :
      (p : RuntimeChange J → Bool) (ds : List (RuntimeDelta J)) → last_position p ds ≤ length ds
  unfolding last_position
  last_position-le p [] = omega arith
  last_position-le p (d ∷ ds) = ground (arith, last_position-le p ds)
