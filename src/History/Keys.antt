-- ===== src/History/Keys.antt =====
-- The key of a session's history, and maps by it (history_cache.rs: `SessionKey`).
use attyd.Common.{
  ℕ, String, Bool, true, ◌&&◌, Option, none, some, List, [], ◌∷◌, ◌≡◌, ◌↔◌, refl, ap, sym, ◌∙◌,
  str_eq, str_eq_iff, ◌==◌, if◌then◌else◌, arith,
}

pub record SessionKey : Type 0 where
  pub session_id : String
  pub incarnation : ℕ

unfoldable pub key_eq : SessionKey → SessionKey → Bool
key_eq a b = str_eq a.session_id b.session_id && (a.incarnation == b.incarnation)

pub key_eq_iff : (a b : SessionKey) → (key_eq a b ≡ true) ↔ (a ≡ b)
unfolding key_eq
key_eq_iff a b = ground (arith, str_eq_iff a.session_id b.session_id)

pub key_eq_refl : (k : SessionKey) → key_eq k k ≡ true
key_eq_refl k = (key_eq_iff k k).1 refl

key_eq_trans : (i k j : SessionKey) → key_eq i k ≡ true → key_eq k j ≡ key_eq i j
key_eq_trans i k j h = ap (λ x. key_eq x j) (sym ((key_eq_iff i k).0 h))

key_eq_join : (i k j : SessionKey) → key_eq k j ≡ true → key_eq i j ≡ true → key_eq i k ≡ true
key_eq_join i k j g h = (key_eq_iff i k).1 ((key_eq_iff i j).0 h ∙ sym ((key_eq_iff k j).0 g))

abbrev pub KeyMap : Type 0 → Type 0
KeyMap V = List (SessionKey × V)

module _ {V : Type 0} where
  unfoldable pub find : SessionKey → KeyMap V → Option V
  find k [] = none
  find k ((j, v) ∷ m) = if key_eq j k then some v else find k m

  unfoldable pub remove_key : SessionKey → KeyMap V → KeyMap V
  remove_key k [] = []
  remove_key k ((j, w) ∷ m) =
      let rest = remove_key k m in if key_eq j k then rest else (j, w) ∷ rest

  unfoldable pub put : SessionKey → V → KeyMap V → KeyMap V
  unfolding remove_key
  put k v m = (k, v) ∷ remove_key k m

  pub find-remove_key :
      (k j : SessionKey) (m : KeyMap V)
      → find j (remove_key k m) ≡ (if key_eq k j then none else find j m)
  unfolding find remove_key
  find-remove_key k j [] = ground arith
  find-remove_key k j ((i, w) ∷ m) =
      ground (arith, find-remove_key k j m, key_eq_trans i k j, key_eq_join i k j)

  pub find-put :
      (k j : SessionKey) (v : V) (m : KeyMap V)
      → find j (put k v m) ≡ (if key_eq k j then some v else find j m)
  unfolding find put
  find-put k j v m = ground (arith, find-remove_key k j m)
