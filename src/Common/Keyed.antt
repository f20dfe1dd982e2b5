-- ===== src/Common/Keyed.antt =====
-- A map whose keys have a Boolean equality (`HashMap<K, V>`), as an association list.
use Prim.Native.Nat.{ℕ, ◌+◌}
use mathlib.Core.Path.{◌≡◌}
use mathlib.Core.Logic.{◌↔◌}
use mathlib.Core.Bool.{Bool, true}
use mathlib.Core.List.{List, [], ◌∷◌}
use mathlib.Core.Option.{Option, none, some}
use native.Mathlib.Omega.{arith}
use attyd.Common.Tests.{if◌then◌else◌}

module _ {K V : Type 0} (eq : K → K → Bool) where
  unfoldable pub get : List (K × V) → K → Option V
  get [] k = none
  get ((found, v) ∷ rest) k = if eq found k then some v else get rest k

  unfoldable pub erase : List (K × V) → K → List (K × V)
  erase [] k = []
  erase ((found, v) ∷ rest) k =
      let others = erase rest k in if eq found k then others else (found, v) ∷ others

  -- A new entry stands at the front, in place of an old one.
  unfoldable pub put : List (K × V) → K → V → List (K × V)
  unfolding erase
  put m k v = (k, v) ∷ erase m k

  -- `HashMap::remove` and a write through `get_mut` where a key stands at most once.
  unfoldable pub take_out : List (K × V) → K → List (K × V)
  take_out [] k = []
  take_out ((found, v) ∷ rest) k =
      let others = take_out rest k in if eq found k then rest else (found, v) ∷ others

  unfoldable pub replace : List (K × V) → K → V → List (K × V)
  replace [] k new = []
  replace ((found, v) ∷ rest) k new =
      let others = replace rest k new in
      if eq found k then (found, new) ∷ rest else (found, v) ∷ others

  -- A sum over the values of a map.
  abbrev pub weigh : (V → ℕ) → List (K × V) → ℕ
  weigh weight [] = 0
  weigh weight ((_, v) ∷ rest) = weight v + weigh weight rest

  pub weigh-take_out :
      (weight : V → ℕ) (m : List (K × V)) (k : K) (v : V)
      → get m k ≡ some v
      → weigh weight m ≡ weight v + weigh weight (take_out m k)
  unfolding get take_out
  weigh-take_out weight [] k v h = cc
  weigh-take_out weight ((found, w) ∷ rest) k v h = ground (arith, weigh-take_out weight rest k v)

  pub weigh-replace :
      (weight : V → ℕ) (m : List (K × V)) (k : K) (v new : V)
      → get m k ≡ some v
      → weigh weight (replace m k new) + weight v ≡ weight new + weigh weight m
  unfolding get replace
  weigh-replace weight [] k v new h = cc
  weigh-replace weight ((found, w) ∷ rest) k v new h =
      ground (arith, weigh-replace weight rest k v new)

  module _ (eq_iff : (a b : K) → (eq a b ≡ true) ↔ (a ≡ b)) where
    pub get-erase :
        (m : List (K × V)) (k j : K) → get (erase m k) j ≡ (if eq k j then none else get m j)
    unfolding get erase
    get-erase [] k j = ground arith
    get-erase ((found, v) ∷ rest) k j =
        ground (arith, eq_iff k j, eq_iff found k, eq_iff found j, get-erase rest k j)

    pub get-put :
        (m : List (K × V)) (k j : K) (v : V)
        → get (put m k v) j ≡ (if eq k j then some v else get m j)
    unfolding get put
    get-put m k j v = ground (arith, get-erase m k j)
