-- ===== src/Common/NatDict.antt =====
-- A map with number keys (`HashMap<u64, _>`) as an association list.
use Prim.Native.Nat.{ℕ}
use mathlib.Core.List.{List, [], ◌∷◌}
use mathlib.Core.Option.{Option, none, some}
use attyd.Common.Tests.{◌==◌, if◌then◌else◌}

abbrev pub NatDict : Type 0 → Type 0
NatDict V = List (ℕ × V)

module _ {V : Type 0} where
  unfoldable pub entry_at : NatDict V → ℕ → Option V
  entry_at [] k = none
  entry_at ((found, v) ∷ rest) k = if k == found then some v else entry_at rest k

  unfoldable pub forget : NatDict V → ℕ → NatDict V
  forget [] k = []
  forget ((found, v) ∷ rest) k =
      let others = forget rest k in if k == found then others else (found, v) ∷ others

  -- A new entry stands at the front, in place of an old one.
  unfoldable pub store : NatDict V → ℕ → V → NatDict V
  unfolding forget
  store m k v = (k, v) ∷ forget m k
