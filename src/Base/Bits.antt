-- ===== src/Base/Bits.antt =====
-- Facts on bit operations over bytes, checked value by value.
use Prim.Native.Nat.{ℕ, zero, suc, ◌≤◌}
use mathlib.Core.Path.{◌≡◌}
use mathlib.Core.Bool.{Bool, true, ◌&&◌}
use native.Mathlib.Omega.{arith}
use native.Mathlib.Decide.{ℕ_discrete}

-- Whether a test holds of every number from 0 to `last`.
unfoldable pub holds_up_to : (ℕ → Bool) → ℕ → Bool
holds_up_to test zero = test zero
holds_up_to test (suc last) = holds_up_to test last && test (suc last)

pub holds_up_to_lem :
    (test : ℕ → Bool) (last v : ℕ) → v ≤ last → holds_up_to test last ≡ true → test v ≡ true
unfolding holds_up_to
holds_up_to_lem test zero v small holds = let same : v ≡ zero = omega arith in rw same holds
holds_up_to_lem test (suc last) v small holds = elim (ℕ_discrete v (suc last)) [
  | yes same ↦ rw same (ground arith)
  | no other ↦ holds_up_to_lem test last v (omega arith) (ground arith)
]
