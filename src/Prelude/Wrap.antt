-- ===== src/Prelude/Wrap.antt =====
-- Indices that wrap once around a ring of slots.
use Prim.Native.Nat.{ℕ, ◌+◌, ◌-◌, ◌%◌, ◌≤◌, ◌<◌}
use mathlib.Core.Path.{◌≡◌, ◌∙◌}
use mathlib.Core.Logic.{◌⊎◌, inl, inr}
use native.Mathlib.Nat.{mod-eq_of_lt, mod-eq-sub-mod}
use native.Mathlib.Omega.{arith}
use native.Mathlib.Decide.{dec_lt}

-- An index below two rounds stays, or goes back by one round.
pub wrap-cases :
    (a cap : ℕ) → a < cap + cap → ((a < cap) × (a % cap ≡ a)) ⊎ ((cap ≤ a) × (a % cap ≡ a - cap))
wrap-cases a cap h = elim (dec_lt a cap) [
  | yes k ↦ inl (k, mod-eq_of_lt k)
  | no k ↦ inr (omega arith, mod-eq-sub-mod (omega arith) ∙ mod-eq_of_lt (omega arith))
]
