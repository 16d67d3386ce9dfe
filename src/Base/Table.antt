-- ===== src/Base/Table.antt =====
-- Facts about small numbers, checked by evaluation at each.
use Prim.Native.Nat.{ℕ, zero, suc, ◌+◌, ◌<◌, ◌≤◌}
use mathlib.Core.Path.{◌≡◌, subst}
use mathlib.Core.Bool.{Bool, true, ◌&&◌}
use mathlib.Core.Logic.{inl, inr}
use native.Mathlib.Omega.{arith}
use libsrsirc.Base.Tests.{◌==◌, ==_iff, Bool-cases}

-- The test holds of the `left` numbers from `start` on.
unfoldable pub holds_from : (ℕ → Bool) → ℕ → ℕ → Bool
holds_from test start zero = true
holds_from test start (suc left) = test start && holds_from test (suc start) left

pub holds_from_each :
    (test : ℕ → Bool) (start left n : ℕ)
    → start ≤ n
    → n < start + left
    → holds_from test start left ≡ true
    → test n ≡ true
unfolding holds_from
holds_from_each test start zero n above under h = absurd (omega arith)
holds_from_each test start (suc left) n above under h = elim (Bool-cases (start == n)) [
  | inl e ↦ subst (λ k. test k ≡ true) ((==_iff start n).0 e) (ground arith)
  | inr e ↦
      holds_from_each test (suc start) left n (ground (arith, ==_iff start n)) (omega arith)
        (ground arith)
]
