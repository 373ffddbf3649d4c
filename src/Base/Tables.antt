-- ===== src/Base/Tables.antt =====
-- Facts about every number of a small range, decided by evaluation.
use Prim.Native.Nat.{ℕ, zero, suc, ◌<◌}
use mathlib.Core.Path.{◌≡◌}
use mathlib.Core.Bool.{Bool, true, ◌&&◌}
use learning_os.Base.Tests.{and_parts}
use native.Mathlib.Omega.{arith}

-- The test holds of each of the first `bound` numbers.
unfoldable pub holds_below : ℕ → (ℕ → Bool) → Bool
holds_below zero test = true
holds_below (suc bound) test = test 0 && holds_below bound (λ i. test (suc i))

pub holds_below-at :
    (bound : ℕ) (test : ℕ → Bool) (i : ℕ)
    → holds_below bound test ≡ true
    → i < bound
    → test i ≡ true
unfolding holds_below
holds_below-at zero test i all inside = absurd (omega arith)
holds_below-at (suc bound) test zero all inside =
    (and_parts (test 0) (holds_below bound (λ i. test (suc i))) all).0
holds_below-at (suc bound) test (suc i) all inside =
    let rest = (and_parts (test 0) (holds_below bound (λ i. test (suc i))) all).1 in
    holds_below-at bound (λ i. test (suc i)) i rest (omega arith)

-- A test of a byte and two places in it.
module _ (p : ℕ → ℕ → ℕ → Bool) where
  abbrev pub places_table : Bool
  places_table = holds_below 256 λ b. holds_below 8 λ k. holds_below 8 λ l. p b k l

  pub places_sound : (b k l : ℕ) → places_table ≡ true → b < 256 → k < 8 → l < 8 → p b k l ≡ true
  places_sound b k l table hb hk hl =
      let by_byte =
        holds_below-at 256 (λ c. holds_below 8 λ i. holds_below 8 λ j. p c i j) b table hb in
      let by_place = holds_below-at 8 (λ i. holds_below 8 λ j. p b i j) k by_byte hk in
      holds_below-at 8 (λ j. p b k j) l by_place hl
