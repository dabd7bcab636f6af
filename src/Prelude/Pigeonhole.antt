-- ===== src/Prelude/Pigeonhole.antt =====
-- Lists of numbers without repetition, and the pigeonhole bound on their length.
use Prim.Native.Nat.{ℕ, zero, suc, ◌+◌, ◌≤◌, ◌<◌}
use mathlib.Core.Path.{◌≡◌}
use mathlib.Core.Logic.{◌≢◌, inl, inr}
use mathlib.Core.Bool.{true}
use mathlib.Core.List.{List, [], ◌∷◌}
use native.Mathlib.Omega.{arith}
use fastsystem.Prelude.Tests.{◌==◌, Bool-cases, if◌then◌else◌}
use fastsystem.Prelude.Lists.{length, has, Distinct}

remove : ℕ → List ℕ → List ℕ
remove a [] = []
remove a (x ∷ xs) = if x == a then xs else x ∷ remove a xs

has-remove :
    (a b : ℕ) (xs : List ℕ) → Distinct xs → has b (remove a xs) ≡ true → (has b xs ≡ true) × (b ≢ a)
unfolding remove
has-remove a b [] d h = cc
has-remove a b (x ∷ xs) d h = ground (arith, has-remove a b xs d.1)

Distinct-remove : (a : ℕ) (xs : List ℕ) → Distinct xs → Distinct (remove a xs)
unfolding remove
Distinct-remove a [] d = tt
Distinct-remove a (x ∷ xs) d = elim (Bool-cases (x == a)) [
  | inl e ↦ rw e d.1
  | inr e ↦ rw e (ground (arith, has-remove a x xs d.1), Distinct-remove a xs d.1)
]

length-le-remove : (a : ℕ) (xs : List ℕ) → length xs ≤ suc (length (remove a xs))
unfolding remove
length-le-remove a [] = omega arith
length-le-remove a (x ∷ xs) = ground (arith, length-le-remove a xs)

-- Distinct numbers between `lo` and `lo + n - 1` are at most `n`.
pub length-le_of_Distinct :
    (n lo : ℕ) (xs : List ℕ)
    → Distinct xs
    → ((a : ℕ) → has a xs ≡ true → (lo ≤ a) × (a < lo + n))
    → length xs ≤ n
length-le_of_Distinct n lo [] d h = omega arith
length-le_of_Distinct zero lo (x ∷ xs) d h = ground (arith, h x)
length-le_of_Distinct (suc n) lo (x ∷ xs) d h =
    let ys = remove (lo + n) (x ∷ xs) in
    omega (
      arith,
      length-le-remove (lo + n) (x ∷ xs),
      length-le_of_Distinct n lo ys (Distinct-remove (lo + n) (x ∷ xs) d)
          (λ a i. ground (arith, h a, has-remove (lo + n) a (x ∷ xs) d)),
    )
