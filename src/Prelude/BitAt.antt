-- ===== src/Prelude/BitAt.antt =====
-- The bit of a word at a place, and what `&`, `|` and `1 << k` do to it.
use Prim.Native.Nat.{ℕ, zero, suc, ◌-◌, ◌*◌, ◌/◌, ◌%◌, ◌^◌, ◌<◌, min, max, bit_and, bit_or}
use mathlib.Core.Path.{◌≡◌, refl, ap}
use mathlib.Core.Logic.{◌≢◌}
use native.Mathlib.Nat.{pow-suc, one-le-pow}
use native.Mathlib.Omega.{arith}
use fastsystem.Prelude.Bits.{and_lowest, or_lowest, bit_and-zero, double_pow}

pub bit_at : ℕ → ℕ → ℕ
bit_at zero a = a % 2
bit_at (suc j) a = bit_at j (a / 2)

pub bit_at_bound : (j a : ℕ) → bit_at j a < 2
unfolding bit_at
bit_at_bound zero a = omega arith
bit_at_bound (suc j) a = bit_at_bound j (a / 2)

pub bit_at-bit_and : (j a b : ℕ) → bit_at j (bit_and a b) ≡ min (bit_at j a) (bit_at j b)
unfolding bit_at
bit_at-bit_and zero a b = ground (arith, and_lowest a b)
bit_at-bit_and (suc j) a b =
    let e : bit_and a b / 2 ≡ bit_and (a / 2) (b / 2) = ground (arith, and_lowest a b) in
    rw e (bit_at-bit_and j (a / 2) (b / 2))

pub bit_at-bit_or : (j a b : ℕ) → bit_at j (bit_or a b) ≡ max (bit_at j a) (bit_at j b)
unfolding bit_at
bit_at-bit_or zero a b = ground (arith, or_lowest a b)
bit_at-bit_or (suc j) a b =
    let e : bit_or a b / 2 ≡ bit_or (a / 2) (b / 2) = ground (arith, or_lowest a b) in
    rw e (bit_at-bit_or j (a / 2) (b / 2))

bit_at-zero : (j : ℕ) → bit_at j 0 ≡ 0
unfolding bit_at
bit_at-zero zero = refl
bit_at-zero (suc j) = bit_at-zero j

pub bit_at-pow_self : (k : ℕ) → bit_at k (2 ^ k) ≡ 1
unfolding bit_at
bit_at-pow_self zero = refl
bit_at-pow_self (suc k) =
    let e : 2 ^ suc k / 2 ≡ 2 ^ k = omega (arith, pow-suc 2 k) in rw e (bit_at-pow_self k)

pub bit_at-pow_ne : (j k : ℕ) → j ≢ k → bit_at j (2 ^ k) ≡ 0
unfolding bit_at
bit_at-pow_ne zero zero h = absurd (h refl)
bit_at-pow_ne zero (suc k) h = omega (arith, pow-suc 2 k)
bit_at-pow_ne (suc j) zero h = bit_at-zero j
bit_at-pow_ne (suc j) (suc k) h =
    let e : 2 ^ suc k / 2 ≡ 2 ^ k = omega (arith, pow-suc 2 k) in
    rw e (bit_at-pow_ne j k (λ p. h (ap suc p)))

-- `x & (1 << k)`
pub bit_and-pow : (k a : ℕ) → bit_and a (2 ^ k) ≡ bit_at k a * 2 ^ k
unfolding bit_at
bit_and-pow zero a = ground (arith, and_lowest a 1, bit_and-zero (a / 2))
bit_and-pow (suc k) a =
    let e : 2 ^ suc k / 2 ≡ 2 ^ k = omega (arith, pow-suc 2 k) in
    let even : 2 ^ suc k % 2 ≡ 0 = omega (arith, pow-suc 2 k) in
    rw (and_lowest a (2 ^ suc k), e, even, bit_and-pow k (a / 2))
      (ground (arith, double_pow (bit_at k (a / 2)) k))

-- The low byte of a word keeps its bits.
pub bit_at-byte : (j a : ℕ) → j < 8 → bit_at j (a % 2 ^ 8) ≡ bit_at j a
unfolding bit_at
bit_at-byte zero a h = omega arith
bit_at-byte (suc zero) a h = omega arith
bit_at-byte (suc (suc zero)) a h = omega arith
bit_at-byte (suc (suc (suc zero))) a h = omega arith
bit_at-byte (suc (suc (suc (suc zero)))) a h = omega arith
bit_at-byte (suc (suc (suc (suc (suc zero))))) a h = omega arith
bit_at-byte (suc (suc (suc (suc (suc (suc zero)))))) a h = omega arith
bit_at-byte (suc (suc (suc (suc (suc (suc (suc zero))))))) a h = omega arith
bit_at-byte (suc (suc (suc (suc (suc (suc (suc (suc j)))))))) a h = absurd (omega arith)

bit_at-ones : (w j : ℕ) → j < w → bit_at j (2 ^ w - 1) ≡ 1
unfolding bit_at
bit_at-ones zero j h = absurd (omega arith)
bit_at-ones (suc w) zero h = omega (arith, pow-suc 2 w, one-le-pow w 2 (omega arith))
bit_at-ones (suc w) (suc j) h =
    let e : (2 ^ suc w - 1) / 2 ≡ 2 ^ w - 1 =
      omega (arith, pow-suc 2 w, one-le-pow w 2 (omega arith)) in
    rw e (bit_at-ones w j (omega arith))

pow-lt : (w k : ℕ) → k < w → 2 ^ k < 2 ^ w
pow-lt zero k h = absurd (omega arith)
pow-lt (suc w) zero h = omega (arith, pow-suc 2 w, one-le-pow w 2 (omega arith))
pow-lt (suc w) (suc k) h = omega (arith, pow-suc 2 w, pow-suc 2 k, pow-lt w k (omega arith))

-- Of a word of `w` bits, the complement of `1 << k`.
pub bit_at-mask : (w k j : ℕ) → k < w → j < w → bit_at j (2 ^ w - 1 - 2 ^ k) ≡ 1 - bit_at j (2 ^ k)
unfolding bit_at
bit_at-mask zero k j p q = absurd (omega arith)
bit_at-mask (suc w) zero zero p q = omega (arith, pow-suc 2 w, one-le-pow w 2 (omega arith))
bit_at-mask (suc w) zero (suc j) p q =
    let e : (2 ^ suc w - 1 - 1) / 2 ≡ 2 ^ w - 1 =
      omega (arith, pow-suc 2 w, one-le-pow w 2 (omega arith)) in
    rw (e, bit_at-zero j) (bit_at-ones w j (omega arith))
bit_at-mask (suc w) (suc k) zero p q =
    omega (arith, pow-suc 2 w, pow-suc 2 k, pow-lt w k (omega arith))
bit_at-mask (suc w) (suc k) (suc j) p q =
    let e : (2 ^ suc w - 1 - 2 ^ suc k) / 2 ≡ 2 ^ w - 1 - 2 ^ k =
      omega (arith, pow-suc 2 w, pow-suc 2 k) in
    let e' : 2 ^ suc k / 2 ≡ 2 ^ k = omega (arith, pow-suc 2 k) in
    rw (e, e') (bit_at-mask w k j (omega arith) (omega arith))
