-- ===== src/Prelude/Bits.antt =====
-- `&` and `|` split at any bit: a word is its upper part and its lower part, side by side.
use Prim.Native.Nat.{
  ℕ, zero, suc, ◌+◌, ◌-◌, ◌*◌, ◌/◌, ◌%◌, ◌^◌, ◌≤◌, ◌<◌, min, max, digits, bit_and, bit_or,
  bit_and-bitwise, bit_or-bitwise,
}
use mathlib.Core.Path.{◌≡◌, refl, ap}
use native.Mathlib.Nat.{pow-suc, one-le-pow, div-add-mod'}
use native.Mathlib.Omega.{arith}

module _ (rest : ℕ → ℕ) (digit : ℕ → ℕ → ℕ) where
  -- More rounds than the first number needs change nothing.
  more_rounds : (k a b : ℕ) → digits rest digit (a + k) a b ≡ digits rest digit a a b
  more_rounds k a b = by_bound a (a + k) a b (omega arith) (omega arith)
    where
      by_bound : (n m a b : ℕ) → a ≤ m → a ≤ n → digits rest digit m a b ≡ digits rest digit n a b
      by_bound zero zero zero b p q = refl
      by_bound zero (suc m) zero b p q = refl
      by_bound (suc n) zero zero b p q = refl
      by_bound (suc n) (suc m) zero b p q = refl
      by_bound zero m (suc a) b p q = absurd (omega arith)
      by_bound (suc n) zero (suc a) b p q = absurd (omega arith)
      by_bound (suc n) (suc m) (suc a) b p q =
          ap (λ (t : ℕ). t * 2 + digit (suc a % 2) (b % 2))
            (by_bound n m (suc a / 2) (b / 2) (omega arith) (omega arith))

  lowest :
      (a b : ℕ)
      → digits rest digit (suc a) (suc a) b
        ≡ digits rest digit (suc a / 2) (suc a / 2) (b / 2) * 2 + digit (suc a % 2) (b % 2)
  lowest a b =
      let h = suc a / 2 in
      let e : h + (a - h) ≡ a = omega arith in
      let m : digits rest digit (h + (a - h)) h (b / 2) ≡ digits rest digit h h (b / 2) =
        more_rounds (a - h) h (b / 2) in
      omega (arith, ap (λ (n : ℕ). digits rest digit n h (b / 2)) e, m)

pub and_lowest : (a b : ℕ) → bit_and a b ≡ bit_and (a / 2) (b / 2) * 2 + min (a % 2) (b % 2)
and_lowest zero b = omega (arith, bit_and-bitwise 0 b, bit_and-bitwise 0 (b / 2))
and_lowest (suc a) b =
    omega (
      arith,
      bit_and-bitwise (suc a) b,
      bit_and-bitwise (suc a / 2) (b / 2),
      lowest (λ _. 0) min a b,
    )

pub or_lowest : (a b : ℕ) → bit_or a b ≡ bit_or (a / 2) (b / 2) * 2 + max (a % 2) (b % 2)
or_lowest zero b = omega (arith, bit_or-bitwise 0 b, bit_or-bitwise 0 (b / 2))
or_lowest (suc a) b =
    omega
      (arith, bit_or-bitwise (suc a) b, bit_or-bitwise (suc a / 2) (b / 2), lowest (λ y. y) max a b)

pub zero-bit_or : (b : ℕ) → bit_or 0 b ≡ b
zero-bit_or b = bit_or-bitwise 0 b

pub zero-bit_and : (b : ℕ) → bit_and 0 b ≡ 0
zero-bit_and b = bit_and-bitwise 0 b

pub double_pow : (q k : ℕ) → q * 2 ^ suc k ≡ q * 2 ^ k * 2
double_pow q k = omega (arith, ap (λ (t : ℕ). q * t) (pow-suc 2 k))

pub bit_and-split :
    (k q r p s : ℕ)
    → r < 2 ^ k
    → s < 2 ^ k
    → bit_and (q * 2 ^ k + r) (p * 2 ^ k + s) ≡ bit_and q p * 2 ^ k + bit_and r s
bit_and-split zero q r p s hr hs = ground (arith, bit_and-bitwise 0 0)
bit_and-split (suc k) q r p s hr hs = ground (
  arith,
  and_lowest (q * 2 ^ suc k + r) (p * 2 ^ suc k + s),
  and_lowest r s,
  double_pow q k,
  double_pow p k,
  double_pow (bit_and q p) k,
  pow-suc 2 k,
  bit_and-split k q (r / 2) p (s / 2),
)

pub bit_or-split :
    (k q r p s : ℕ)
    → r < 2 ^ k
    → s < 2 ^ k
    → bit_or (q * 2 ^ k + r) (p * 2 ^ k + s) ≡ bit_or q p * 2 ^ k + bit_or r s
bit_or-split zero q r p s hr hs = ground (arith, bit_or-bitwise 0 0)
bit_or-split (suc k) q r p s hr hs = ground (
  arith,
  or_lowest (q * 2 ^ suc k + r) (p * 2 ^ suc k + s),
  or_lowest r s,
  double_pow q k,
  double_pow p k,
  double_pow (bit_or q p) k,
  pow-suc 2 k,
  bit_or-split k q (r / 2) p (s / 2),
)

bit_and-zero_below : (n a : ℕ) → a < n → bit_and a 0 ≡ 0
bit_and-zero_below zero a h = absurd (omega arith)
bit_and-zero_below (suc n) zero h = refl
bit_and-zero_below (suc n) (suc a) h =
    omega (arith, and_lowest (suc a) 0, bit_and-zero_below n (suc a / 2) (omega arith))

pub bit_and-zero : (a : ℕ) → bit_and a 0 ≡ 0
bit_and-zero a = bit_and-zero_below (suc a) a (omega arith)

bit_or-zero_below : (n a : ℕ) → a < n → bit_or a 0 ≡ a
bit_or-zero_below zero a h = absurd (omega arith)
bit_or-zero_below (suc n) zero h = refl
bit_or-zero_below (suc n) (suc a) h =
    omega (arith, or_lowest (suc a) 0, bit_or-zero_below n (suc a / 2) (omega arith))

pub bit_or-zero : (a : ℕ) → bit_or a 0 ≡ a
bit_or-zero a = bit_or-zero_below (suc a) a (omega arith)

full_mask : (k r : ℕ) → r < 2 ^ k → bit_and r (2 ^ k - 1) ≡ r
full_mask zero r h = ground (arith, bit_and-zero r)
full_mask (suc k) r h =
    ground (arith, and_lowest r (2 ^ suc k - 1), pow-suc 2 k, one-le-pow k 2, full_mask k (r / 2))

-- A mask of the `k` low bits keeps the remainder.
pub bit_and-mask : (k a : ℕ) → bit_and a (2 ^ k - 1) ≡ a % 2 ^ k
bit_and-mask k a =
    let pos : 1 ≤ 2 ^ k = one-le-pow k 2 (omega arith) in
    let low : a % 2 ^ k < 2 ^ k = omega arith in
    ground (
      arith,
      div-add-mod' a (2 ^ k),
      bit_and-split k (a / 2 ^ k) (a % 2 ^ k) 0 (2 ^ k - 1),
      bit_and-zero (a / 2 ^ k),
      full_mask k (a % 2 ^ k),
    )
