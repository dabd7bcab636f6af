-- ===== src/Names/Utf/Masks.antt =====
-- The masks of `utf8_to_utf16` and `utf16_to_utf8` as arithmetic.
use fastsystem.Prelude.{
  ℕ, zero, suc, ◌+◌, ◌*◌, ◌/◌, ◌^◌, ◌<◌, ◌≡◌, refl, arith, bit_and, bit_or, Bool, true, ◌&&◌, ◌==◌,
  bit_or-split, bit_or-zero, zero-bit_or,
}

module _ (f g : ℕ → ℕ) where
  -- The two functions have the same values below a bound.
  unfoldable pub same_below : ℕ → Bool
  same_below zero = true
  same_below (suc n) = (f n == g n) && same_below n

  pub same_below_sound : (n i : ℕ) → same_below n ≡ true → i < n → f i ≡ g i
  unfolding same_below
  same_below_sound zero i e h = absurd (omega arith)
  same_below_sound (suc n) i e h = ground (arith, same_below_sound n i)

pub top_two : (b : ℕ) → b < 256 → bit_and b 0xC0 ≡ b / 64 * 64
unfolding same_below
top_two b = same_below_sound (λ b. bit_and b 0xC0) (λ b. b / 64 * 64) 256 b refl

pub top_three : (b : ℕ) → b < 256 → bit_and b 0xE0 ≡ b / 32 * 32
unfolding same_below
top_three b = same_below_sound (λ b. bit_and b 0xE0) (λ b. b / 32 * 32) 256 b refl

pub top_four : (b : ℕ) → b < 256 → bit_and b 0xF0 ≡ b / 16 * 16
unfolding same_below
top_four b = same_below_sound (λ b. bit_and b 0xF0) (λ b. b / 16 * 16) 256 b refl

pub top_five : (b : ℕ) → b < 256 → bit_and b 0xF8 ≡ b / 8 * 8
unfolding same_below
top_five b = same_below_sound (λ b. bit_and b 0xF8) (λ b. b / 8 * 8) 256 b refl

pub lead_two : (b : ℕ) → b < 32 → bit_or 0xC0 b ≡ 0xC0 + b
unfolding same_below
lead_two b = same_below_sound (λ b. bit_or 0xC0 b) (λ b. 0xC0 + b) 32 b refl

pub lead_three : (b : ℕ) → b < 16 → bit_or 0xE0 b ≡ 0xE0 + b
unfolding same_below
lead_three b = same_below_sound (λ b. bit_or 0xE0 b) (λ b. 0xE0 + b) 16 b refl

pub lead_four : (b : ℕ) → b < 8 → bit_or 0xF0 b ≡ 0xF0 + b
unfolding same_below
lead_four b = same_below_sound (λ b. bit_or 0xF0 b) (λ b. 0xF0 + b) 8 b refl

pub follow : (b : ℕ) → b < 64 → bit_or 0x80 b ≡ 0x80 + b
unfolding same_below
follow b = same_below_sound (λ b. bit_or 0x80 b) (λ b. 0x80 + b) 64 b refl

-- Two parts of a word that do not overlap.
pub join : (k a b : ℕ) → b < 2 ^ k → bit_or (a * 2 ^ k) b ≡ a * 2 ^ k + b
join k a b h = ground (arith, bit_or-split k a 0 0 b, bit_or-zero a, zero-bit_or b)
