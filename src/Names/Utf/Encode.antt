-- ===== src/Names/Utf/Encode.antt =====
-- The bytes that `utf16_to_utf8` stores for a code point.
use fastsystem.Prelude.{
  ℕ, ◌+◌, ◌-◌, ◌/◌, ◌%◌, ◌≤◌, ◌<◌, ◌≡◌, arith, [], ◌∷◌, u8, bit_and, bit_or, bit_and-mask,
}
use fastsystem.Names.Utf.{utf8_bytes, utf16_units, pair_value}
use fastsystem.Names.Utf.Masks.{lead_two, lead_three, lead_four, follow, join}

utf8_follow : (x : ℕ) → u8 (bit_or 0x80 (bit_and x 0x3F)) ≡ 128 + x % 64
utf8_follow x = ground (arith, bit_and-mask 6 x, follow (x % 64))

pub utf8_bytes-one : (cp : ℕ) → cp < 0x80 → utf8_bytes cp ≡ cp ∷ []
unfolding utf8_bytes
utf8_bytes-one cp h = ground arith

pub utf8_bytes-two :
    (cp : ℕ) → 0x80 ≤ cp → cp < 0x800 → utf8_bytes cp ≡ (192 + cp / 64) ∷ (128 + cp % 64) ∷ []
unfolding utf8_bytes
utf8_bytes-two cp h l = ground (arith, lead_two (cp / 64), utf8_follow cp)

pub utf8_bytes-three :
    (cp : ℕ)
    → 0x800 ≤ cp
    → cp < 0x10000
    → utf8_bytes cp ≡ (224 + cp / 4096) ∷ (128 + cp / 64 % 64) ∷ (128 + cp % 64) ∷ []
unfolding utf8_bytes
utf8_bytes-three cp h l =
    ground (arith, lead_three (cp / 4096), utf8_follow (cp / 64), utf8_follow cp)

pub utf8_bytes-four :
    (cp : ℕ)
    → 0x10000 ≤ cp
    → cp ≤ 0x10FFFF
    → utf8_bytes cp
      ≡ (240 + cp / 262144) ∷ (128 + cp / 4096 % 64) ∷ (128 + cp / 64 % 64) ∷ (128 + cp % 64) ∷ []
unfolding utf8_bytes
utf8_bytes-four cp h l =
    ground (
      arith,
      lead_four (cp / 262144),
      utf8_follow (cp / 4096),
      utf8_follow (cp / 64),
      utf8_follow cp,
    )

pub utf16_units-one : (cp : ℕ) → cp < 0x10000 → utf16_units cp ≡ cp ∷ []
unfolding utf16_units
utf16_units-one cp h = ground arith

-- A code point past 0xFFFF is a surrogate pair, whose value is the code point.
pub utf16_units-pair :
    (cp : ℕ)
    → 0x10000 ≤ cp
    → cp ≤ 0x10FFFF
    → let high = 0xD800 + (cp - 0x10000) / 1024 in
      let low = 0xDC00 + (cp - 0x10000) % 1024 in
      (utf16_units cp ≡ high ∷ low ∷ [])
      × (high ≤ 0xDBFF)
      × (low ≤ 0xDFFF)
      × (pair_value high low ≡ cp)
unfolding utf16_units
utf16_units-pair cp h l =
    ground (
      arith,
      bit_and-mask 10 (cp - 0x10000),
      join 10 ((cp - 0x10000) / 1024) ((cp - 0x10000) % 1024),
    )
