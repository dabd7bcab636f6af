-- ===== src/Names/Utf/Sample.antt =====
-- A name with characters of every length, for the tests.
use fastsystem.Prelude.{ℕ, ◌≡◌, refl, List, [], ◌∷◌}
use fastsystem.Names.Utf.{
  code_point, two_bytes, three_bytes, four_bytes, utf16_units, decode_loop, utf8_to_utf16,
}

-- "a", an accented letter, the euro sign and a code point past 0xFFFF.
abbrev pub mixed : List ℕ
mixed = 0x61 ∷ 0xC3 ∷ 0xA9 ∷ 0xE2 ∷ 0x82 ∷ 0xAC ∷ 0xF0 ∷ 0x9F ∷ 0x98 ∷ 0x80 ∷ []

abbrev pub mixed_units : List ℕ
mixed_units = 0x61 ∷ 0xE9 ∷ 0x20AC ∷ 0xD83D ∷ 0xDE00 ∷ []

pub mixed-units : utf8_to_utf16 mixed 255 ≡ mixed_units
unfolding utf8_to_utf16 decode_loop code_point two_bytes three_bytes four_bytes utf16_units
mixed-units = refl
