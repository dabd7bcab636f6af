-- ===== src/Names/Utf/Tests.antt =====
-- The Unicode names at concrete strings.
use fastsystem.Prelude.{◌≡◌, refl, arith, true, [], ◌∷◌, some}
use fastsystem.Names.Utf.{
  code_point, two_bytes, three_bytes, utf8_bytes, decode_loop, encode_loop, utf8_to_utf16,
  utf16_to_utf8,
}
use fastsystem.Names.Utf.Sample.{mixed, mixed_units, mixed-units}
use fastsystem.Names.Utf.Decode.{Starts, code_point-Starts}
use fastsystem.Names.Utf.RoundTrip.{utf16_to_utf8-utf8_to_utf16}

mixed-bytes : utf16_to_utf8 mixed_units 256 ≡ (true, mixed)
unfolding utf16_to_utf8 encode_loop utf8_bytes
mixed-bytes = refl

-- An overlong coding and a lone following byte.
overlong : utf8_to_utf16 (0xC0 ∷ 0x80 ∷ []) 255 ≡ []
unfolding utf8_to_utf16 decode_loop code_point two_bytes
overlong = refl

utf16_to_utf8-utf8_to_utf16_example : utf16_to_utf8 (utf8_to_utf16 mixed 255) 256 ≡ (true, mixed)
utf16_to_utf8-utf8_to_utf16_example =
    utf16_to_utf8-utf8_to_utf16 mixed 255 256 refl (rw mixed-units (λ e. cc)) (rw mixed-units refl)
      (omega arith)

euro : code_point 0xE2 (0x82 ∷ 0xAC ∷ []) ≡ some (0x20AC, 2)
unfolding code_point three_bytes
euro = refl

code_point-Starts_example : Starts 0xE2 (0x82 ∷ 0xAC ∷ []) 0x20AC 2
code_point-Starts_example =
    code_point-Starts 0xE2 (0x82 ∷ 0xAC ∷ []) 0x20AC 2 (omega arith) refl euro
