-- ===== src/Names/Utf.antt =====
-- Names in Unicode, kernel/fat.c: `utf8_to_utf16` and `utf16_to_utf8`.
--
-- A UTF-8 string is the list of its bytes without the final 0, and reading past its end gives that
-- 0. A buffer that is filled from its start is the list of what was stored. The index into the
-- source is the list that is left, with the count of elements that the step before has used up.
pub mod Masks
pub mod Decode
pub mod Encode
pub mod RoundTrip
pub mod Units
pub mod Sample
mod Tests
use fastsystem.Prelude.{
  ℕ, zero, suc, ◌+◌, ◌-◌, ◌*◌, ◌/◌, ◌^◌, bit_and, bit_or, Bool, true, false, not, ◌&&◌, ◌||◌,
  Option, none, some, List, [], ◌∷◌, ◌++◌, ltb, leb, ◌==◌, if◌then◌else◌, u8, u16, length, get_or,
}

-- `(c & 0xC0) != 0x80`, for the bytes after the first.
abbrev pub is_stray : ℕ → Bool
is_stray c = not (bit_and c 0xC0 == 0x80)

-- A code point and the count of bytes after the first; `none` is `return 0`.
pub two_bytes : ℕ → ℕ → Option (ℕ × ℕ)
two_bytes c c1 =
    let cp = bit_or (bit_and c 0x1F * 2 ^ 6) (bit_and c1 0x3F) in
    if c1 == 0 || is_stray c1 then none else if ltb cp 0x80 then none else some (cp, 1)

pub three_bytes : ℕ → ℕ → ℕ → Option (ℕ × ℕ)
three_bytes c c1 c2 =
    let cp =
      bit_or (bit_or (bit_and c 0x0F * 2 ^ 12) (bit_and c1 0x3F * 2 ^ 6)) (bit_and c2 0x3F) in
    if c1 == 0 || c2 == 0
    then none
    else if is_stray c1 || is_stray c2
    then none
    else if ltb cp 0x800 || (leb 0xD800 cp && leb cp 0xDFFF)
    then none
    else some (cp, 2)

pub four_bytes : ℕ → ℕ → ℕ → ℕ → Option (ℕ × ℕ)
four_bytes c c1 c2 c3 =
    let cp =
      bit_or
        (bit_or (bit_or (bit_and c 0x07 * 2 ^ 18) (bit_and c1 0x3F * 2 ^ 12))
          (bit_and c2 0x3F * 2 ^ 6))
        (bit_and c3 0x3F) in
    if c1 == 0 || c2 == 0 || c3 == 0
    then none
    else if is_stray c1 || is_stray c2 || is_stray c3
    then none
    else if ltb cp 0x10000 || ltb 0x10FFFF cp
    then none
    else some (cp, 3)

-- The body of the `while` of `utf8_to_utf16` down to the last `else`, at a byte and those after it.
pub code_point : ℕ → List ℕ → Option (ℕ × ℕ)
code_point c rest =
    let c1 = get_or rest 0 0 in
    let c2 = get_or rest 1 0 in
    let c3 = get_or rest 2 0 in
    if ltb c 0x80
    then some (c, 0)
    else if bit_and c 0xE0 == 0xC0
    then two_bytes c c1
    else if bit_and c 0xF0 == 0xE0
    then three_bytes c c1 c2
    else if bit_and c 0xF8 == 0xF0
    then four_bytes c c1 c2 c3
    else none

-- What is stored for a code point.
pub utf16_units : ℕ → List ℕ
utf16_units cp =
    let v = cp - 0x10000 in
    if leb cp 0xFFFF
    then u16 cp ∷ []
    else u16 (0xD800 + v / 2 ^ 10) ∷ u16 (0xDC00 + bit_and v 0x3FF) ∷ []

abbrev pub prepend : List ℕ → Option (List ℕ) → Option (List ℕ)
prepend xs none = none
prepend xs (some ys) = some (xs ++ ys)

-- The `while` of `utf8_to_utf16`, with `skip` bytes to pass over and `out` units stored.
pub decode_loop : ℕ → List ℕ → ℕ → ℕ → Option (List ℕ)
decode_loop skip [] out max_units = some []
decode_loop (suc skip) (c ∷ rest) out max_units = decode_loop skip rest out max_units
decode_loop zero (c ∷ rest) out max_units = elim (code_point c rest) [
  | none ↦ none
  | some (cp, more) ↦
      if ltb max_units (out + length (utf16_units cp))
      then none
      else prepend (utf16_units cp)
          (decode_loop more rest (out + length (utf16_units cp)) max_units)
]

-- The units stored, as many as the value returned says: none on a string that is refused, and none
-- on an empty one.
pub utf8_to_utf16 : List ℕ → ℕ → List ℕ
utf8_to_utf16 src max_units =
    if max_units == 0
    then []
    else elim (decode_loop 0 src 0 max_units) [ none ↦ [] | some units ↦ units ]

-- What `utf16_to_utf8` stores for a code point.
pub utf8_bytes : ℕ → List ℕ
utf8_bytes cp =
    let last = u8 (bit_or 0x80 (bit_and cp 0x3F)) in
    let middle = u8 (bit_or 0x80 (bit_and (cp / 2 ^ 6) 0x3F)) in
    let upper = u8 (bit_or 0x80 (bit_and (cp / 2 ^ 12) 0x3F)) in
    if ltb cp 0x80
    then u8 cp ∷ []
    else if ltb cp 0x800
    then u8 (bit_or 0xC0 (cp / 2 ^ 6)) ∷ last ∷ []
    else if ltb cp 0x10000
    then u8 (bit_or 0xE0 (cp / 2 ^ 12)) ∷ middle ∷ last ∷ []
    else u8 (bit_or 0xF0 (cp / 2 ^ 18)) ∷ upper ∷ middle ∷ last ∷ []

abbrev pub is_high_surrogate : ℕ → Bool
is_high_surrogate cp = leb 0xD800 cp && leb cp 0xDBFF

-- The two units of a surrogate pair.
abbrev pub pair_value : ℕ → ℕ → ℕ
pair_value high low = 0x10000 + bit_or ((high - 0xD800) * 2 ^ 10) (low - 0xDC00)

-- The `for` of `utf16_to_utf8`, with `skip` units to pass over and `pos` bytes stored.
pub encode_loop : ℕ → List ℕ → ℕ → ℕ → Option (List ℕ)
encode_loop skip [] pos output_size = some []
encode_loop (suc skip) (unit ∷ rest) pos output_size = encode_loop skip rest pos output_size
encode_loop zero (unit ∷ rest) pos output_size =
    let low = get_or rest 0 0 in
    let paired = is_high_surrogate unit in
    let cp = if paired then pair_value unit low else unit in
    let bytes = utf8_bytes cp in
    let more = encode_loop (if paired then 1 else 0) rest (pos + length bytes) output_size in
    if unit == 0 || unit == 0xFFFF
    then some []
    else if paired && length rest == 0
    then none
    else if paired && (ltb low 0xDC00 || ltb 0xDFFF low)
    then none
    else if leb output_size (pos + length bytes)
    then none
    else prepend bytes more

-- The value returned, and the string in `output` if it is true.
pub utf16_to_utf8 : List ℕ → ℕ → Bool × List ℕ
utf16_to_utf8 src output_size =
    if output_size == 0 then (false, []) else elim (encode_loop 0 src 0 output_size) [
      | none ↦ (false, [])
      | some output ↦ (not (length output == 0), output)
    ]
