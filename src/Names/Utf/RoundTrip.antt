-- ===== src/Names/Utf/RoundTrip.antt =====
-- `utf16_to_utf8` undoes `utf8_to_utf16`.
use fastsystem.Prelude.{
  ℕ, zero, suc, ◌+◌, ◌-◌, ◌/◌, ◌%◌, ◌≤◌, ◌<◌, ◌≡◌, ◌≢◌, ◌⊎◌, ◌∙◌, refl, sym, ap, arith, true, false,
  Option, none, some, List, [], ◌∷◌, ◌++◌, ltb, ◌==◌, if◌then◌else◌, length, has, inl, inr,
  Bool-cases, ltb→lt, Option-cases, length-append,
}
use fastsystem.Names.Utf.{
  code_point, utf8_bytes, utf16_units, prepend, decode_loop, encode_loop, utf8_to_utf16,
  utf16_to_utf8, pair_value,
}
use fastsystem.Names.Utf.Decode.{is_text, IsScalar, code_point-Starts}
use fastsystem.Names.Utf.Encode.{utf8_bytes-one, utf16_units-one, utf16_units-pair}

-- The bytes passed over.
decode_loop-skip :
    (front tail : List ℕ) (out max_units : ℕ)
    → decode_loop (length front) (front ++ tail) out max_units ≡ decode_loop 0 tail out max_units
unfolding decode_loop
decode_loop-skip [] tail out max_units = refl
decode_loop-skip (c ∷ front) tail out max_units = decode_loop-skip front tail out max_units

-- A step that succeeds.
pub decode_step :
    (c : ℕ) (rest : List ℕ) (out max_units : ℕ) (units : List ℕ)
    → decode_loop 0 (c ∷ rest) out max_units ≡ some units
    → (cp : ℕ) × (more : ℕ) × (units' : List ℕ) × (code_point c rest ≡ some (cp, more))
      × (units ≡ utf16_units cp ++ units')
      × (decode_loop more rest (out + length (utf16_units cp)) max_units ≡ some units')
unfolding decode_loop
decode_step c rest out max_units units e = go (code_point c rest) refl e
  where
    go :
        (o : Option (ℕ × ℕ))
        → code_point c rest ≡ o
        → let r : Option (List ℕ) = elim o [
          | none ↦ none
          | some (cp, more) ↦
              if ltb max_units (out + length (utf16_units cp))
              then none
              else prepend
                  (utf16_units cp)
                  (decode_loop more rest (out + length (utf16_units cp)) max_units)
        ] in
          r ≡ some units
          → (cp : ℕ) × (more : ℕ) × (units' : List ℕ) × (code_point c rest ≡ some (cp, more))
            × (units ≡ utf16_units cp ++ units')
            × (decode_loop more rest (out + length (utf16_units cp)) max_units ≡ some units')
    go none q e = absurd cc
    go (some (cp, more)) q e =
        elim (Option-cases (decode_loop more rest (out + length (utf16_units cp)) max_units)) [
          | inl n ↦ absurd (ground (arith, n, e))
          | inr (units', n) ↦ (cp, more, units', q, ground (arith, n, e), n)
        ]

encode_one :
    (cp : ℕ) (rest : List ℕ) (pos size : ℕ)
    → (cp < 0xD800) ⊎ (0xDFFF < cp)
    → 0 < cp
    → cp ≢ 0xFFFF
    → pos + length (utf8_bytes cp) < size
    → encode_loop 0 (cp ∷ rest) pos size
      ≡ prepend (utf8_bytes cp) (encode_loop 0 rest (pos + length (utf8_bytes cp)) size)
unfolding encode_loop
encode_one cp rest pos size p h k room = ground arith

encode_pair :
    (high low : ℕ) (rest : List ℕ) (pos size : ℕ)
    → 0xD800 ≤ high
    → high ≤ 0xDBFF
    → 0xDC00 ≤ low
    → low ≤ 0xDFFF
    → let bytes = utf8_bytes (pair_value high low) in
      pos + length bytes < size
      → encode_loop 0 (high ∷ low ∷ rest) pos size
        ≡ prepend bytes (encode_loop 0 rest (pos + length bytes) size)
unfolding encode_loop
encode_pair high low rest pos size a b c d room = ground arith

encode_point :
    (cp : ℕ) (us : List ℕ) (pos size : ℕ)
    → IsScalar cp
    → 0 < cp
    → has 0xFFFF (utf16_units cp ++ us) ≡ false
    → pos + length (utf8_bytes cp) < size
    → encode_loop 0 (utf16_units cp ++ us) pos size
      ≡ prepend (utf8_bytes cp) (encode_loop 0 us (pos + length (utf8_bytes cp)) size)
encode_point cp us pos size p h k room = elim (Bool-cases (ltb cp 0x10000)) [
  | inl l ↦
      let e = utf16_units-one cp (ltb→lt cp 0x10000 l) in
      rw e (
        encode_one cp us pos size p.plain h (ground (arith, ap (λ xs. has 0xFFFF (xs ++ us)) e, k))
          room)
  | inr l ↦
      let v = utf16_units-pair cp (ground (arith, l)) p.low in
      rw v.0 (
        encode_pair (0xD800 + (cp - 0x10000) / 1024) (0xDC00 + (cp - 0x10000) % 1024) us pos size
          (omega arith) v.1 (omega arith) v.2 (rw v.3 room)
        ∙ ap (λ c. prepend (utf8_bytes c) (encode_loop 0 us (pos + length (utf8_bytes c)) size))
            v.3)
]

has-append : (a : ℕ) (xs ys : List ℕ) → has a (xs ++ ys) ≡ false → has a ys ≡ false
has-append a [] ys h = h
has-append a (x ∷ xs) ys h = has-append a xs ys (ground arith)

is_text-append : (xs ys : List ℕ) → is_text (xs ++ ys) ≡ true → is_text ys ≡ true
is_text-append [] ys h = h
is_text-append (x ∷ xs) ys h = is_text-append xs ys (ground arith)

nothing : (pos size : ℕ) → encode_loop 0 [] pos size ≡ some []
unfolding encode_loop
nothing pos size = refl

bytes-positive : (cp c : ℕ) (front : List ℕ) → 0 < c → utf8_bytes cp ≡ c ∷ front → 0 < cp
bytes-positive zero c front h e = absurd (ground (arith, utf8_bytes-one 0 (omega arith), e))
bytes-positive (suc cp) c front h e = omega arith

-- `n` bounds the length of the string.
encode_loop-decode_loop :
    (n : ℕ) (s : List ℕ) (out max_units pos size : ℕ) (units : List ℕ)
    → length s ≤ n
    → is_text s ≡ true
    → decode_loop 0 s out max_units ≡ some units
    → has 0xFFFF units ≡ false
    → pos + length s < size
    → encode_loop 0 units pos size ≡ some s
unfolding decode_loop
encode_loop-decode_loop n [] out max pos size units b t e f room =
    let u : units ≡ [] = ground arith in rw u (nothing pos size)
encode_loop-decode_loop zero (c ∷ s) out max pos size units b t e f room = absurd (omega arith)
encode_loop-decode_loop (suc n) (c ∷ s) out max pos size units b t e f room =
    let (cp, more, us, p, q, r) = decode_step c s out max units e in
    let d = code_point-Starts c s cp more (ground arith) (ground arith) p in
    let o = out + length (utf16_units cp) in
    let rest : decode_loop 0 d.tail o max ≡ some us =
      sym (decode_loop-skip d.front d.tail o max)
      ∙ ap (λ k. decode_loop k (d.front ++ d.tail) o max) d.counted
      ∙ ap (λ x. decode_loop more x o max) (sym d.whole)
      ∙ r in
    let size_s : length s ≡ length d.front + length d.tail =
      ap length d.whole ∙ length-append d.front d.tail in
    let size_cp : length (utf8_bytes cp) ≡ suc (length d.front) = ap length d.coded in
    let text : is_text d.tail ≡ true =
      is_text-append d.front d.tail (ap is_text (sym d.whole) ∙ ground arith) in
    let f' : has 0xFFFF (utf16_units cp ++ us) ≡ false = ap (has 0xFFFF) (sym q) ∙ f in
    let positive = bytes-positive cp c d.front (ground arith) d.coded in
    let ih =
      encode_loop-decode_loop n d.tail o max (pos + length (utf8_bytes cp)) size us
        (omega (arith, size_s)) text rest (has-append 0xFFFF (utf16_units cp) us f')
        (omega (arith, size_s, size_cp)) in
    let whole : c ∷ s ≡ utf8_bytes cp ++ d.tail =
      ap (λ x. c ∷ x) d.whole ∙ ap (λ x. x ++ d.tail) (sym d.coded) in
    rw q (
      encode_point cp us pos size d.scalar positive f' (omega (arith, size_s, size_cp))
      ∙ ap (prepend (utf8_bytes cp)) ih
      ∙ ap some (sym whole))

empty : (max_units : ℕ) → utf8_to_utf16 [] max_units ≡ []
unfolding utf8_to_utf16 decode_loop
empty max = ground arith

accepted :
    (s : List ℕ) (max_units : ℕ)
    → utf8_to_utf16 s max_units ≢ []
    → decode_loop 0 s 0 max_units ≡ some (utf8_to_utf16 s max_units)
unfolding utf8_to_utf16
accepted s max ne = elim (Option-cases (decode_loop 0 s 0 max)) [
  | inl e ↦ absurd (ne (ground (arith, e)))
  | inr (u, e) ↦ elim (Bool-cases (max == 0)) [
    | inl z ↦ absurd (ne (ground (arith, z)))
    | inr z ↦ ground (arith, e, z)
  ]
]

-- A string of bytes, none of them 0, of which `utf8_to_utf16` makes units, one at least and none of
-- them 0xFFFF, comes back whole from `utf16_to_utf8`, if the buffer for the result has room for it
-- and the final 0.
pub utf16_to_utf8-utf8_to_utf16 :
    (s : List ℕ) (max_units output_size : ℕ)
    → is_text s ≡ true
    → utf8_to_utf16 s max_units ≢ []
    → has 0xFFFF (utf8_to_utf16 s max_units) ≡ false
    → length s < output_size
    → utf16_to_utf8 (utf8_to_utf16 s max_units) output_size ≡ (true, s)
unfolding utf16_to_utf8
utf16_to_utf8-utf8_to_utf16 [] max size t ne f room = absurd (ne (empty max))
utf16_to_utf8-utf8_to_utf16 (c ∷ s) max size t ne f room =
    let e =
      encode_loop-decode_loop (suc (length s)) (c ∷ s) 0 max 0 size (utf8_to_utf16 (c ∷ s) max)
        (omega arith) t (accepted (c ∷ s) max ne) f (omega (arith, room)) in
    let sized : (size == 0) ≡ false = ground arith in
    let some_byte : (suc (length s) == 0) ≡ false = ground arith in rw (sized, e, some_byte) refl
