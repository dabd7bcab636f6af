-- ===== src/Names/Utf/Decode.antt =====
-- What `utf8_to_utf16` accepts: the shortest coding of a code point that is not a surrogate.
use fastsystem.Prelude.{
  ℕ, zero, suc, ◌+◌, ◌-◌, ◌*◌, ◌≤◌, ◌<◌, ◌≡◌, ◌⊎◌, ◌∙◌, refl, sym, ap, arith, bit_and, Bool, true,
  false, ◌&&◌, some, List, [], ◌∷◌, ◌++◌, ltb, ◌==◌, length, get_or, inl, inr, Bool-cases, ltb→lt,
  bit_and-mask,
}
use fastsystem.Names.Utf.{code_point, two_bytes, three_bytes, four_bytes, utf8_bytes, is_stray}
use fastsystem.Names.Utf.Encode.{utf8_bytes-one, utf8_bytes-two, utf8_bytes-three, utf8_bytes-four}
use fastsystem.Names.Utf.Masks.{top_two, top_three, top_four, top_five, join}

-- A byte after the first, and its six bits.
stray-range :
    (c : ℕ) → c < 256 → is_stray c ≡ false → (128 ≤ c) × (c < 192) × (bit_and c 0x3F ≡ c - 128)
stray-range c h e = ground (arith, top_two c h, bit_and-mask 6 c)

two_bytes-value :
    (c c1 cp k : ℕ)
    → c1 < 256
    → 192 ≤ c
    → c < 224
    → two_bytes c c1 ≡ some (cp, k)
    → (128 ≤ c1) × (c1 < 192) × (cp ≡ (c - 192) * 64 + (c1 - 128)) × (128 ≤ cp) × (k ≡ 1)
unfolding two_bytes
two_bytes-value c c1 cp k h lo hi e =
    ground (arith, stray-range c1 h, bit_and-mask 5 c, join 6 (c - 192) (c1 - 128))

three_bytes-value :
    (c c1 c2 cp k : ℕ)
    → c1 < 256
    → c2 < 256
    → 224 ≤ c
    → c < 240
    → three_bytes c c1 c2 ≡ some (cp, k)
    → (128 ≤ c1)
      × (c1 < 192)
      × (128 ≤ c2)
      × (c2 < 192)
      × (cp ≡ (c - 224) * 4096 + (c1 - 128) * 64 + (c2 - 128))
      × (2048 ≤ cp)
      × ((cp < 0xD800) ⊎ (0xDFFF < cp))
      × (k ≡ 2)
unfolding three_bytes
three_bytes-value c c1 c2 cp k h h2 lo hi e = ground (
  arith,
  stray-range c1 h,
  stray-range c2 h2,
  bit_and-mask 4 c,
  join 12 (c - 224) ((c1 - 128) * 64),
  join 6 ((c - 224) * 64 + (c1 - 128)) (c2 - 128),
)

four_bytes-value :
    (c c1 c2 c3 cp k : ℕ)
    → c1 < 256
    → c2 < 256
    → c3 < 256
    → 240 ≤ c
    → c < 248
    → four_bytes c c1 c2 c3 ≡ some (cp, k)
    → (128 ≤ c1)
      × (c1 < 192)
      × (128 ≤ c2)
      × (c2 < 192)
      × (128 ≤ c3)
      × (c3 < 192)
      × (cp ≡ (c - 240) * 262144 + (c1 - 128) * 4096 + (c2 - 128) * 64 + (c3 - 128))
      × (0x10000 ≤ cp)
      × (cp ≤ 0x10FFFF)
      × (k ≡ 3)
unfolding four_bytes
four_bytes-value c c1 c2 c3 cp k h h2 h3 lo hi e = ground (
  arith,
  stray-range c1 h,
  stray-range c2 h2,
  stray-range c3 h3,
  bit_and-mask 3 c,
  join 18 (c - 240) ((c1 - 128) * 4096),
  join 12 ((c - 240) * 64 + (c1 - 128)) ((c2 - 128) * 64),
  join 6 ((c - 240) * 4096 + (c1 - 128) * 64 + (c2 - 128)) (c3 - 128),
)

-- Bytes of which none is 0.
abbrev pub is_text : List ℕ → Bool
is_text [] = true
is_text (c ∷ cs) = ltb 0 c && ltb c 256 && is_text cs

-- A code point that is not a surrogate.
pub record IsScalar (cp : ℕ) : Type 0 where
  pub low : cp ≤ 0x10FFFF
  pub plain : (cp < 0xD800) ⊎ (0xDFFF < cp)

-- The string starts with the coding of a code point, which has `more` bytes after the first.
pub record Starts (c : ℕ) (rest : List ℕ) (cp more : ℕ) : Type 0 where
  pub scalar : IsScalar cp
  pub front : List ℕ
  pub tail : List ℕ
  pub whole : rest ≡ front ++ tail
  pub coded : utf8_bytes cp ≡ c ∷ front
  pub counted : length front ≡ more

get_or-byte : (rest : List ℕ) (i : ℕ) → is_text rest ≡ true → get_or rest i 0 < 256
get_or-byte [] i h = omega arith
get_or-byte (c ∷ rest) zero h = ground arith
get_or-byte (c ∷ rest) (suc i) h = get_or-byte rest i (ground arith)

-- A string whose first elements are not 0 has them.
peel : (rest : List ℕ) → 0 < get_or rest 0 0 → (t : List ℕ) × (rest ≡ get_or rest 0 0 ∷ t)
peel [] h = absurd (omega arith)
peel (c ∷ t) h = (t, refl)

peel_two :
    (rest : List ℕ)
    → 0 < get_or rest 0 0
    → 0 < get_or rest 1 0
    → (t : List ℕ) × (rest ≡ get_or rest 0 0 ∷ get_or rest 1 0 ∷ t)
peel_two [] h k = absurd (omega arith)
peel_two (c ∷ rest) h k = let (t, e) = peel rest k in (t, ap (λ xs. c ∷ xs) e)

peel_three :
    (rest : List ℕ)
    → 0 < get_or rest 0 0
    → 0 < get_or rest 1 0
    → 0 < get_or rest 2 0
    → (t : List ℕ) × (rest ≡ get_or rest 0 0 ∷ get_or rest 1 0 ∷ get_or rest 2 0 ∷ t)
peel_three [] h k l = absurd (omega arith)
peel_three (c ∷ rest) h k l = let (t, e) = peel_two rest k l in (t, ap (λ xs. c ∷ xs) e)

module _ (c : ℕ) (rest : List ℕ) (cp more : ℕ) (byte : c < 256) (bytes : is_text rest ≡ true) where
  ascii : cp ≡ c → more ≡ 0 → c < 0x80 → Starts c rest cp more
  ascii e k h = record {
    scalar = record { low = omega (arith, h); plain = inl (omega (arith, h)) };
    front = [];
    tail = rest;
    whole = refl;
    coded = rw e (utf8_bytes-one c h);
    counted = sym k;
  }

  two-Starts :
      192 ≤ c → c < 224 → two_bytes c (get_or rest 0 0) ≡ some (cp, more) → Starts c rest cp more
  two-Starts lo hi e =
      let c1 = get_or rest 0 0 in
      let v = two_bytes-value c c1 cp more (get_or-byte rest 0 bytes) lo hi e in
      let (t, q) = peel rest (omega (arith, v)) in
      record {
        scalar = record { low = omega (arith, v); plain = inl (omega (arith, v)) };
        front = c1 ∷ [];
        tail = t;
        whole = q;
        coded = utf8_bytes-two cp (omega (arith, v)) (omega (arith, v)) ∙ ground (arith, v);
        counted = omega (arith, v);
      }

  three-Starts :
      224 ≤ c
      → c < 240
      → three_bytes c (get_or rest 0 0) (get_or rest 1 0) ≡ some (cp, more)
      → Starts c rest cp more
  three-Starts lo hi e =
      let c1 = get_or rest 0 0 in
      let c2 = get_or rest 1 0 in
      let v =
        three_bytes-value c c1 c2 cp more (get_or-byte rest 0 bytes) (get_or-byte rest 1 bytes) lo
          hi e in
      let (t, q) = peel_two rest (omega (arith, v)) (omega (arith, v)) in
      record {
        scalar = record { low = omega (arith, v); plain = v.6 };
        front = c1 ∷ c2 ∷ [];
        tail = t;
        whole = q;
        coded = utf8_bytes-three cp (omega (arith, v)) (omega (arith, v)) ∙ ground (arith, v);
        counted = omega (arith, v);
      }

  four-Starts :
      240 ≤ c
      → c < 248
      → four_bytes c (get_or rest 0 0) (get_or rest 1 0) (get_or rest 2 0) ≡ some (cp, more)
      → Starts c rest cp more
  four-Starts lo hi e =
      let c1 = get_or rest 0 0 in
      let c2 = get_or rest 1 0 in
      let c3 = get_or rest 2 0 in
      let v =
        four_bytes-value c c1 c2 c3 cp more (get_or-byte rest 0 bytes) (get_or-byte rest 1 bytes)
          (get_or-byte rest 2 bytes) lo hi e in
      let (t, q) = peel_three rest (omega (arith, v)) (omega (arith, v)) (omega (arith, v)) in
      record {
        scalar = record { low = omega (arith, v); plain = inr (omega (arith, v)) };
        front = c1 ∷ c2 ∷ c3 ∷ [];
        tail = t;
        whole = q;
        coded = utf8_bytes-four cp (omega (arith, v)) (omega (arith, v)) ∙ ground (arith, v);
        counted = omega (arith, v);
      }

  -- Whatever bytes other than 0 a string has, a code point that is found is no surrogate, at most
  -- 0x10FFFF and the one that the string starts with, in its shortest coding.
  pub code_point-Starts : code_point c rest ≡ some (cp, more) → Starts c rest cp more
  unfolding code_point
  code_point-Starts e = elim (Bool-cases (ltb c 0x80)) [
    | inl h ↦ ascii (ground arith) (ground arith) (ltb→lt c 0x80 h)
    | inr h ↦ elim (Bool-cases (bit_and c 0xE0 == 0xC0)) [
      | inl k ↦
          two-Starts (ground (arith, top_three c byte)) (ground (arith, top_three c byte))
            (ground arith)
      | inr k ↦ elim (Bool-cases (bit_and c 0xF0 == 0xE0)) [
        | inl l ↦
            three-Starts (ground (arith, top_four c byte)) (ground (arith, top_four c byte))
              (ground arith)
        | inr l ↦ elim (Bool-cases (bit_and c 0xF8 == 0xF0)) [
          | inl m ↦
              four-Starts (ground (arith, top_five c byte)) (ground (arith, top_five c byte))
                (ground arith)
          | inr m ↦ absurd (ground arith)
        ]
      ]
    ]
  ]
