-- ===== src/Names/Utf/Units.antt =====
-- Units in a buffer: their width, and where `utf16_to_utf8` stops.
use fastsystem.Prelude.{
  ℕ, zero, suc, ◌+◌, ◌-◌, ◌/◌, ◌%◌, ◌^◌, ◌≤◌, ◌<◌, ◌≡◌, ◌∙◌, refl, ap, arith, Bool, true, inl, inr,
  bit_and, some, List, [], ◌∷◌, ◌++◌, leb, length, get_or, Bool-cases, Option-cases,
}
use mathlib.Core.Path.{subst}
use fastsystem.Names.Utf.RoundTrip.{decode_step}
use mathlib.Core.Option.{some-injective}
use fastsystem.Names.Utf.{
  utf16_units, utf8_bytes, decode_loop, encode_loop, utf8_to_utf16, utf16_to_utf8,
  is_high_surrogate, pair_value,
}

abbrev pub AreUnits : List ℕ → Type 0
AreUnits us = (k : ℕ) → get_or us k 0 < 2 ^ 16

utf16_units-AreUnits : (cp : ℕ) (us : List ℕ) → AreUnits us → AreUnits (utf16_units cp ++ us)
unfolding utf16_units
utf16_units-AreUnits cp us h k = elim (Bool-cases (leb cp 0xFFFF)) [
  | inl e ↦ rw e (one k)
  | inr e ↦ rw e (two k)
]
  where
    one : (k : ℕ) → get_or (cp % 2 ^ 16 ∷ us) k 0 < 2 ^ 16
    one zero = omega arith
    one (suc k) = h k

    two :
        (k : ℕ)
        → get_or
            ((0xD800 + (cp - 0x10000) / 2 ^ 10) % 2 ^ 16
              ∷ (0xDC00 + bit_and (cp - 0x10000) 0x3FF) % 2 ^ 16
              ∷ us)
            k
            0
          < 2 ^ 16
    two zero = omega arith
    two (suc zero) = omega arith
    two (suc (suc k)) = h k

decode_loop-AreUnits :
    (skip : ℕ) (s : List ℕ) (out max_units : ℕ) (us : List ℕ)
    → decode_loop skip s out max_units ≡ some us
    → AreUnits us
unfolding decode_loop
decode_loop-AreUnits zero [] out max us e =
    subst AreUnits (some-injective [] us e) (λ k. omega arith)
decode_loop-AreUnits (suc skip) [] out max us e =
    subst AreUnits (some-injective [] us e) (λ k. omega arith)
decode_loop-AreUnits (suc skip) (c ∷ s) out max us e = decode_loop-AreUnits skip s out max us e
decode_loop-AreUnits zero (c ∷ s) out max us e =
    let (cp, more, us', _, q, n) = decode_step c s out max us e in
    rw q (
      utf16_units-AreUnits cp us'
        (decode_loop-AreUnits more s (out + length (utf16_units cp)) max us' n))

pub utf8_to_utf16-AreUnits : (s : List ℕ) (max_units : ℕ) → AreUnits (utf8_to_utf16 s max_units)
unfolding utf8_to_utf16
utf8_to_utf16-AreUnits s max k = elim (Option-cases (decode_loop 0 s 0 max)) [
  | inl e ↦ ground (arith, e)
  | inr (us, e) ↦ ground (arith, e, decode_loop-AreUnits 0 s 0 max us e k)
]

-- What `encode_loop` takes for the end.
abbrev pub Stops : List ℕ → ℕ → Type 0
Stops t size = (pos : ℕ) → encode_loop 0 t pos size ≡ some []

pub Stops-nothing : (size : ℕ) → Stops [] size
unfolding encode_loop
Stops-nothing size pos = refl

pub Stops-zero : (t : List ℕ) (size : ℕ) → Stops (0 ∷ t) size
unfolding encode_loop
Stops-zero t size pos = refl

encode_loop-append :
    (skip : ℕ) (us t : List ℕ) (pos size : ℕ) (bytes : List ℕ)
    → Stops t size
    → skip ≤ length us
    → encode_loop skip us pos size ≡ some bytes
    → encode_loop skip (us ++ t) pos size ≡ some bytes
unfolding encode_loop
encode_loop-append zero [] t pos size bytes h l e = h pos ∙ e
encode_loop-append (suc skip) [] t pos size bytes h l e = absurd (omega (arith, l))
encode_loop-append (suc skip) (u ∷ us) t pos size bytes h l e =
    encode_loop-append skip us t pos size bytes h (omega (arith, l)) e
encode_loop-append zero (u ∷ []) t pos size bytes h l e = elim (Bool-cases (is_high_surrogate u)) [
  | inl p ↦ absurd (ground (arith, p, e))
  | inr p ↦
      let x = h (pos + length (utf8_bytes u)) in
      let e' = rw p at e in rw p (ground (arith, p, e', x))
]
encode_loop-append zero (u ∷ w ∷ us) t pos size bytes h l e =
    elim (Bool-cases (is_high_surrogate u)) [
      | inl p ↦
          let p' = pos + length (utf8_bytes (pair_value u w)) in
          elim (Option-cases (encode_loop 0 us p' size)) [
            | inl n ↦ let e' = rw p at e in rw p (ground (arith, p, e', n))
            | inr (b, n) ↦
                let x = encode_loop-append 0 us t p' size b h (omega arith) n in
                let e' = rw p at e in rw p (ground (arith, p, e', n, x))
          ]
      | inr p ↦
          let p' = pos + length (utf8_bytes u) in
          elim (Option-cases (encode_loop 0 (w ∷ us) p' size)) [
            | inl n ↦ let e' = rw p at e in rw p (ground (arith, p, e', n))
            | inr (b, n) ↦
                let x = encode_loop-append 0 (w ∷ us) t p' size b h (omega arith) n in
                let e' = rw p at e in rw p (ground (arith, p, e', n, x))
          ]
    ]

-- The end does not change what is found before it.
pub utf16_to_utf8-append :
    (us t : List ℕ) (size : ℕ) (s : List ℕ)
    → Stops t size
    → utf16_to_utf8 us size ≡ (true, s)
    → utf16_to_utf8 (us ++ t) size ≡ (true, s)
unfolding utf16_to_utf8
utf16_to_utf8-append us t size s h e = elim (Option-cases (encode_loop 0 us 0 size)) [
  | inl n ↦ absurd (ground (arith, n, ap (λ (r : Bool × List ℕ). r.0) e))
  | inr (b, n) ↦ rw (encode_loop-append 0 us t 0 size b h (omega arith) n) (rw n at e)
]
