-- ===== src/Fat/Entries/Bytes.antt =====
-- Entries in one sector: what is stored is read back, and other entries stay.
use fastsystem.Prelude.{
  ℕ, ◌+◌, ◌*◌, ◌/◌, ◌%◌, ◌^◌, ◌≤◌, ◌<◌, ◌≡◌, ◌∙◌, ◌⊎◌, arith, true, false, List, ◌==◌,
  if◌then◌else◌, u16, length, get_or, set, bit_and, bit_or, length-set, get_or-set_self,
  get_or-set_ne, bit_and-mask, bit_and-split, bit_or-split, bit_and-zero, bit_or-zero, zero-bit_or,
}
use native.Mathlib.Nat.{div-add-mod'}
use fastsystem.Fat.Volume.{Volume, isfat16type, isfat32type, sectorsize}
use fastsystem.Fat.Entries.{Device, le16, le32, put16, put32, entry_value, patched}

get_or-put16 :
    (b : List ℕ) (o x i : ℕ)
    → o + 2 ≤ length b
    → get_or (put16 b o x) i 0
      ≡ (if i == o then x % 2 ^ 8 else if i == o + 1 then x / 2 ^ 8 % 2 ^ 8 else get_or b i 0)
unfolding put16
get_or-put16 b o x i h =
    let b1 = set b o (x % 2 ^ 8) in
    ground (
      arith,
      length-set b o (x % 2 ^ 8),
      get_or-set_self b o (x % 2 ^ 8) 0,
      get_or-set_ne b o i (x % 2 ^ 8) 0,
      get_or-set_self b1 (o + 1) (x / 2 ^ 8 % 2 ^ 8) 0,
      get_or-set_ne b1 (o + 1) i (x / 2 ^ 8 % 2 ^ 8) 0,
    )

pub length-put16 : (b : List ℕ) (o x : ℕ) → length (put16 b o x) ≡ length b
unfolding put16
length-put16 b o x =
    length-set (set b o (x % 2 ^ 8)) (o + 1) (x / 2 ^ 8 % 2 ^ 8) ∙ length-set b o (x % 2 ^ 8)

pub length-put32 : (b : List ℕ) (o x : ℕ) → length (put32 b o x) ≡ length b
unfolding put32
length-put32 b o x =
    let b1 = set b o (x % 2 ^ 8) in
    let b2 = set b1 (o + 1) (x / 2 ^ 8 % 2 ^ 8) in
    let b3 = set b2 (o + 2) (x / 2 ^ 16 % 2 ^ 8) in
    length-set b3 (o + 3) (x / 2 ^ 24 % 2 ^ 8)
    ∙ length-set b2 (o + 2) (x / 2 ^ 16 % 2 ^ 8)
    ∙ length-set b1 (o + 1) (x / 2 ^ 8 % 2 ^ 8)
    ∙ length-set b o (x % 2 ^ 8)

-- The four bytes, one by one.
get_or-put32 :
    (b : List ℕ) (o x i : ℕ)
    → o + 4 ≤ length b
    → get_or (put32 b o x) i 0 ≡ (
        if i == o
        then x % 2 ^ 8
        else if i == o + 1
        then x / 2 ^ 8 % 2 ^ 8
        else if i == o + 2
        then x / 2 ^ 16 % 2 ^ 8
        else if i == o + 3
        then x / 2 ^ 24 % 2 ^ 8
        else get_or b i 0)
unfolding put32
get_or-put32 b o x i h =
    let b1 = set b o (x % 2 ^ 8) in
    let b2 = set b1 (o + 1) (x / 2 ^ 8 % 2 ^ 8) in
    let b3 = set b2 (o + 2) (x / 2 ^ 16 % 2 ^ 8) in
    ground (
      arith,
      length-set b o (x % 2 ^ 8),
      get_or-set_self b o (x % 2 ^ 8) 0,
      get_or-set_ne b o i (x % 2 ^ 8) 0,
      length-set b1 (o + 1) (x / 2 ^ 8 % 2 ^ 8),
      get_or-set_self b1 (o + 1) (x / 2 ^ 8 % 2 ^ 8) 0,
      get_or-set_ne b1 (o + 1) i (x / 2 ^ 8 % 2 ^ 8) 0,
      length-set b2 (o + 2) (x / 2 ^ 16 % 2 ^ 8),
      get_or-set_self b2 (o + 2) (x / 2 ^ 16 % 2 ^ 8) 0,
      get_or-set_ne b2 (o + 2) i (x / 2 ^ 16 % 2 ^ 8) 0,
      get_or-set_self b3 (o + 3) (x / 2 ^ 24 % 2 ^ 8) 0,
      get_or-set_ne b3 (o + 3) i (x / 2 ^ 24 % 2 ^ 8) 0,
    )

le16-put16 : (b : List ℕ) (o x : ℕ) → o + 2 ≤ length b → x < 2 ^ 16 → le16 (put16 b o x) o ≡ x
unfolding le16
le16-put16 b o x h small = ground (arith, get_or-put16 b o x o, get_or-put16 b o x (o + 1))

le16-put16_apart :
    (b : List ℕ) (o x p : ℕ)
    → o + 2 ≤ length b
    → (p + 2 ≤ o) ⊎ (o + 2 ≤ p)
    → le16 (put16 b o x) p ≡ le16 b p
unfolding le16
le16-put16_apart b o x p h apart = ground (arith, get_or-put16 b o x p, get_or-put16 b o x (p + 1))

le32-put32 : (b : List ℕ) (o x : ℕ) → o + 4 ≤ length b → x < 2 ^ 32 → le32 (put32 b o x) o ≡ x
unfolding le32
le32-put32 b o x h small = ground (
  arith,
  get_or-put32 b o x o,
  get_or-put32 b o x (o + 1),
  get_or-put32 b o x (o + 2),
  get_or-put32 b o x (o + 3),
)

le32-put32_apart :
    (b : List ℕ) (o x p : ℕ)
    → o + 4 ≤ length b
    → (p + 4 ≤ o) ⊎ (o + 4 ≤ p)
    → le32 (put32 b o x) p ≡ le32 b p
unfolding le32
le32-put32_apart b o x p h apart = ground (
  arith,
  get_or-put32 b o x p,
  get_or-put32 b o x (p + 1),
  get_or-put32 b o x (p + 2),
  get_or-put32 b o x (p + 3),
)

-- `(old & 0xF0000000) | (value & 0x0FFFFFFF)`
merged_entry :
    (old value : ℕ)
    → bit_or (bit_and old 0xF0000000) (bit_and value 0x0FFFFFFF)
      ≡ old / 2 ^ 28 % 16 * 2 ^ 28 + value % 2 ^ 28
merged_entry old value =
    let q = old / 2 ^ 28 in
    let r = old % 2 ^ 28 in
    let high : bit_and old 0xF0000000 ≡ q % 16 * 2 ^ 28 = ground (
      arith,
      div-add-mod' old (2 ^ 28),
      bit_and-split 28 q r 15 0,
      bit_and-mask 4 q,
      bit_and-zero r,
    ) in
    ground (
      arith,
      high,
      bit_and-mask 28 value,
      bit_or-split 28 (q % 16) 0 0 (value % 2 ^ 28),
      bit_or-zero (q % 16),
      zero-bit_or (value % 2 ^ 28),
    )

module _ (dev : Device) (v : Volume) (b : List ℕ) where
  pub length-patched : (o x : ℕ) → length (patched dev v b o x) ≡ length b
  unfolding patched
  length-patched o x = ground (
    arith,
    length-put16 b o (u16 x),
    length-put32 b o (bit_or (bit_and (le32 b o) 0xF0000000) (bit_and x 0x0FFFFFFF)),
  )

  -- A short entry.
  pub entry_value-patched_short :
      (o x p : ℕ)
      → isfat16type v ≡ true
      → length b ≡ sectorsize
      → o + 2 ≤ sectorsize
      → p + 2 ≤ sectorsize
      → x < 2 ^ 16
      → (p ≡ o) ⊎ (p + 2 ≤ o) ⊎ (o + 2 ≤ p)
      → entry_value dev v (patched dev v b o x) p ≡ (if p == o then x else entry_value dev v b p)
  unfolding patched entry_value
  entry_value-patched_short o x p t l ho hp hx apart =
      rw t
        (ground (arith, le16-put16 b o (u16 x), le16-put16_apart b o (u16 x) p, bit_and-mask 16 x))

  -- A long entry.
  pub entry_value-patched_long :
      (o x p : ℕ)
      → isfat16type v ≡ false
      → isfat32type v ≡ true
      → length b ≡ sectorsize
      → o + 4 ≤ sectorsize
      → p + 4 ≤ sectorsize
      → x < 2 ^ 28
      → (p ≡ o) ⊎ (p + 4 ≤ o) ⊎ (o + 4 ≤ p)
      → entry_value dev v (patched dev v b o x) p ≡ (if p == o then x else entry_value dev v b p)
  unfolding patched entry_value
  entry_value-patched_long o x p t t' l ho hp hx apart =
      let n = bit_or (bit_and (le32 b o) 0xF0000000) (bit_and x 0x0FFFFFFF) in
      rw (t, t')
        (ground (
          arith,
          merged_entry (le32 b o) x,
          le32-put32 b o n,
          le32-put32_apart b o n p,
          bit_and-mask 28 n,
        ))

  -- The reserved bits of a long entry survive.
  pub patched-reserved :
      (o x : ℕ)
      → isfat16type v ≡ false
      → length b ≡ sectorsize
      → o + 4 ≤ sectorsize
      → le32 b o < 2 ^ 32
      → le32 (patched dev v b o x) o / 2 ^ 28 ≡ le32 b o / 2 ^ 28
  unfolding patched
  patched-reserved o x t l ho hb =
      let n = bit_or (bit_and (le32 b o) 0xF0000000) (bit_and x 0x0FFFFFFF) in
      rw t (ground (arith, merged_entry (le32 b o) x, le32-put32 b o n))
