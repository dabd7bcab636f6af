-- ===== src/Memory/Bitmap.antt =====
-- `test_frame` after `set_frame` and `clear_frame`: the bitmap is a set of frames.
use fastsystem.Prelude.{
  ℕ, zero, suc, ◌-◌, ◌*◌, ◌/◌, ◌%◌, ◌^◌, ◌≤◌, ◌<◌, ◌≡◌, ◌≢◌, ◌∙◌, refl, sym, ap, arith, bit_and,
  bit_or, min, max, true, false, not, List, ◌==◌, if◌then◌else◌, u8, length, get_or, set, inl, inr,
  Bool-cases, ==→eq, get_or-set_self, get_or-set_ne, length-set, bit_at, bit_at_bound,
  bit_at-bit_and, bit_at-bit_or, bit_at-pow_self, bit_at-pow_ne, bit_and-pow, bit_at-byte,
  bit_at-mask,
}
use native.Mathlib.Nat.{one-le-pow}
use fastsystem.Memory.{page_size, set_frame, clear_frame, test_frame}

-- The bit of a frame.
abbrev pub frame_bit : List ℕ → ℕ → ℕ
frame_bit bitmap i = bit_at (i % 8) (get_or bitmap (i / 8) 0)

-- `test_frame` reads the bit of the frame that the address lies in.
pub test_frame-bit :
    (bitmap : List ℕ) (addr : ℕ)
    → test_frame bitmap addr ≡ (frame_bit bitmap (addr / page_size) == 1)
unfolding test_frame
test_frame-bit bitmap addr =
    let frame = addr / page_size in
    let w = get_or bitmap (frame / 8) 0 in
    let k = frame % 8 in
    let p : 1 ≤ 2 ^ k = one-le-pow k 2 (omega arith) in
    rw (bit_and-pow k w) (bit_test (bit_at k w) (2 ^ k) (bit_at_bound k w) p)
  where
    bit_test : (b p : ℕ) → b < 2 → 1 ≤ p → not (b * p == 0) ≡ (b == 1)
    bit_test zero p h k = ground arith
    bit_test (suc zero) p h k = ground arith
    bit_test (suc (suc b)) p h k = absurd (omega arith)

-- A write of the byte of a frame that changes no bit but the frame's.
abbrev Writes : List ℕ → ℕ → ℕ → ℕ → Type 0
Writes bitmap i w b =
    (bit_at (i % 8) w ≡ b)
    × ((j : ℕ) → j < 8 → j ≢ i % 8 → bit_at j w ≡ bit_at j (get_or bitmap (i / 8) 0))

write_self :
    (bitmap : List ℕ) (i w b : ℕ)
    → i < 8 * length bitmap
    → Writes bitmap i w b
    → frame_bit (set bitmap (i / 8) w) i ≡ b
write_self bitmap i w b h (e, _) =
    ap (bit_at (i % 8)) (get_or-set_self bitmap (i / 8) w 0 (omega (arith, h))) ∙ e

write_ne :
    (bitmap : List ℕ) (i w b j : ℕ)
    → i < 8 * length bitmap
    → Writes bitmap i w b
    → i ≢ j
    → frame_bit (set bitmap (i / 8) w) j ≡ frame_bit bitmap j
write_ne bitmap i w b j h (_, f) n = elim (Bool-cases (i / 8 == j / 8)) [
  | inr e ↦ ap (bit_at (j % 8)) (get_or-set_ne bitmap (i / 8) (j / 8) w 0 (ground (arith, e)))
  | inl e ↦
      let q = ==→eq (i / 8) (j / 8) e in
      rw (sym q) (
        ap (bit_at (j % 8)) (get_or-set_self bitmap (i / 8) w 0 (omega (arith, h)))
        ∙ f (j % 8) (omega arith) (omega (arith, n, q)))
]

set_frame-Writes :
    (bitmap : List ℕ) (i : ℕ)
    → Writes bitmap i (u8 (bit_or (get_or bitmap (i / 8) 0) (2 ^ (i % 8)))) 1
set_frame-Writes bitmap i =
    let k = i % 8 in
    let w = get_or bitmap (i / 8) 0 in
    let now : (j : ℕ)
        → j < 8
        → bit_at j (u8 (bit_or w (2 ^ k))) ≡ max (bit_at j w) (bit_at j (2 ^ k)) =
      λ j l. bit_at-byte j (bit_or w (2 ^ k)) l ∙ bit_at-bit_or j w (2 ^ k) in
    (
      ground (arith, now k (omega arith), bit_at-pow_self k, bit_at_bound k w),
      λ j l n. ground (arith, now j l, bit_at-pow_ne j k n),
    )

clear_frame-Writes :
    (bitmap : List ℕ) (i : ℕ)
    → Writes bitmap i (u8 (bit_and (get_or bitmap (i / 8) 0) (2 ^ 32 - 1 - 2 ^ (i % 8)))) 0
clear_frame-Writes bitmap i =
    let k = i % 8 in
    let w = get_or bitmap (i / 8) 0 in
    let mask = 2 ^ 32 - 1 - 2 ^ k in
    let now : (j : ℕ)
        → j < 8
        → bit_at j (u8 (bit_and w mask)) ≡ min (bit_at j w) (1 - bit_at j (2 ^ k)) =
      λ j l.
        bit_at-byte j (bit_and w mask) l
        ∙ bit_at-bit_and j w mask
        ∙ ap (min (bit_at j w)) (bit_at-mask 32 k j (omega arith) (omega (arith, l))) in
    (
      ground (arith, now k (omega arith), bit_at-pow_self k),
      λ j l n. ground (arith, now j l, bit_at-pow_ne j k n, bit_at_bound j w),
    )

after_write :
    (bitmap : List ℕ) (a b w v : ℕ)
    → a / page_size < 8 * length bitmap
    → Writes bitmap (a / page_size) w v
    → test_frame (set bitmap (a / page_size / 8) w) b
      ≡ (if a / page_size == b / page_size then v == 1 else test_frame bitmap b)
after_write bitmap a b w v h f =
    let i = a / page_size in
    let j = b / page_size in
    rw (test_frame-bit (set bitmap (i / 8) w) b, test_frame-bit bitmap b)
      (elim (Bool-cases (i == j)) [
        | inl e ↦ rw (e, sym (==→eq i j e), write_self bitmap i w v h f) refl
        | inr e ↦ rw (e, write_ne bitmap i w v j h f (ground (arith, e))) refl
      ])

-- A frame of memory is in use after `set_frame`, and the others are as before.
pub test_frame-set_frame :
    (bitmap : List ℕ) (a b : ℕ)
    → a / page_size < 8 * length bitmap
    → test_frame (set_frame bitmap a) b
      ≡ (if a / page_size == b / page_size then true else test_frame bitmap b)
unfolding set_frame
test_frame-set_frame bitmap a b h =
    after_write bitmap a b
      (u8 (bit_or (get_or bitmap (a / page_size / 8) 0) (2 ^ (a / page_size % 8)))) 1 h
      (set_frame-Writes bitmap (a / page_size))

-- A frame of memory is free after `clear_frame`, and the others are as before.
pub test_frame-clear_frame :
    (bitmap : List ℕ) (a b : ℕ)
    → a / page_size < 8 * length bitmap
    → test_frame (clear_frame bitmap a) b
      ≡ (if a / page_size == b / page_size then false else test_frame bitmap b)
unfolding clear_frame
test_frame-clear_frame bitmap a b h =
    after_write bitmap a b
      (u8 (bit_and (get_or bitmap (a / page_size / 8) 0) (2 ^ 32 - 1 - 2 ^ (a / page_size % 8)))) 0
      h (clear_frame-Writes bitmap (a / page_size))

pub length-set_frame : (bitmap : List ℕ) (a : ℕ) → length (set_frame bitmap a) ≡ length bitmap
unfolding set_frame
length-set_frame bitmap a =
    length-set bitmap (a / page_size / 8)
      (u8 (bit_or (get_or bitmap (a / page_size / 8) 0) (2 ^ (a / page_size % 8))))
