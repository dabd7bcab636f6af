-- ===== src/Memory/Frames.antt =====
-- `palloc` and `pfree` as the allocator of the frames.
use fastsystem.Prelude.{
  ◌↔◌, ◌⊎◌, ℕ, zero, suc, ◌+◌, ◌*◌, ◌/◌, ◌^◌, ◌≤◌, ◌<◌, ◌≡◌, ◌≢◌, ◌∙◌, refl, sym, ap, arith, true,
  false, List, ◌==◌, if◌then◌else◌, u32, length, inl, inr, Bool-cases, ==→eq,
}
use fastsystem.Memory.{page_size, set_frame, test_frame, palloc_loop, palloc, pfree}
use fastsystem.Memory.Bitmap.{
  frame_bit, test_frame-bit, test_frame-set_frame, test_frame-clear_frame, length-set_frame,
}

-- The addresses of the frames have 32 bits.
abbrev pub IsAddressable : List ℕ → Type 0
IsAddressable bitmap = 8 * length bitmap ≤ 2 ^ 20

-- Each of the first `n` frames is in use.
abbrev pub AllTaken : List ℕ → ℕ → Type 0
AllTaken bitmap n = (j : ℕ) → j < n → test_frame bitmap (j * page_size) ≡ true

-- The first free frame from `lo` on is taken, and no other frame changes.
pub record IsTaken (bitmap : List ℕ) (lo : ℕ) (r : ℕ × List ℕ) (i : ℕ) : Type 0 where
  pub address : r.0 ≡ i * page_size
  pub inside : (lo ≤ i) × (i < 8 * length bitmap)
  pub free : test_frame bitmap r.0 ≡ false
  pub first : (j : ℕ) → lo ≤ j → j < i → test_frame bitmap (j * page_size) ≡ true
  pub size : length r.1 ≡ length bitmap
  pub taken :
      (b : ℕ) → test_frame r.1 b ≡ (if i == b / page_size then true else test_frame bitmap b)

-- An address is used for the frame it lies in.
same_frame :
    (bitmap : List ℕ) (a b : ℕ)
    → a / page_size ≡ b / page_size
    → test_frame bitmap a ≡ test_frame bitmap b
same_frame bitmap a b e =
    test_frame-bit bitmap a ∙ ap (λ n. frame_bit bitmap n == 1) e ∙ sym (test_frame-bit bitmap b)

module _ (bitmap : List ℕ) (small : IsAddressable bitmap) where
  address_of : (i : ℕ) → i < 8 * length bitmap → u32 (i * page_size) ≡ i * page_size
  address_of i h = omega (arith, small)

  frame_of : (i : ℕ) → i * page_size / page_size ≡ i
  frame_of i = omega arith

  palloc_loop_here :
      (left i : ℕ)
      → i < 8 * length bitmap
      → test_frame bitmap (i * page_size) ≡ false
      → palloc_loop (suc left) bitmap i ≡ (i * page_size, set_frame bitmap (i * page_size))
  unfolding palloc_loop
  palloc_loop_here left i h e = rw (address_of i h, e) refl

  palloc_loop_next :
      (left i : ℕ)
      → i < 8 * length bitmap
      → test_frame bitmap (i * page_size) ≡ true
      → palloc_loop (suc left) bitmap i ≡ palloc_loop left bitmap (i + 1)
  unfolding palloc_loop
  palloc_loop_next left i h e = rw (address_of i h, e) refl

  IsTaken-here :
      (i : ℕ)
      → i < 8 * length bitmap
      → test_frame bitmap (i * page_size) ≡ false
      → IsTaken bitmap i (i * page_size, set_frame bitmap (i * page_size)) i
  IsTaken-here i h e = record {
    address = refl;
    inside = (omega arith, h);
    free = e;
    first = λ j a b. absurd (omega (arith, a, b));
    size = length-set_frame bitmap (i * page_size);
    taken = λ b.
        test_frame-set_frame bitmap (i * page_size) b (rw (frame_of i) h)
        ∙ ap (λ (n : ℕ). if n == b / page_size then true else test_frame bitmap b) (frame_of i);
  }

  palloc_loop-IsTaken :
      (left i j : ℕ)
      → i + left ≡ 8 * length bitmap
      → i ≤ j
      → j < 8 * length bitmap
      → test_frame bitmap (j * page_size) ≡ false
      → (k : ℕ) × IsTaken bitmap i (palloc_loop left bitmap i) k
  palloc_loop-IsTaken zero i j h l m e = absurd (omega arith)
  palloc_loop-IsTaken (suc left) i j h l m e =
      elim (Bool-cases (test_frame bitmap (i * page_size))) [
        | inr f ↦ rw (palloc_loop_here left i (omega arith) f) (i, IsTaken-here i (omega arith) f)
        | inl t ↦
            let n : i ≢ j =
              λ q. absurd (ground (arith, ap (λ x. test_frame bitmap (x * page_size)) q, e, t)) in
            let (k, r) = palloc_loop-IsTaken left (i + 1) j (omega arith) (omega (arith, n)) m e in
            rw (palloc_loop_next left i (omega arith) t)
              (k, widen i k (palloc_loop left bitmap (i + 1)) t r)
      ]
    where
      widen :
          (i k : ℕ) (r : ℕ × List ℕ)
          → test_frame bitmap (i * page_size) ≡ true
          → IsTaken bitmap (i + 1) r k
          → IsTaken bitmap i r k
      widen i k r t a = record {
        address = a.address;
        inside = (omega (arith, a.inside), a.inside.1);
        free = a.free;
        first = λ j p q. elim (Bool-cases (i == j)) [
          | inl e ↦ ap (λ x. test_frame bitmap (x * page_size)) (sym (==→eq i j e)) ∙ t
          | inr e ↦ a.first j (ground (arith, e, p)) q
        ];
        size = a.size;
        taken = a.taken;
      }

  -- If a frame of an addressable memory is free, the first free one is taken and no other frame
  -- changes.
  pub palloc-IsTaken :
      (j : ℕ)
      → j < 8 * length bitmap
      → test_frame bitmap (j * page_size) ≡ false
      → (i : ℕ) × IsTaken bitmap 0 (palloc bitmap) i
  unfolding palloc
  palloc-IsTaken j h e = palloc_loop-IsTaken (8 * length bitmap) 0 j (omega arith) (omega arith) h e

  palloc_loop_full :
      (left i : ℕ)
      → i + left ≡ 8 * length bitmap
      → AllTaken bitmap (8 * length bitmap)
      → (palloc_loop left bitmap i).0 ≡ 0
  unfolding palloc_loop
  palloc_loop_full zero i h f = refl
  palloc_loop_full (suc left) i h f =
      ap (λ r. r.0) (palloc_loop_next left i (omega (arith, h)) (f i (omega (arith, h))))
      ∙ palloc_loop_full left (i + 1) (omega (arith, h)) f

  all_or_free :
      (n : ℕ)
      → AllTaken bitmap n ⊎ ((j : ℕ) × (j < n) × (test_frame bitmap (j * page_size) ≡ false))
  all_or_free zero = inl (λ j h. absurd (omega (arith, h)))
  all_or_free (suc n) = elim (Bool-cases (test_frame bitmap (n * page_size))) [
    | inr f ↦ inr (n, omega arith, f)
    | inl t ↦ elim (all_or_free n) [
      | inr (j, h, f) ↦ inr (j, omega (arith, h), f)
      | inl all ↦ inl (λ j h. elim (Bool-cases (j == n)) [
        | inl e ↦ ap (λ (x : ℕ). test_frame bitmap (x * page_size)) (==→eq j n e) ∙ t
        | inr e ↦ all j (ground (arith, e, h))
      ])
    ]
  ]

  null_free : 0 < length bitmap → test_frame bitmap (0 * page_size) ≡ false → (palloc bitmap).0 ≡ 0
  null_free h e =
      let (i, t) = palloc-IsTaken 0 (omega (arith, h)) e in
      elim (Bool-cases (i == 0)) [
        | inl z ↦ t.address ∙ ap (λ (x : ℕ). x * page_size) (==→eq i 0 z)
        | inr z ↦ absurd (ground (arith, t.first 0 (omega arith) (ground (arith, z)), e))
      ]

  -- In an addressable memory of one byte of the bitmap at least, `palloc` returns 0 exactly if
  -- frame 0 is free or if no frame is: the value does not tell the two apart.
  pub palloc_null :
      0 < length bitmap
      → ((palloc bitmap).0 ≡ 0)
        ↔ ((test_frame bitmap (0 * page_size) ≡ false) ⊎ AllTaken bitmap (8 * length bitmap))
  unfolding palloc
  palloc_null h = (
    λ e. elim (all_or_free (8 * length bitmap)) [
      | inl all ↦ inr all
      | inr (j, k, f) ↦
          let (i, t) = palloc-IsTaken j k f in
          inl (ap (test_frame bitmap) (omega (arith, e)) ∙ t.free)
    ],
    λ c. elim c [
      | inl f ↦ null_free h f
      | inr all ↦ palloc_loop_full (8 * length bitmap) 0 (omega arith) all
    ],
  )

  -- If a frame of an addressable memory is free, giving back the frame that `palloc` takes leaves
  -- every frame as it was.
  pub pfree-palloc :
      (j : ℕ)
      → j < 8 * length bitmap
      → test_frame bitmap (j * page_size) ≡ false
      → (b : ℕ) → test_frame (pfree (palloc bitmap).1 (palloc bitmap).0) b ≡ test_frame bitmap b
  unfolding pfree
  pfree-palloc j h e b =
      let (i, t) = palloc-IsTaken j h e in
      let q : (palloc bitmap).0 / page_size ≡ i = omega (arith, t.address) in
      let c =
        test_frame-clear_frame (palloc bitmap).1 (palloc bitmap).0 b
          (omega (arith, q, t.inside, t.size)) in
      elim (Bool-cases (i == b / page_size)) [
        | inl g ↦
            let same = same_frame bitmap (palloc bitmap).0 b (q ∙ ==→eq i (b / page_size) g) in
            ground (arith, c, q, g, same, t.free)
        | inr g ↦ ground (arith, c, q, g, t.taken b)
      ]
