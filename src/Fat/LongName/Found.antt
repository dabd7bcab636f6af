-- ===== src/Fat/LongName/Found.antt =====
-- A long name that was stored is found again.
use fastsystem.Prelude.{
  ℕ, zero, suc, ◌+◌, ◌-◌, ◌*◌, ◌%◌, ◌^◌, ◌≤◌, ◌<◌, ◌≡◌, ◌∙◌, refl, ap, arith, false, inl, inr, not,
  ◌&&◌, ◌⊎◌, Option, none, some, List, ltb, leb, ◌==◌, if◌then◌else◌, length, get_or, u8, bit_and,
  bit_or, Bool-cases,
}
use fastsystem.Names.Utf.Masks.{same_below, same_below_sound}
use fastsystem.Fat.File.Contents.{range, get_or-range}
use fastsystem.Fat.Write.{paste}
use fastsystem.Fat.Write.Bytes.{get_or-paste, length-paste}
use fastsystem.Fat.LongName.{LfnEntry, lfn_at, load_entry, load_entries}
use fastsystem.Fat.LongName.Parts.{padded, lfn_entry-padded}
use fastsystem.Fat.LongName.Stored.{entry_of}

-- The order of an entry, without and with the mark of the last one.
order_number : (m : ℕ) → m < 32 → bit_and m 0x1F ≡ m
unfolding same_below
order_number m = same_below_sound (λ m. bit_and m 0x1F) (λ m. m) 32 m refl

order_last : (m : ℕ) → m < 32 → bit_and (bit_or m 0x40) 0x1F ≡ m
unfolding same_below
order_last m = same_below_sound (λ m. bit_and (bit_or m 0x40) 0x1F) (λ m. m) 32 m refl

unmarked : (m : ℕ) → m < 32 → bit_and m 0x40 ≡ 0
unfolding same_below
unmarked m = same_below_sound (λ m. bit_and m 0x40) (λ m. 0) 32 m refl

marked : (m : ℕ) → m < 32 → bit_and (bit_or m 0x40) 0x40 ≡ 0x40
unfolding same_below
marked m = same_below_sound (λ m. bit_and (bit_or m 0x40) 0x40) (λ m. 0x40) 32 m refl

-- The order that entry `i` of `n` has.
abbrev order_of : ℕ → ℕ → ℕ
order_of n i = if i == 0 then bit_or (u8 (n - i)) 0x40 else u8 (n - i)

order_lem :
    (n i : ℕ)
    → i < n
    → n < 32
    → (bit_and (order_of n i) 0x1F ≡ n - i) × ((bit_and (order_of n i) 0x40 == 0) ≡ not (i == 0))
order_lem n i h l =
    let z : (n - i) % 2 ^ 8 ≡ n - i = omega (arith, l) in
    let b : n - i < 32 = omega (arith, l) in
    elim (Bool-cases (i == 0)) [
      | inl e ↦ rw (e, z, order_last (n - i) b, marked (n - i) b) (refl, refl)
      | inr e ↦ rw (e, z, order_number (n - i) b, unmarked (n - i) b) (refl, refl)
    ]

paste-range :
    (b : List ℕ) (a : ℕ) (f : ℕ → ℕ) (i n x : ℕ)
    → a + n ≤ length b
    → get_or (paste b a (range f i n) 0 n) x 0
      ≡ (if leb a x && ltb x (a + n) then f (i + (x - a)) else get_or b x 0)
paste-range b a f i n x h =
    let pasted = get_or-paste b a (range f i n) 0 n x h in
    elim (Bool-cases (leb a x && ltb x (a + n))) [
      | inl t ↦
          let here = get_or-range f i n (x - a) (ground (arith, t)) in
          let z : 0 + (x - a) ≡ x - a = omega arith in
          ground (arith, pasted, t, here, ap (λ (k : ℕ). get_or (range f i n) k 0) z)
      | inr t ↦ ground (arith, pasted, t)
    ]

-- The three parts of an entry, one behind the other.
abbrev three_parts : List ℕ → ℕ → (ℕ → ℕ) → List ℕ
three_parts b a f =
    paste (paste (paste b a (range f 0 5) 0 5) (a + 5) (range f 5 6) 0 6) (a + 11) (range f 11 2) 0
      2

length-three_parts : (b : List ℕ) (a : ℕ) (f : ℕ → ℕ) → length (three_parts b a f) ≡ length b
length-three_parts b a f =
    length-paste (paste (paste b a (range f 0 5) 0 5) (a + 5) (range f 5 6) 0 6) (a + 11)
      (range f 11 2) 0 2
    ∙ length-paste (paste b a (range f 0 5) 0 5) (a + 5) (range f 5 6) 0 6
    ∙ length-paste b a (range f 0 5) 0 5

get_or-three_parts :
    (b : List ℕ) (a : ℕ) (f : ℕ → ℕ) (x : ℕ)
    → a + 13 ≤ length b
    → get_or (three_parts b a f) x 0
      ≡ (if leb a x && ltb x (a + 13) then f (x - a) else get_or b x 0)
get_or-three_parts b a f x h =
    let b1 = paste b a (range f 0 5) 0 5 in
    let l1 : length b1 ≡ length b = length-paste b a (range f 0 5) 0 5 in
    let b2 = paste b1 (a + 5) (range f 5 6) 0 6 in
    let l2 : length b2 ≡ length b1 = length-paste b1 (a + 5) (range f 5 6) 0 6 in
    let p1 = paste-range b a f 0 5 x (omega (arith, h)) in
    let p2 = paste-range b1 (a + 5) f 5 6 x (omega (arith, h, l1)) in
    let p3 = paste-range b2 (a + 11) f 11 2 x (omega (arith, h, l1, l2)) in
    let z1 : 0 + (x - a) ≡ x - a = omega arith in
    elim (Bool-cases (leb (a + 11) x)) [
      | inl t ↦
          let z3 : 11 + (x - (a + 11)) ≡ x - a = ground (arith, t) in
          ground (arith, p1, p2, p3, t, ap f z3)
      | inr t ↦ elim (Bool-cases (leb (a + 5) x)) [
        | inl u ↦
            let z2 : 5 + (x - (a + 5)) ≡ x - a = ground (arith, u) in
            ground (arith, p1, p2, p3, t, u, ap f z2)
        | inr u ↦ ground (arith, p1, p2, p3, t, u, ap f z1)
      ]
    ]

module _ (name : List ℕ) (n checksum : ℕ) (few : length name ≤ n * 13)
    (many : n * 13 < length name + 13) (fits : n ≤ 19) where
  -- The 13 characters of entry `i`.
  character :
      (i k : ℕ)
      → i < n
      → k < 13
      → let o = (n - 1 - i) * 13 in
        let remaining = length name - o in
        padded name o
          (if leb (length name) o then 0 else if ltb 13 remaining then 13 else remaining)
          k
        ≡ padded name 0 (length name) (o + k)
  character i k h l = ground (arith, few, many, h, l)

  -- One entry puts its characters in their place.
  load_entry_lem :
      (i : ℕ) (chars : List ℕ) (max_order : ℕ)
      → i < n
      → length chars ≡ 255
      → (chars' : List ℕ) × (load_entry (entry_of name n checksum i) chars max_order
          ≡ some (chars', if not (i == 0) then max_order else n - i))
        × (length chars' ≡ 255)
        × ((k : ℕ)
            → get_or chars' k 0 ≡ (
                if leb ((n - 1 - i) * 13) k && ltb k ((n - i) * 13)
                then padded name 0 (length name) k
                else get_or chars k 0))
  unfolding load_entry
  load_entry_lem i chars max_order h len =
      let o = (n - 1 - i) * 13 in
      let remaining = length name - o in
      let count = if leb (length name) o then 0 else if ltb 13 remaining then 13 else remaining in
      let order = order_of n i in
      let (number, last) = order_lem n i h (omega (arith, fits)) in
      let base = (bit_and order 0x1F - 1) * 13 in
      let at : base ≡ o = omega (arith, number) in
      let chars' = three_parts chars base (padded name o count) in
      let some_order : (bit_and order 0x1F == 0) ≡ false = ground (arith, number, h) in
      let small : ltb 20 (bit_and order 0x1F) ≡ false = ground (arith, number, fits) in
      (
        chars',
        ap (λ (e : LfnEntry). load_entry e chars max_order)
              (lfn_entry-padded name o count order checksum)
            ∙ rw (some_order, small, last) refl
            ∙ ap (λ (m : ℕ). some (chars', if not (i == 0) then max_order else m)) number,
        length-three_parts chars base (padded name o count) ∙ len,
        λ k.
            let got =
              get_or-three_parts chars base (padded name o count) k
                (omega (arith, at, len, h, fits)) in
            elim (Bool-cases (leb o k && ltb k ((n - i) * 13))) [
              | inl t ↦
                  let place : o + (k - base) ≡ k = ground (arith, at, t) in
                  let c = character i (k - base) h (ground (arith, at, t, h)) in
                  ground (arith, at, t, h, got, c, ap (padded name 0 (length name)) place)
              | inr t ↦ ground (arith, at, t, h, got)
            ],
      )

  module _ (raw : List ℕ)
      (stored : (i : ℕ) → i < n → lfn_at raw (i * 32) ≡ entry_of name n checksum i) where
    load_entries-step :
        (left i : ℕ) (chars chars' : List ℕ) (max_order max_order' : ℕ)
        → i < n
        → load_entry (entry_of name n checksum i) chars max_order ≡ some (chars', max_order')
        → load_entries (suc left) i raw chars max_order
          ≡ load_entries left (i + 1) raw chars' max_order'
    unfolding load_entries
    load_entries-step left i chars chars' max_order max_order' h e =
        ap
          (λ (o : Option (List ℕ × ℕ)). elim o [
            | none ↦ none
            | some (c, m) ↦ load_entries left (i + 1) raw c m
          ])
          (ap (λ (entry : LfnEntry). load_entry entry chars max_order) (stored i h) ∙ e)

    -- All entries, from the last characters to the first ones.
    pub load_entries_lem :
        (left i : ℕ) (chars : List ℕ) (max_order : ℕ)
        → i + left ≡ n
        → 0 < n
        → length chars ≡ 255
        → (i ≡ 0) ⊎ (max_order ≡ n)
        → ((k : ℕ)
            → (n - i) * 13 ≤ k
            → k < n * 13
            → get_or chars k 0 ≡ padded name 0 (length name) k)
        → (chars' : List ℕ) × (load_entries left i raw chars max_order ≡ some (chars', n))
          × ((k : ℕ) → k < n * 13 → get_or chars' k 0 ≡ padded name 0 (length name) k)
    unfolding load_entries
    load_entries_lem zero i chars max_order e some_entry len last known =
        let m : max_order ≡ n = ground (arith, e, some_entry, last) in
        (chars, rw m refl, λ k h. known k (omega (arith, e)) h)
    load_entries_lem (suc left) i chars max_order e some_entry len last known =
        let here : i < n = omega (arith, e) in
        let (chars', loaded, len', put) = load_entry_lem i chars max_order here len in
        let max_order' = if not (i == 0) then max_order else n - i in
        let m : max_order' ≡ n = ground (arith, last) in
        let (found, all, same) =
          load_entries_lem left (i + 1) chars' max_order' (omega (arith, e)) some_entry len' (inr m)
            (λ k low high. ground (arith, put k, known k, low, high, here)) in
        (found, load_entries-step left i chars chars' max_order max_order' here loaded ∙ all, same)
