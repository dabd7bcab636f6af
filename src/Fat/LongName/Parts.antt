-- ===== src/Fat/LongName/Parts.antt =====
-- One entry of a long name: the characters in it, its bytes, and the entry found in them.
use fastsystem.Prelude.{
  ℕ, zero, suc, ◌+◌, ◌-◌, ◌*◌, ◌/◌, ◌%◌, ◌^◌, ◌≤◌, ◌<◌, ◌≡◌, ◌∙◌, refl, sym, ap, arith, true, false,
  inl, inr, List, [], ◌∷◌, ◌++◌, ltb, ◌==◌, if◌then◌else◌, length, get_or, set, Bool-cases, ==→eq,
}
use fastsystem.Fat.Entries.{le16}
use fastsystem.Fat.File.Contents.{range}
use fastsystem.Fat.LongName.{
  LfnEntry, unit_bytes, units_at, lfn_bytes, lfn_at, name_part, lfn_entry,
}

-- The characters of a name of `n` units at an index, the 0 behind them and the filling.
abbrev pub padded : List ℕ → ℕ → ℕ → ℕ → ℕ
padded name s n k = if ltb k n then get_or name (s + k) 0 else if k == n then 0 else 0xFFFF

LfnEntry-ext :
    (e f : LfnEntry)
    → e.order ≡ f.order
    → e.name1 ≡ f.name1
    → e.attribute ≡ f.attribute
    → e.kind ≡ f.kind
    → e.checksum ≡ f.checksum
    → e.name2 ≡ f.name2
    → e.first_cluster ≡ f.first_cluster
    → e.name3 ≡ f.name3
    → e ≡ f
LfnEntry-ext e f a b c d g h j k = λ i. record {
  order = a i;
  name1 = b i;
  attribute = c i;
  kind = d i;
  checksum = g i;
  name2 = h i;
  first_cluster = j i;
  name3 = k i;
}

module _ (name : List ℕ) (s n : ℕ) where
  -- A part that the name ends before, or not before the part does.
  name_part-whole :
      (count i : ℕ)
      → ((k : ℕ) → k < count → (i + k == n) ≡ false)
      → name_part count i name s n ≡ range (padded name s n) i count
  unfolding name_part
  name_part-whole zero i h = refl
  name_part-whole (suc count) i h =
      let here : (i == n) ≡ false = ground (arith, h 0 (omega arith)) in
      let rest =
        name_part-whole count (i + 1) (λ k l. ground (arith, h (suc k) (omega (arith, l)))) in
      rw (here, rest) refl

  -- A part in which the name ends.
  name_part-ended :
      (count i : ℕ)
      → i ≤ n
      → n < i + count
      → set (name_part count i name s n) (n - i) 0 ≡ range (padded name s n) i count
  unfolding name_part
  name_part-ended zero i h l = absurd (omega (arith, h, l))
  name_part-ended (suc count) i h l = elim (Bool-cases (i == n)) [
    | inl e ↦
        let z : n - i ≡ 0 = omega (arith, ==→eq i n e) in
        let low : ltb i n ≡ false = ground (arith, e) in
        let rest = name_part-whole count (i + 1) (λ k lt. ground (arith, e)) in
        rw (z, e, low, rest) refl
    | inr e ↦
        let z : n - i ≡ suc (n - (i + 1)) = ground (arith, e, h) in
        let low : ltb i n ≡ true = ground (arith, e, h) in
        let rest = name_part-ended count (i + 1) (ground (arith, e, h)) (omega (arith, l)) in
        rw (z, low, rest) refl
  ]

  part_first :
      (if ltb n 5 then set (name_part 5 0 name s n) n 0 else name_part 5 0 name s n)
      ≡ range (padded name s n) 0 5
  part_first = elim (Bool-cases (ltb n 5)) [
    | inl t ↦ rw t (
        ap (λ (k : ℕ). set (name_part 5 0 name s n) k 0) (omega arith)
        ∙ name_part-ended 5 0 (omega arith) (ground (arith, t)))
    | inr t ↦ rw t (name_part-whole 5 0 (λ k l. ground (arith, t, l)))
  ]

  part_later :
      (a count : ℕ)
      → (if ltb n a
          then name_part count a name s n
          else if ltb n (a + count)
          then set (name_part count a name s n) (n - a) 0
          else name_part count a name s n)
        ≡ range (padded name s n) a count
  part_later a count = elim (Bool-cases (ltb n a)) [
    | inl t ↦ rw t (name_part-whole count a (λ k l. ground (arith, t)))
    | inr t ↦ elim (Bool-cases (ltb n (a + count))) [
      | inl u ↦ rw (t, u) (name_part-ended count a (ground (arith, t)) (ground (arith, u)))
      | inr u ↦ rw (t, u) (name_part-whole count a (λ k l. ground (arith, u, l)))
    ]
  ]

  -- The entry holds 13 characters.
  pub lfn_entry-padded :
      (order checksum : ℕ)
      → lfn_entry order name s n checksum ≡ record {
        order = order;
        name1 = range (padded name s n) 0 5;
        attribute = 0x0F;
        kind = 0;
        checksum = checksum;
        name2 = range (padded name s n) 5 6;
        first_cluster = 0;
        name3 = range (padded name s n) 11 2;
      }
  unfolding lfn_entry
  lfn_entry-padded order checksum =
      LfnEntry-ext (lfn_entry order name s n checksum)
        record {
          order = order;
          name1 = range (padded name s n) 0 5;
          attribute = 0x0F;
          kind = 0;
          checksum = checksum;
          name2 = range (padded name s n) 5 6;
          first_cluster = 0;
          name3 = range (padded name s n) 11 2;
        }
        refl part_first refl refl refl (part_later 5 6) refl (part_later 11 2)

length-unit_bytes : (us : List ℕ) → length (unit_bytes us) ≡ 2 * length us
unfolding unit_bytes
length-unit_bytes [] = refl
length-unit_bytes (u ∷ us) = omega (arith, length-unit_bytes us)

pub get_or-append_left :
    (xs ys : List ℕ) (k : ℕ) → k < length xs → get_or (xs ++ ys) k 0 ≡ get_or xs k 0
get_or-append_left [] ys k h = absurd (omega (arith, h))
get_or-append_left (x ∷ xs) ys zero h = refl
get_or-append_left (x ∷ xs) ys (suc k) h = get_or-append_left xs ys k (omega (arith, h))

pub get_or-append_right :
    (xs ys : List ℕ) (n k : ℕ) → length xs ≡ n → get_or (xs ++ ys) (n + k) 0 ≡ get_or ys k 0
get_or-append_right [] ys n k h = ap (λ (i : ℕ). get_or ys i 0) (omega (arith, h))
get_or-append_right (x ∷ xs) ys zero k h = absurd (omega (arith, h))
get_or-append_right (x ∷ xs) ys (suc n) k h =
    let e : suc n + k ≡ suc (n + k) = omega arith in
    ap (λ (i : ℕ). get_or (x ∷ (xs ++ ys)) i 0) e ∙ get_or-append_right xs ys n k (omega (arith, h))

-- Units that stand in a buffer as bytes are found in it.
pub units_at-unit_bytes :
    (us b : List ℕ) (o n : ℕ)
    → length us ≡ n
    → ((k : ℕ) → get_or us k 0 < 2 ^ 16)
    → ((k : ℕ) → k < 2 * n → get_or b (o + k) 0 ≡ get_or (unit_bytes us) k 0)
    → units_at b o n ≡ us
unfolding units_at unit_bytes le16
units_at-unit_bytes [] b o zero len small h = refl
units_at-unit_bytes [] b o (suc n) len small h = absurd (omega (arith, len))
units_at-unit_bytes (u ∷ us) b o zero len small h = absurd (omega (arith, len))
units_at-unit_bytes (u ∷ us) b o (suc n) len small h =
    let z : o + 0 ≡ o = omega arith in
    let low : get_or b o 0 ≡ u % 2 ^ 8 = ap (λ (i : ℕ). get_or b i 0) (sym z) ∙ h 0 (omega arith) in
    let high : get_or b (o + 1) 0 ≡ u / 2 ^ 8 % 2 ^ 8 = h 1 (omega arith) in
    let whole : u % 2 ^ 8 + u / 2 ^ 8 % 2 ^ 8 * 2 ^ 8 ≡ u = omega (arith, small 0) in
    let rest =
      units_at-unit_bytes us b (o + 2) n (omega (arith, len)) (λ k. small (suc k))
        (λ k l. ap (λ (i : ℕ). get_or b i 0) (omega arith) ∙ h (suc (suc k)) (omega (arith, l))) in
    rw (low, high, whole, rest) refl

-- Entries with parts of 5, 6 and 2 units.
pub record IsLfnEntry (e : LfnEntry) : Type 0 where
  pub five : length e.name1 ≡ 5
  pub six : length e.name2 ≡ 6
  pub two : length e.name3 ≡ 2
  pub small1 : (k : ℕ) → get_or e.name1 k 0 < 2 ^ 16
  pub small2 : (k : ℕ) → get_or e.name2 k 0 < 2 ^ 16
  pub small3 : (k : ℕ) → get_or e.name3 k 0 < 2 ^ 16
  pub small_cluster : e.first_cluster < 2 ^ 16

-- An entry whose bytes stand in a buffer is found there.
pub lfn_at-lfn_bytes :
    (e : LfnEntry) (b : List ℕ) (o : ℕ)
    → IsLfnEntry e
    → ((k : ℕ) → k < 32 → get_or b (o + k) 0 ≡ get_or (lfn_bytes e) k 0)
    → lfn_at b o ≡ e
unfolding lfn_at lfn_bytes le16 unit_bytes
lfn_at-lfn_bytes e b o w h =
    let c = unit_bytes (e.first_cluster ∷ []) in
    let n1 = unit_bytes e.name1 in
    let n2 = unit_bytes e.name2 in
    let n3 = unit_bytes e.name3 in
    let t3 : List ℕ = c ++ n3 in
    let t2 : List ℕ = n2 ++ t3 in
    let t1 : List ℕ = e.attribute ∷ e.kind ∷ e.checksum ∷ t2 in
    let l1 : length n1 ≡ 10 = omega (arith, length-unit_bytes e.name1, w.five) in
    let l2 : length n2 ≡ 12 = omega (arith, length-unit_bytes e.name2, w.six) in
    let l3 : length n3 ≡ 4 = omega (arith, length-unit_bytes e.name3, w.two) in
    let first : (k : ℕ) → k < 10 → get_or b (o + 1 + k) 0 ≡ get_or n1 k 0 = λ k l.
      ap (λ (i : ℕ). get_or b i 0) (omega arith)
      ∙ h (suc k) (omega (arith, l))
      ∙ get_or-append_left n1 t1 k (omega (arith, l, l1)) in
    let behind : (k : ℕ) → k < 21 → get_or b (o + 11 + k) 0 ≡ get_or t1 k 0 = λ k l.
      ap (λ (i : ℕ). get_or b i 0) (omega arith)
      ∙ h (suc (10 + k)) (omega (arith, l))
      ∙ get_or-append_right n1 t1 10 k l1 in
    let at : (k : ℕ) → k < 21 → (i : ℕ) → i ≡ o + 11 + k → get_or b i 0 ≡ get_or t1 k 0 =
      λ k l i e. ap (λ (i : ℕ). get_or b i 0) e ∙ behind k l in
    let second : (k : ℕ) → k < 18 → get_or b (o + 14 + k) 0 ≡ get_or t2 k 0 =
      λ k l. at (suc (suc (suc k))) (omega (arith, l)) (o + 14 + k) (omega arith) in
    let third : (k : ℕ) → k < 6 → get_or b (o + 26 + k) 0 ≡ get_or t3 k 0 = λ k l.
      ap (λ (i : ℕ). get_or b i 0) (omega arith)
      ∙ second (12 + k) (omega (arith, l))
      ∙ get_or-append_right n2 t3 12 k l2 in
    let low : get_or b (o + 26) 0 ≡ e.first_cluster % 2 ^ 8 =
      ap (λ (i : ℕ). get_or b i 0) (omega arith) ∙ third 0 (omega arith) in
    let high : get_or b (o + 26 + 1) 0 ≡ e.first_cluster / 2 ^ 8 % 2 ^ 8 = third 1 (omega arith) in
    LfnEntry-ext (lfn_at b o) e (ap (λ (i : ℕ). get_or b i 0) (omega arith) ∙ h 0 (omega arith))
      (units_at-unit_bytes e.name1 b (o + 1) 5 w.five w.small1 first)
      (at 0 (omega arith) (o + 11) (omega arith)) (at 1 (omega arith) (o + 12) (omega arith))
      (at 2 (omega arith) (o + 13) (omega arith))
      (units_at-unit_bytes e.name2 b (o + 14) 6 w.six w.small2
        (λ k l. second k (omega (arith, l)) ∙ get_or-append_left n2 t3 k (omega (arith, l, l2))))
      (omega (arith, low, high, w.small_cluster))
      (units_at-unit_bytes e.name3 b (o + 28) 2 w.two w.small3 (λ k l.
        ap (λ (i : ℕ). get_or b i 0) (omega arith) ∙ third (suc (suc k)) (omega (arith, l))))
