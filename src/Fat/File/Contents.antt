-- ===== src/Fat/File/Contents.antt =====
-- The bytes of a file, one by one: what reading is measured against.
use fastsystem.Prelude.{
  ℕ, zero, suc, ◌+◌, ◌*◌, ◌/◌, ◌%◌, ◌≤◌, ◌<◌, ◌≡◌, ◌∙◌, refl, ap, arith, true, Option, none, some,
  List, [], ◌∷◌, ◌++◌, length, get_or,
}
use native.Mathlib.Nat.{
  add-mul-div_right, add-mul-mod_self_right, mod-eq_of_lt, div-eq_of_lt, div-add-mod',
}
use fastsystem.Fat.Volume.{Volume, sectorsize, clustertosector}
use fastsystem.Fat.Entries.{Device}
use fastsystem.Fat.Entries.Implements.{fat_table}
use fastsystem.Fat.Chain.Links.{Links}
use fastsystem.Fat.File.{FatFile, slice, fat_file_valid, fat_file_cluster_size}

-- The values of a function from an argument on.
abbrev pub range : (ℕ → ℕ) → ℕ → ℕ → List ℕ
range f i zero = []
range f i (suc n) = f i ∷ range f (i + 1) n

pub length-range : (f : ℕ → ℕ) (i n : ℕ) → length (range f i n) ≡ n
length-range f i zero = refl
length-range f i (suc n) = ap suc (length-range f (i + 1) n)

pub range-append : (f : ℕ → ℕ) (i a b : ℕ) → range f i a ++ range f (i + a) b ≡ range f i (a + b)
range-append f i zero b =
    let e : i + 0 ≡ i = omega arith in let z : 0 + b ≡ b = omega arith in rw (e, z) refl
range-append f i (suc a) b =
    let e : i + suc a ≡ i + 1 + a = omega arith in
    let z : suc a + b ≡ suc (a + b) = omega arith in
    rw (e, z) (ap (λ (xs : List ℕ). f i ∷ xs) (range-append f (i + 1) a b))

pub range-ext :
    (f g : ℕ → ℕ) (i j n : ℕ)
    → ((k : ℕ) → k < n → f (i + k) ≡ g (j + k))
    → range f i n ≡ range g j n
range-ext f g i j zero h = refl
range-ext f g i j (suc n) h =
    let e : f i ≡ g j = ap f (omega arith) ∙ h 0 (omega arith) ∙ ap g (omega arith) in
    let t =
      range-ext f g (i + 1) (j + 1) n
        λ k l. ap f (omega arith) ∙ h (suc k) (omega (arith, l)) ∙ ap g (omega arith) in
    rw (e, t) refl

pub range-get_or : (xs : List ℕ) → range (λ i. get_or xs i 0) 0 (length xs) ≡ xs
range-get_or [] = refl
range-get_or (x ∷ xs) =
    let e : range (λ i. get_or (x ∷ xs) i 0) 1 (length xs)
        ≡ range (λ i. get_or xs i 0) 0 (length xs) =
      range-ext (λ i. get_or (x ∷ xs) i 0) (λ i. get_or xs i 0) 1 0 (length xs)
        (λ k h.
          let a : 1 + k ≡ suc k = omega arith in
          let b : 0 + k ≡ k = omega arith in rw (a, b) refl) in
    ap (λ (ys : List ℕ). x ∷ ys) (e ∙ range-get_or xs)

pub get_or-range : (f : ℕ → ℕ) (i n j : ℕ) → j < n → get_or (range f i n) j 0 ≡ f (i + j)
get_or-range f i zero j h = absurd (omega (arith, h))
get_or-range f i (suc n) zero h = ap f (omega arith)
get_or-range f i (suc n) (suc j) h =
    get_or-range f (i + 1) n j (omega (arith, h)) ∙ ap f (omega arith)

pub slice-range : (b : List ℕ) (o n : ℕ) → slice b o n ≡ range (λ i. get_or b i 0) o n
unfolding slice
slice-range b o zero = refl
slice-range b o (suc n) = ap (λ (xs : List ℕ). get_or b o 0 ∷ xs) (slice-range b (o + 1) n)

-- The quotient and the remainder of a number whose remainder is known.
pub div-mod_shift : (p k n : ℕ) → p % n + k < n → ((p + k) / n ≡ p / n) × ((p + k) % n ≡ p % n + k)
div-mod_shift p k n h =
    let e : p + k ≡ p % n + k + p / n * n = omega (arith, div-add-mod' p n) in
    (
      rw e (
          add-mul-div_right (p % n + k) (p / n) (omega (arith, h))
          ∙ rw (div-eq_of_lt h) (omega arith)),
      rw e (add-mul-mod_self_right (p % n + k) (p / n) n ∙ mod-eq_of_lt h),
    )

module _ (dev : Device) (v : Volume) (d : dev.Disk) where
  unfoldable pub sector_byte : ℕ → ℕ → ℕ
  sector_byte n i = elim (dev.read d n) [ none ↦ 0 | some b ↦ get_or b i 0 ]

  -- The byte of a cluster at an offset in it.
  unfoldable pub cluster_byte : ℕ → ℕ → ℕ
  cluster_byte c i = sector_byte (clustertosector v c + i / sectorsize) (i % sectorsize)

  -- The byte of a chain of clusters at a position in it.
  unfoldable pub chain_byte : List ℕ → ℕ → ℕ
  chain_byte chain i =
      cluster_byte (get_or chain (i / fat_file_cluster_size v) 0) (i % fat_file_cluster_size v)

  pub sector_byte-read :
      (n i : ℕ) (b : List ℕ) → dev.read d n ≡ some b → sector_byte n i ≡ get_or b i 0
  unfolding sector_byte
  sector_byte-read n i b e =
      ap (λ (o : Option (List ℕ)). elim o [ none ↦ 0 | some b' ↦ get_or b' i 0 ]) e

  -- The bytes of a cluster that lie in one sector.
  pub cluster_byte-shift :
      (c offset k : ℕ)
      → offset % sectorsize + k < sectorsize
      → cluster_byte c (offset + k)
        ≡ sector_byte (clustertosector v c + offset / sectorsize) (offset % sectorsize + k)
  unfolding cluster_byte
  cluster_byte-shift c offset k h =
      let (q, r) = div-mod_shift offset k sectorsize h in
      ap (λ (n : ℕ). sector_byte (clustertosector v c + n) ((offset + k) % sectorsize)) q
      ∙ ap (sector_byte (clustertosector v c + offset / sectorsize)) r

  -- The bytes of a chain that lie in one cluster.
  pub chain_byte-shift :
      (chain : List ℕ) (p k : ℕ)
      → p % fat_file_cluster_size v + k < fat_file_cluster_size v
      → chain_byte chain (p + k)
        ≡ cluster_byte
            (get_or chain (p / fat_file_cluster_size v) 0)
            (p % fat_file_cluster_size v + k)
  unfolding chain_byte
  chain_byte-shift chain p k h =
      let (q, r) = div-mod_shift p k (fat_file_cluster_size v) h in
      ap (λ (n : ℕ). cluster_byte (get_or chain n 0) ((p + k) % fat_file_cluster_size v)) q
      ∙ ap (cluster_byte (get_or chain (p / fat_file_cluster_size v) 0)) r

-- A file that is open, with a chain of clusters that has room for its size.
pub record IsOpen (dev : Device) (v : Volume) (d : dev.Disk) (f : FatFile) (rest : List ℕ)
    : Type 0 where
  pub valid : fat_file_valid v f ≡ true
  pub links : Links (fat_table dev v) ((fat_table dev v).read d) f.first_cluster rest
  pub fits : f.size ≤ (length rest + 1) * fat_file_cluster_size v
