-- ===== src/Fat/Write/Bytes.antt =====
-- What writes do to the bytes of a disk, which are numbered from its start.
use fastsystem.Prelude.{
  ℕ, zero, suc, ◌+◌, ◌-◌, ◌*◌, ◌/◌, ◌%◌, ◌≤◌, ◌<◌, ◌≡◌, ◌∙◌, refl, sym, ap, arith, true, false,
  ◌&&◌, Option, none, some, List, length, get_or, set, length-set, get_or-set_self, get_or-set_ne,
  ltb, leb, ◌==◌, if◌then◌else◌, inl, inr, Bool-cases, ==→eq,
}
use native.Mathlib.Nat.{mod-lt, div-add-mod'}
use fastsystem.Time.{Tm, time, localtime}
use fastsystem.Fat.Volume.{Volume, sectorsize}
use fastsystem.Fat.Entries.{Device, IsSound}
use fastsystem.Fat.Entries.Bytes.{length-put16, length-put32}
use fastsystem.Fat.File.{FatFile}
use fastsystem.Fat.File.Contents.{range, range-ext, range-get_or, sector_byte, sector_byte-read}
use fastsystem.Fat.Write.{paste, stamped, set_current_datetime, updated_entry}

-- Values with `n` of them, from the argument `a` on, replaced by those of a list from `s` on.
abbrev pub over : (ℕ → ℕ) → ℕ → ℕ → List ℕ → ℕ → ℕ → ℕ
over g a n source s x = if leb a x && ltb x (a + n) then get_or source (s + (x - a)) 0 else g x

pub over-over :
    (g : ℕ → ℕ) (a n k : ℕ) (source : List ℕ) (s x : ℕ)
    → over (over g a n source s) (a + n) k source (s + n) x ≡ over g a (n + k) source s x
over-over g a n k source s x =
    let e : leb (a + n) x ≡ true → s + n + (x - (a + n)) ≡ s + (x - a) = λ h. ground (arith, h) in
    elim (Bool-cases (leb (a + n) x)) [
      | inl h ↦ ground (arith, e h, h, ap (λ (i : ℕ). get_or source i 0) (e h))
      | inr h ↦ ground (arith, h)
    ]

-- The same replacement seen from two origins.
pub over-shift :
    (g g' : ℕ → ℕ) (a b n : ℕ) (source : List ℕ) (s x y : ℕ)
    → x + b ≡ y + a
    → g x ≡ g' y
    → over g a n source s x ≡ over g' b n source s y
over-shift g g' a b n source s x y e h =
    let i : leb a x ≡ true → s + (x - a) ≡ s + (y - b) = λ t. ground (arith, e, t) in
    elim (Bool-cases (leb a x)) [
      | inl t ↦ ground (arith, e, h, t, ap (λ (j : ℕ). get_or source j 0) (i t))
      | inr t ↦ ground (arith, e, h, t)
    ]

-- All of a source that was put over the values of a function.
pub range-over :
    (g h : ℕ → ℕ) (p n : ℕ) (source : List ℕ)
    → length source ≡ n
    → ((k : ℕ) → k < n → h (p + k) ≡ over g p n source 0 (p + k))
    → range h p n ≡ source
range-over g h p n source len same =
    range-ext h (λ i. get_or source i 0) p 0 n
      (λ k l.
        let e : 0 + (p + k - p) ≡ 0 + k = omega arith in
        same k l ∙ ground (arith, l, ap (λ (i : ℕ). get_or source i 0) e))
    ∙ ap (range (λ i. get_or source i 0) 0) (sym len)
    ∙ range-get_or source

pub length-paste :
    (b : List ℕ) (o : ℕ) (source : List ℕ) (s n : ℕ) → length (paste b o source s n) ≡ length b
unfolding paste
length-paste b o source s zero = refl
length-paste b o source s (suc n) =
    length-paste (set b o (get_or source s 0)) (o + 1) source (s + 1) n
    ∙ length-set b o (get_or source s 0)

pub get_or-paste :
    (b : List ℕ) (o : ℕ) (source : List ℕ) (s n i : ℕ)
    → o + n ≤ length b
    → get_or (paste b o source s n) i 0 ≡ over (λ j. get_or b j 0) o n source s i
unfolding paste
get_or-paste b o source s zero i h = ground arith
get_or-paste b o source s (suc n) i h =
    let b' = set b o (get_or source s 0) in
    let ih =
      get_or-paste b' (o + 1) source (s + 1) n i
        (omega (arith, h, length-set b o (get_or source s 0))) in
    elim (Bool-cases (i == o)) [
      | inl e ↦
          let q : i ≡ o = ==→eq i o e in
          let here : get_or b' i 0 ≡ get_or source s 0 =
            ap (λ (j : ℕ). get_or b' j 0) q
            ∙ get_or-set_self b o (get_or source s 0) 0 (omega arith) in
          let z : s + (i - o) ≡ s = omega (arith, q) in
          ground (arith, ih, here, q, ap (λ (j : ℕ). get_or source j 0) z)
      | inr e ↦
          let there : get_or b' i 0 ≡ get_or b i 0 =
            get_or-set_ne b o i (get_or source s 0) 0 (λ q. ground (arith, e, q)) in
          elim (Bool-cases (leb (o + 1) i)) [
            | inl l ↦
                let z : s + 1 + (i - (o + 1)) ≡ s + (i - o) = ground (arith, l) in
                ground (arith, ih, there, l, e, ap (λ (j : ℕ). get_or source j 0) z)
            | inr l ↦ ground (arith, ih, there, l, e)
          ]
    ]

length-stamp : (t : Tm) (b : List ℕ) (o : ℕ) → length (stamped t b o) ≡ length b
unfolding stamped
length-stamp t b o = simp (length-set, length-put16)

pub length-set_current_datetime :
    (b : List ℕ) (o : ℕ) → length (set_current_datetime b o) ≡ length b
unfolding set_current_datetime
length-set_current_datetime b o = go (localtime time)
  where
    go : (t : Option Tm) → length (elim t [ none ↦ b | some t' ↦ stamped t' b o ]) ≡ length b
    go none = refl
    go (some t) = length-stamp t b o

pub length-updated_entry :
    (dev : Device) (v : Volume) (f : FatFile) (b : List ℕ)
    → length (updated_entry dev v f b) ≡ length b
unfolding updated_entry
length-updated_entry dev v f b = simp (length-set_current_datetime, length-put16, length-put32)

module _ (dev : Device) (v : Volume) where
  abbrev pub disk_byte : dev.Disk → ℕ → ℕ
  disk_byte d x = sector_byte dev v d (x / sectorsize) (x % sectorsize)

  -- A sector is written whose bytes outside of what is pasted are those of the disk.
  pub disk_byte-write :
      {size : ℕ}
      → (sound : IsSound dev size)
      → (d : dev.Disk) (n : ℕ) (b : List ℕ) (o : ℕ) (source : List ℕ) (s k : ℕ) → n < size
      → length b ≡ sectorsize
      → o + k ≤ sectorsize
      → ((j : ℕ)
          → j < sectorsize
          → (leb o j && ltb j (o + k)) ≡ false
          → get_or b j 0 ≡ sector_byte dev v d n j)
      → (x : ℕ)
      → disk_byte (dev.write d n (paste b o source s k)).1 x
        ≡ over (disk_byte d) (n * sectorsize + o) k source s x
  unfolding sector_byte
  disk_byte-write sound d n b o source s k small len h same x =
      let b' = paste b o source s k in
      let len' : length b' ≡ sectorsize = length-paste b o source s k ∙ len in
      let after = sound.read-write d n (x / sectorsize) b' small len' in
      let got = get_or-paste b o source s k (x % sectorsize) (omega (arith, h, len)) in
      let split = div-add-mod' x sectorsize in
      let below : x % sectorsize < sectorsize = mod-lt x (omega arith) in
      elim (Bool-cases (x / sectorsize == n)) [
        | inl e ↦
            let q : x / sectorsize ≡ n = ==→eq (x / sectorsize) n e in
            let now : dev.read (dev.write d n b').1 (x / sectorsize) ≡ some b' =
              ground (arith, after, e) in
            let old = same (x % sectorsize) below in
            let place : s + (x % sectorsize - o) ≡ s + (x - (n * sectorsize + o)) =
              omega (arith, split, q) in
            let same_sector : sector_byte dev v d n (x % sectorsize) ≡ disk_byte d x =
              ap (λ (i : ℕ). sector_byte dev v d i (x % sectorsize)) (sym q) in
            sector_byte-read dev v (dev.write d n b').1 (x / sectorsize) (x % sectorsize) b' now
            ∙ got
            ∙ elim (Bool-cases (leb o (x % sectorsize) && ltb (x % sectorsize) (o + k))) [
              | inl t ↦ ground (arith, split, q, t, ap (λ (i : ℕ). get_or source i 0) place)
              | inr t ↦ ground (arith, split, q, t, old t, same_sector)
            ]
        | inr e ↦
            let now : dev.read (dev.write d n b').1 (x / sectorsize) ≡ dev.read d (x / sectorsize) =
              ground (arith, after, e) in
            let kept : disk_byte (dev.write d n b').1 x ≡ disk_byte d x =
              ap
                (λ (r : Option (List ℕ)). elim r [
                  | none ↦ 0
                  | some c ↦ get_or c (x % sectorsize) 0
                ])
                now in
            kept ∙ ground (arith, split, below, e, h)
      ]
