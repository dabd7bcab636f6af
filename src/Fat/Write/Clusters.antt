-- ===== src/Fat/Write/Clusters.antt =====
-- Clusters do not overlap: what a write to one of them does to the others, to chains and to the
-- table.
use fastsystem.Prelude.{
  ℕ, zero, suc, ◌+◌, ◌-◌, ◌*◌, ◌/◌, ◌%◌, ◌≤◌, ◌<◌, ◌≡◌, ◌≢◌, ◌⊎◌, ◌∙◌, refl, sym, ap, arith, List,
  [], ◌∷◌, length, get_or, has, has-get_or, Distinct, ltb, inl, inr, Bool-cases,
}
use native.Mathlib.Nat.{mul-le-mul_right, add-mul-div_right, add-mul-mod_self_right}
use fastsystem.Fat.Volume.{Volume, sectorsize, clustertosector, getfatsector, fat_max_cluster}
use fastsystem.Fat.Volume.Mounted.{IsMounted}
use fastsystem.Fat.Volume.Layout.{clustertosector_bounds, getfatsector_bounds, one_table}
use fastsystem.Fat.Entries.{Device, readcluster}
use fastsystem.Fat.Entries.Implements.{fat_table}
use fastsystem.Fat.Table.{IsReliable}
use fastsystem.Fat.Chain.Links.{Links-frame, Links-has-IsData}
use fastsystem.Fat.File.{FatFile}
use fastsystem.Fat.File.Contents.{sector_byte, cluster_byte, IsOpen}
use fastsystem.Fat.Write.Bytes.{over, disk_byte}
use fastsystem.Fat.Write.Loops.{Wrote, tables_end}

-- Different places of a list without repetition hold different numbers.
pub Distinct-get_or :
    (xs : List ℕ) (i j : ℕ)
    → Distinct xs
    → i < length xs
    → j < length xs
    → get_or xs i 0 ≡ get_or xs j 0
    → i ≡ j
Distinct-get_or [] i j h k l e = absurd (omega arith)
Distinct-get_or (x ∷ xs) zero zero h k l e = refl
Distinct-get_or (x ∷ xs) zero (suc j) h k l e =
    absurd (ground (arith, h.0, has-get_or xs j (omega arith), ap (λ (a : ℕ). has a xs) e))
Distinct-get_or (x ∷ xs) (suc i) zero h k l e =
    absurd (ground (arith, h.0, has-get_or xs i (omega arith), ap (λ (a : ℕ). has a xs) e))
Distinct-get_or (x ∷ xs) (suc i) (suc j) h k l e =
    ap suc (Distinct-get_or xs i j h.1 (omega arith) (omega arith) e)

-- An entry depends on its own sector only.
pub readcluster-same_sector :
    (dev : Device) (v : Volume) (d d' : dev.Disk) (c : ℕ)
    → dev.read d' (getfatsector v c) ≡ dev.read d (getfatsector v c)
    → readcluster dev v d' c ≡ readcluster dev v d c
unfolding readcluster
readcluster-same_sector dev v d d' c e = rw e refl

module _ (dev : Device) {v : Volume} (m : IsMounted v) where
  cluster_byte-disk_byte :
      (d : dev.Disk) (c i : ℕ)
      → cluster_byte dev v d c i ≡ disk_byte dev v d (clustertosector v c * sectorsize + i)
  unfolding cluster_byte
  cluster_byte-disk_byte d c i =
      let b = clustertosector v c in
      let e : b * sectorsize + i ≡ i + b * sectorsize = omega arith in
      let q : (b * sectorsize + i) / sectorsize ≡ b + i / sectorsize =
        ap (λ (x : ℕ). x / sectorsize) e ∙ add-mul-div_right i b (omega arith) ∙ omega arith in
      let r : (b * sectorsize + i) % sectorsize ≡ i % sectorsize =
        ap (λ (x : ℕ). x % sectorsize) e ∙ add-mul-mod_self_right i b sectorsize in
      ap (λ (x : ℕ). sector_byte dev v d x (i % sectorsize)) (sym q)
      ∙ ap (sector_byte dev v d ((b * sectorsize + i) / sectorsize)) (sym r)

  apart :
      (c e : ℕ)
      → 2 ≤ c
      → c < e
      → e ≤ fat_max_cluster v
      → clustertosector v c + v.sector_per_cluster ≤ clustertosector v e
  apart c e lo h hi =
      let a = clustertosector_bounds m c lo (omega arith) in
      let b = clustertosector_bounds m e (omega arith) hi in
      let w : (c - 2 + 1) * v.sector_per_cluster ≤ (e - 2) * v.sector_per_cluster =
        mul-le-mul_right v.sector_per_cluster (omega arith) in
      omega (arith, a.0, b.0, w)

  module _ {d d' : dev.Disk} (c off k : ℕ) (source : List ℕ) (s : ℕ)
      (w : Wrote dev v d d' (clustertosector v c * sectorsize + off) k source s) (lo : 2 ≤ c)
      (hi : c ≤ fat_max_cluster v) (inside : off + k ≤ sectorsize * v.sector_per_cluster) where
    pub cluster_byte-same :
        (i : ℕ) → cluster_byte dev v d' c i ≡ over (cluster_byte dev v d c) off k source s i
    cluster_byte-same i =
        let b = clustertosector v c * sectorsize in
        let e : b + i - (b + off) ≡ i - off = omega arith in
        cluster_byte-disk_byte d' c i
        ∙ w.bytes (b + i)
        ∙ ground (arith, cluster_byte-disk_byte d c i, ap (λ (j : ℕ). get_or source (s + j) 0) e)

    pub cluster_byte-other :
        (e i : ℕ)
        → 2 ≤ e
        → e ≤ fat_max_cluster v
        → e ≢ c
        → i < sectorsize * v.sector_per_cluster
        → cluster_byte dev v d' e i ≡ cluster_byte dev v d e i
    cluster_byte-other e i lo' hi' ne small =
        let outside : (clustertosector v e + v.sector_per_cluster ≤ clustertosector v c)
            ⊎ (clustertosector v c + v.sector_per_cluster ≤ clustertosector v e) =
          elim (Bool-cases (ltb e c)) [
            | inl t ↦ inl (apart e c lo' (ground (arith, t)) hi)
            | inr t ↦ inr (apart c e lo (ground (arith, t, ne)) hi')
          ] in
        cluster_byte-disk_byte d' e i
        ∙ w.bytes (clustertosector v e * sectorsize + i)
        ∙ ground (arith, cluster_byte-disk_byte d e i, outside, small, inside)

  -- A chain stays what it is while the tables do.
  pub IsOpen-tables :
      (ok : IsReliable (fat_table dev v)) (d d' : dev.Disk) (f : FatFile) (rest : List ℕ)
      → ((i : ℕ) → i < tables_end v → dev.read d' i ≡ dev.read d i)
      → IsOpen dev v d f rest
      → IsOpen dev v d' f rest
  IsOpen-tables ok d d' f rest same o = record {
    valid = o.valid;
    links =
        Links-frame (fat_table dev v) (readcluster dev v d) (readcluster dev v d') f.first_cluster
          rest
          (λ a i.
            let h = Links-has-IsData ok (readcluster dev v d) f.first_cluster a rest o.links i in
            let b = getfatsector_bounds m a h.1 in
            readcluster-same_sector dev v d d' a
              (same (getfatsector v a) (omega (arith, b, one_table m))))
          o.links;
    fits = o.fits;
  }
