-- ===== src/Fat/Volume/Layout.antt =====
-- Where the parts of a mounted volume lie: tables, root directory and clusters.
use fastsystem.Prelude.{
  ℕ, ◌+◌, ◌-◌, ◌*◌, ◌/◌, ◌%◌, ◌^◌, ◌≤◌, ◌<◌, ◌≡◌, refl, ap, ◌∙◌, inl, inr, true, false, arith, ◌==◌,
  u32, Bool-cases,
}
use native.Mathlib.Nat.{mul-le-mul_right, mul-add-div_right, div-eq_of_lt}
use fastsystem.Fat.Volume.{
  Volume, sectorsize, isfat16type, getfatsize, getrootdirsectorscount, getfirstdatasector,
  getdatasectorcount, getclustercount, getfatentrysize, fat_max_cluster, clustertosector,
  getclusterfromsector, getsectornumber, getentryoffset, getfatsector, getfatentryoffset,
}
use fastsystem.Fat.Volume.Mounted.{
  IsMounted, fat16, fat32, mounted-active, mounted-type, mounted-sizes, kind, fat_max_cluster-eq,
}

-- The first sector of the first table.
abbrev pub tables_start : Volume → ℕ
tables_start v = v.lba_start + v.reserved_sectors_count

module _ {v : Volume} (m : IsMounted v) where
  pub one_table : getfatsize v ≤ v.number_fats * getfatsize v
  one_table = let p = (mounted-sizes m).2 in grind arith

  -- `getfatsector` and `getfatentryoffset` without their tests.
  pub data Entry (c : ℕ) : Type 0 where
    short :
        isfat16type v ≡ true
        → getfatentrysize v ≡ 2
        → (c < 0xFFF8) × (c / 256 < getfatsize v)
        → getfatsector v c ≡ tables_start v + c / 256
        → getfatentryoffset v c ≡ c % 256 * 2
        → Entry c
    long :
        isfat16type v ≡ false
        → getfatentrysize v ≡ 4
        → (c < 0x0FFFFFF8) × (c / 128 < getfatsize v)
        → getfatsector v c ≡ tables_start v + c / 128
        → getfatentryoffset v c ≡ c % 128 * 4
        → Entry c

  pub entry : (c : ℕ) → c ≤ fat_max_cluster v → Entry c
  unfolding getfatsector getfatentryoffset
  entry c h = elim (kind m) [
    | fat16 a b e d ↦
        let q : v.bytes_per_sector / getfatentrysize v ≡ 256 = rw (e, (mounted-sizes m).0) refl in
        let t : (getclustercount v + 2) * 2 ≤ getfatsize v * 512 = rw e at m.table_fits in
        short a e (omega (arith, t, d, m.below_eoc, fat_max_cluster-eq m))
          (ground (
            arith,
            q,
            e,
            t,
            one_table,
            m.no_wrap,
            fat_max_cluster-eq m,
            mounted-active m,
            mounted-type m,
          ))
          (ground (arith, q, e, mounted-active m, mounted-type m))
    | fat32 a b e d ↦
        let q : v.bytes_per_sector / getfatentrysize v ≡ 128 = rw (e, (mounted-sizes m).0) refl in
        let t : (getclustercount v + 2) * 4 ≤ getfatsize v * 512 = rw e at m.table_fits in
        long a e (omega (arith, t, d, m.below_eoc, fat_max_cluster-eq m))
          (ground (
            arith,
            q,
            e,
            t,
            one_table,
            m.no_wrap,
            fat_max_cluster-eq m,
            mounted-active m,
            mounted-type m,
          ))
          (ground (arith, q, e, mounted-active m, mounted-type m))
  ]

  pub entry-short :
      (c : ℕ)
      → c ≤ fat_max_cluster v
      → isfat16type v ≡ true
      → (getfatsector v c ≡ tables_start v + c / 256) × (getfatentryoffset v c ≡ c % 256 * 2)
  entry-short c h a = elim (entry c h) [ short _ _ _ p q ↦ (p, q) | long a' _ _ _ _ ↦ cc ]

  pub entry-long :
      (c : ℕ)
      → c ≤ fat_max_cluster v
      → isfat16type v ≡ false
      → (getfatsector v c ≡ tables_start v + c / 128) × (getfatentryoffset v c ≡ c % 128 * 4)
  entry-long c h a = elim (entry c h) [ short a' _ _ _ _ ↦ cc | long _ _ _ p q ↦ (p, q) ]

  getfirstdatasector-eq :
      getfirstdatasector v
      ≡ tables_start v + v.number_fats * getfatsize v + getrootdirsectorscount v
  unfolding getfirstdatasector
  getfirstdatasector-eq = elim (kind m) [
    | fat16 a b c d ↦ ground (arith, a, m.no_wrap, mounted-active m, mounted-type m)
    | fat32 a b c d ↦
        let z : getrootdirsectorscount v ≡ 0 = unfold getrootdirsectorscount in ground (arith, a) in
        ground (arith, a, z, m.no_wrap, mounted-active m, mounted-type m)
  ]

  cluster_sectors : getclustercount v * v.sector_per_cluster ≤ getdatasectorcount v
  unfolding getclustercount
  cluster_sectors = elim (Bool-cases (v.sector_per_cluster == 0)) [
    | inl e ↦ ground (arith, mounted-sizes m)
    | inr e ↦ rw (mounted-active m, mounted-type m, e) (grind arith)
  ]

  -- On a mounted volume, the entry of every cluster up to the last one lies in a sector of the
  -- first table and inside that sector.
  pub getfatsector_bounds :
      (c : ℕ)
      → c ≤ fat_max_cluster v
      → (tables_start v ≤ getfatsector v c)
        × (getfatsector v c < tables_start v + getfatsize v)
        × (getfatentryoffset v c + getfatentrysize v ≤ sectorsize)
  getfatsector_bounds c h = elim (entry c h) [
    | short a e l p q ↦ ground (arith, e, l, p, q)
    | long a e l p q ↦ ground (arith, e, l, p, q)
  ]

  -- `getnextcluster` and `readcluster` address the same bytes.
  pub getfatsector-eq-getsectornumber :
      (c : ℕ)
      → c ≤ fat_max_cluster v
      → (u32 (v.lba_start + getsectornumber v c) ≡ getfatsector v c)
        × (getentryoffset v c ≡ getfatentryoffset v c)
  unfolding getsectornumber getentryoffset
  getfatsector-eq-getsectornumber c h =
      let w = one_table in
      elim (entry c h) [
        | short a e l p q ↦
            rw (mounted-active m, mounted-type m, a, p, q, (mounted-sizes m).0)
              (omega (arith, m.no_wrap, l, m.below_eoc, fat_max_cluster-eq m))
        | long a e l p q ↦
            rw (mounted-active m, mounted-type m, a, p, q, (mounted-sizes m).0)
              (omega (arith, m.no_wrap, l, m.below_eoc, fat_max_cluster-eq m))
      ]

  pub tables_before_data :
      v.lba_start + v.reserved_sectors_count + v.number_fats * getfatsize v ≤ getfirstdatasector v
  tables_before_data = omega (arith, getfirstdatasector-eq)

  pub data_region_bound : getfirstdatasector v + getdatasectorcount v < 2 ^ 32
  data_region_bound = ground (arith, getfirstdatasector-eq, m.no_wrap)

  -- On a mounted volume, the sectors of a data cluster lie in the data region, at the cluster's
  -- place in it.
  pub clustertosector_bounds :
      (c : ℕ)
      → 2 ≤ c
      → c ≤ fat_max_cluster v
      → (clustertosector v c ≡ getfirstdatasector v + (c - 2) * v.sector_per_cluster)
        × (clustertosector v c + v.sector_per_cluster ≤ getfirstdatasector v + getdatasectorcount v)
  unfolding clustertosector
  clustertosector_bounds c lo hi =
      let k : c - 2 + 1 ≤ getclustercount v = omega (arith, fat_max_cluster-eq m) in
      let w : (c - 2 + 1) * v.sector_per_cluster ≤ getclustercount v * v.sector_per_cluster =
        mul-le-mul_right v.sector_per_cluster k in
      ground (
        arith,
        w,
        cluster_sectors,
        getfirstdatasector-eq,
        m.no_wrap,
        mounted-active m,
        mounted-type m,
      )

  -- On a mounted volume, every sector of a data cluster leads back to the cluster.
  pub getclusterfromsector-clustertosector :
      (c i : ℕ)
      → 2 ≤ c
      → c ≤ fat_max_cluster v
      → i < v.sector_per_cluster
      → getclusterfromsector v (clustertosector v c + i) ≡ c
  unfolding getclusterfromsector
  getclusterfromsector-clustertosector c i lo hi h =
      let (e, l) = clustertosector_bounds c lo hi in
      let k : getfirstdatasector v + (c - 2) * v.sector_per_cluster + i - getfirstdatasector v
          ≡ (c - 2) * v.sector_per_cluster + i =
        omega arith in
      let q : ((c - 2) * v.sector_per_cluster + i) / v.sector_per_cluster ≡ c - 2 =
        mul-add-div_right (mounted-sizes m).1 (c - 2) i ∙ omega (arith, div-eq_of_lt h) in
      rw (mounted-active m, mounted-type m, e)
        (ground (
          arith,
          k,
          q,
          ap (λ (x : ℕ). x / v.sector_per_cluster) k,
          mounted-sizes m,
          entry c hi,
          fat_max_cluster-eq m,
        ))
