-- ===== src/Fat/Volume/Mounted.antt =====
-- What holds of a volume that `loadfat` has accepted and whose tables have room for its clusters.
use fastsystem.Prelude.{◌+◌, ◌*◌, ◌^◌, ◌≤◌, ◌<◌, ◌≡◌, inl, inr, true, false, arith, Bool-cases}
use fastsystem.Fat.Volume.{
  Volume, sectorsize, hasactive, isfat16type, isfat32type, isfattype, loadfat_checks, getfatsize,
  getrootdirsectorscount, getdatasectorcount, getclustercount, getfatentrysize, fat_eoc_mark,
  fat_max_cluster,
}

pub record IsMounted (v : Volume) : Type 0 where
  pub loaded : v.fat_loaded ≡ true
  pub checked : loadfat_checks v ≡ true
  -- The boot sector is one of the reserved ones.
  pub boot_reserved : 0 < v.reserved_sectors_count
  -- The volume ends below sector 2 ^ 32.
  pub no_wrap :
      v.lba_start
        + v.reserved_sectors_count
        + v.number_fats * getfatsize v
        + getrootdirsectorscount v
        + getdatasectorcount v
      < 2 ^ 32
  -- One table has an entry for each cluster, and for the two numbers that are no clusters.
  pub table_fits : (getclustercount v + 2) * getfatentrysize v ≤ getfatsize v * sectorsize
  pub some_cluster : 0 < getclustercount v
  pub below_eoc : getclustercount v + 1 < fat_eoc_mark v

-- The two layouts of a table.
pub data Kind (v : Volume) : Type 0 where
  fat16 :
      isfat16type v ≡ true
      → isfat32type v ≡ false
      → getfatentrysize v ≡ 2
      → fat_eoc_mark v ≡ 0xFFF8
      → Kind v
  fat32 :
      isfat16type v ≡ false
      → isfat32type v ≡ true
      → getfatentrysize v ≡ 4
      → fat_eoc_mark v ≡ 0x0FFFFFF8
      → Kind v

module _ {v : Volume} (m : IsMounted v) where
  pub mounted-active : hasactive v ≡ true
  unfolding loadfat_checks
  mounted-active = ground (arith, m.checked)

  pub mounted-type : isfattype v ≡ true
  unfolding loadfat_checks
  mounted-type = ground (arith, m.checked)

  pub mounted-sizes :
      (v.bytes_per_sector ≡ 512)
      × (0 < v.sector_per_cluster)
      × (0 < v.number_fats)
      × (0 < getfatsize v)
  unfolding loadfat_checks isfattype getfatsize
  mounted-sizes = ground (arith, m.checked, m.loaded)

  pub kind : Kind v
  kind = elim (Bool-cases (isfat16type v)) [
    | inl e ↦
        fat16 e (unfold isfat16type isfat32type in ground (arith, e))
          (unfold getfatentrysize in ground (arith, e)) (unfold fat_eoc_mark in ground (arith, e))
    | inr e ↦
        let f : isfat32type v ≡ true = unfold isfattype in ground (arith, mounted-type) in
        fat32 e f (unfold getfatentrysize in ground (arith, e, f))
          (unfold fat_eoc_mark in ground (arith, e, f))
  ]

  pub fat_max_cluster-eq : fat_max_cluster v ≡ getclustercount v + 1
  unfolding fat_max_cluster
  fat_max_cluster-eq = elim kind [
    | fat16 a b c d ↦ ground (arith, m.below_eoc, m.some_cluster)
    | fat32 a b c d ↦ ground (arith, m.below_eoc, m.some_cluster)
  ]
