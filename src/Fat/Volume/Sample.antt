-- ===== src/Fat/Volume/Sample.antt =====
-- A small volume for the tests.
use fastsystem.Prelude.{◌+◌, ◌≡◌, refl, arith, true, some}
use fastsystem.Fat.Volume.{
  getfirstdatasector, Volume, getfatsize, getfatsector, fat_max_cluster, getrootdirsectorscount,
  getdatasectorcount, getclustercount, loadfat_checks, fat_eoc_mark, getfatentrysize, isfat16type,
  isfat32type, isfattype, hasactive,
}
use fastsystem.Fat.Volume.Mounted.{IsMounted}

-- A FAT16 volume of 96 clusters of one sector, with two tables of one sector each.
abbrev pub small_volume : Volume
small_volume = record {
  active_partition = some 0;
  partition_type = 0x06;
  lba_start = 63;
  fat_loaded = true;
  signature = 0xAA55;
  bytes_per_sector = 512;
  sector_per_cluster = 1;
  reserved_sectors_count = 1;
  number_fats = 2;
  root_entries_count = 16;
  total_sectors_16 = 100;
  total_sectors_32 = 0;
  fat_size_16 = 1;
  fat_size_32 = 0;
  root_cluster = 0;
}

pub small_volume-IsMounted : IsMounted small_volume
unfolding loadfat_checks getfatsize getrootdirsectorscount getdatasectorcount getclustercount
    getfatentrysize fat_eoc_mark isfat16type isfat32type isfattype hasactive
small_volume-IsMounted = record {
  loaded = refl;
  checked = refl;
  boot_reserved = omega arith;
  no_wrap = omega arith;
  table_fits = omega arith;
  some_cluster = omega arith;
  below_eoc = omega arith;
}

pub small_volume_values :
    (getfatsize small_volume ≡ 1)
    × (fat_max_cluster small_volume ≡ 97)
    × (fat_eoc_mark small_volume ≡ 0xFFF8)
    × (getfatsector small_volume 5 ≡ 64)
unfolding getfatsize fat_max_cluster getclustercount getdatasectorcount getrootdirsectorscount
    fat_eoc_mark getfatsector getfatentrysize isfat16type isfat32type isfattype hasactive
small_volume_values = (refl, refl, refl, refl)

pub small_volume_region :
    (getfirstdatasector small_volume ≡ 67)
    × (getfirstdatasector small_volume + getdatasectorcount small_volume ≡ 163)
unfolding getfirstdatasector getdatasectorcount getfatsize getrootdirsectorscount isfat16type
    isfat32type isfattype hasactive
small_volume_region = (refl, refl)
