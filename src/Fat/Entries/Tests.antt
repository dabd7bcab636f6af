-- ===== src/Fat/Entries/Tests.antt =====
-- Instances of the theorems about volumes and table entries, on a small FAT16 disk in memory.
use fastsystem.Prelude.{ℕ, zero, suc, ◌+◌, ◌*◌, ◌<◌, ◌≤◌, ◌≡◌, arith, true, List, get_or, ◌^◌}
use mathlib.Core.Path.{subst}
use mathlib.Core.Option.{some-injective}
use fastsystem.Fat.Volume.{
  getfatsize, getfatsector, getfatentryoffset, clustertosector, getclusterfromsector,
  getdatasectorcount, getfatentrysize, sectorsize, getfirstdatasector,
}
use fastsystem.Fat.Volume.Layout.{
  tables_start, getfatsector_bounds, clustertosector_bounds, getclusterfromsector-clustertosector,
}
use fastsystem.Fat.Table.{IsReliable}
use fastsystem.Fat.Entries.{readcluster, writecluster, getnextcluster}
use fastsystem.Fat.Entries.Stored.{readcluster-writecluster}
use fastsystem.Fat.Entries.Implements.{
  fat_table, fat_table-IsReliable, getnextcluster-eq-readcluster,
}
use fastsystem.Fat.Entries.Memory.{memory_disk, memory_disk-IsSound, room, blank, bytes_of}
use fastsystem.Fat.Volume.Sample.{small_volume, small_volume-IsMounted, small_volume_values}

readcluster-writecluster_example :
    ((writecluster memory_disk small_volume blank 5 6).0 ≡ true)
    × (readcluster memory_disk small_volume (writecluster memory_disk small_volume blank 5 6).1 5
        ≡ 6)
readcluster-writecluster_example =
    readcluster-writecluster small_volume-IsMounted memory_disk-IsSound room blank 5 6 5
      (omega arith) (omega (arith, small_volume_values)) (omega arith)
      (omega (arith, small_volume_values)) (omega (arith, small_volume_values))

fat_table-IsReliable_example : IsReliable (fat_table memory_disk small_volume)
fat_table-IsReliable_example = fat_table-IsReliable small_volume-IsMounted memory_disk-IsSound room

blank-bytes : (s i : ℕ) → get_or (bytes_of sectorsize (blank s)) i 0 < 2 ^ 8
blank-bytes s i = zeros sectorsize i
  where
    zeros : (n i : ℕ) → get_or (bytes_of n (λ j. 0)) i 0 < 2 ^ 8
    zeros zero i = omega arith
    zeros (suc n) zero = omega arith
    zeros (suc n) (suc i) = zeros n i

getnextcluster-eq-readcluster_example :
    getnextcluster memory_disk small_volume blank 5 ≡ readcluster memory_disk small_volume blank 5
getnextcluster-eq-readcluster_example =
    getnextcluster-eq-readcluster memory_disk small_volume-IsMounted blank 5 (omega arith)
      (omega (arith, small_volume_values))
      (λ b e i.
        subst (λ (t : List ℕ). get_or t i 0 < 2 ^ 8) (some-injective _ _ e)
          (blank-bytes (getfatsector small_volume 5) i))

getfatsector_bounds_example :
    (tables_start small_volume ≤ getfatsector small_volume 5)
    × (getfatsector small_volume 5 < tables_start small_volume + getfatsize small_volume)
    × (getfatentryoffset small_volume 5 + getfatentrysize small_volume ≤ sectorsize)
getfatsector_bounds_example =
    getfatsector_bounds small_volume-IsMounted 5 (omega (arith, small_volume_values))

getclusterfromsector-clustertosector_example :
    getclusterfromsector small_volume (clustertosector small_volume 9 + 0) ≡ 9
getclusterfromsector-clustertosector_example =
    getclusterfromsector-clustertosector small_volume-IsMounted 9 0 (omega arith)
      (omega (arith, small_volume_values)) (omega arith)

clustertosector_bounds_example :
    (clustertosector small_volume 9 ≡ getfirstdatasector small_volume + 7 * 1)
    × (clustertosector small_volume 9 + 1
        ≤ getfirstdatasector small_volume + getdatasectorcount small_volume)
clustertosector_bounds_example =
    clustertosector_bounds small_volume-IsMounted 9 (omega arith)
      (omega (arith, small_volume_values))
