-- ===== src/Fat/File/Sample.antt =====
-- An open file on the small disk in memory, for the tests.
use fastsystem.Prelude.{ℕ, ◌+◌, ◌≤◌, ◌≡◌, ◌∙◌, refl, arith, true, false, [], ◌∷◌}
use fastsystem.Fat.Volume.{getfirstdatasector, getdatasectorcount}
use fastsystem.Fat.Volume.Mounted.{mounted-type}
use fastsystem.Fat.Volume.Sample.{
  small_volume, small_volume-IsMounted, small_volume_values, small_volume_region,
}
use fastsystem.Fat.Table.{IsReliable, IsData}
use fastsystem.Fat.Entries.{readcluster, writecluster}
use fastsystem.Fat.Entries.Memory.{memory_disk, memory_disk-IsSound, room, blank}
use fastsystem.Fat.Entries.Implements.{fat_table, fat_table-IsReliable}
use fastsystem.Fat.File.{FatFile, fat_file_valid, fat_file_cluster_size}
use fastsystem.Fat.File.Contents.{IsOpen}

abbrev pub table_ok : IsReliable (fat_table memory_disk small_volume)
table_ok = fat_table-IsReliable small_volume-IsMounted memory_disk-IsSound room

-- Cluster 5 leads to cluster 6, which ends the chain.
abbrev pub ended : ℕ → ℕ → ℕ
ended = (writecluster memory_disk small_volume blank 6 0xFFF8).1

abbrev pub linked : ℕ → ℕ → ℕ
linked = (writecluster memory_disk small_volume ended 5 6).1

abbrev pub some_file : FatFile
some_file = record {
  open_file = true;
  readable = true;
  writable = true;
  first_cluster = 5;
  position = 500;
  size = 600;
  eof = false;
  error = false;
  directory_sector = 66;
  directory_offset = 0;
}

pub in_table : (c : ℕ) → 2 ≤ c → c ≤ 97 → IsData (fat_table memory_disk small_volume) c
in_table c h k = (h, omega (arith, k, small_volume_values))

pub leads : readcluster memory_disk small_volume linked 5 ≡ 6
leads =
    table_ok.read-write ended 5 6 5 (in_table 5 (omega arith) (omega arith))
      (in_table 5 (omega arith) (omega arith)) (omega (arith, small_volume_values))

pub ends : readcluster memory_disk small_volume linked 6 ≡ 0xFFF8
ends =
    table_ok.read-write ended 5 6 6 (in_table 5 (omega arith) (omega arith))
      (in_table 6 (omega arith) (omega arith)) (omega (arith, small_volume_values))
    ∙ table_ok.read-write blank 6 0xFFF8 6 (in_table 6 (omega arith) (omega arith))
        (in_table 6 (omega arith) (omega arith)) (omega (arith, small_volume_values))

pub cluster_bytes : fat_file_cluster_size small_volume ≡ 512
unfolding fat_file_cluster_size
cluster_bytes = refl

pub some_file-valid : fat_file_valid small_volume some_file ≡ true
unfolding fat_file_valid
some_file-valid = mounted-type small_volume-IsMounted

pub some_file-IsOpen : IsOpen memory_disk small_volume linked some_file (6 ∷ [])
some_file-IsOpen = record {
  valid = some_file-valid;
  links = (
    in_table 5 (omega arith) (omega arith),
    leads,
    (in_table 6 (omega arith) (omega arith), omega (arith, ends, small_volume_values)),
  );
  fits = omega (arith, cluster_bytes);
}

pub data_room : getfirstdatasector small_volume + getdatasectorcount small_volume ≤ 1000
data_room = omega (arith, small_volume_region)
