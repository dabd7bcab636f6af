-- ===== src/Fat/Write/Tests.antt =====
-- Writes to the file on the small disk in memory.
use fastsystem.Prelude.{
  ◌-◌, ℕ, ◌+◌, ◌*◌, ◌/◌, ◌≤◌, ◌<◌, ◌≡◌, ◌≢◌, refl, arith, true, false, List, [], ◌∷◌, has, pos,
}
use fastsystem.Fat.Volume.{sectorsize, clustertosector, fat_max_cluster}
use fastsystem.Fat.Volume.Sample.{small_volume, small_volume-IsMounted, small_volume_values}
use fastsystem.Fat.Entries.Memory.{memory_disk, memory_disk-IsSound}
use fastsystem.Fat.File.{fat_seek, fat_read, seek_set, FatFile, fat_file_cluster_size}
use fastsystem.Fat.File.Contents.{IsOpen, chain_byte, cluster_byte}
use fastsystem.Fat.File.Sample.{linked, some_file, some_file-IsOpen, data_room}
use fastsystem.Fat.Write.{fat_write}
use fastsystem.Fat.Volume.{getclustercount}
use fastsystem.Fat.Volume.Mounted.{fat_max_cluster-eq}
use fastsystem.Fat.Entries.{readcluster}
use fastsystem.Fat.Entries.Outside.{IsOutside}
use fastsystem.Fat.Chain.Alloc.{free_count, free_count-le}
use fastsystem.Fat.File.Sample.{cluster_bytes}
use fastsystem.Fat.Write.Sample.{some_file-IsRecorded}
use fastsystem.Fat.Write.Full.{fat_write_full}
use fastsystem.Fat.Write.ReadBack.{fat_read-fat_write}
use fastsystem.Fat.Write.Bytes.{over}
use fastsystem.Fat.Write.InPlace.{fat_write_lem}

abbrev three_bytes : List ℕ
three_bytes = 7 ∷ 8 ∷ 9 ∷ []

fat_write_lem_example :
    let f' : FatFile = record some_file { position = 500 + 1 * 3 } in
    let chain : List ℕ = 5 ∷ 6 ∷ [] in
    (d' : ℕ → ℕ → ℕ) × (fat_write memory_disk small_volume linked some_file 1 3 three_bytes
      ≡ (3, f', d'))
    × IsOpen memory_disk small_volume d' f' (6 ∷ [])
    × ((q : ℕ)
        → q < 2 * fat_file_cluster_size small_volume
        → chain_byte memory_disk small_volume d' chain q
          ≡ over (chain_byte memory_disk small_volume linked chain) 500 (1 * 3) three_bytes 0 q)
    × ((c i : ℕ)
        → 2 ≤ c
        → c ≤ fat_max_cluster small_volume
        → has c chain ≡ false
        → i < fat_file_cluster_size small_volume
        → clustertosector small_volume c + i / sectorsize ≢ 66
        → cluster_byte memory_disk small_volume d' c i
          ≡ cluster_byte memory_disk small_volume linked c i)
fat_write_lem_example =
    fat_write_lem small_volume-IsMounted memory_disk-IsSound data_room (omega arith) linked
      some_file (6 ∷ []) 1 3 three_bytes some_file-IsOpen some_file-IsRecorded refl (omega arith)
      (omega arith) (omega arith) (omega arith) (omega arith)

fat_read-fat_write_example :
    let written = fat_write memory_disk small_volume linked some_file 1 3 three_bytes in
    let sought_back = fat_seek small_volume written.1 (pos 500) seek_set in
    let got = fat_read memory_disk small_volume written.2 sought_back.1 1 3 in
    (written.0 ≡ 3) × (sought_back.0 ≡ true) × (got.0 ≡ 3) × (got.1 ≡ three_bytes)
fat_read-fat_write_example =
    fat_read-fat_write small_volume-IsMounted memory_disk-IsSound data_room (omega arith) linked
      some_file (6 ∷ []) 1 3 three_bytes some_file-IsOpen some_file-IsRecorded refl refl
      (omega arith) (omega arith) (omega arith) (omega arith) (omega arith) (omega arith) refl

lacking : (n size : ℕ) → size ≡ 512 → n ≤ 96 → 1 + 1 + n < (500 + 1 * 60000 + size - 1) / size
lacking n size e h = rw e (omega (arith, h))

-- 60000 bytes are more than 96 clusters of 512 bytes.
fat_write_full_example :
    (d' : ℕ → ℕ → ℕ) × (fat_write memory_disk small_volume linked some_file 1 60000 []
      ≡ (0, record some_file { error = true }, d'))
    × ((n : ℕ) → IsOutside small_volume n → memory_disk.read d' n ≡ memory_disk.read linked n)
    × ((c : ℕ)
        → 2 ≤ c
        → c ≤ fat_max_cluster small_volume
        → readcluster memory_disk small_volume d' c ≡ readcluster memory_disk small_volume linked c)
fat_write_full_example =
    let few =
      free_count-le (readcluster memory_disk small_volume linked) 2
        (getclustercount small_volume) in
    let all = fat_max_cluster-eq small_volume-IsMounted in
    fat_write_full small_volume-IsMounted memory_disk-IsSound data_room (omega arith) linked
      some_file (6 ∷ []) 1 60000 [] some_file-IsOpen refl (omega arith) (omega arith) (omega arith)
      (omega arith) (omega arith) (omega (arith, cluster_bytes))
      (lacking
        (free_count (readcluster memory_disk small_volume linked) 2 (getclustercount small_volume))
        (fat_file_cluster_size small_volume) cluster_bytes
        (omega (arith, few, all, small_volume_values)))
