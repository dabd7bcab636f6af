-- ===== src/Fat/Write.antt =====
-- Writing to open files, kernel/fat.c: `set_current_datetime`, `fat_file_update_directory_entry`,
-- `fat_file_zero_range` and `fat_write`.
--
-- `ptr` is the list of the bytes that it points to and is not NULL. A file_entry_t stays where it
-- is in the buffer that it is copied from and back to.
-- `goto write_done` is the `false` that a loop returns with the count of bytes written.
pub mod Bytes
pub mod Loops
pub mod Clusters
pub mod Chains
pub mod InPlace
pub mod ReadBack
pub mod Gap
pub mod Full
pub mod Sample
pub mod Zero
mod Tests
use fastsystem.Prelude.{
  ℕ, zero, suc, ◌+◌, ◌-◌, ◌*◌, ◌/◌, ◌%◌, ◌^◌, Bool, true, false, not, ◌&&◌, ◌||◌, Option, none,
  some, List, [], ◌∷◌, ltb, leb, ◌==◌, if◌then◌else◌, u16, u32, get_or, set, replicate, bit_or,
}
use fastsystem.Time.{Tm, time, localtime}
use fastsystem.Fat.Volume.{Volume, sectorsize, isfat32type, clustertosector}
use fastsystem.Fat.Entries.{Device, put16, put32}
use fastsystem.Fat.File.{
  FatFile, fat_file_valid, fat_file_cluster_size, fat_file_cluster_at, fat_file_ensure_size,
}

-- `memcpy` of `n` bytes of a source, from the index `s` on, into a buffer.
unfoldable pub paste : List ℕ → ℕ → List ℕ → ℕ → ℕ → List ℕ
paste buffer offset source s zero = buffer
paste buffer offset source s (suc n) =
    paste (set buffer offset (get_or source s 0)) (offset + 1) source (s + 1) n

pub dos_date : Tm → ℕ
dos_date t =
    let year = t.tm_year + 1900 in
    let year = if ltb year 1980 then 1980 else year in
    let year = if ltb 2107 year then 2107 else year in
    u16 (bit_or (bit_or ((year - 1980) * 2 ^ 9) ((t.tm_mon + 1) * 2 ^ 5)) t.tm_mday)

pub dos_time : Tm → ℕ
dos_time t = u16 (bit_or (bit_or (t.tm_hour * 2 ^ 11) (t.tm_min * 2 ^ 5)) (t.tm_sec / 2))

-- On the entry at `o`: the dates at 16, 24 and 18, the times at 14 and 22, the tenths at 13.
pub stamped : Tm → List ℕ → ℕ → List ℕ
stamped t b o =
    let b = put16 b (o + 16) (dos_date t) in
    let b = put16 b (o + 24) (dos_date t) in
    let b = put16 b (o + 18) (dos_date t) in
    let b = put16 b (o + 14) (dos_time t) in
    let b = put16 b (o + 22) (dos_time t) in set b (o + 13) (if t.tm_sec % 2 == 0 then 0 else 100)

pub set_current_datetime : List ℕ → ℕ → List ℕ
set_current_datetime b o = elim (localtime time) [ none ↦ b | some t ↦ stamped t b o ]

module _ (dev : Device) (v : Volume) where
  open dev use {Disk, read, write}

  -- The size at 28, the cluster at 20 and 26.
  pub updated_entry : FatFile → List ℕ → List ℕ
  updated_entry f b =
      let o = f.directory_offset in
      let high = if isfat32type v then f.first_cluster / 2 ^ 16 % 2 ^ 16 else 0 in
      let b = put32 b (o + 28) f.size in
      let b = put16 b (o + 20) high in
      let b = put16 b (o + 26) (f.first_cluster % 2 ^ 16) in set_current_datetime b o

  pub fat_file_update_directory_entry : Disk → FatFile → Bool × Disk
  fat_file_update_directory_entry d f =
      if not (fat_file_valid v f)
      then (false, d)
      else if ltb sectorsize (u32 (f.directory_offset + 32))
      then (false, d)
      else elim (read d f.directory_sector) [
        | none ↦ (false, d)
        | some buffer ↦ write d f.directory_sector (updated_entry f buffer)
      ]

  -- The inner `while` of `fat_write`, from an offset in a cluster and an index into the source,
  -- with `amount` bytes to go. Every round writes a byte at least, so `amount` rounds are enough.
  pub write_sectors : ℕ → Disk → ℕ → ℕ → ℕ → List ℕ → ℕ → Bool × ℕ × Disk
  write_sectors zero d cluster offset amount source s = (true, 0, d)
  write_sectors (suc fuel) d cluster offset amount source s =
      let offset_in_sector = offset % v.bytes_per_sector in
      let absolute_sector = u32 (clustertosector v cluster + offset / v.bytes_per_sector) in
      let sector_remaining = v.bytes_per_sector - offset_in_sector in
      let copy = if ltb amount sector_remaining then amount else sector_remaining in
      let before =
        if not (offset_in_sector == 0) || not (copy == v.bytes_per_sector)
        then read d absolute_sector
        else some (replicate sectorsize 0) in
      if amount == 0 then (true, 0, d) else elim before [
        | none ↦ (false, 0, d)
        | some buffer ↦
            let stored = write d absolute_sector (paste buffer offset_in_sector source s copy) in
            let rest =
              write_sectors fuel stored.1 cluster (offset + copy) (amount - copy) source
                (s + copy) in
            if not stored.0 then (false, 0, stored.1) else (rest.0, copy + rest.1, rest.2)
      ]

  -- The outer `while`, with `requested` bytes to go, and as many rounds.
  pub write_clusters : ℕ → Disk → FatFile → ℕ → ℕ → List ℕ → ℕ → Bool × ℕ × Disk
  write_clusters zero d f position requested source s = (true, 0, d)
  write_clusters (suc fuel) d f position requested source s =
      let cluster_size = fat_file_cluster_size v in
      let cluster = fat_file_cluster_at dev v d f position in
      let cluster_offset = position % cluster_size in
      let cluster_remaining = cluster_size - cluster_offset in
      let amount = if ltb requested cluster_remaining then requested else cluster_remaining in
      let here = write_sectors amount d cluster cluster_offset amount source s in
      let rest =
        write_clusters fuel here.2 f (position + amount) (requested - amount) source (s + amount) in
      if requested == 0
      then (true, 0, d)
      else if cluster_size == 0 || v.bytes_per_sector == 0
      then (false, 0, d)
      else if ltb cluster 2
      then (false, 0, d)
      else if not here.0
      then here
      else (rest.0, amount + rest.1, rest.2)

  -- The loops of `fat_write` and what follows them, from a file whose size is set.
  pub write_out : Disk → FatFile → ℕ → ℕ → ℕ → List ℕ → ℕ × FatFile × Disk
  write_out d f original_position size requested source =
      let (fine, count, d') = write_clusters requested d f f.position requested source 0 in
      let position = f.position + count in
      let f' = record f {
        position = position;
        size = if ltb f.size position then position else f.size;
        error = if fine then f.error else true;
      } in
      let (noted, d'') = fat_file_update_directory_entry d' f' in
      let marked = record f' { error = if noted then f'.error else true } in
      (
        (position - original_position) / size,
        (if f.writable then marked else f'),
        (if f.writable then d'' else d'),
      )

  -- The `if` on the end position.
  pub make_room : Disk → FatFile → ℕ → Bool × FatFile × Disk
  make_room d f end_position =
      let (grown, f', d') = fat_file_ensure_size dev v d f end_position in
      if leb end_position f.size
      then (true, f, d)
      else if not grown
      then (false, f', d')
      else (true, record f' { size = end_position }, d')

  -- The `if` on the position: what is between the size and the position is filled by `fill`, the
  -- call of `fat_file_zero_range`.
  pub close_gap : (Disk → FatFile → Bool × FatFile × Disk) → Disk → FatFile → Bool × FatFile × Disk
  close_gap fill d f =
      let (grown, f1, d1) = fat_file_ensure_size dev v d f f.position in
      let (zeroed, f2, d2) = fill d1 f1 in
      let f3 = record f2 { size = f.position } in
      let (noted, d3) = fat_file_update_directory_entry d2 f3 in
      if leb f.position f.size
      then (true, f, d)
      else if not grown
      then (false, f1, d1)
      else if not zeroed
      then (false, f2, d2)
      else if not noted
      then (false, f3, d3)
      else (true, f3, d3)

  -- `fat_write` with the call of `fat_file_zero_range` as a parameter: the two call each other.
  pub fat_write_with :
      (Disk → FatFile → Bool × FatFile × Disk)
      → Disk
      → FatFile
      → ℕ
      → ℕ
      → List ℕ
      → ℕ × FatFile × Disk
  fat_write_with fill d f size nmemb source =
      let requested = size * nmemb in
      let (closed, f1, d1) = close_gap fill d f in
      let (roomy, f2, d2) = make_room d1 f1 (f.position + requested) in
      if not (fat_file_valid v f) || size == 0 || nmemb == 0
      then (0, f, d)
      else if not f.writable
      then (0, record f { error = true }, d)
      else if ltb (0xFFFFFFFF / size) nmemb
      then (0, record f { error = true }, d)
      else if ltb (0xFFFFFFFF - f.position) requested
      then (0, record f { error = true }, d)
      else if not closed
      then (0, record f1 { error = true }, d1)
      else if not roomy
      then (0, record f2 { error = true }, d2)
      else write_out d2 f2 f.position size requested source

  -- The `while` of `fat_file_zero_range`, with `fat_write` as a parameter.
  pub zero_loop :
      (Disk → FatFile → ℕ → ℕ → List ℕ → ℕ × FatFile × Disk)
      → ℕ
      → Disk
      → FatFile
      → ℕ
      → ℕ
      → Bool × FatFile × Disk
  zero_loop writer zero d f start end = (true, f, d)
  zero_loop writer (suc fuel) d f start end =
      let remaining = end - start in
      let amount = if ltb remaining sectorsize then remaining else sectorsize in
      let (written, f', d') =
        writer d (record f { position = start }) 1 amount (replicate sectorsize 0) in
      let rest = zero_loop writer fuel d' f' (start + amount) end in
      if leb end start
      then (true, f, d)
      else if not (written == amount)
      then (false, record f' { position = f.position }, d')
      else rest

  -- Every round writes a byte at least, so `end - start` rounds are enough.
  pub fat_file_zero_range :
      (Disk → FatFile → ℕ → ℕ → List ℕ → ℕ × FatFile × Disk)
      → Disk
      → FatFile
      → ℕ
      → ℕ
      → Bool × FatFile × Disk
  fat_file_zero_range writer d f start end =
      if not (fat_file_valid v f)
      then (false, f, d)
      else if leb end start
      then (true, f, d)
      else zero_loop writer (end - start) d f start end

  -- `fat_write` where it has no gap to fill, as when `fat_file_zero_range` calls it.
  pub fat_write_gapless : Disk → FatFile → ℕ → ℕ → List ℕ → ℕ × FatFile × Disk
  fat_write_gapless = fat_write_with (λ d f. (false, f, d))

  -- The value returned, the file and the disk.
  pub fat_write : Disk → FatFile → ℕ → ℕ → List ℕ → ℕ × FatFile × Disk
  fat_write = fat_write_with (λ d f. fat_file_zero_range fat_write_gapless d f f.size f.position)
