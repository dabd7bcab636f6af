-- ===== src/Fat/File.antt =====
-- Open files, kernel/fat.c: `fat_file_valid` to `fat_file_ensure_size`, `fat_seek` to `fat_read`.
--
-- A FAT_FILE pointer and a buffer are not NULL here. What is stored in the caller's buffer is a
-- list of bytes. `goto read_done` is the `false` that a loop returns with the bytes it has stored:
-- the position is then as far as those.
pub mod Contents
pub mod Reading
pub mod Position
pub mod Sample
mod Tests
use fastsystem.Prelude.{
  ℕ, zero, suc, ◌+◌, ◌-◌, ◌*◌, ◌/◌, ◌%◌, ◌^◌, Bool, true, false, not, ◌&&◌, ◌||◌, Option, none,
  some, List, [], ◌∷◌, ◌++◌, ltb, leb, ◌==◌, if◌then◌else◌, u32, length, get_or, ℤ, pos, negsuc,
  sub,
}
use fastsystem.Fat.Volume.{Volume, isfattype, clustertosector}
use fastsystem.Fat.Entries.{Device}
use fastsystem.Fat.Entries.Implements.{fat_table}
use fastsystem.Fat.Chain.{freechain, get_nth_cluster, resizechain}

-- `entry`, which only the directory functions read, and `append`, which is set aside after
-- `fat_open`, are left out.
pub record FatFile : Type 0 where
  pub open_file : Bool
  pub readable : Bool
  pub writable : Bool
  pub first_cluster : ℕ
  pub position : ℕ
  pub size : ℕ
  pub eof : Bool
  pub error : Bool
  pub directory_sector : ℕ
  pub directory_offset : ℕ

-- `other` is every value of `whence` that has no case.
pub data Whence : Type 0 where
  seek_set seek_cur seek_end other : Whence

-- `memcpy` from a place in a buffer.
unfoldable pub slice : List ℕ → ℕ → ℕ → List ℕ
slice buffer offset zero = []
slice buffer offset (suc n) = get_or buffer offset 0 ∷ slice buffer (offset + 1) n

-- `base`, where there is one; `none` is a `whence` without a case.
unfoldable pub seek_base : FatFile → Whence → Option ℕ
seek_base f seek_set = some 0
seek_base f seek_cur = some f.position
seek_base f seek_end = some f.size
seek_base f other = none

-- `base + offset`, if the tests for overflow pass and the sum is not negative.
pub seek_target : ℕ → ℤ → Option ℕ
seek_target base (pos n) = if ltb 0 n && ltb (0x7FFFFFFF - n) base then none else some (base + n)
seek_target base (negsuc n) =
    if ltb (base + 2 ^ 31) (n + 1)
    then none
    else if ltb base (n + 1)
    then none
    else some (base - (n + 1))

module _ (v : Volume) where
  unfoldable pub fat_file_valid : FatFile → Bool
  fat_file_valid f = f.open_file && v.fat_loaded && isfattype v

  pub fat_file_cluster_size : ℕ
  fat_file_cluster_size =
      if not v.fat_loaded then 0 else u32 (v.bytes_per_sector * v.sector_per_cluster)

  -- The value returned is 0 where the Boolean is true, and -1 where it is false.
  pub fat_seek : FatFile → ℤ → Whence → Bool × FatFile
  fat_seek f offset whence =
      if not (fat_file_valid f) then (false, f) else elim (seek_base f whence) [
        | none ↦ (false, record f { error = true })
        | some base ↦ if ltb 0x7FFFFFFF base then (false, f) else elim (seek_target base offset) [
          | none ↦ (false, record f { error = true })
          | some new_position ↦ (true, record f { position = new_position; eof = false })
        ]
      ]

  -- `none` is -1.
  pub fat_tell : FatFile → Option ℕ
  fat_tell f =
      if not (fat_file_valid f)
      then none
      else if ltb 0x7FFFFFFF f.position
      then none
      else some f.position

  pub fat_rewind : FatFile → FatFile
  fat_rewind f =
      if not (fat_file_valid f) then f else record f { position = 0; eof = false; error = false }

  pub fat_eof : FatFile → Bool
  fat_eof f = if not f.open_file then false else f.eof

module _ (dev : Device) (v : Volume) where
  open dev use {Disk, read}

  pub fat_file_cluster_at : Disk → FatFile → ℕ → ℕ
  fat_file_cluster_at d f position =
      if not (fat_file_valid v f)
      then 0
      else if ltb f.first_cluster 2
      then 0
      else if fat_file_cluster_size v == 0
      then 0
      else get_nth_cluster (fat_table dev v) d f.first_cluster (position / fat_file_cluster_size v)

  -- `required64` has 32 bits, so that the test of it never holds.
  unfoldable pub fat_file_ensure_size : Disk → FatFile → ℕ → Bool × FatFile × Disk
  fat_file_ensure_size d f size =
      let cluster_size = fat_file_cluster_size v in
      let (freed, d') = freechain (fat_table dev v) d f.first_cluster in
      let required = u32 (size + cluster_size - 1) / cluster_size in
      let (resized, first, d'') = resizechain (fat_table dev v) d f.first_cluster required in
      if not (fat_file_valid v f)
      then (false, f, d)
      else if cluster_size == 0
      then (false, f, d)
      else if size == 0
      then if f.first_cluster == 0
        then (true, f, d)
        else if not freed
        then (false, f, d')
        else (true, record f { first_cluster = 0 }, d')
      else if not resized
      then (false, record f { first_cluster = first }, d'')
      else (true, record f { first_cluster = first }, d'')

  -- The inner `while` of `fat_read`, from an offset in a cluster, with `amount` bytes to go. Every
  -- round stores a byte at least, so `amount` rounds are enough.
  pub read_sectors : ℕ → Disk → ℕ → ℕ → ℕ → Bool × List ℕ
  read_sectors zero d cluster offset amount = (true, [])
  read_sectors (suc fuel) d cluster offset amount =
      let sector_in_cluster = offset / v.bytes_per_sector in
      let offset_in_sector = offset % v.bytes_per_sector in
      let absolute_sector = u32 (clustertosector v cluster + sector_in_cluster) in
      let sector_remaining = v.bytes_per_sector - offset_in_sector in
      let copy = if ltb amount sector_remaining then amount else sector_remaining in
      let rest = read_sectors fuel d cluster (offset + copy) (amount - copy) in
      if amount == 0 then (true, []) else elim (read d absolute_sector) [
        | none ↦ (false, [])
        | some buffer ↦ (rest.0, slice buffer offset_in_sector copy ++ rest.1)
      ]

  -- The outer `while` of `fat_read`, with `requested` bytes to go, and as many rounds.
  pub read_clusters : ℕ → Disk → FatFile → ℕ → ℕ → Bool × List ℕ
  read_clusters zero d f position requested = (true, [])
  read_clusters (suc fuel) d f position requested =
      let cluster_size = fat_file_cluster_size v in
      let cluster = fat_file_cluster_at d f position in
      let cluster_offset = position % cluster_size in
      let cluster_remaining = cluster_size - cluster_offset in
      let amount = if ltb requested cluster_remaining then requested else cluster_remaining in
      let here = read_sectors amount d cluster cluster_offset amount in
      let rest = read_clusters fuel d f (position + amount) (requested - amount) in
      if requested == 0
      then (true, [])
      else if cluster_size == 0
      then (false, [])
      else if ltb cluster 2
      then (false, [])
      else if not here.0
      then here
      else (rest.0, here.1 ++ rest.1)

  -- The value returned, the bytes stored, and the file.
  pub fat_read : Disk → FatFile → ℕ → ℕ → ℕ × List ℕ × FatFile
  fat_read d f size nmemb =
      let remaining = f.size - f.position in
      let asked = size * nmemb in
      let requested = if ltb remaining asked then remaining else asked in
      let (fine, bytes) = read_clusters requested d f f.position requested in
      let position = f.position + length bytes in
      if not (fat_file_valid v f) || size == 0 || nmemb == 0
      then (0, [], f)
      else if not f.readable
      then (0, [], record f { error = true })
      else if ltb (0xFFFFFFFF / size) nmemb
      then (0, [], record f { error = true })
      else if leb f.size f.position
      then (0, [], record f { eof = true })
      else (
        length bytes / size,
        bytes,
        record f {
          position = position;
          eof = if leb f.size position then true else f.eof;
          error = if fine then f.error else true;
        },
      )
