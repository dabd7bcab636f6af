-- ===== src/Fat/Descriptors/ReadBack.antt =====
-- What is written through a descriptor is read through it, and what "r+" opens.
use fastsystem.Prelude.{
  ℕ, ◌+◌, ◌^◌, ◌≤◌, ◌<◌, ◌≡◌, refl, arith, true, false, List, ltb, length, set, length-set, ℤ, pos,
}
use fastsystem.Fat.Volume.{Volume, getfirstdatasector, getdatasectorcount}
use fastsystem.Fat.Volume.Mounted.{IsMounted}
use fastsystem.Fat.Entries.{Device, IsSound}
use fastsystem.Fat.File.{FatFile, Whence, seek_set, fat_seek, fat_read}
use fastsystem.Fat.File.Contents.{IsOpen}
use fastsystem.Fat.Write.{fat_write}
use fastsystem.Fat.Write.InPlace.{IsRecorded}
use fastsystem.Fat.Write.ReadBack.{fat_read-fat_write}
use fastsystem.Fat.Descriptors.{
  FdEntry, fd_file, entry_at, is_standard, sys_lseek_handler, sys_read_handler, sys_write_handler,
  store_file,
}
use fastsystem.Fat.Descriptors.Slots.{entry_at-set}

module _ (dev : Device) (v : Volume) {Dir : Type 0} where
  write_at :
      (d : dev.Disk) (table : List (FdEntry Dir)) (k : ℕ) (f : FatFile) (source : List ℕ)
      (count : ℕ)
      → 8 ≤ k
      → entry_at table (pos k) ≡ fd_file f
      → let w = fat_write dev v d f 1 count source in
        sys_write_handler dev v d table (pos k) source count ≡ (w.0, set table k (fd_file w.1), w.2)
  unfolding sys_write_handler is_standard store_file
  write_at d table k f source count h e =
      let t : ltb k 3 ≡ false = ground (arith, h) in rw (t, e) refl

  read_at :
      (d : dev.Disk) (table : List (FdEntry Dir)) (k : ℕ) (f : FatFile) (count : ℕ)
      → 8 ≤ k
      → entry_at table (pos k) ≡ fd_file f
      → let r = fat_read dev v d f 1 count in
        sys_read_handler dev v d table (pos k) count ≡ (r.0, r.1, set table k (fd_file r.2))
  unfolding sys_read_handler is_standard store_file
  read_at d table k f count h e = let t : ltb k 3 ≡ false = ground (arith, h) in rw (t, e) refl

  lseek_at :
      (table : List (FdEntry Dir)) (k : ℕ) (f : FatFile) (offset : ℤ) (whence : Whence)
      → 8 ≤ k
      → entry_at table (pos k) ≡ fd_file f
      → (sys_lseek_handler dev v table (pos k) offset whence).1
        ≡ set table k (fd_file (fat_seek v f offset whence).1)
  unfolding sys_lseek_handler is_standard store_file
  lseek_at table k f offset whence h e =
      let t : ltb k 3 ≡ false = ground (arith, h) in rw (t, e) refl

module _ {dev : Device} {v : Volume} {size : ℕ} (m : IsMounted v) (sound : IsSound dev size)
    (room : getfirstdatasector v + getdatasectorcount v ≤ size)
    (small : v.sector_per_cluster < 2 ^ 8) {Dir : Type 0} where
  -- On a mounted volume with less than 2^8 sectors in a cluster that lies on a disk without errors,
  -- and with a table of 1024 descriptors, take a descriptor from 8 to 1023 of a file of less than
  -- 2^32 bytes which is open to read and to write, at a position of at most 2^31 - 1, and whose
  -- directory entry lies apart from the tables and from its clusters. Bytes, one at least, that are
  -- written through the descriptor inside the file are all written, and are read again through it
  -- once it has been moved back to where it was.
  pub sys_read_handler-sys_write_handler :
      (d : dev.Disk) (table : List (FdEntry Dir)) (k : ℕ) (f : FatFile) (rest : List ℕ)
      (source : List ℕ)
      → 8 ≤ k
      → k < 1024
      → length table ≡ 1024
      → entry_at table (pos k) ≡ fd_file f
      → IsOpen dev v d f rest
      → IsRecorded v size f rest
      → f.readable ≡ true
      → f.writable ≡ true
      → 0 < length source
      → f.position + length source ≤ f.size
      → f.size < 2 ^ 32
      → f.position ≤ 0x7FFFFFFF
      → let written = sys_write_handler dev v d table (pos k) source (length source) in
        let moved = sys_lseek_handler dev v written.1 (pos k) (pos f.position) seek_set in
        let got = sys_read_handler dev v written.2 moved.1 (pos k) (length source) in
        (written.0 ≡ length source) × (got.0 ≡ length source) × (got.1 ≡ source)
  sys_read_handler-sys_write_handler d table k f rest source h l len e o r readable writable
        some_bytes inside few low =
      let n = length source in
      let w = fat_write dev v d f 1 n source in
      let f' = (fat_seek v w.1 (pos f.position) seek_set).1 in
      let table' = set table k (fd_file w.1) in
      let l' : k < length table' = omega (arith, l, len, length-set table k (fd_file w.1)) in
      let here = entry_at-set table k (fd_file w.1) h l (omega (arith, l, len)) in
      let again = entry_at-set table' k (fd_file f') h l l' in
      let (a, b, c, bytes) =
        fat_read-fat_write m sound room small d f rest 1 n source o r readable writable
          (omega arith) some_bytes (omega (arith, inside, few)) (omega (arith, inside)) few low
          (omega arith) in
      rw
        (
          write_at dev v d table k f source n h e,
          lseek_at dev v table' k w.1 (pos f.position) seek_set h here,
          read_at dev v w.2 (set table' k (fd_file f')) k f' n h again,
        )
        (a, c, bytes)
