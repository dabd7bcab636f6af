-- ===== src/Fat/Entries.antt =====
-- The entries of the file allocation table on the disk, kernel/fat.c: `getnextcluster`,
-- `readcluster` and `writecluster`.
--
-- `readsector` and `writesector` end in the controllers' drivers and are a parameter.
pub mod Bytes
pub mod Stored
pub mod Outside
pub mod Implements
pub mod Memory
mod Tests
use fastsystem.Prelude.{
  ℕ, zero, suc, ◌+◌, ◌-◌, ◌*◌, ◌/◌, ◌%◌, ◌^◌, ◌≤◌, ◌<◌, ◌≡◌, Bool, true, false, not, ◌&&◌, ◌||◌,
  Option, none, some, List, ltb, leb, ◌==◌, if◌then◌else◌, u16, u32, length, get_or, set, bit_and,
  bit_or,
}
use fastsystem.Fat.Volume.{
  Volume, sectorsize, hasactive, isfat16type, isfat32type, isfattype, getfatsize, getsectornumber,
  getentryoffset, getfatentrysize, getfatsector, getfatentryoffset,
}

-- `read` is `none`, and `write` is `false`, where the call reports an error.
pub record Device : Type 1 where
  pub Disk : Type 0
  pub read : Disk → ℕ → Option (List ℕ)
  pub write : Disk → ℕ → List ℕ → Bool × Disk

-- A disk of `size` sectors without errors.
pub record IsSound (dev : Device) (size : ℕ) : Type 0 where
  pub read_done :
      (d : dev.Disk) (n : ℕ)
      → n < size
      → (b : List ℕ) × (dev.read d n ≡ some b) × (length b ≡ sectorsize)
  pub write_done :
      (d : dev.Disk) (n : ℕ) (b : List ℕ)
      → n < size
      → length b ≡ sectorsize
      → (dev.write d n b).0 ≡ true
  pub read-write :
      (d : dev.Disk) (n m : ℕ) (b : List ℕ)
      → n < size
      → length b ≡ sectorsize
      → dev.read (dev.write d n b).1 m ≡ (if m == n then some b else dev.read d m)

-- Little-endian values in a buffer, as `memcpy` between the buffer and a variable moves them.
unfoldable pub le16 : List ℕ → ℕ → ℕ
le16 b o = get_or b o 0 + get_or b (o + 1) 0 * 2 ^ 8

pub le32 : List ℕ → ℕ → ℕ
le32 b o =
    get_or b o 0
    + get_or b (o + 1) 0 * 2 ^ 8
    + get_or b (o + 2) 0 * 2 ^ 16
    + get_or b (o + 3) 0 * 2 ^ 24

pub put16 : List ℕ → ℕ → ℕ → List ℕ
put16 b o x = set (set b o (x % 2 ^ 8)) (o + 1) (x / 2 ^ 8 % 2 ^ 8)

pub put32 : List ℕ → ℕ → ℕ → List ℕ
put32 b o x =
    set (set (set (set b o (x % 2 ^ 8)) (o + 1) (x / 2 ^ 8 % 2 ^ 8)) (o + 2) (x / 2 ^ 16 % 2 ^ 8))
      (o + 3) (x / 2 ^ 24 % 2 ^ 8)

module _ (dev : Device) (v : Volume) where
  open dev use {Disk, read, write}

  -- There is no check of the offset here.
  pub getnextcluster : Disk → ℕ → ℕ
  getnextcluster d cluster =
      if not (hasactive v)
      then 0
      else if not (isfattype v)
      then 0
      else let offset = getentryoffset v cluster in
        elim (read d (u32 (v.lba_start + getsectornumber v cluster))) [
          | none ↦ 0
          | some sector ↦
              if isfat16type v then le16 sector offset else bit_and (le32 sector offset) 0x0FFFFFFF
        ]

  -- The part of `readcluster` behind the read.
  pub entry_value : List ℕ → ℕ → ℕ
  entry_value buffer offset =
      if isfat16type v
      then if ltb sectorsize (offset + 2) then 0 else bit_and (le16 buffer offset) 0xFFFF
      else if isfat32type v
      then if ltb sectorsize (offset + 4) then 0 else bit_and (le32 buffer offset) 0x0FFFFFFF
      else 0

  unfoldable pub readcluster : Disk → ℕ → ℕ
  readcluster d cluster =
      if not (hasactive v) || not (isfattype v)
      then 0
      else if ltb cluster 2
      then 0
      else let sector = getfatsector v cluster in
        let offset = getfatentryoffset v cluster in
        if sector == 0 || leb sectorsize offset
        then 0
        else elim (read d sector) [ none ↦ 0 | some buffer ↦ entry_value buffer offset ]

  -- The new contents of a sector of the table. The upper four bits of a long entry stay.
  pub patched : List ℕ → ℕ → ℕ → List ℕ
  patched buffer offset value =
      if isfat16type v
      then put16 buffer offset (u16 value)
      else put32 buffer offset
          (bit_or (bit_and (le32 buffer offset) 0xF0000000) (bit_and value 0x0FFFFFFF))

  -- The `for` of `writecluster`, at copy `i` with `left` copies to go.
  pub write_copies : ℕ → ℕ → ℕ → ℕ → ℕ → Disk → Bool × Disk
  write_copies zero i sector offset value d = (true, d)
  write_copies (suc left) i sector offset value d =
      let fat_sector = u32 (sector + i * getfatsize v) in
      elim (read d fat_sector) [
        | none ↦ (false, d)
        | some buffer ↦
            let (done, d') = write d fat_sector (patched buffer offset value) in
            elim done [
              | false ↦ (false, d')
              | true ↦ write_copies left (i + 1) sector offset value d'
            ]
      ]

  pub writecluster : Disk → ℕ → ℕ → Bool × Disk
  writecluster d cluster value =
      if not (hasactive v) || not (isfattype v)
      then (false, d)
      else if ltb cluster 2
      then (false, d)
      else let entry_size = getfatentrysize v in
        let masked = if isfat16type v then bit_and value 0xFFFF else bit_and value 0x0FFFFFFF in
        let sector = getfatsector v cluster in
        let offset = getfatentryoffset v cluster in
        if entry_size == 0
        then (false, d)
        else if getfatsize v == 0
        then (false, d)
        else if sector == 0 || ltb sectorsize (offset + entry_size)
        then (false, d)
        else write_copies v.number_fats 0 sector offset masked d
