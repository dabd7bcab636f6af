-- ===== src/Fat/LongName.antt =====
-- Long names in directories, kernel/fat.c: `get_lfn_name`, `write_lfn_entry` and
-- `write_file_directory_entries`.
--
-- A pointer into a buffer is the buffer and an index, or what is left of it from there. The units
-- of a name that `get_lfn_name` stores behind the end of `chars` (one entry of 20 reaches 5 units
-- farther) are lost here; the source overwrites what follows on the stack.
pub mod Parts
pub mod Stored
pub mod Found
pub mod RoundTrip
mod Tests
use fastsystem.Prelude.{
  ℕ, zero, suc, ◌+◌, ◌-◌, ◌*◌, ◌/◌, ◌%◌, ◌^◌, Bool, true, false, not, ◌&&◌, ◌||◌, Option, none,
  some, List, [], ◌∷◌, ◌++◌, ltb, leb, ◌==◌, if◌then◌else◌, u8, u16, u32, length, get_or, set,
  replicate, bit_and, bit_or,
}
use fastsystem.Names.{lfn_checksum, lfn_entry_count}
use fastsystem.Names.Utf.{utf8_to_utf16, utf16_to_utf8}
use fastsystem.Fat.Volume.{Volume, sectorsize, isfat32type}
use fastsystem.Fat.Entries.{Device, le16, put16, put32}
use fastsystem.Fat.File.{slice}
use fastsystem.Fat.Write.{paste, set_current_datetime}

pub record LfnEntry : Type 0 where
  pub order : ℕ
  pub name1 : List ℕ
  pub attribute : ℕ
  pub kind : ℕ
  pub checksum : ℕ
  pub name2 : List ℕ
  pub first_cluster : ℕ
  pub name3 : List ℕ

-- Units of 16 bits as bytes, and bytes as units.
pub unit_bytes : List ℕ → List ℕ
unit_bytes [] = []
unit_bytes (u ∷ us) = u % 2 ^ 8 ∷ u / 2 ^ 8 % 2 ^ 8 ∷ unit_bytes us

pub units_at : List ℕ → ℕ → ℕ → List ℕ
units_at b o zero = []
units_at b o (suc n) = le16 b o ∷ units_at b (o + 2) n

-- The 32 bytes of an entry, and the entry at an index.
pub lfn_bytes : LfnEntry → List ℕ
lfn_bytes e =
    e.order
    ∷ (unit_bytes e.name1
        ++ e.attribute
          ∷ e.kind
          ∷ e.checksum
          ∷ (unit_bytes e.name2 ++ (unit_bytes (e.first_cluster ∷ []) ++ unit_bytes e.name3)))

pub lfn_at : List ℕ → ℕ → LfnEntry
lfn_at b o = record {
  order = get_or b o 0;
  name1 = units_at b (o + 1) 5;
  attribute = get_or b (o + 11) 0;
  kind = get_or b (o + 12) 0;
  checksum = get_or b (o + 13) 0;
  name2 = units_at b (o + 14) 6;
  first_cluster = le16 b (o + 26);
  name3 = units_at b (o + 28) 2;
}

-- The two `for`s for a part of `n` characters of a name, the first of which is character `i`.
pub name_part : ℕ → ℕ → List ℕ → ℕ → ℕ → List ℕ
name_part zero i name s name_length = []
name_part (suc n) i name s name_length =
    (if ltb i name_length then get_or name (s + i) 0 else 0xFFFF)
    ∷ name_part n (i + 1) name s name_length

-- What `write_lfn_entry` stores for the name at the index `s`.
pub lfn_entry : ℕ → List ℕ → ℕ → ℕ → ℕ → LfnEntry
lfn_entry order name s name_length checksum =
    let name1 = name_part 5 0 name s name_length in
    let name2 = name_part 6 5 name s name_length in
    let name3 = name_part 2 11 name s name_length in
    record {
      order = order;
      name1 = if ltb name_length 5 then set name1 name_length 0 else name1;
      attribute = 0x0F;
      kind = 0;
      checksum = checksum;
      name2 =
          if ltb name_length 5
          then name2
          else if ltb name_length 11
          then set name2 (name_length - 5) 0
          else name2;
      first_cluster = 0;
      name3 =
          if ltb name_length 11
          then name3
          else if ltb name_length 13
          then set name3 (name_length - 11) 0
          else name3;
    }

pub write_lfn_entry : List ℕ → ℕ → ℕ → List ℕ → ℕ → ℕ → ℕ → Bool × List ℕ
write_lfn_entry buffer offset order name s name_length checksum =
    if ltb sectorsize (u32 (offset + 32))
    then (false, buffer)
    else (true, paste buffer offset (lfn_bytes (lfn_entry order name s name_length checksum)) 0 32)

-- The `for` of `write_file_directory_entries`, at entry `i` with `left` to go.
pub write_lfn_entries : ℕ → ℕ → List ℕ → ℕ → List ℕ → ℕ → ℕ → Bool × List ℕ
write_lfn_entries zero i buffer offset name lfn_count checksum = (true, buffer)
write_lfn_entries (suc left) i buffer offset name lfn_count checksum =
    let number = u8 (lfn_count - i) in
    let order = if i == 0 then bit_or number 0x40 else number in
    let character_offset = (lfn_count - 1 - i) * 13 in
    let remaining = length name - character_offset in
    let count =
      if leb (length name) character_offset
      then 0
      else if ltb 13 remaining
      then 13
      else remaining in
    let here =
      write_lfn_entry buffer (offset + i * 32) order name character_offset count checksum in
    let rest = write_lfn_entries left (i + 1) here.1 offset name lfn_count checksum in
    if not here.0 then (false, here.1) else rest

-- One turn of the `for` of `get_lfn_name`: the characters, and `max_order`.
pub load_entry : LfnEntry → List ℕ → ℕ → Option (List ℕ × ℕ)
load_entry entry chars max_order =
    let order = bit_and entry.order 0x1F in
    let base = (order - 1) * 13 in
    let chars = paste chars base entry.name1 0 5 in
    let chars = paste chars (base + 5) entry.name2 0 6 in
    let chars = paste chars (base + 11) entry.name3 0 2 in
    if not (entry.attribute == 0x0F)
    then none
    else if order == 0 || ltb 20 order
    then none
    else some (chars, if bit_and entry.order 0x40 == 0 then max_order else order)

-- The `for`, at entry `i` with `left` to go.
pub load_entries : ℕ → ℕ → List ℕ → List ℕ → ℕ → Option (List ℕ × ℕ)
load_entries zero i raw_entries chars max_order = some (chars, max_order)
load_entries (suc left) i raw_entries chars max_order =
    elim (load_entry (lfn_at raw_entries (i * 32)) chars max_order) [
      | none ↦ none
      | some (chars', max_order') ↦ load_entries left (i + 1) raw_entries chars' max_order'
    ]

-- The value returned, and the string in `output` if it is true.
pub get_lfn_name : List ℕ → ℕ → ℕ → Bool × List ℕ
get_lfn_name raw_entries entry_count output_size =
    if output_size == 0
    then (false, [])
    else elim (load_entries entry_count 0 raw_entries (replicate 255 0xFFFF) 0) [
      | none ↦ (false, [])
      | some (chars, max_order) ↦
          let char_count = if ltb 255 (max_order * 13) then 255 else max_order * 13 in
          if max_order == 0 || ltb entry_count max_order
          then (false, [])
          else utf16_to_utf8 (slice chars 0 char_count) output_size
    ]

module _ (dev : Device) (v : Volume) where
  open dev use {Disk, read, write}

  -- The entry of the file itself: the name at 0, the attribute at 11, the size at 28, the cluster
  -- at 20 and 26.
  pub file_entry : List ℕ → ℕ → ℕ → List ℕ
  file_entry dos_name cluster file_size =
      let e = paste (replicate 32 0) 0 dos_name 0 11 in
      let e = set e 11 0x20 in
      let e = put32 e 28 file_size in
      let e = put16 e 20 (if isfat32type v then u16 (cluster / 2 ^ 16) else 0) in
      let e = put16 e 26 (cluster % 2 ^ 16) in set_current_datetime e 0

  pub write_file_directory_entries : Disk → ℕ → ℕ → List ℕ → List ℕ → ℕ → ℕ → Bool × Disk
  write_file_directory_entries d sector offset long_name dos_name cluster file_size =
      let utf16_name = utf8_to_utf16 long_name 255 in
      let lfn_count = lfn_entry_count (length utf16_name) in
      if length utf16_name == 0 || ltb 255 (length utf16_name)
      then (false, d)
      else if lfn_count == 0 || ltb 20 lfn_count
      then (false, d)
      else if ltb sectorsize (u32 (offset + (lfn_count + 1) * 32))
      then (false, d)
      else elim (read d sector) [
        | none ↦ (false, d)
        | some buffer ↦
            let (done, named) =
              write_lfn_entries lfn_count 0 buffer offset utf16_name lfn_count
                (lfn_checksum dos_name) in
            if not done
            then (false, d)
            else write d sector
                (paste named (offset + lfn_count * 32) (file_entry dos_name cluster file_size) 0 32)
      ]
