-- ===== src/Fat/Xattr.antt =====
-- Extended attributes, kernel/fat.c: `fat_xattr_find` to `fat_removexattr`.
--
-- The table is a list of 64 entries. A path, a name and a value that are passed are not NULL, and a
-- value has `size` bytes; the strings in an entry are those before the 0.
pub mod Keys
pub mod Store
pub mod Slots
pub mod Search
pub mod Reads
pub mod Accepted
pub mod Calls
mod Tests
use fastsystem.Prelude.{
  ℕ, zero, suc, ◌+◌, ◌-◌, ◌*◌, ◌^◌, Bool, true, false, not, ◌&&◌, ◌||◌, Option, none, some, List,
  [], ◌∷◌, ltb, leb, ◌==◌, if◌then◌else◌, length, get_or, set, replicate, bit_and, ℤ, pos, negsuc,
}
use fastsystem.Strings.{strcmp}
use fastsystem.Strings.Compare.{is_zero}
use fastsystem.Fat.File.{slice}
use fastsystem.Fat.Write.{paste}

pub record XattrEntry : Type 0 where
  pub used : Bool
  pub path : List ℕ
  pub name : List ℕ
  pub value : List ℕ
  pub size : ℕ

-- An entry that `memset` has cleared.
abbrev pub cleared : XattrEntry
cleared = record { used = false; path = []; name = []; value = replicate 1024 0; size = 0 }

-- An error number as it is returned.
abbrev pub fails : ℕ → ℤ
fails zero = pos 0
fails (suc n) = negsuc n

-- The tests of a turn of `fat_xattr_find`.
pub matches : XattrEntry → List ℕ → List ℕ → Bool
matches e path name = e.used && is_zero (strcmp e.path path) && is_zero (strcmp e.name name)

-- The `for`s from entry `i` on; `none` is -1.
pub find_entry : List XattrEntry → ℕ → List ℕ → List ℕ → Option ℕ
find_entry [] i path name = none
find_entry (e ∷ es) i path name =
    let rest = find_entry es (i + 1) path name in if matches e path name then some i else rest

pub fat_xattr_find : List XattrEntry → List ℕ → List ℕ → Option ℕ
fat_xattr_find table path name = find_entry table 0 path name

pub find_free : List XattrEntry → ℕ → Option ℕ
find_free [] i = none
find_free (e ∷ es) i = let rest = find_free es (i + 1) in if not e.used then some i else rest

pub fat_xattr_find_free : List XattrEntry → Option ℕ
fat_xattr_find_free table = find_free table 0

pub fat_xattr_valid_name : List ℕ → Bool
fat_xattr_valid_name name =
    if length name == 0 then false else if leb 128 (length name) then false else true

pub fat_xattr_valid_path : List ℕ → Bool
fat_xattr_valid_path path =
    if length path == 0 then false else if leb 256 (length path) then false else true

-- The last part of `fat_setxattr`, on the entry at an index.
pub store_entry : List XattrEntry → ℕ → List ℕ → List ℕ → List ℕ → ℕ → ℤ × List XattrEntry
store_entry table index path name value size =
    if leb 256 (length path)
    then (fails 36, table)
    else if leb 128 (length name)
    then (fails 36, table)
    else (
      pos size,
      set table index record {
        used = true;
        path = path;
        name = name;
        value = paste (replicate 1024 0) 0 value 0 size;
        size = size;
      },
    )

pub fat_setxattr : List XattrEntry → List ℕ → List ℕ → List ℕ → ℕ → ℕ → ℤ × List XattrEntry
fat_setxattr table path name value size flags =
    let creating = not (bit_and flags 0x01 == 0) in
    let replacing = not (bit_and flags 0x02 == 0) in
    if not (fat_xattr_valid_path path)
    then (fails 22, table)
    else if not (fat_xattr_valid_name name)
    then (fails 22, table)
    else if not (bit_and flags 0xFFFFFFFC == 0)
    then (fails 22, table)
    else if creating && replacing
    then (fails 22, table)
    else if ltb 1024 size
    then (fails 34, table)
    else elim (fat_xattr_find table path name) [
      | some index ↦
          if creating then (fails 17, table) else store_entry table index path name value size
      | none ↦ if replacing then (fails 61, table) else elim (fat_xattr_find_free table) [
        | none ↦ (fails 28, table)
        | some index ↦ store_entry table index path name value size
      ]
    ]

-- The value returned, and the bytes stored in the buffer; `wanted` is that there is one.
pub fat_getxattr : List XattrEntry → List ℕ → List ℕ → Bool → ℕ → ℤ × List ℕ
fat_getxattr table path name wanted size =
    if not (fat_xattr_valid_path path)
    then (fails 22, [])
    else if not (fat_xattr_valid_name name)
    then (fails 22, [])
    else elim (fat_xattr_find table path name) [
      | none ↦ (fails 61, [])
      | some index ↦
          let entry = get_or table index cleared in
          if not wanted
          then (pos entry.size, [])
          else if ltb size entry.size
          then (fails 34, [])
          else (pos entry.size, slice entry.value 0 entry.size)
    ]

pub fat_removexattr : List XattrEntry → List ℕ → List ℕ → ℤ × List XattrEntry
fat_removexattr table path name =
    if not (fat_xattr_valid_path path)
    then (fails 22, table)
    else if not (fat_xattr_valid_name name)
    then (fails 22, table)
    else elim (fat_xattr_find table path name) [
      | none ↦ (fails 61, table)
      | some index ↦ (pos 0, set table index cleared)
    ]
