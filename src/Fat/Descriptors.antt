-- ===== src/Fat/Descriptors.antt =====
-- File descriptors, kernel/fat.c: `fat_open`, `fat_close`, and `alloc_fd` to `sys_write_handler`.
--
-- A path and a mode are lists of characters. The search for a file, `fat_find_file`, and for a
-- directory, `fat_opendir`, and `fat_closedir` are parameters; `calloc` has memory. Each open file
-- is held by one descriptor, which has the state of it in the place of the pointer. What
-- `sys_write_handler` prints on the console is left out.
pub mod Slots
pub mod Opening
pub mod ReadBack
pub mod Access
mod Tests
use fastsystem.Prelude.{
  ℕ, zero, suc, ◌+◌, ◌-◌, ◌*◌, ◌^◌, Bool, true, false, not, ◌&&◌, ◌||◌, Option, none, some, List,
  [], ◌∷◌, ltb, leb, ◌==◌, if◌then◌else◌, length, get_or, set, has, bit_and, bit_or, ℤ, pos, negsuc,
}
use fastsystem.Fat.Volume.{Volume, isfat32type, isfattype, hasactive}
use fastsystem.Fat.Entries.{Device}
use fastsystem.Fat.File.{FatFile, Whence, fat_file_ensure_size, fat_seek, fat_tell, fat_read}
use fastsystem.Fat.Write.{fat_file_update_directory_entry, fat_write}
use fastsystem.Fat.Xattr.{fails}

-- Of a file that was found: what `fat_open` reads.
pub record FoundFile : Type 0 where
  pub attribute : ℕ
  pub first_cluster_lo : ℕ
  pub first_cluster_hi : ℕ
  pub size : ℕ
  pub sector : ℕ
  pub offset : ℕ

pub getfilefirstcluster : Volume → FoundFile → ℕ
getfilefirstcluster v entry =
    if not (hasactive v) || not (isfattype v)
    then 0
    else if isfat32type v
    then bit_or entry.first_cluster_lo (entry.first_cluster_hi * 2 ^ 16)
    else entry.first_cluster_lo

-- An entry of `fd_table`: its type and its handle.
pub data FdEntry (Dir : Type 0) : Type 0 where
  fd_none : FdEntry Dir
  fd_file : FatFile → FdEntry Dir
  fd_dir : Dir → FdEntry Dir

pub is_none : {Dir : Type 0} → FdEntry Dir → Bool
is_none fd_none = true
is_none (fd_file f) = false
is_none (fd_dir dir) = false

-- The `for` of `alloc_fd`, from entry `i` with `left` to go.
pub alloc_loop : {Dir : Type 0} → ℕ → List (FdEntry Dir) → ℕ → Option ℕ
alloc_loop zero table i = none
alloc_loop (suc left) table i =
    let rest = alloc_loop left table (i + 1) in
    if is_none (get_or table i fd_none) then some i else rest

-- `none` is -EMFILE.
pub alloc_fd : {Dir : Type 0} → List (FdEntry Dir) → Option ℕ
alloc_fd table = alloc_loop (1024 - 8) table 8

-- The entry of a descriptor, where it is in range.
pub entry_at : {Dir : Type 0} → List (FdEntry Dir) → ℤ → FdEntry Dir
entry_at table (pos n) = if ltb n 8 || leb 1024 n then fd_none else get_or table n fd_none
entry_at table (negsuc n) = fd_none

-- The `mode` that `sys_open_handler` chooses: "r", "w", "a", "w+", "a+" or "r+".
pub open_mode : ℕ → List ℕ
open_mode flags =
    if bit_and flags 0x0003 == 0x0001
    then (if bit_and flags 0x0400 == 0 then 119 ∷ [] else 97 ∷ [])
    else if bit_and flags 0x0003 == 0x0002
    then (if not (bit_and flags 0x0400 == 0)
        then 97 ∷ 43 ∷ []
        else if not (bit_and flags 0x0040 == 0)
        then 119 ∷ 43 ∷ []
        else 114 ∷ 43 ∷ [])
    else 114 ∷ []

-- What the `switch` on the first character of the mode sets: readable, writable and append.
pub access : List ℕ → Option (Bool × Bool × Bool)
access [] = none
access (c ∷ rest) =
    let plus = has 43 (c ∷ rest) in
    if c == 114
    then some (true, false, false)
    else if c == 119
    then some (plus, true, false)
    else if c == 97
    then some (plus, true, true)
    else none

-- STDIN_FILENO, STDOUT_FILENO or STDERR_FILENO.
pub is_standard : ℤ → Bool
is_standard (pos n) = ltb n 3
is_standard (negsuc n) = false

pub is_stdin : ℤ → Bool
is_stdin (pos n) = n == 0
is_stdin (negsuc n) = false

module _ (dev : Device) (v : Volume) where
  open dev use {Disk}

  -- The file that `fat_open` fills in.
  pub opened_file : FoundFile → Bool → Bool → Bool → FatFile
  opened_file found readable writable append = record {
    open_file = true;
    readable = readable;
    writable = writable;
    first_cluster = getfilefirstcluster v found;
    position = if append then found.size else 0;
    size = found.size;
    eof = false;
    error = false;
    directory_sector = found.sector;
    directory_offset = found.offset;
  }

  -- The last part of `fat_open`: a file that is opened with "w" is cut.
  pub cut_file : Disk → FatFile → Option FatFile × Disk
  cut_file d f =
      let (cut, f', d') = fat_file_ensure_size dev v d f 0 in
      let f'' = record f' { size = 0; position = 0 } in
      let (noted, d'') = fat_file_update_directory_entry dev v d' f'' in
      if not cut then (none, d') else if not noted then (none, d'') else (some f'', d'')

  pub fat_open : (Disk → List ℕ → Option FoundFile) → Disk → List ℕ → List ℕ → Option FatFile × Disk
  fat_open fat_find_file d filename mode =
      if not (isfattype v) then (none, d) else elim (access mode) [
        | none ↦ (none, d)
        | some (readable, writable, append) ↦
            if not (hasactive v) || not (isfattype v)
            then (none, d)
            else elim (fat_find_file d filename) [
              | none ↦ (none, d)
              | some found ↦
                  let f = opened_file found readable writable append in
                  if not (bit_and found.attribute 0x10 == 0)
                  then (none, d)
                  else if get_or mode 0 0 == 119
                  then cut_file d f
                  else (some f, d)
            ]
      ]

  -- Whether the value returned is 0.
  pub fat_close : Disk → FatFile → Bool × Disk
  fat_close d f =
      if not f.open_file
      then (false, d)
      else if f.writable
      then fat_file_update_directory_entry dev v d f
      else (true, d)

  module _ {Dir : Type 0} where
    pub sys_open_handler :
        (Disk → List ℕ → Option FoundFile)
        → (Disk → List ℕ → Option Dir)
        → Disk
        → List (FdEntry Dir)
        → List ℕ
        → ℕ
        → ℤ × List (FdEntry Dir) × Disk
    sys_open_handler fat_find_file fat_opendir d table pathname flags =
        let opened = fat_open fat_find_file d pathname (open_mode flags) in
        elim (alloc_fd table) [
          | none ↦ (fails 24, table, d)
          | some fd ↦
              if not (bit_and flags 0x10000 == 0)
              then elim (fat_opendir d pathname) [
                | none ↦ (fails 2, table, d)
                | some dir ↦ (pos fd, set table fd (fd_dir dir), d)
              ]
              else elim opened.0 [
                | some file ↦ (pos fd, set table fd (fd_file file), opened.1)
                | none ↦ elim (fat_opendir opened.1 pathname) [
                  | none ↦ (fails 2, table, opened.1)
                  | some dir ↦ (pos fd, set table fd (fd_dir dir), opened.1)
                ]
              ]
        ]

    -- Clears an entry.
    pub release : List (FdEntry Dir) → ℤ → List (FdEntry Dir)
    release table (pos n) = set table n fd_none
    release table (negsuc n) = table

    -- `fat_closedir` says whether it returns 0.
    pub sys_close_handler :
        (Dir → Bool) → Disk → List (FdEntry Dir) → ℤ → ℤ × List (FdEntry Dir) × Disk
    sys_close_handler fat_closedir d table fd =
        if is_standard fd then (pos 0, table, d) else elim (entry_at table fd) [
          | fd_none ↦ (fails 9, table, d)
          | fd_file file ↦
              let closed = fat_close d file in
              (if closed.0 then pos 0 else fails 5, release table fd, closed.1)
          | fd_dir dir ↦ (if fat_closedir dir then pos 0 else fails 5, release table fd, d)
        ]

    -- The entry of a descriptor takes the file that a call leaves.
    pub store_file : List (FdEntry Dir) → ℤ → FatFile → List (FdEntry Dir)
    store_file table (pos n) f = set table n (fd_file f)
    store_file table (negsuc n) f = table

    pub sys_lseek_handler : List (FdEntry Dir) → ℤ → ℤ → Whence → ℤ × List (FdEntry Dir)
    sys_lseek_handler table fd offset whence =
        if is_standard fd then (fails 29, table) else elim (entry_at table fd) [
          | fd_none ↦ (fails 9, table)
          | fd_dir dir ↦ (fails 9, table)
          | fd_file file ↦
              let (moved, file') = fat_seek v file offset whence in
              (
                if not moved
                    then fails 22
                    else elim (fat_tell v file') [ none ↦ negsuc 0 | some p ↦ pos p ],
                store_file table fd file',
              )
        ]

    -- The value returned as a `size_t`, the bytes stored, and the table.
    pub sys_read_handler : Disk → List (FdEntry Dir) → ℤ → ℕ → ℕ × List ℕ × List (FdEntry Dir)
    sys_read_handler d table fd count =
        if is_standard fd
        then (if is_stdin fd then (0, [], table) else (2 ^ 32 - 9, [], table))
        else elim (entry_at table fd) [
          | fd_none ↦ (2 ^ 32 - 9, [], table)
          | fd_dir dir ↦ (2 ^ 32 - 9, [], table)
          | fd_file file ↦
              let (got, bytes, file') = fat_read dev v d file 1 count in
              (got, bytes, store_file table fd file')
        ]

    pub sys_write_handler :
        Disk → List (FdEntry Dir) → ℤ → List ℕ → ℕ → ℕ × List (FdEntry Dir) × Disk
    sys_write_handler d table fd source count =
        if is_standard fd
        then (if is_stdin fd then (2 ^ 32 - 9, table, d) else (count, table, d))
        else elim (entry_at table fd) [
          | fd_none ↦ (2 ^ 32 - 9, table, d)
          | fd_dir dir ↦ (2 ^ 32 - 9, table, d)
          | fd_file file ↦
              let (written, file', d') = fat_write dev v d file 1 count source in
              (written, store_file table fd file', d')
        ]
