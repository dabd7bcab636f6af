-- ===== src/Fat/Descriptors/Tests.antt =====
-- Descriptors of the file on the small disk in memory, and the theorems at concrete inputs.
use fastsystem.Prelude.{
  ℕ, ◌≡◌, refl, arith, Bool, true, false, Option, none, some, List, [], ◌∷◌, length, replicate,
  length-replicate, set, length-set, pos,
}
use fastsystem.Fat.Volume.{isfattype, hasactive}
use fastsystem.Fat.Volume.Sample.{small_volume, small_volume-IsMounted}
use fastsystem.Fat.Entries.Memory.{memory_disk, memory_disk-IsSound}
use fastsystem.Fat.File.{FatFile, seek_set}
use fastsystem.Fat.Volume.Mounted.{mounted-active, mounted-type}
use fastsystem.Fat.File.Sample.{linked, some_file, some_file-IsOpen, data_room}
use fastsystem.Fat.Write.Sample.{some_file-IsRecorded}
use fastsystem.Fat.Descriptors.{
  FoundFile, FdEntry, fd_none, fd_file, is_none, alloc_loop, alloc_fd, open_mode, access,
  opened_file, fat_open, sys_open_handler, sys_close_handler, sys_lseek_handler, sys_read_handler,
  sys_write_handler,
}
use fastsystem.Fat.Descriptors.Slots.{entry_at-set}
use fastsystem.Fat.Descriptors.Opening.{
  Outcome, sys_open_handler_lem, sys_close_handler-sys_open_handler,
}
use fastsystem.Fat.Descriptors.ReadBack.{sys_read_handler-sys_write_handler}
use fastsystem.Fat.Descriptors.Access.{fat_open-open_mode}

abbrev found_file : FoundFile
found_file = record {
  attribute = 0;
  first_cluster_lo = 5;
  first_cluster_hi = 0;
  size = 600;
  sector = 66;
  offset = 0;
}

-- Every path is the file at 5 and no path is a directory.
abbrev find_some : (ℕ → ℕ → ℕ) → List ℕ → Option FoundFile
find_some d path = some found_file

abbrev updated_file : FatFile
updated_file = opened_file memory_disk small_volume found_file true false false

-- Opened to read and to write, without a flag to append or to create.
updated :
    (fat_open memory_disk small_volume find_some linked (97 ∷ []) (open_mode 2)).0
    ≡ some updated_file
unfolding fat_open open_mode access
updated =
    let t : isfattype small_volume ≡ true = mounted-type small_volume-IsMounted in
    let a : hasactive small_volume ≡ true = mounted-active small_volume-IsMounted in
    rw (fat_open, t, a) refl

abbrev no_directory : (ℕ → ℕ → ℕ) → List ℕ → Option ℕ
no_directory d path = none

abbrev never : ℕ → Bool
never dir = false

abbrev empty_table : List (FdEntry ℕ)
empty_table = replicate 1024 fd_none

table_size : length empty_table ≡ 1024
table_size = length-replicate {A = FdEntry ℕ} 1024 fd_none

sys_open_handler_lem_example :
    let result =
      sys_open_handler memory_disk small_volume find_some no_directory linked empty_table
        (97 ∷ [])
        2 in
    Outcome memory_disk small_volume find_some no_directory linked empty_table
      (97 ∷ [])
      2
      result.0
      result.1
      result.2
sys_open_handler_lem_example =
    sys_open_handler_lem memory_disk small_volume find_some no_directory linked empty_table
      (97 ∷ []) 2

lowest : alloc_fd empty_table ≡ some 8
unfolding alloc_fd alloc_loop is_none
lowest = refl

first_descriptor :
    (sys_open_handler memory_disk small_volume find_some no_directory linked empty_table
      (97 ∷ [])
      2).0
    ≡ pos 8
unfolding sys_open_handler
first_descriptor = rw (sys_open_handler, lowest, updated) refl

sys_close_handler-sys_open_handler_example :
    let result =
      sys_open_handler memory_disk small_volume find_some no_directory linked empty_table
        (97 ∷ [])
        2 in
    (sys_close_handler memory_disk small_volume never result.2 result.1 (pos 8)).1 ≡ empty_table
sys_close_handler-sys_open_handler_example =
    sys_close_handler-sys_open_handler memory_disk small_volume find_some no_directory never linked
      empty_table (97 ∷ []) 2 8 table_size first_descriptor

abbrev one_file : List (FdEntry ℕ)
one_file = set empty_table 9 (fd_file some_file)

abbrev three_bytes : List ℕ
three_bytes = 7 ∷ 8 ∷ 9 ∷ []

sys_read_handler-sys_write_handler_example :
    let written =
      sys_write_handler memory_disk small_volume linked one_file (pos 9) three_bytes 3 in
    let moved = sys_lseek_handler memory_disk small_volume written.1 (pos 9) (pos 500) seek_set in
    let got = sys_read_handler memory_disk small_volume written.2 moved.1 (pos 9) 3 in
    (written.0 ≡ 3) × (got.0 ≡ 3) × (got.1 ≡ three_bytes)
sys_read_handler-sys_write_handler_example =
    sys_read_handler-sys_write_handler small_volume-IsMounted memory_disk-IsSound data_room
      (omega arith) linked one_file 9 some_file (6 ∷ []) three_bytes (omega arith) (omega arith)
      (omega (arith, length-set empty_table 9 (fd_file some_file), table_size))
      (entry_at-set empty_table 9 (fd_file some_file) (omega arith) (omega arith)
        (omega (arith, table_size)))
      some_file-IsOpen some_file-IsRecorded refl refl (omega arith) (omega arith) (omega arith)
      (omega arith)

fat_open-open_mode_example : let f = updated_file in (f.readable ≡ true) × (f.writable ≡ false)
fat_open-open_mode_example =
    fat_open-open_mode memory_disk small_volume find_some linked (97 ∷ []) 2 (updated_file) updated
