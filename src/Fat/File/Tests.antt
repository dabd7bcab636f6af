-- ===== src/Fat/File/Tests.antt =====
-- Open files on the small disk in memory.
use fastsystem.Prelude.{◌/◌, ◌≡◌, refl, arith, true, [], ◌∷◌, negsuc}
use fastsystem.Fat.Volume.Sample.{small_volume, small_volume-IsMounted}
use fastsystem.Fat.Entries.Memory.{memory_disk, memory_disk-IsSound}
use fastsystem.Fat.File.{seek_base, seek_end, fat_read, fat_seek}
use fastsystem.Fat.File.Contents.{range, chain_byte}
use fastsystem.Fat.File.Reading.{fat_read_lem}
use fastsystem.Fat.File.Position.{target, sought, fat_seek_lem}
use fastsystem.Fat.File.Sample.{linked, some_file, some_file-valid, some_file-IsOpen, data_room}

fat_read_lem_example : fat_read memory_disk small_volume linked some_file 1 200 ≡ (
  100 / 1,
  range (chain_byte memory_disk small_volume linked (5 ∷ 6 ∷ [])) 500 100,
  record some_file { position = 600; eof = true },
)
fat_read_lem_example =
    fat_read_lem small_volume-IsMounted memory_disk-IsSound data_room (omega arith) linked some_file
      (6 ∷ []) some_file-IsOpen 1 200 refl (omega arith) (omega arith) (omega arith) (omega arith)

-- From the end back to the start, and too far.
fat_seek_lem_example :
    fat_seek small_volume some_file (negsuc 600) seek_end
    ≡ sought some_file (target 600 (negsuc 600))
unfolding seek_base
fat_seek_lem_example =
    fat_seek_lem small_volume some_file (negsuc 600) seek_end 600 some_file-valid refl (omega arith)
      (omega arith)
