-- ===== src/Fat/LongName/Tests.antt =====
-- A long name on the disk in memory.
use fastsystem.Prelude.{
  ℕ, ◌+◌, ◌*◌, ◌≤◌, ◌<◌, ◌≡◌, ◌≢◌, ◌⊎◌, refl, ap, arith, true, List, [], ◌∷◌, length, get_or, some,
}
use fastsystem.Names.{lfn_entry_count}
use fastsystem.Names.Short.{lfn_entry_count_lem}
use fastsystem.Names.Utf.{utf8_to_utf16}
use fastsystem.Names.Utf.Sample.{mixed, mixed-units}
use fastsystem.Fat.Volume.Sample.{small_volume}
use fastsystem.Fat.Entries.Memory.{memory_disk, memory_disk-IsSound, blank}
use fastsystem.Fat.File.{slice}
use fastsystem.Fat.File.Contents.{sector_byte}
use fastsystem.Fat.LongName.{get_lfn_name, file_entry, write_file_directory_entries}
use fastsystem.Fat.LongName.RoundTrip.{get_lfn_name-write_file_directory_entries}

-- "MIXED      ".
abbrev short : List ℕ
short = 77 ∷ 73 ∷ 88 ∷ 69 ∷ 68 ∷ 32 ∷ 32 ∷ 32 ∷ 32 ∷ 32 ∷ 32 ∷ []

one_entry : lfn_entry_count (length (utf8_to_utf16 mixed 255)) ≡ 1
one_entry =
    let five : length (utf8_to_utf16 mixed 255) ≡ 5 = ap length mixed-units in
    omega
      (arith, five, lfn_entry_count_lem (length (utf8_to_utf16 mixed 255)) (omega (arith, five)))

get_lfn_name-write_file_directory_entries_example :
    let n = lfn_entry_count (length (utf8_to_utf16 mixed 255)) in
    let r = write_file_directory_entries memory_disk small_volume blank 66 64 mixed short 5 600 in
    (r.0 ≡ true)
    × (b : List ℕ) × (memory_disk.read r.1 66 ≡ some b)
    × (get_lfn_name (slice b 64 (n * 32)) n 256 ≡ (true, mixed))
    × (slice b (64 + n * 32) 32 ≡ file_entry memory_disk small_volume short 5 600)
    × ((x : ℕ)
        → (x < 64) ⊎ (64 + (n + 1) * 32 ≤ x)
        → get_or b x 0 ≡ sector_byte memory_disk small_volume blank 66 x)
    × ((m : ℕ) → m ≢ 66 → memory_disk.read r.1 m ≡ memory_disk.read blank m)
get_lfn_name-write_file_directory_entries_example =
    get_lfn_name-write_file_directory_entries small_volume memory_disk-IsSound blank 66 64 mixed
      short 5 600 256 refl (rw mixed-units (λ e. cc)) (rw mixed-units refl) (omega arith)
      (omega (arith, one_entry)) (omega arith)
