-- ===== src/Fat/LongName/RoundTrip.antt =====
-- `get_lfn_name` of what `write_file_directory_entries` stored.
use fastsystem.Prelude.{
  ℕ, zero, suc, ◌+◌, ◌-◌, ◌*◌, ◌^◌, ◌≤◌, ◌<◌, ◌≡◌, ◌≢◌, ◌∙◌, refl, sym, ap, arith, true, false, inl,
  ◌⊎◌, some, List, [], ◌∷◌, ◌++◌, ltb, leb, ◌==◌, if◌then◌else◌, length, get_or, replicate,
  length-replicate, length-set, has, u8, u32, bit_or,
}
use mathlib.Core.Path.{subst}
use fastsystem.Names.{lfn_entry_count, lfn_checksum}
use fastsystem.Names.Short.{lfn_entry_count_lem}
use fastsystem.Names.Utf.{utf8_to_utf16, utf16_to_utf8}
use fastsystem.Names.Utf.Decode.{is_text}
use fastsystem.Names.Utf.RoundTrip.{utf16_to_utf8-utf8_to_utf16}
use fastsystem.Names.Utf.Units.{
  AreUnits, utf8_to_utf16-AreUnits, Stops, Stops-nothing, Stops-zero, utf16_to_utf8-append,
}
use fastsystem.Fat.Volume.{Volume, sectorsize}
use fastsystem.Fat.Entries.{Device, IsSound}
use fastsystem.Fat.Entries.Bytes.{length-put16, length-put32}
use fastsystem.Fat.File.{slice}
use fastsystem.Fat.File.Contents.{
  sector_byte, sector_byte-read, range, get_or-range, range-ext, range-append, range-get_or,
  slice-range,
}
use fastsystem.Fat.Write.{paste}
use fastsystem.Fat.Write.Bytes.{
  range-over, over, get_or-paste, length-paste, length-set_current_datetime,
}
use fastsystem.Fat.LongName.{
  lfn_at, lfn_entry, write_lfn_entries, get_lfn_name, file_entry, write_file_directory_entries,
}
use fastsystem.Fat.LongName.Parts.{padded, lfn_entry-padded, IsLfnEntry, lfn_at-lfn_bytes}
use fastsystem.Fat.LongName.Stored.{
  entry_of, with_entries, with_entries-inside, write_lfn_entries_lem,
}
use fastsystem.Fat.LongName.Found.{load_entries_lem}

length-file_entry :
    (dev : Device) (v : Volume) (dos_name : List ℕ) (cluster file_size : ℕ)
    → length (file_entry dev v dos_name cluster file_size) ≡ 32
unfolding file_entry
length-file_entry dev v dos_name cluster file_size =
    simp (length-set_current_datetime, length-put16, length-put32, length-set, length-paste)

lfn_entry-IsLfnEntry :
    (order : ℕ) (name : List ℕ) (s n checksum : ℕ)
    → AreUnits name
    → IsLfnEntry (lfn_entry order name s n checksum)
lfn_entry-IsLfnEntry order name s n checksum small =
    subst IsLfnEntry (sym (lfn_entry-padded name s n order checksum)) record {
      five = refl;
      six = refl;
      two = refl;
      small1 = unit 0 5;
      small2 = unit 5 6;
      small3 = unit 11 2;
      small_cluster = omega arith;
    }
  where
    character : (k : ℕ) → padded name s n k < 2 ^ 16
    character k = ground (arith, small (s + k))

    unit : (i count k : ℕ) → get_or (range (padded name s n) i count) k 0 < 2 ^ 16
    unit i zero k = omega arith
    unit i (suc count) zero = character i
    unit i (suc count) (suc k) = unit (i + 1) count k

-- The characters of a name are the name and, where there is room, its end.
padded-Stops :
    (name : List ℕ) (r size : ℕ) → Stops (range (padded name 0 (length name)) (length name) r) size
padded-Stops name zero size = Stops-nothing size
padded-Stops name (suc r) size =
    let l = length name in
    let z : padded name 0 l l ≡ 0 = ground arith in
    subst (λ c. Stops (c ∷ range (padded name 0 l) (l + 1) r) size) (sym z)
      (Stops-zero (range (padded name 0 l) (l + 1) r) size)

padded-name :
    (name : List ℕ) (n : ℕ)
    → length name ≤ n
    → range (padded name 0 (length name)) 0 n
      ≡ name ++ range (padded name 0 (length name)) (length name) (n - length name)
padded-name name n h =
    let l = length name in
    let whole : l + (n - l) ≡ n = omega (arith, h) in
    let z : 0 + l ≡ l = omega arith in
    let front : range (padded name 0 l) 0 l ≡ name =
      range-ext (padded name 0 l) (λ i. get_or name i 0) 0 0 l
        (λ k lt.
          let e : 0 + (0 + k) ≡ 0 + k = omega arith in
          ground (arith, lt, ap (λ (i : ℕ). get_or name i 0) e))
      ∙ range-get_or name in
    ap (range (padded name 0 l) 0) (sym whole)
    ∙ sym (range-append (padded name 0 l) 0 l (n - l))
    ∙ ap (λ (i : ℕ). range (padded name 0 l) 0 l ++ range (padded name 0 l) i (n - l)) z
    ∙ ap (λ (xs : List ℕ). xs ++ range (padded name 0 l) l (n - l)) front

-- A name whose entries stand in a list of bytes.
get_lfn_name_lem :
    (name raw : List ℕ) (n checksum output_size : ℕ) (s : List ℕ)
    → 0 < length name
    → n ≡ lfn_entry_count (length name)
    → n ≤ 19
    → ((i : ℕ) → i < n → lfn_at raw (i * 32) ≡ entry_of name n checksum i)
    → 0 < output_size
    → utf16_to_utf8 name output_size ≡ (true, s)
    → get_lfn_name raw n output_size ≡ (true, s)
unfolding get_lfn_name
get_lfn_name_lem name raw n checksum output_size s some_name count fits stored sized e =
    let counted = lfn_entry_count_lem (length name) some_name in
    let few : length name ≤ n * 13 = omega (arith, count, counted) in
    let many : n * 13 < length name + 13 = omega (arith, count, counted) in
    let (chars, loaded, same) =
      load_entries_lem name n checksum few many fits raw stored n 0 (replicate 255 0xFFFF) 0
        (omega arith) (omega (arith, few, some_name)) (length-replicate {A = ℕ} 255 0xFFFF)
        (inl refl) (λ k low high. absurd (omega (arith, low, high))) in
    let a : (output_size == 0) ≡ false = ground (arith, sized) in
    let b : ltb 255 (n * 13) ≡ false = ground (arith, fits) in
    let c : (n == 0) ≡ false = ground (arith, few, some_name) in
    let d : ltb n n ≡ false = ground arith in
    let units : slice chars 0 (n * 13)
        ≡ name ++ range (padded name 0 (length name)) (length name) (n * 13 - length name) =
      slice-range chars 0 (n * 13)
      ∙ range-ext (λ i. get_or chars i 0) (padded name 0 (length name)) 0 0 (n * 13)
          (λ k l. same (0 + k) (omega (arith, l)))
      ∙ padded-name name (n * 13) few in
    rw (a, loaded, b, c, d, units)
      (utf16_to_utf8-append name
        (range (padded name 0 (length name)) (length name) (n * 13 - length name)) output_size s
        (padded-Stops name (n * 13 - length name) output_size) e)

-- The entries of a name in a buffer are found in the bytes from their offset on.
found_entries :
    (name f : List ℕ) (offset n checksum : ℕ) (g : ℕ → ℕ)
    → AreUnits name
    → ((x : ℕ)
        → x < offset + n * 32
        → get_or f x 0 ≡ with_entries g offset 0 n (entry_of name n checksum) x)
    → (i : ℕ) → i < n
    → lfn_at (slice f offset (n * 32)) (i * 32) ≡ entry_of name n checksum i
found_entries name f offset n checksum g small bytes i h =
    let o = (n - 1 - i) * 13 in
    let remaining = length name - o in
    lfn_at-lfn_bytes (entry_of name n checksum i) (slice f offset (n * 32)) (i * 32)
      (lfn_entry-IsLfnEntry (if i == 0 then bit_or (u8 (n - i)) 0x40 else u8 (n - i)) name o
        (if leb (length name) o then 0 else if ltb 13 remaining then 13 else remaining) checksum
        small)
      λ k l.
        let x = offset + (i * 32 + k) in
        ap (λ (b : List ℕ). get_or b (i * 32 + k) 0) (slice-range f offset (n * 32))
        ∙ get_or-range (λ y. get_or f y 0) offset (n * 32) (i * 32 + k) (omega (arith, h, l))
        ∙ bytes x (omega (arith, h, l))
        ∙ with_entries-inside g offset n (entry_of name n checksum) i k h l

some_element : (xs : List ℕ) → xs ≢ [] → 0 < length xs
some_element [] ne = absurd (ne refl)
some_element (x ∷ xs) ne = omega arith

module _ {dev : Device} (v : Volume) {size : ℕ} (sound : IsSound dev size) where
  write_entries-enters :
      (d : dev.Disk) (sector offset : ℕ) (long_name dos_name : List ℕ) (cluster file_size : ℕ)
      (b : List ℕ)
      → let name = utf8_to_utf16 long_name 255 in
        let n = lfn_entry_count (length name) in
        let r = write_lfn_entries n 0 b offset name n (lfn_checksum dos_name) in
        0 < length name
        → 0 < n
        → offset + (n + 1) * 32 ≤ sectorsize
        → length name ≤ n * 13
        → dev.read d sector ≡ some b
        → r.0 ≡ true
        → write_file_directory_entries dev v d sector offset long_name dos_name cluster file_size
          ≡ dev.write d sector
              (paste r.1 (offset + n * 32) (file_entry dev v dos_name cluster file_size) 0 32)
  unfolding write_file_directory_entries
  write_entries-enters d sector offset long_name dos_name cluster file_size b some_name some_entry
        fits few got done =
      let name = utf8_to_utf16 long_name 255 in
      let n = lfn_entry_count (length name) in
      let a : (length name == 0) ≡ false = ground (arith, some_name) in
      let c : ltb 255 (length name) ≡ false = ground (arith, few, fits) in
      let e : (n == 0) ≡ false = ground (arith, some_entry) in
      let f : ltb 20 n ≡ false = ground (arith, fits) in
      let g : ltb sectorsize (u32 (offset + (n + 1) * 32)) ≡ false = ground (arith, fits) in
      rw (a, c, e, f, g, got, done) refl

  -- On a disk without errors, a name of bytes of which none is 0, of which `utf8_to_utf16` makes
  -- units, one at least and none of them 0xFFFF, and whose entries with the one of the file fit in
  -- the rest of a sector, is stored there: `get_lfn_name` finds the whole name in its entries, if
  -- the buffer for it has room for the name and the final 0, the entry of the file stands behind
  -- them, and neither another byte of the sector nor another sector changes.
  pub get_lfn_name-write_file_directory_entries :
      (d : dev.Disk) (sector offset : ℕ) (long_name dos_name : List ℕ)
      (cluster file_size output_size : ℕ)
      → let name = utf8_to_utf16 long_name 255 in
        let n = lfn_entry_count (length name) in
        let r =
          write_file_directory_entries dev v d sector offset long_name dos_name cluster file_size in
        is_text long_name ≡ true
        → name ≢ []
        → has 0xFFFF name ≡ false
        → sector < size
        → offset + (n + 1) * 32 ≤ sectorsize
        → length long_name < output_size
        → (r.0 ≡ true)
          × (b : List ℕ) × (dev.read r.1 sector ≡ some b)
          × (get_lfn_name (slice b offset (n * 32)) n output_size ≡ (true, long_name))
          × (slice b (offset + n * 32) 32 ≡ file_entry dev v dos_name cluster file_size)
          × ((x : ℕ)
              → (x < offset) ⊎ (offset + (n + 1) * 32 ≤ x)
              → get_or b x 0 ≡ sector_byte dev v d sector x)
          × ((m : ℕ) → m ≢ sector → dev.read r.1 m ≡ dev.read d m)
  get_lfn_name-write_file_directory_entries d sector offset long_name dos_name cluster file_size
        output_size text ne filled on_disk fits sized =
      let name = utf8_to_utf16 long_name 255 in
      let n = lfn_entry_count (length name) in
      let some_name : 0 < length name = some_element name ne in
      let counted = lfn_entry_count_lem (length name) some_name in
      let some_entry : 0 < n = omega (arith, counted, some_name) in
      let checksum = lfn_checksum dos_name in
      let (b0, got, len) = sound.read_done d sector on_disk in
      let (done, kept, bytes) =
        write_lfn_entries_lem n 0 b0 offset name n checksum (omega arith) (omega (arith, fits))
          len in
      let named = (write_lfn_entries n 0 b0 offset name n checksum).1 in
      let entry = file_entry dev v dos_name cluster file_size in
      let b = paste named (offset + n * 32) entry 0 32 in
      let len' : length b ≡ sectorsize = length-paste named (offset + n * 32) entry 0 32 ∙ kept in
      let enter =
        write_entries-enters d sector offset long_name dos_name cluster file_size b0 some_name
          some_entry fits (omega (arith, counted)) got done in
      let put : (x : ℕ)
          → get_or b x 0 ≡ over (λ j. get_or named j 0) (offset + n * 32) 32 entry 0 x =
        λ x. get_or-paste named (offset + n * 32) entry 0 32 x (omega (arith, fits, kept)) in
      let after = λ (m : ℕ). sound.read-write d sector m b on_disk len' in
      let back = utf16_to_utf8-utf8_to_utf16 long_name 255 output_size text ne filled sized in
      let found =
        get_lfn_name_lem name (slice b offset (n * 32)) n checksum output_size long_name some_name
          refl (omega (arith, fits))
          (found_entries name b offset n checksum (λ y. get_or b0 y 0)
            (utf8_to_utf16-AreUnits long_name 255) (λ x l. ground (arith, put x, bytes x, l)))
          (omega (arith, sized)) back in
      rw enter (
        sound.write_done d sector b on_disk len',
        b,
        ground (arith, after sector),
        found,
        slice-range b (offset + n * 32) 32
            ∙ range-over (λ j. get_or named j 0) (λ i. get_or b i 0) (offset + n * 32) 32 entry
                (length-file_entry dev v dos_name cluster file_size)
                (λ k l. put (offset + n * 32 + k)),
        λ x out. ground (arith, put x, bytes x, out, sector_byte-read dev v d sector x b0 got),
        λ m other. ground (arith, after m, other),
      )
