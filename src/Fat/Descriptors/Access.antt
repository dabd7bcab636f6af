-- ===== src/Fat/Descriptors/Access.antt =====
-- What the flags of an opened file let do.
use fastsystem.Prelude.{
  ℕ, ◌≡◌, refl, arith, Bool, true, false, inl, inr, ◌&&◌, Option, none, some, List, ◌==◌, get_or,
  Bool-cases, Option-cases, ◌||◌, not, bit_and,
}
use fastsystem.Fat.Volume.{Volume, isfattype, hasactive}
use fastsystem.Fat.Entries.{Device}
use fastsystem.Fat.File.{FatFile, fat_file_ensure_size}
use fastsystem.Fat.Descriptors.{FoundFile, open_mode, access, opened_file, cut_file, fat_open}

-- The rights of a file, where there is one.
abbrev Has : Option FatFile → Bool → Bool → Type 0
Has none readable writable = Unit {0}
Has (some f) readable writable = (f.readable ≡ readable) × (f.writable ≡ writable)

module _ (dev : Device) (v : Volume) where
  cut_file-Has : (d : dev.Disk) (f : FatFile) → Has (cut_file dev v d f).0 f.readable f.writable
  unfolding cut_file fat_file_ensure_size
  cut_file-Has d f = ground arith

  opened_with :
      (fat_find_file : dev.Disk → List ℕ → Option FoundFile) (d : dev.Disk) (filename mode : List ℕ)
      (readable writable append : Bool)
      → access mode ≡ some (readable, writable, append)
      → Has (fat_open dev v fat_find_file d filename mode).0 readable writable
  unfolding fat_open opened_file
  opened_with fat_find_file d filename mode readable writable append e =
      elim (Bool-cases (isfattype v)) [
        | inr t ↦ rw (fat_open, t) tt
        | inl t ↦ elim (Bool-cases (hasactive v)) [
          | inr a ↦ rw (fat_open, t, e, a) tt
          | inl a ↦ elim (Option-cases (fat_find_file d filename)) [
            | inl n ↦ rw (fat_open, t, e, a, t, n) tt
            | inr (found, n) ↦ elim (Bool-cases (bit_and found.attribute 0x10 == 0)) [
              | inr b ↦ rw (fat_open, t, e, a, t, n, b) tt
              | inl b ↦ elim (Bool-cases (get_or mode 0 0 == 119)) [
                | inr c ↦ rw (fat_open, t, e, a, t, n, b, c) (refl, refl)
                | inl c ↦
                    rw (fat_open, t, e, a, t, n, b, c)
                      (cut_file-Has d (opened_file dev v found readable writable append))
              ]
            ]
          ]
        ]
      ]

  -- A file that is opened with the mode of some flags can be read exactly if their access mode is
  -- not O_WRONLY (1), and written exactly if it is O_WRONLY, or if it is O_RDWR (2) and one of
  -- O_APPEND (0x400) and O_CREAT (0x40) is set.
  pub fat_open-open_mode :
      (fat_find_file : dev.Disk → List ℕ → Option FoundFile) (d : dev.Disk) (filename : List ℕ)
      (flags : ℕ) (f : FatFile)
      → (fat_open dev v fat_find_file d filename (open_mode flags)).0 ≡ some f
      → let mode = bit_and flags 0x0003 in
        (f.readable ≡ not (mode == 0x0001))
        × (f.writable ≡ (
            mode == 0x0001
            || (mode == 0x0002 && not (bit_and flags 0x0400 == 0 && bit_and flags 0x0040 == 0))))
  unfolding open_mode access
  fat_open-open_mode find d filename flags f h =
      let use_mode : (readable writable append : Bool)
          → access (open_mode flags) ≡ some (readable, writable, append)
          → (f.readable ≡ readable) × (f.writable ≡ writable) =
        λ readable writable append e.
          rw h at (opened_with find d filename (open_mode flags) readable writable append e) in
      elim (Bool-cases (bit_and flags 0x0003 == 0x0001)) [
        | inl t ↦ elim (Bool-cases (bit_and flags 0x0400 == 0)) [
          | inl a ↦ rw t (use_mode false true false (rw (t, a) refl))
          | inr a ↦ rw t (use_mode false true true (rw (t, a) refl))
        ]
        | inr t ↦ elim (Bool-cases (bit_and flags 0x0003 == 0x0002)) [
          | inr b ↦ rw (t, b) (use_mode true false false (rw (t, b) refl))
          | inl b ↦ elim (Bool-cases (bit_and flags 0x0400 == 0)) [
            | inr a ↦ rw (t, b, a) (use_mode true true true (rw (t, b, a) refl))
            | inl a ↦ elim (Bool-cases (bit_and flags 0x0040 == 0)) [
              | inr c ↦ rw (t, b, a, c) (use_mode true true false (rw (t, b, a, c) refl))
              | inl c ↦ rw (t, b, a, c) (use_mode true false false (rw (t, b, a, c) refl))
            ]
          ]
        ]
      ]
