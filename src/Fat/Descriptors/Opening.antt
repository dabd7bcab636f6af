-- ===== src/Fat/Descriptors/Opening.antt =====
-- What opening does to the table of descriptors, and that closing takes it back.
use fastsystem.Prelude.{
  ℕ, ◌<◌, ◌≡◌, ◌∙◌, refl, sym, ap, arith, Bool, true, false, inl, inr, Option, List, ltb, ◌==◌,
  length, set, Bool-cases, Option-cases, none, some, bit_and, ℤ, pos, negsuc,
}
use fastsystem.Fat.Volume.{Volume}
use fastsystem.Fat.File.{FatFile}
use fastsystem.Fat.Entries.{Device}
use fastsystem.Fat.Xattr.{fails}
use fastsystem.Fat.Descriptors.{
  FoundFile, FdEntry, fd_none, fd_file, fd_dir, is_none, open_mode, fat_open, is_standard,
  sys_open_handler, sys_close_handler, release,
}
use fastsystem.Fat.Descriptors.Slots.{AllUsed, IsLowest, alloc_fd_lem, set-set_back, entry_at-set}

abbrev magnitude : ℤ → ℕ
magnitude (pos n) = n
magnitude (negsuc n) = 0

abbrev is_negative : ℤ → Bool
is_negative (pos n) = false
is_negative (negsuc n) = true

module _ (dev : Device) (v : Volume) {Dir : Type 0}
    (fat_find_file : dev.Disk → List ℕ → Option FoundFile)
    (fat_opendir : dev.Disk → List ℕ → Option Dir) where
  -- How a call to open something ends: with no descriptor left (EMFILE, 24), with nothing found by
  -- the searches that the flags ask for (ENOENT, 2), or with the lowest free descriptor, whose
  -- entry alone changes and holds what was found.
  pub data Outcome (d : dev.Disk) (table : List (FdEntry Dir)) (pathname : List ℕ) (flags : ℕ)
      : ℤ → List (FdEntry Dir) → dev.Disk → Type 0 where
    all_used : AllUsed table 8 1024 → Outcome d table pathname flags (fails 24) table d
    no_directory :
        (fd : ℕ)
        → IsLowest table 8 1016 fd
        → (bit_and flags 0x10000 == 0) ≡ false
        → fat_opendir d pathname ≡ none
        → Outcome d table pathname flags (fails 2) table d
    nothing :
        (fd : ℕ) (d' : dev.Disk)
        → IsLowest table 8 1016 fd
        → (bit_and flags 0x10000 == 0) ≡ true
        → fat_open dev v fat_find_file d pathname (open_mode flags) ≡ (none, d')
        → fat_opendir d' pathname ≡ none
        → Outcome d table pathname flags (fails 2) table d'
    directory :
        (fd : ℕ) (dir : Dir)
        → IsLowest table 8 1016 fd
        → (bit_and flags 0x10000 == 0) ≡ false
        → fat_opendir d pathname ≡ some dir
        → Outcome d table pathname flags (pos fd) (set table fd (fd_dir dir)) d
    opened :
        (fd : ℕ) (file : FatFile) (d' : dev.Disk)
        → IsLowest table 8 1016 fd
        → (bit_and flags 0x10000 == 0) ≡ true
        → fat_open dev v fat_find_file d pathname (open_mode flags) ≡ (some file, d')
        → Outcome d table pathname flags (pos fd) (set table fd (fd_file file)) d'
    fallback :
        (fd : ℕ) (dir : Dir) (d' : dev.Disk)
        → IsLowest table 8 1016 fd
        → (bit_and flags 0x10000 == 0) ≡ true
        → fat_open dev v fat_find_file d pathname (open_mode flags) ≡ (none, d')
        → fat_opendir d' pathname ≡ some dir
        → Outcome d table pathname flags (pos fd) (set table fd (fd_dir dir)) d'

  -- Opening a path ends in one of six ways. Every descriptor from 8 to 1023 is in use: EMFILE. With
  -- O_DIRECTORY in the flags, the directory is not found: ENOENT; or it is, and is entered. Without
  -- it, the file is opened with the mode of the flags and entered; or it is not and the directory
  -- of that path, looked for on the disk that this leaves, is entered; or neither is found: ENOENT.
  -- What is entered is entered at the lowest free descriptor, which is returned, and no other entry
  -- of the table changes; with an error no entry does. The disk is the one that opening the file
  -- left.
  pub sys_open_handler_lem :
      (d : dev.Disk) (table : List (FdEntry Dir)) (pathname : List ℕ) (flags : ℕ)
      → let result = sys_open_handler dev v fat_find_file fat_opendir d table pathname flags in
        Outcome d table pathname flags result.0 result.1 result.2
  unfolding sys_open_handler
  sys_open_handler_lem d table pathname flags =
      let (file, d') = fat_open dev v fat_find_file d pathname (open_mode flags) in
      elim (alloc_fd_lem table) [
        | inl (e, u) ↦ rw (sys_open_handler, e) (all_used u)
        | inr (k, e, w) ↦ elim (Bool-cases (bit_and flags 0x10000 == 0)) [
          | inr t ↦ elim (Option-cases (fat_opendir d pathname)) [
            | inl o ↦ rw (sys_open_handler, e, t, o) (no_directory k w t o)
            | inr (dir, o) ↦ rw (sys_open_handler, e, t, o) (directory k dir w t o)
          ]
          | inl t ↦ elim (Option-cases file) [
            | inr (f, o) ↦ rw (sys_open_handler, e, t, o) (opened k f d' w t (λ i. (o i, d')))
            | inl o ↦ elim (Option-cases (fat_opendir d' pathname)) [
              | inl n ↦ rw (sys_open_handler, e, t, o, n) (nothing k d' w t (λ i. (o i, d')) n)
              | inr (dir, n) ↦
                  rw (sys_open_handler, e, t, o, n) (fallback k dir d' w t (λ i. (o i, d')) n)
            ]
          ]
        ]
      ]

  closes :
      {table : List (FdEntry Dir)} (fat_closedir : Dir → Bool) (d : dev.Disk) (k : ℕ)
      (entry : FdEntry Dir)
      → length table ≡ 1024
      → IsLowest table 8 1016 k
      → is_none entry ≡ false
      → (sys_close_handler dev v fat_closedir d (set table k entry) (pos k)).1 ≡ table
  unfolding sys_close_handler is_standard is_none release
  closes c d k fd_none len w u = absurd (ground (arith, u))
  closes {table} c d k (fd_file f) len w u =
      let t : ltb k 3 ≡ false = ground (arith, w.from) in
      let l : k < length table = omega (arith, len, w.below) in
      rw (t, entry_at-set table k (fd_file f) w.from (omega (arith, w.below)) l)
        (set-set_back table k (fd_file f) l w.free)
  closes {table} c d k (fd_dir dir) len w u =
      let t : ltb k 3 ≡ false = ground (arith, w.from) in
      let l : k < length table = omega (arith, len, w.below) in
      rw (t, entry_at-set table k (fd_dir dir) w.from (omega (arith, w.below)) l)
        (set-set_back table k (fd_dir dir) l w.free)

  closes_at :
      {table : List (FdEntry Dir)} (d : dev.Disk) (fat_closedir : Dir → Bool) (k fd : ℕ)
      (entry : FdEntry Dir)
      → pos k ≡ pos fd
      → length table ≡ 1024
      → IsLowest table 8 1016 k
      → is_none entry ≡ false
      → (sys_close_handler dev v fat_closedir d (set table k entry) (pos fd)).1 ≡ table
  closes_at {table} d c k fd entry e len w u =
      ap (λ n. (sys_close_handler dev v c d (set table k entry) (pos n)).1) (sym (ap magnitude e))
      ∙ closes c d k entry len w u

  closed :
      {d d' : dev.Disk} {table : List (FdEntry Dir)} {pathname : List ℕ} {flags : ℕ}
      (fat_closedir : Dir → Bool) (r : ℤ) (after : List (FdEntry Dir)) (fd : ℕ)
      → r ≡ pos fd
      → length table ≡ 1024
      → Outcome d table pathname flags r after d'
      → (sys_close_handler dev v fat_closedir d' after (pos fd)).1 ≡ table
  unfolding is_none
  closed c r after fd e len (all_used u) = absurd (ground (arith, ap is_negative e))
  closed c r after fd e len (no_directory k w t o) = absurd (ground (arith, ap is_negative e))
  closed c r after fd e len (nothing k x w t o n) = absurd (ground (arith, ap is_negative e))
  closed c r after fd e len (directory k dir w t o) = closes_at _ c k fd (fd_dir dir) e len w refl
  closed c r after fd e len (opened k f x w t o) = closes_at _ c k fd (fd_file f) e len w refl
  closed c r after fd e len (fallback k dir x w t o n) =
      closes_at _ c k fd (fd_dir dir) e len w refl

  -- Closing what was opened takes it back: where opening a path in a table of 1024 entries returned
  -- a descriptor, closing the descriptor leaves the table as it was before.
  pub sys_close_handler-sys_open_handler :
      (fat_closedir : Dir → Bool) (d : dev.Disk) (table : List (FdEntry Dir)) (pathname : List ℕ)
      (flags fd : ℕ)
      → length table ≡ 1024
      → (sys_open_handler dev v fat_find_file fat_opendir d table pathname flags).0 ≡ pos fd
      → let result = sys_open_handler dev v fat_find_file fat_opendir d table pathname flags in
        (sys_close_handler dev v fat_closedir result.2 result.1 (pos fd)).1 ≡ table
  sys_close_handler-sys_open_handler fat_closedir d table pathname flags fd len e =
      let result = sys_open_handler dev v fat_find_file fat_opendir d table pathname flags in
      closed fat_closedir result.0 result.1 fd e len (sys_open_handler_lem d table pathname flags)
