-- ===== src/Fat/File/Position.antt =====
-- `fat_seek`, `fat_tell` and `fat_rewind`: the position of an open file.
use fastsystem.Prelude.{
  ℕ, ◌+◌, ◌-◌, ◌^◌, ◌≤◌, ◌<◌, ◌≡◌, refl, arith, Bool, true, false, Option, none, some, ltb, leb,
  if◌then◌else◌, ℤ, pos, negsuc,
}
use fastsystem.Fat.Volume.{Volume}
use fastsystem.Fat.File.{FatFile, Whence, fat_file_valid, seek_base, seek_target, fat_seek}

-- The sum of a base and an offset, if it is a position that a signed number of 32 bits can hold.
unfoldable pub target : ℕ → ℤ → Option ℕ
target base (pos n) = if leb (base + n) 0x7FFFFFFF then some (base + n) else none
target base (negsuc n) = if leb (n + 1) base then some (base - (n + 1)) else none

-- An offset of 32 bits.
abbrev pub IsOffset : ℤ → Type 0
IsOffset (pos n) = n < 2 ^ 31
IsOffset (negsuc n) = n < 2 ^ 31

seek_target_lem :
    (base : ℕ) (offset : ℤ)
    → base ≤ 0x7FFFFFFF
    → IsOffset offset
    → seek_target base offset ≡ target base offset
unfolding seek_target target
seek_target_lem base (pos n) h k = ground arith
seek_target_lem base (negsuc n) h k = ground arith

-- What a seek does: the base is the start, the position or the end.
unfoldable pub sought : FatFile → Option ℕ → Bool × FatFile
sought f none = (false, record f { error = true })
sought f (some p) = (true, record f { position = p; eof = false })

-- On an open file, from a base of at most 2^31 - 1, a seek moves to the sum of the base and the
-- offset and takes back the end of file if the sum is from 0 to 2^31 - 1, and notes an error and
-- stays where it is if it is not.
pub fat_seek_lem :
    (v : Volume) (f : FatFile) (offset : ℤ) (whence : Whence) (base : ℕ)
    → fat_file_valid v f ≡ true
    → seek_base f whence ≡ some base
    → base ≤ 0x7FFFFFFF
    → IsOffset offset
    → fat_seek v f offset whence ≡ sought f (target base offset)
unfolding fat_seek sought
fat_seek_lem v f offset whence base valid e h k =
    let l : ltb 0x7FFFFFFF base ≡ false = ground arith in
    rw (valid, e, l, seek_target_lem base offset h k) (go (target base offset))
  where
    go :
        (o : Option ℕ)
        → let r : Bool × FatFile = elim o [
          | none ↦ (false, record f { error = true })
          | some p ↦ (true, record f { position = p; eof = false })
        ] in
          r ≡ sought f o
    go none = refl
    go (some p) = refl
