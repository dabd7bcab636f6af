-- ===== src/Fat/Entries/Outside.antt =====
-- `writecluster` writes sectors of the tables alone.
use fastsystem.Prelude.{
  false, ℕ, zero, suc, ◌+◌, ◌*◌, ◌≤◌, ◌<◌, ◌≡◌, ◌⊎◌, ◌∙◌, refl, arith, ◌==◌, length,
}
use native.Mathlib.Nat.{mul-le-mul_right}
use fastsystem.Fat.Volume.{
  Volume, sectorsize, getfatsize, getfatsector, getfatentryoffset, fat_max_cluster, fat_eoc_mark,
}
use fastsystem.Fat.Volume.Mounted.{IsMounted}
use fastsystem.Fat.Volume.Layout.{tables_start, getfatsector_bounds}
use fastsystem.Fat.Entries.{Device, IsSound, patched, write_copies, writecluster}
use fastsystem.Fat.Entries.Bytes.{length-patched}
use fastsystem.Fat.Entries.Stored.{copy_sector, write_copies-suc, writecluster_enters}

-- A sector that no copy of the table has.
abbrev pub IsOutside : Volume → ℕ → Type 0
IsOutside v n = (n < tables_start v) ⊎ (tables_start v + v.number_fats * getfatsize v ≤ n)

module _ {dev : Device} {v : Volume} {size : ℕ} (m : IsMounted v) (sound : IsSound dev size)
    (room : v.lba_start + v.reserved_sectors_count + v.number_fats * getfatsize v ≤ size) where
  write_copies-outside :
      (left i s o x : ℕ) (d : dev.Disk) (n : ℕ)
      → tables_start v ≤ s
      → s < tables_start v + getfatsize v
      → i + left ≡ v.number_fats
      → IsOutside v n
      → dev.read (write_copies dev v left i s o x d).1 n ≡ dev.read d n
  unfolding write_copies
  write_copies-outside zero i s o x d n lo h e out = refl
  write_copies-outside (suc left) i s o x d n lo h e out =
      let (c, l) = copy_sector m sound room i left s h e in
      let (b, got, len) = sound.read_done d (s + i * getfatsize v) l in
      let len' : length (patched dev v b o x) ≡ sectorsize = length-patched dev v b o x ∙ len in
      let w : suc i * getfatsize v ≤ v.number_fats * getfatsize v =
        mul-le-mul_right (getfatsize v) (omega (arith, e)) in
      let away : (n == s + i * getfatsize v) ≡ false = ground (arith, w, lo, h, out) in
      rw (write_copies-suc m sound room left i s o x d b h e got len) (
        write_copies-outside left (i + 1) s o x
          (dev.write d (s + i * getfatsize v) (patched dev v b o x)).1 n lo h (omega (arith, e)) out
        ∙ sound.read-write d (s + i * getfatsize v) n (patched dev v b o x) l len'
        ∙ rw away refl)

  pub writecluster-outside :
      (d : dev.Disk) (c x n : ℕ)
      → 2 ≤ c
      → c ≤ fat_max_cluster v
      → x ≤ fat_eoc_mark v
      → IsOutside v n
      → dev.read (writecluster dev v d c x).1 n ≡ dev.read d n
  writecluster-outside d c x n lo hi small out =
      let (a, b, _) = getfatsector_bounds m c hi in
      rw (writecluster_enters m sound room d c x lo hi small) (
        write_copies-outside v.number_fats 0 (getfatsector v c) (getfatentryoffset v c) x d n a b
          (omega arith) out)
