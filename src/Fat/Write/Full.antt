-- ===== src/Fat/Write/Full.antt =====
-- `fat_write` behind the end of a file, on a full disk.
use fastsystem.Prelude.{
  ◌∙◌, ℕ, ◌+◌, ◌-◌, ◌*◌, ◌/◌, ◌^◌, ◌≤◌, ◌<◌, ◌≡◌, refl, arith, true, false, List, length, u32, ltb,
  leb, ◌==◌,
}
use fastsystem.Fat.Volume.{
  Volume, getfatsize, getclustercount, getfirstdatasector, getdatasectorcount, fat_max_cluster,
}
use fastsystem.Fat.Volume.Mounted.{IsMounted}
use fastsystem.Fat.Volume.Layout.{tables_before_data}
use fastsystem.Fat.Entries.{Device, IsSound, readcluster}
use fastsystem.Fat.Entries.Implements.{fat_table}
use fastsystem.Fat.Chain.{resizechain}
use fastsystem.Fat.Chain.Alloc.{free_count}
use fastsystem.Fat.Chain.Kept.{full-Keeps}
use fastsystem.Fat.Entries.Outside.{IsOutside, writecluster-outside}
use fastsystem.Fat.Chain.Resize.{resizechain_full}
use fastsystem.Fat.File.{FatFile, fat_file_valid, fat_file_cluster_size, fat_file_ensure_size}
use fastsystem.Fat.File.Contents.{IsOpen}
use fastsystem.Fat.File.Reading.{ok, sized}
use fastsystem.Fat.Write.{
  make_room, fat_write_with, fat_file_zero_range, fat_write_gapless, fat_write,
}
use fastsystem.Fat.Write.InPlace.{close_gap-none}

module _ (dev : Device) (v : Volume) where
  ensure_size-refused :
      (d : dev.Disk) (f : FatFile) (end : ℕ)
      → fat_file_valid v f ≡ true
      → 0 < fat_file_cluster_size v
      → 0 < end
      → end + fat_file_cluster_size v ≤ 2 ^ 32
      → let r =
          resizechain
            (fat_table dev v)
            d
            f.first_cluster
            ((end + fat_file_cluster_size v - 1) / fat_file_cluster_size v) in
        r.0 ≡ false → r.1 ≡ f.first_cluster → fat_file_ensure_size dev v d f end ≡ (false, f, r.2)
  unfolding fat_file_ensure_size
  ensure_size-refused d f end valid big some_end small refused first =
      let cs = fat_file_cluster_size v in
      let a : (cs == 0) ≡ false = ground (arith, big) in
      let b : (end == 0) ≡ false = ground (arith, some_end) in
      let e : u32 (end + cs - 1) ≡ end + cs - 1 = omega (arith, small, big) in
      rw (valid, a, b, e, refused, first) refl

  make_room-refused :
      (d d' : dev.Disk) (f : FatFile) (end : ℕ)
      → f.size < end
      → fat_file_ensure_size dev v d f end ≡ (false, f, d')
      → make_room dev v d f end ≡ (false, f, d')
  unfolding make_room
  make_room-refused d d' f end h e = let t : leb end f.size ≡ false = ground arith in rw (t, e) refl

module _ {dev : Device} {v : Volume} {size : ℕ} (m : IsMounted v) (sound : IsSound dev size)
    (room : getfirstdatasector v + getdatasectorcount v ≤ size)
    (small : v.sector_per_cluster < 2 ^ 8) where
  -- On a mounted volume with less than 2^8 sectors in a cluster that lies on a disk without errors,
  -- a write of elements, one at least and of one byte at least, in a count of bytes of 32 bits,
  -- that starts inside a file which is open to write or at its end and goes farther than the
  -- clusters of the file and all free ones reach, but not within a cluster of 2^32, writes nothing:
  -- it returns 0 and notes an error, the file is otherwise as it was, every sector outside of the
  -- tables reads as it did, and so does every entry of the table.
  pub fat_write_full :
      (d : dev.Disk) (f : FatFile) (rest : List ℕ) (elements_size nmemb : ℕ) (source : List ℕ)
      → IsOpen dev v d f rest
      → f.writable ≡ true
      → 0 < elements_size
      → 0 < nmemb
      → nmemb ≤ 0xFFFFFFFF / elements_size
      → f.position ≤ f.size
      → f.size < f.position + elements_size * nmemb
      → f.position + elements_size * nmemb + fat_file_cluster_size v ≤ 2 ^ 32
      → length rest + 1 + free_count (readcluster dev v d) 2 (getclustercount v)
        < (f.position + elements_size * nmemb + fat_file_cluster_size v - 1)
          / fat_file_cluster_size v
      → (d' : dev.Disk) × (fat_write dev v d f elements_size nmemb source
          ≡ (0, record f { error = true }, d'))
        × ((n : ℕ) → IsOutside v n → dev.read d' n ≡ dev.read d n)
        × ((c : ℕ) → 2 ≤ c → c ≤ fat_max_cluster v → readcluster dev v d' c ≡ readcluster dev v d c)
  unfolding fat_write fat_write_with
  fat_write_full d f rest es nmemb source o w h k l start longer few lacks =
      let end = f.position + es * nmemb in
      let cs = fat_file_cluster_size v in
      let big : 0 < cs = sized m sound room small d f rest o in
      let on_disk : v.lba_start + v.reserved_sectors_count + v.number_fats * getfatsize v ≤ size =
        omega (arith, tables_before_data m, room) in
      let (refused, first, same) =
        resizechain_full (ok m sound room small d) d f.first_cluster ((end + cs - 1) / cs) rest
          o.links lacks in
      let d' = (resizechain (fat_table dev v) d f.first_cluster ((end + cs - 1) / cs)).2 in
      let a : (es == 0) ≡ false = ground arith in
      let b : (nmemb == 0) ≡ false = ground arith in
      let c : ltb (0xFFFFFFFF / es) nmemb ≡ false = ground (arith, l) in
      let e : ltb (0xFFFFFFFF - f.position) (es * nmemb) ≡ false = ground (arith, few, big) in
      let grown =
        ensure_size-refused dev v d f end o.valid big (omega (arith, longer)) few refused first in
      let p =
        close_gap-none dev v
          (λ d f. fat_file_zero_range dev v (fat_write_gapless dev v) d f f.size f.position) d f
          start in
      let q = make_room-refused dev v d d' f end longer grown in
      (
        d',
        rw (p, q, o.valid, a, b, w, c, e) refl,
        λ n out.
            full-Keeps (ok m sound room small d) (λ s. dev.read s n ≡ dev.read d n)
              (λ s c x h small_value kept.
                writecluster-outside m sound on_disk s c x n h.0 h.1 small_value out ∙ kept)
              d f.first_cluster ((end + cs - 1) / cs) rest o.links lacks refl,
        λ c lo hi. same c (lo, hi),
      )
