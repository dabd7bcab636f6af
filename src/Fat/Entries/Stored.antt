-- ===== src/Fat/Entries/Stored.antt =====
-- `writecluster` and `readcluster` on a disk without errors implement a table of entries.
use fastsystem.Prelude.{
  ℕ, zero, suc, ◌+◌, ◌-◌, ◌*◌, ◌≤◌, ◌<◌, ◌≡◌, ◌∙◌, inl, inr, Bool-cases, refl, arith, true, some,
  List, ◌==◌, if◌then◌else◌, u32, length, bit_and-mask,
}
use mathlib.Core.Path.{subst}
use native.Mathlib.Nat.{mul-le-mul_right}
use fastsystem.Fat.Volume.{
  Volume, sectorsize, getfatsize, getfatsector, getfatentryoffset, fat_max_cluster, fat_eoc_mark,
}
use fastsystem.Fat.Volume.Mounted.{
  IsMounted, fat16, fat32, mounted-active, mounted-type, mounted-sizes, kind,
}
use fastsystem.Fat.Volume.Layout.{
  tables_start, getfatsector_bounds, entry-short, entry-long, one_table,
}
use fastsystem.Fat.Entries.{
  Device, IsSound, patched, entry_value, write_copies, readcluster, writecluster,
}
use fastsystem.Fat.Entries.Bytes.{
  length-patched, entry_value-patched_short, entry_value-patched_long,
}

module _ {dev : Device} {v : Volume} {size : ℕ} (m : IsMounted v) (sound : IsSound dev size)
    (room : v.lba_start + v.reserved_sectors_count + v.number_fats * getfatsize v ≤ size) where
  -- Every copy of the table lies on the disk.
  pub copy_sector :
      (i left s : ℕ)
      → s < tables_start v + getfatsize v
      → i + suc left ≡ v.number_fats
      → (u32 (s + i * getfatsize v) ≡ s + i * getfatsize v) × (s + i * getfatsize v < size)
  copy_sector i left s h e =
      let w : suc i * getfatsize v ≤ v.number_fats * getfatsize v =
        mul-le-mul_right (getfatsize v) (omega arith) in
      omega (arith, w, m.no_wrap)

  -- One round of the loop on a disk without errors.
  pub write_copies-suc :
      (left i s o x : ℕ) (d : dev.Disk) (b : List ℕ)
      → s < tables_start v + getfatsize v
      → i + suc left ≡ v.number_fats
      → dev.read d (s + i * getfatsize v) ≡ some b
      → length b ≡ sectorsize
      → write_copies dev v (suc left) i s o x d
        ≡ write_copies dev v left
            (i + 1)
            s
            o
            x
            (dev.write d (s + i * getfatsize v) (patched dev v b o x)).1
  unfolding write_copies
  write_copies-suc left i s o x d b h e got len =
      let (c, l) = copy_sector i left s h e in
      let done =
        sound.write_done d (s + i * getfatsize v) (patched dev v b o x) l
          (length-patched dev v b o x ∙ len) in
      ground (arith, c, got, done)

  write_copies_lem :
      (left i s o x : ℕ) (d : dev.Disk)
      → s < tables_start v + getfatsize v
      → i + left ≡ v.number_fats
      → ((write_copies dev v left i s o x d).0 ≡ true)
        × ((n : ℕ)
            → n < s + i * getfatsize v
            → dev.read (write_copies dev v left i s o x d).1 n ≡ dev.read d n)
  unfolding write_copies
  write_copies_lem zero i s o x d h e = (refl, λ n l. refl)
  write_copies_lem (suc left) i s o x d h e =
      let (c, l) = copy_sector i left s h e in
      let n = s + i * getfatsize v in
      let (b, got, len) = sound.read_done d n l in
      let len' : length (patched dev v b o x) ≡ sectorsize = length-patched dev v b o x ∙ len in
      let (w, f) =
        write_copies_lem left (i + 1) s o x (dev.write d n (patched dev v b o x)).1 h
          (omega arith) in
      rw (write_copies-suc left i s o x d b h e got len) (
        w,
        λ k lt.
            f k (omega arith) ∙ ground (arith, sound.read-write d n k (patched dev v b o x) l len'),
      )

  -- All copies: the first one is patched, and the others lie behind the first table.
  write_copies_all :
      (k s o x : ℕ) (d : dev.Disk)
      → tables_start v ≤ s
      → s < tables_start v + getfatsize v
      → suc k ≡ v.number_fats
      → (b : List ℕ) × (dev.read d s ≡ some b)
        × (length b ≡ sectorsize)
        × ((write_copies dev v (suc k) 0 s o x d).0 ≡ true)
        × ((n : ℕ)
            → n < tables_start v + getfatsize v
            → dev.read (write_copies dev v (suc k) 0 s o x d).1 n
              ≡ (if n == s then some (patched dev v b o x) else dev.read d n))
  write_copies_all k s o x d lo h e =
      let (_, l) = copy_sector 0 k s h (omega arith) in
      let z : s + 0 * getfatsize v ≡ s = omega arith in
      let l' : s < size = omega arith in
      let (b, got, len) = sound.read_done d s l' in
      let len' : length (patched dev v b o x) ≡ sectorsize = length-patched dev v b o x ∙ len in
      let d1 = (dev.write d s (patched dev v b o x)).1 in
      let step : write_copies dev v (suc k) 0 s o x d ≡ write_copies dev v k 1 s o x d1 =
        subst
          (λ n.
            dev.read d n ≡ some b
            → write_copies dev v (suc k) 0 s o x d
              ≡ write_copies dev v k 1 s o x (dev.write d n (patched dev v b o x)).1)
          z (λ g. write_copies-suc k 0 s o x d b h (omega arith) g len) got in
      let (w, f) = write_copies_lem k 1 s o x d1 h (omega arith) in
      (
        b,
        got,
        len,
        rw step w,
        λ n q. rw step (f n (omega arith) ∙ sound.read-write d s n (patched dev v b o x) l' len'),
      )

  pub writecluster_enters :
      (d : dev.Disk) (c x : ℕ)
      → 2 ≤ c
      → c ≤ fat_max_cluster v
      → x ≤ fat_eoc_mark v
      → writecluster dev v d c x
        ≡ write_copies dev v v.number_fats 0 (getfatsector v c) (getfatentryoffset v c) x d
  unfolding writecluster
  writecluster_enters d c x lo hi small =
      let bd = getfatsector_bounds m c hi in
      let z = mounted-sizes m in
      elim (kind m) [
        | fat16 a b e f ↦
            rw (mounted-active m, mounted-type m, a)
              (ground (arith, bd, e, f, z, m.boot_reserved, bit_and-mask 16 x))
        | fat32 a b e f ↦
            rw (mounted-active m, mounted-type m, a)
              (ground (arith, bd, e, f, z, m.boot_reserved, bit_and-mask 28 x))
      ]

  readcluster_enters :
      (d : dev.Disk) (c : ℕ) (b : List ℕ)
      → 2 ≤ c
      → c ≤ fat_max_cluster v
      → dev.read d (getfatsector v c) ≡ some b
      → readcluster dev v d c ≡ entry_value dev v b (getfatentryoffset v c)
  unfolding readcluster
  readcluster_enters d c b lo hi got =
      let bd = getfatsector_bounds m c hi in
      elim (kind m) [
        | fat16 _ _ e _ ↦
            ground (arith, mounted-active m, mounted-type m, bd, e, got, m.boot_reserved)
        | fat32 _ _ e _ ↦
            ground (arith, mounted-active m, mounted-type m, bd, e, got, m.boot_reserved)
      ]

  -- One patched sector, seen through two clusters whose entries it holds.
  entry_value-same_sector :
      (b : List ℕ) (c e x : ℕ)
      → c ≤ fat_max_cluster v
      → e ≤ fat_max_cluster v
      → x ≤ fat_eoc_mark v
      → length b ≡ sectorsize
      → getfatsector v e ≡ getfatsector v c
      → entry_value dev v (patched dev v b (getfatentryoffset v c) x) (getfatentryoffset v e)
        ≡ (if e == c then x else entry_value dev v b (getfatentryoffset v e))
  entry_value-same_sector b c e x hc he hx len same =
      let oc = getfatentryoffset v c in
      let oe = getfatentryoffset v e in
      elim (kind m) [
        | fat16 a _ w f ↦
            let (sc, o) = entry-short m c hc a in
            let (se, o') = entry-short m e he a in
            ground (arith, o, o', sc, se, same, entry_value-patched_short dev v b oc x oe a len)
        | fat32 a a' w f ↦
            let (sc, o) = entry-long m c hc a in
            let (se, o') = entry-long m e he a in
            ground (arith, o, o', sc, se, same, entry_value-patched_long dev v b oc x oe a a' len)
      ]

  read_after :
      (d d' : dev.Disk) (c x e : ℕ) (b : List ℕ)
      → dev.read d (getfatsector v c) ≡ some b
      → length b ≡ sectorsize
      → ((n : ℕ)
          → n < tables_start v + getfatsize v
          → dev.read d' n ≡ (
              if n == getfatsector v c
              then some (patched dev v b (getfatentryoffset v c) x)
              else dev.read d n))
      → 2 ≤ c
      → c ≤ fat_max_cluster v
      → 2 ≤ e
      → e ≤ fat_max_cluster v
      → x ≤ fat_eoc_mark v
      → readcluster dev v d' e ≡ (if e == c then x else readcluster dev v d e)
  read_after d d' c x e b got len now lc hc le he hx =
      let be = getfatsector_bounds m e he in
      let se = getfatsector v e in
      let at = now se be.1 in
      let (b2, got2, len2) = sound.read_done d se (omega (arith, room, be, one_table m)) in
      elim (Bool-cases (se == getfatsector v c)) [
        | inl same ↦ ground (
          arith,
          same,
          at,
          got,
          entry_value-same_sector b c e x hc he hx len,
          readcluster_enters d e b le he,
          readcluster_enters d' e (patched dev v b (getfatentryoffset v c) x) le he,
        )
        | inr other ↦ ground (
          arith,
          other,
          at,
          got2,
          readcluster_enters d e b2 le he,
          readcluster_enters d' e b2 le he,
        )
      ]

  -- After `writecluster`, `readcluster` finds the value, and at other clusters what was there.
  pub readcluster-writecluster :
      (d : dev.Disk) (c x e : ℕ)
      → 2 ≤ c
      → c ≤ fat_max_cluster v
      → 2 ≤ e
      → e ≤ fat_max_cluster v
      → x ≤ fat_eoc_mark v
      → ((writecluster dev v d c x).0 ≡ true)
        × (readcluster dev v (writecluster dev v d c x).1 e
            ≡ (if e == c then x else readcluster dev v d e))
  readcluster-writecluster d c x e lc hc le he hx =
      let bc = getfatsector_bounds m c hc in
      let be = getfatsector_bounds m e he in
      let s = getfatsector v c in
      let o = getfatentryoffset v c in
      let k : suc (v.number_fats - 1) ≡ v.number_fats = omega (arith, mounted-sizes m) in
      let (b, got, len, done, now) = write_copies_all (v.number_fats - 1) s o x d bc.0 bc.1 k in
      let enter : writecluster dev v d c x
          ≡ write_copies dev v (suc (v.number_fats - 1)) 0 s o x d =
        rw k (writecluster_enters d c x lc hc hx) in
      rw enter (
        done,
        read_after d (write_copies dev v (suc (v.number_fats - 1)) 0 s o x d).1 c x e b got len now
            lc hc le he hx,
      )
