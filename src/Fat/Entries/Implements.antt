-- ===== src/Fat/Entries/Implements.antt =====
-- The table on the disk fills the interface that the cluster chains take.
use fastsystem.Prelude.{
  ℕ, ◌+◌, ◌*◌, ◌<◌, ◌≤◌, ◌≡◌, arith, ◌&&◌, some, List, get_or, ◌^◌, Option-cases, inl, inr, bit_and,
  bit_and-mask,
}
use fastsystem.Fat.Volume.{
  Volume, hasactive, isfattype, getfatsize, getclustercount, fat_max_cluster, fat_eoc_mark,
  getfatsector, getfatentryoffset,
}
use fastsystem.Fat.Volume.Mounted.{
  IsMounted, fat16, fat32, kind, mounted-active, mounted-type, fat_max_cluster-eq,
}
use fastsystem.Fat.Volume.Layout.{getfatsector_bounds, getfatsector-eq-getsectornumber}
use fastsystem.Fat.Entries.{
  Device, IsSound, readcluster, writecluster, getnextcluster, entry_value, le16,
}
use fastsystem.Fat.Entries.Stored.{readcluster-writecluster}
use fastsystem.Fat.Table.{FatTable, IsReliable}

abbrev pub fat_table : Device → Volume → FatTable
fat_table dev v = record {
  State = dev.Disk;
  ready = hasactive v && isfattype v;
  cluster_count = getclustercount v;
  max_cluster = fat_max_cluster v;
  eoc_mark = fat_eoc_mark v;
  read = readcluster dev v;
  write = writecluster dev v;
}

module _ {dev : Device} {v : Volume} {size : ℕ} (m : IsMounted v) (sound : IsSound dev size)
    (room : v.lba_start + v.reserved_sectors_count + v.number_fats * getfatsize v ≤ size) where
  -- On a mounted volume whose tables lie on a disk without errors, `readcluster` and `writecluster`
  -- are a table as the chains need it: a write of an entry of the right width succeeds, is read
  -- back, and leaves the other clusters' entries as they were.
  pub fat_table-IsReliable : IsReliable (fat_table dev v)
  fat_table-IsReliable = record {
    is_ready = ground (arith, mounted-active m, mounted-type m);
    max_is = fat_max_cluster-eq m;
    max_lt_eoc = omega (arith, fat_max_cluster-eq m, m.below_eoc);
    write_done =
        λ d c x h small. (readcluster-writecluster m sound room d c x c h.0 h.1 h.0 h.1 small).0;
    read-write = λ d c x e h k small.
        (readcluster-writecluster m sound room d c x e h.0 h.1 k.0 k.1 small).1;
  }

short_value :
    (b : List ℕ) (o : ℕ) → ((i : ℕ) → get_or b i 0 < 2 ^ 8) → bit_and (le16 b o) 0xFFFF ≡ le16 b o
unfolding le16
short_value b o bytes = omega (arith, bit_and-mask 16 (le16 b o), bytes o, bytes (o + 1))

module _ (dev : Device) {v : Volume} (m : IsMounted v) where
  -- On a mounted volume, if the sector of the entry holds bytes where it can be read,
  -- `getnextcluster` of a data cluster is `readcluster` of it, also where the disk fails.
  pub getnextcluster-eq-readcluster :
      (d : dev.Disk) (c : ℕ)
      → 2 ≤ c
      → c ≤ fat_max_cluster v
      → ((b : List ℕ) → dev.read d (getfatsector v c) ≡ some b → (i : ℕ) → get_or b i 0 < 2 ^ 8)
      → getnextcluster dev v d c ≡ readcluster dev v d c
  unfolding getnextcluster readcluster entry_value
  getnextcluster-eq-readcluster d c lo hi bytes =
      let bd = getfatsector_bounds m c hi in
      let (s, o) = getfatsector-eq-getsectornumber m c hi in
      let act = mounted-active m in
      let ty = mounted-type m in
      elim (kind m) [
        | fat16 a _ w _ ↦ elim (Option-cases (dev.read d (getfatsector v c))) [
          | inl e ↦ ground (arith, s, o, act, ty, a, w, e, bd, m.boot_reserved)
          | inr (b, e) ↦ ground (
            arith,
            s,
            o,
            act,
            ty,
            a,
            w,
            e,
            bd,
            m.boot_reserved,
            short_value b (getfatentryoffset v c) (bytes b e),
          )
        ]
        | fat32 a a' w _ ↦ elim (Option-cases (dev.read d (getfatsector v c))) [
          | inl e ↦ ground (arith, s, o, act, ty, a, a', w, e, bd, m.boot_reserved)
          | inr (b, e) ↦ ground (arith, s, o, act, ty, a, a', w, e, bd, m.boot_reserved)
        ]
      ]
