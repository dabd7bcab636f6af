-- ===== src/Fat/Write/InPlace.antt =====
-- `fat_write` inside a file, on a disk without errors.
use fastsystem.Prelude.{
  ℕ, ◌+◌, ◌-◌, ◌*◌, ◌/◌, ◌%◌, ◌^◌, ◌≤◌, ◌<◌, ◌≡◌, ◌≢◌, ◌∙◌, refl, ap, arith, Bool, true, false,
  Option, none, some, List, ◌∷◌, length, get_or, has, has-get_or, ltb, leb, ◌==◌,
}
use native.Mathlib.Nat.{mul-div_right, mod-lt, div-lt_iff_lt-mul}
use fastsystem.Fat.Volume.{
  Volume, sectorsize, clustertosector, getfirstdatasector, getdatasectorcount, fat_max_cluster,
}
use fastsystem.Fat.Volume.Mounted.{IsMounted}
use fastsystem.Fat.Entries.{Device, IsSound}
use fastsystem.Fat.File.{FatFile, fat_file_cluster_size, fat_file_valid}
use fastsystem.Fat.File.Contents.{cluster_byte, chain_byte, sector_byte, IsOpen}
use fastsystem.Fat.File.Reading.{ok, sized, cluster_size-eq}
use fastsystem.Fat.Write.{
  updated_entry, fat_file_update_directory_entry, write_clusters, write_out, make_room, close_gap,
  fat_write_with, fat_file_zero_range, fat_write_gapless, fat_write,
}
use fastsystem.Fat.Write.Bytes.{over, length-updated_entry}
use fastsystem.Fat.Write.Loops.{tables_end}
use fastsystem.Fat.Write.Clusters.{IsOpen-tables}
use fastsystem.Fat.Write.Chains.{write_clusters_lem}

-- The directory entry of a file is inside a sector of the disk that belongs neither to the tables
-- nor to the file's own clusters.
pub record IsRecorded (v : Volume) (size : ℕ) (f : FatFile) (rest : List ℕ) : Type 0 where
  pub offset : f.directory_offset + 32 ≤ sectorsize
  pub on_disk : f.directory_sector < size
  pub behind_tables : tables_end v ≤ f.directory_sector
  pub apart :
      (c i : ℕ)
      → has c (f.first_cluster ∷ rest) ≡ true
      → i < v.sector_per_cluster
      → clustertosector v c + i ≢ f.directory_sector

cluster_byte-same_sector :
    (dev : Device) (v : Volume) (d d' : dev.Disk) (c i : ℕ)
    → dev.read d' (clustertosector v c + i / sectorsize)
      ≡ dev.read d (clustertosector v c + i / sectorsize)
    → cluster_byte dev v d' c i ≡ cluster_byte dev v d c i
unfolding cluster_byte sector_byte
cluster_byte-same_sector dev v d d' c i e =
    ap (λ (r : Option (List ℕ)). elim r [ none ↦ 0 | some b ↦ get_or b (i % sectorsize) 0 ]) e

module _ {dev : Device} (v : Volume) {size : ℕ} (sound : IsSound dev size) where
  update_lem :
      (d : dev.Disk) (f : FatFile)
      → fat_file_valid v f ≡ true
      → f.directory_offset + 32 ≤ sectorsize
      → f.directory_sector < size
      → (d' : dev.Disk) × (fat_file_update_directory_entry dev v d f ≡ (true, d'))
        × ((i : ℕ) → i ≢ f.directory_sector → dev.read d' i ≡ dev.read d i)
  unfolding fat_file_update_directory_entry
  update_lem d f valid h l =
      let (b, e, len) = sound.read_done d f.directory_sector l in
      let b' = updated_entry dev v f b in
      let len' : length b' ≡ sectorsize = length-updated_entry dev v f b ∙ len in
      let t : ltb sectorsize ((f.directory_offset + 32) % 2 ^ 32) ≡ false = ground (arith, h) in
      let w = sound.write_done d f.directory_sector b' l len' in
      (
        (dev.write d f.directory_sector b').1,
        rw (valid, t, e) (ap (λ (x : Bool). (x, (dev.write d f.directory_sector b').1)) w),
        λ i ne. ground (arith, sound.read-write d f.directory_sector i b' l len', ne),
      )

module _ (dev : Device) (v : Volume) where
  -- Neither a gap nor a new cluster where the end position is inside the file.
  pub close_gap-none :
      (fill : dev.Disk → FatFile → Bool × FatFile × dev.Disk) (d : dev.Disk) (f : FatFile)
      → f.position ≤ f.size
      → close_gap dev v fill d f ≡ (true, f, d)
  unfolding close_gap
  close_gap-none fill d f h = let t : leb f.position f.size ≡ true = ground arith in rw t refl

  make_room-none :
      (d : dev.Disk) (f : FatFile) (end : ℕ) → end ≤ f.size → make_room dev v d f end ≡ (true, f, d)
  unfolding make_room
  make_room-none d f end h = let t : leb end f.size ≡ true = ground arith in rw t refl

  fat_write-inside :
      (d : dev.Disk) (f : FatFile) (es nmemb : ℕ) (source : List ℕ)
      → fat_file_valid v f ≡ true
      → f.writable ≡ true
      → 0 < es
      → 0 < nmemb
      → nmemb ≤ 0xFFFFFFFF / es
      → f.position + es * nmemb ≤ f.size
      → f.size < 2 ^ 32
      → fat_write dev v d f es nmemb source ≡ write_out dev v d f f.position es (es * nmemb) source
  unfolding fat_write fat_write_with
  fat_write-inside d f es nmemb source valid w h k l inside small =
      let a : (es == 0) ≡ false = ground arith in
      let b : (nmemb == 0) ≡ false = ground arith in
      let c : ltb (0xFFFFFFFF / es) nmemb ≡ false = ground (arith, l) in
      let e : ltb (0xFFFFFFFF - f.position) (es * nmemb) ≡ false = ground (arith, inside, small) in
      let p =
        close_gap-none
          (λ d f. fat_file_zero_range dev v (fat_write_gapless dev v) d f f.size f.position) d f
          (omega (arith, inside)) in
      let q = make_room-none d f (f.position + es * nmemb) inside in
      rw (p, q, valid, a, b, w, c, e) refl

module _ {dev : Device} {v : Volume} {size : ℕ} (m : IsMounted v) (sound : IsSound dev size)
    (room : getfirstdatasector v + getdatasectorcount v ≤ size)
    (small : v.sector_per_cluster < 2 ^ 8) where
  write_out_lem :
      (d d1 d2 : dev.Disk) (f : FatFile) (es n : ℕ) (source : List ℕ)
      → f.writable ≡ true
      → f.position + n ≤ f.size
      → write_clusters dev v n d f f.position n source 0 ≡ (true, n, d1)
      → fat_file_update_directory_entry dev v d1 (record f { position = f.position + n })
        ≡ (true, d2)
      → write_out dev v d f f.position es n source
        ≡ (n / es, record f { position = f.position + n }, d2)
  unfolding write_out
  write_out_lem d d1 d2 f es n source w inside e u =
      let t : ltb f.size (f.position + n) ≡ false = ground (arith, inside) in
      let z : f.position + n - f.position ≡ n = omega arith in rw (e, t, u, z, w) refl

  -- On a mounted volume with less than 2^8 sectors in a cluster that lies on a disk without errors,
  -- a write of elements, one at least and of one byte at least, in a count of bytes of 32 bits,
  -- that stays inside a file of less than 2^32 bytes which is open to write, and whose directory
  -- entry lies apart from the tables and from its clusters, writes all of them: it moves the
  -- position behind them and leaves the file open with its chain, the bytes written stand in the
  -- chain from the position on, and every other byte of the chain is what it was, as is every byte
  -- of another cluster outside of the sector of the directory entry.
  pub fat_write_lem :
      (d : dev.Disk) (f : FatFile) (rest : List ℕ) (elements_size nmemb : ℕ) (source : List ℕ)
      → IsOpen dev v d f rest
      → IsRecorded v size f rest
      → f.writable ≡ true
      → 0 < elements_size
      → 0 < nmemb
      → nmemb ≤ 0xFFFFFFFF / elements_size
      → f.position + elements_size * nmemb ≤ f.size
      → f.size < 2 ^ 32
      → let n = elements_size * nmemb in
        let f' = record f { position = f.position + n } in
        let chain = f.first_cluster ∷ rest in
        (d' : dev.Disk) × (fat_write dev v d f elements_size nmemb source ≡ (nmemb, f', d'))
        × IsOpen dev v d' f' rest
        × ((q : ℕ)
            → q < length chain * fat_file_cluster_size v
            → chain_byte dev v d' chain q ≡ over (chain_byte dev v d chain) f.position n source 0 q)
        × ((c i : ℕ)
            → 2 ≤ c
            → c ≤ fat_max_cluster v
            → has c chain ≡ false
            → i < fat_file_cluster_size v
            → clustertosector v c + i / sectorsize ≢ f.directory_sector
            → cluster_byte dev v d' c i ≡ cluster_byte dev v d c i)
  unfolding chain_byte fat_file_valid
  fat_write_lem d f rest es nmemb source o r w h k l inside few =
      let n = es * nmemb in
      let f' : FatFile = record f { position = f.position + n } in
      let chain = f.first_cluster ∷ rest in
      let cs = fat_file_cluster_size v in
      let sure = ok m sound room small d in
      let big : 0 < cs = sized m sound room small d f rest o in
      let (d1, e, wrote) =
        write_clusters_lem m sound room small f rest n d f.position n source 0 o
          (omega (arith, inside, o.fits)) (omega arith) in
      let (d2, u, same) = update_lem v sound d1 f' o.valid r.offset r.on_disk in
      let o2 =
        IsOpen-tables dev m sure d d2 f rest
          (λ i lt. same i (omega (arith, lt, r.behind_tables)) ∙ wrote.tables i lt) o in
      let counted : n / es ≡ nmemb = mul-div_right nmemb h in
      (
        d2,
        fat_write-inside dev v d f es nmemb source o.valid w h k l inside few
            ∙ write_out_lem d d1 d2 f es n source w inside e u
            ∙ ap (λ (i : ℕ). (i, f', d2)) counted,
        record { valid = o2.valid; links = o2.links; fits = o2.fits },
        λ q lt.
            let place : q / cs < length chain = (div-lt_iff_lt-mul big).1 lt in
            let below : q % cs < cs = mod-lt q big in
            cluster_byte-same_sector dev v d1 d2 (get_or chain (q / cs) 0) (q % cs) (
              same (clustertosector v (get_or chain (q / cs) 0) + q % cs / sectorsize) (
                r.apart (get_or chain (q / cs) 0) (q % cs / sectorsize)
                  (has-get_or chain (q / cs) place)
                  (omega (arith, below, cluster_size-eq m sound room small d))))
            ∙ wrote.bytes q lt,
        λ c i lo hi ne lt away.
            cluster_byte-same_sector dev v d1 d2 c i
              (same (clustertosector v c + i / sectorsize) away)
            ∙ wrote.others c i lo hi ne lt,
      )
