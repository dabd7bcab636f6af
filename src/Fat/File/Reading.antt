-- ===== src/Fat/File/Reading.antt =====
-- `fat_read` delivers the bytes of the file.
use fastsystem.Prelude.{
  ℕ, zero, suc, ◌+◌, ◌-◌, ◌*◌, ◌/◌, ◌%◌, ◌^◌, ◌≤◌, ◌<◌, ◌≡◌, ◌∙◌, refl, sym, ap, arith, Bool, true,
  false, some, List, ◌∷◌, ◌++◌, length, get_or, u32, ltb, leb, ◌==◌, if◌then◌else◌, inl, inr,
  Bool-cases, ==→eq, has-get_or,
}
use mathlib.Core.Path.{subst}
use native.Mathlib.Nat.{div-lt_iff_lt-mul, mod-lt}
use fastsystem.Fat.Volume.{
  Volume, sectorsize, clustertosector, getfirstdatasector, getdatasectorcount, fat_max_cluster,
}
use fastsystem.Fat.Volume.Mounted.{IsMounted, mounted-sizes}
use fastsystem.Fat.Volume.Layout.{clustertosector_bounds, data_region_bound, tables_before_data}
use fastsystem.Fat.Entries.{Device, IsSound, readcluster}
use fastsystem.Fat.Entries.Implements.{fat_table, fat_table-IsReliable}
use fastsystem.Fat.Table.{IsReliable}
use fastsystem.Fat.Chain.Links.{Links-has-IsData}
use fastsystem.Fat.Chain.Length.{get_nth_cluster-Links}
use fastsystem.Fat.File.{
  FatFile, slice, fat_file_cluster_size, fat_file_cluster_at, read_sectors, read_clusters, fat_read,
}
use fastsystem.Fat.File.Contents.{
  range, length-range, range-append, range-ext, slice-range, cluster_byte, chain_byte, IsOpen,
  sector_byte-read, cluster_byte-shift, chain_byte-shift,
}

-- What is copied in a round: at most what is left, and at most what the unit has left.
abbrev pub least : ℕ → ℕ → ℕ
least a b = if ltb a b then a else b

pub least_bounds : (a b : ℕ) → 0 < a → 0 < b → (0 < least a b) × (least a b ≤ a) × (least a b ≤ b)
least_bounds a b h k = ground arith

module _ {dev : Device} {v : Volume} {size : ℕ} (m : IsMounted v) (sound : IsSound dev size)
    (room : getfirstdatasector v + getdatasectorcount v ≤ size)
    (small : v.sector_per_cluster < 2 ^ 8) (d : dev.Disk) where
  pub cluster_size-eq : fat_file_cluster_size v ≡ sectorsize * v.sector_per_cluster
  unfolding fat_file_cluster_size
  cluster_size-eq = rw (m.loaded, (mounted-sizes m).0) (omega (arith, small))

  -- One sector of a cluster: where it is, and the bytes in it.
  sector_read :
      (c offset n : ℕ)
      → 2 ≤ c
      → c ≤ fat_max_cluster v
      → offset % sectorsize + n ≤ sectorsize
      → offset < sectorsize * v.sector_per_cluster
      → (b : List ℕ) × (dev.read d (u32 (clustertosector v c + offset / sectorsize)) ≡ some b)
        × (slice b (offset % sectorsize) n ≡ range (cluster_byte dev v d c) offset n)
  sector_read c offset n lo hi h l =
      let (start, end) = clustertosector_bounds m c lo hi in
      let bound = data_region_bound m in
      let place : u32 (clustertosector v c + offset / sectorsize)
          ≡ clustertosector v c + offset / sectorsize =
        omega (arith, end, bound, l) in
      let (b, e, _) =
        sound.read_done d (clustertosector v c + offset / sectorsize)
          (omega (arith, end, room, l)) in
      (
        b,
        ap (dev.read d) place ∙ e,
        slice-range b (offset % sectorsize) n
            ∙ range-ext (λ i. get_or b i 0) (cluster_byte dev v d c) (offset % sectorsize) offset n
                λ k less. sym (
                  cluster_byte-shift dev v d c offset k (omega (arith, h, less))
                  ∙ sector_byte-read dev v d (clustertosector v c + offset / sectorsize)
                      (offset % sectorsize + k) b e),
      )

  -- A round of the inner loop.
  read_sectors-step :
      (fuel c offset amount : ℕ) (b : List ℕ)
      → (amount == 0) ≡ false
      → (w : ℕ) → v.bytes_per_sector ≡ w
      → dev.read d (u32 (clustertosector v c + offset / w)) ≡ some b
      → let n = least amount (w - offset % w) in
        let rest = read_sectors dev v fuel d c (offset + n) (amount - n) in
        read_sectors dev v (suc fuel) d c offset amount ≡ (rest.0, slice b (offset % w) n ++ rest.1)
  unfolding read_sectors
  read_sectors-step fuel c offset amount b z w p =
      subst
        (λ (w : ℕ).
          dev.read d (u32 (clustertosector v c + offset / w)) ≡ some b
          → let n = least amount (w - offset % w) in
            let rest = read_sectors dev v fuel d c (offset + n) (amount - n) in
            read_sectors dev v (suc fuel) d c offset amount
            ≡ (rest.0, slice b (offset % w) n ++ rest.1))
        p λ e. rw (z, e) refl

  read_sectors_lem :
      (fuel c offset amount : ℕ)
      → 2 ≤ c
      → c ≤ fat_max_cluster v
      → offset + amount ≤ sectorsize * v.sector_per_cluster
      → amount ≤ fuel
      → read_sectors dev v fuel d c offset amount
        ≡ (true, range (cluster_byte dev v d c) offset amount)
  unfolding read_sectors
  read_sectors_lem zero c offset amount lo hi h l =
      let z : amount ≡ 0 = omega (arith, l) in rw z refl
  read_sectors_lem (suc fuel) c offset amount lo hi h l = elim (Bool-cases (amount == 0)) [
    | inl z ↦ rw (==→eq amount 0 z) refl
    | inr some_left ↦
        let n = least amount (sectorsize - offset % sectorsize) in
        let bound =
          least_bounds amount (sectorsize - offset % sectorsize) (ground (arith, some_left))
            (omega arith) in
        let (b, e, s) =
          sector_read c offset n lo hi (omega (arith, bound)) (omega (arith, bound, h)) in
        let ih =
          read_sectors_lem fuel c (offset + n) (amount - n) lo hi (omega (arith, bound, h))
            (omega (arith, bound, l)) in
        let whole : n + (amount - n) ≡ amount = omega (arith, bound) in
        let joined =
          range-append (cluster_byte dev v d c) offset n (amount - n)
          ∙ ap (range (cluster_byte dev v d c) offset) whole in
        read_sectors-step fuel c offset amount b some_left sectorsize (mounted-sizes m).0 e
        ∙ ap (λ (r : Bool × List ℕ). (r.0, slice b (offset % sectorsize) n ++ r.1)) ih
        ∙ ap
            (λ (xs : List ℕ).
              (true, xs ++ range (cluster_byte dev v d c) (offset + n) (amount - n)))
            s
        ∙ ap (λ (xs : List ℕ). (true, xs)) joined
  ]

  pub ok : IsReliable (fat_table dev v)
  ok = fat_table-IsReliable m sound (omega (arith, tables_before_data m, room))

  module _ (f : FatFile) (rest : List ℕ) (opened : IsOpen dev v d f rest) where
    pub sized : 0 < fat_file_cluster_size v
    sized = let q = (mounted-sizes m).1 in omega (arith, cluster_size-eq, q)

    -- The cluster of a position inside the chain.
    pub cluster_at_lem :
        (p : ℕ)
        → p < (length rest + 1) * fat_file_cluster_size v
        → let c = get_or (f.first_cluster ∷ rest) (p / fat_file_cluster_size v) 0 in
          (fat_file_cluster_at dev v d f p ≡ c) × (2 ≤ c) × (c ≤ fat_max_cluster v)
    unfolding fat_file_cluster_at
    cluster_at_lem p h =
        let i = p / fat_file_cluster_size v in
        let inside : i < length rest + 1 = (div-lt_iff_lt-mul sized).1 h in
        let first =
          Links-has-IsData ok (readcluster dev v d) f.first_cluster f.first_cluster rest
            opened.links (ground arith) in
        let here =
          Links-has-IsData ok (readcluster dev v d) f.first_cluster
            (get_or (f.first_cluster ∷ rest) i 0) rest opened.links
            (has-get_or (f.first_cluster ∷ rest) i (omega (arith, inside))) in
        let z : (fat_file_cluster_size v == 0) ≡ false = ground (arith, sized) in
        let l : ltb f.first_cluster 2 ≡ false = ground (arith, first) in
        (
          rw (opened.valid, l, z) (get_nth_cluster-Links ok d f.first_cluster i rest opened.links),
          here.0,
          here.1,
        )

    -- A round of the outer loop.
    read_clusters-step :
        (fuel p requested c : ℕ) (bytes : List ℕ)
        → (requested == 0) ≡ false
        → (fat_file_cluster_size v == 0) ≡ false
        → fat_file_cluster_at dev v d f p ≡ c
        → ltb c 2 ≡ false
        → let cs = fat_file_cluster_size v in
          let n = least requested (cs - p % cs) in
          read_sectors dev v n d c (p % cs) n ≡ (true, bytes)
          → let r = read_clusters dev v fuel d f (p + n) (requested - n) in
            read_clusters dev v (suc fuel) d f p requested ≡ (r.0, bytes ++ r.1)
    unfolding read_clusters
    read_clusters-step fuel p requested c bytes z y e l h = rw (z, y, e, l, h) refl

    read_clusters_lem :
        (fuel p requested : ℕ)
        → p + requested ≤ (length rest + 1) * fat_file_cluster_size v
        → requested ≤ fuel
        → read_clusters dev v fuel d f p requested
          ≡ (true, range (chain_byte dev v d (f.first_cluster ∷ rest)) p requested)
    unfolding read_clusters
    read_clusters_lem zero p requested h l = let z : requested ≡ 0 = omega (arith, l) in rw z refl
    read_clusters_lem (suc fuel) p requested h l = elim (Bool-cases (requested == 0)) [
      | inl z ↦ rw (==→eq requested 0 z) refl
      | inr some_left ↦
          let cs = fat_file_cluster_size v in
          let chain = f.first_cluster ∷ rest in
          let c = get_or chain (p / cs) 0 in
          let off = p % cs in
          let below : off < cs = mod-lt p sized in
          let n = least requested (cs - off) in
          let bound =
            least_bounds requested (cs - off) (ground (arith, some_left)) (omega (arith, below)) in
          let (e, lo, hi) = cluster_at_lem p (omega (arith, h, bound)) in
          let here =
            read_sectors_lem n c off n lo hi (omega (arith, bound, below, cluster_size-eq))
              (omega arith) in
          let same : range (cluster_byte dev v d c) off n ≡ range (chain_byte dev v d chain) p n =
            range-ext (cluster_byte dev v d c) (chain_byte dev v d chain) off p n λ k less.
              sym (chain_byte-shift dev v d chain p k (omega (arith, less, bound, below))) in
          let ih =
            read_clusters_lem fuel (p + n) (requested - n) (omega (arith, bound, h))
              (omega (arith, bound, l)) in
          let whole : n + (requested - n) ≡ requested = omega (arith, bound) in
          let joined =
            range-append (chain_byte dev v d chain) p n (requested - n)
            ∙ ap (range (chain_byte dev v d chain) p) whole in
          let y : (cs == 0) ≡ false = ground (arith, sized) in
          let low : ltb c 2 ≡ false = ground (arith, lo) in
          read_clusters-step fuel p requested c (range (cluster_byte dev v d c) off n) some_left y e
            low here
          ∙ ap (λ (r : Bool × List ℕ). (r.0, range (cluster_byte dev v d c) off n ++ r.1)) ih
          ∙ ap
              (λ (xs : List ℕ).
                (true, xs ++ range (chain_byte dev v d chain) (p + n) (requested - n)))
              same
          ∙ ap (λ (xs : List ℕ). (true, xs)) joined
    ]

    -- On a mounted volume with less than 2^8 sectors in a cluster that lies on a disk without
    -- errors, a read of elements, one at least and of one byte at least, in a count of bytes of 32
    -- bits, that starts inside a file which is open to read delivers the bytes of its chain from
    -- the position on, as many as are asked for or as the file still has, counts the whole
    -- elements, moves the position behind them and notes the end of the file there; no error is
    -- noted.
    pub fat_read_lem :
        (elements_size nmemb : ℕ)
        → f.readable ≡ true
        → 0 < elements_size
        → 0 < nmemb
        → nmemb ≤ 0xFFFFFFFF / elements_size
        → f.position < f.size
        → let n =
            if ltb (f.size - f.position) (elements_size * nmemb)
            then f.size - f.position
            else elements_size * nmemb in
          fat_read dev v d f elements_size nmemb ≡ (
            n / elements_size,
            range (chain_byte dev v d (f.first_cluster ∷ rest)) f.position n,
            record f {
              position = f.position + n;
              eof = if leb f.size (f.position + n) then true else f.eof;
            },
          )
    unfolding fat_read
    fat_read_lem es nmemb readable h k l inside =
        let n =
          if ltb (f.size - f.position) (es * nmemb) then f.size - f.position else es * nmemb in
        let small_n : n ≤ f.size - f.position = ground arith in
        let r =
          read_clusters_lem n f.position n (omega (arith, small_n, inside, opened.fits))
            (omega arith) in
        let a : (es == 0) ≡ false = ground arith in
        let b : (nmemb == 0) ≡ false = ground arith in
        let c : ltb (0xFFFFFFFF / es) nmemb ≡ false = ground (arith, l) in
        let e : leb f.size f.position ≡ false = ground arith in
        rw
          (
            r,
            length-range (chain_byte dev v d (f.first_cluster ∷ rest)) f.position n,
            opened.valid,
            a,
            b,
            readable,
            c,
            e,
          )
          refl
