-- ===== src/Fat/Write/Chains.antt =====
-- The loop of `fat_write` over the clusters of a file, on a disk without errors.
use fastsystem.Prelude.{
  ℕ, zero, suc, ◌+◌, ◌-◌, ◌*◌, ◌/◌, ◌%◌, ◌^◌, ◌≤◌, ◌<◌, ◌≡◌, ◌≢◌, ◌∙◌, refl, sym, ap, arith, Bool,
  true, false, ◌&&◌, List, ◌∷◌, length, get_or, has, has-get_or, ltb, leb, ◌==◌, if◌then◌else◌, inl,
  inr, Bool-cases, ==→eq,
}
use native.Mathlib.Nat.{mod-lt, div-add-mod', mul-le-mul_right, div-lt_iff_lt-mul}
use fastsystem.Fat.Volume.{
  Volume, sectorsize, clustertosector, getfirstdatasector, getdatasectorcount, fat_max_cluster,
}
use fastsystem.Fat.Volume.Mounted.{IsMounted, mounted-sizes}
use fastsystem.Fat.Entries.{Device, IsSound, readcluster}
use fastsystem.Fat.Chain.Links.{Links-Distinct}
use fastsystem.Fat.File.{FatFile, fat_file_cluster_size, fat_file_cluster_at}
use fastsystem.Fat.File.Contents.{cluster_byte, chain_byte, IsOpen}
use fastsystem.Fat.File.Reading.{least, least_bounds, ok, sized, cluster_at_lem, cluster_size-eq}
use fastsystem.Fat.Write.{write_sectors, write_clusters}
use fastsystem.Fat.Write.Bytes.{over, over-over, over-shift}
use fastsystem.Fat.Write.Loops.{tables_end, Wrote, write_sectors_lem}
use fastsystem.Fat.Write.Clusters.{
  Distinct-get_or, cluster_byte-same, cluster_byte-other, IsOpen-tables,
}

-- A position in another block is outside of what is written in one.
blocks_apart :
    (n p q k : ℕ)
    → (q / n == p / n) ≡ false
    → p % n + k ≤ n
    → q % n < n
    → (leb p q && ltb q (p + k)) ≡ false
blocks_apart n p q k e inside below =
    let split_p = div-add-mod' p n in
    let split_q = div-add-mod' q n in
    elim (Bool-cases (ltb (q / n) (p / n))) [
      | inl t ↦
          let w : (q / n + 1) * n ≤ p / n * n = mul-le-mul_right n (ground (arith, t)) in
          ground (arith, split_p, split_q, w, below)
      | inr t ↦
          let w : (p / n + 1) * n ≤ q / n * n = mul-le-mul_right n (ground (arith, t, e)) in
          ground (arith, split_p, split_q, w, inside)
    ]

over-outside :
    (g : ℕ → ℕ) (a n : ℕ) (source : List ℕ) (s x : ℕ)
    → (leb a x && ltb x (a + n)) ≡ false
    → over g a n source s x ≡ g x
over-outside g a n source s x h = rw h refl

-- `n` bytes of a source, from `s` on, were written into a chain from the position `p` on, and
-- neither another byte of the chain nor one of another cluster nor a sector of the tables.
pub record Written (dev : Device) (v : Volume) (d d' : dev.Disk) (chain : List ℕ) (p n : ℕ)
    (source : List ℕ) (s : ℕ) : Type 0 where
  pub bytes :
      (q : ℕ)
      → q < length chain * fat_file_cluster_size v
      → chain_byte dev v d' chain q ≡ over (chain_byte dev v d chain) p n source s q
  pub others :
      (c i : ℕ)
      → 2 ≤ c
      → c ≤ fat_max_cluster v
      → has c chain ≡ false
      → i < fat_file_cluster_size v
      → cluster_byte dev v d' c i ≡ cluster_byte dev v d c i
  pub tables : (i : ℕ) → i < tables_end v → dev.read d' i ≡ dev.read d i

Written-nothing :
    (dev : Device) (v : Volume) (d : dev.Disk) (chain : List ℕ) (p n : ℕ) (source : List ℕ) (s : ℕ)
    → n ≡ 0
    → Written dev v d d chain p n source s
Written-nothing dev v d chain p n source s z = record {
  bytes = λ q h. ground (arith, z);
  others = λ c i lo hi h l. refl;
  tables = λ i h. refl;
}

Written-trans :
    (dev : Device) (v : Volume) (d d1 d2 : dev.Disk) (chain : List ℕ) (p n k : ℕ) (source : List ℕ)
    (s m : ℕ)
    → m ≡ n + k
    → Written dev v d d1 chain p n source s
    → Written dev v d1 d2 chain (p + n) k source (s + n)
    → Written dev v d d2 chain p m source s
Written-trans dev v d d1 d2 chain p n k source s m e w1 w2 = record {
  bytes = λ q h.
      w2.bytes q h
      ∙ ap
          (λ (y : ℕ).
            if leb (p + n) q && ltb q (p + n + k)
            then get_or source (s + n + (q - (p + n))) 0
            else y)
          (w1.bytes q h)
      ∙ rw e (over-over (chain_byte dev v d chain) p n k source s q);
  others = λ c i lo hi h l. w2.others c i lo hi h l ∙ w1.others c i lo hi h l;
  tables = λ i h. w2.tables i h ∙ w1.tables i h;
}

module _ {dev : Device} {v : Volume} {size : ℕ} (m : IsMounted v) (sound : IsSound dev size)
    (room : getfirstdatasector v + getdatasectorcount v ≤ size)
    (small : v.sector_per_cluster < 2 ^ 8) (f : FatFile) (rest : List ℕ) where
  -- A write to the cluster of a position is a write to the chain.
  cluster-Written :
      (d d' : dev.Disk) (p k : ℕ) (source : List ℕ) (s : ℕ)
      → IsOpen dev v d f rest
      → p < (length rest + 1) * fat_file_cluster_size v
      → p % fat_file_cluster_size v + k ≤ fat_file_cluster_size v
      → Wrote dev v d d'
          (clustertosector v (get_or (f.first_cluster ∷ rest) (p / fat_file_cluster_size v) 0)
              * sectorsize
            + p % fat_file_cluster_size v)
          k
          source
          s
      → Written dev v d d' (f.first_cluster ∷ rest) p k source s
  unfolding chain_byte
  cluster-Written d d' p k source s o h inside w =
      let cs = fat_file_cluster_size v in
      let chain = f.first_cluster ∷ rest in
      let big : 0 < cs = sized m sound room small d f rest o in
      let c = get_or chain (p / cs) 0 in
      let (_, lo, hi) = cluster_at_lem m sound room small d f rest o p h in
      let fit : p % cs + k ≤ sectorsize * v.sector_per_cluster =
        omega (arith, inside, cluster_size-eq m sound room small d) in
      let index : (q : ℕ) → q < length chain * cs → q / cs < length chain =
        λ q l. (div-lt_iff_lt-mul big).1 l in
      let r = ok m sound room small d in
      let once = Links-Distinct r (readcluster dev v d) f.first_cluster rest o.links in
      record {
        bytes = λ q l.
            let split_p = div-add-mod' p cs in
            let split_q = div-add-mod' q cs in
            elim (Bool-cases (q / cs == p / cs)) [
              | inl e ↦
                  let x : q / cs ≡ p / cs = ==→eq (q / cs) (p / cs) e in
                  let y : q / cs * cs ≡ p / cs * cs = ap (λ (i : ℕ). i * cs) x in
                  ap (λ (i : ℕ). cluster_byte dev v d' (get_or chain i 0) (q % cs)) x
                  ∙ cluster_byte-same dev m c (p % cs) k source s w lo hi fit (q % cs)
                  ∙ over-shift (cluster_byte dev v d c) (chain_byte dev v d chain) (p % cs) p k
                      source s (q % cs) q (omega (arith, split_p, split_q, y))
                      (ap (λ (i : ℕ). cluster_byte dev v d (get_or chain i 0) (q % cs)) (sym x))
              | inr e ↦
                  let (_, lo', hi') =
                    cluster_at_lem m sound room small d f rest o q (omega (arith, l)) in
                  let ne : get_or chain (q / cs) 0 ≢ c = λ z. ground (
                    arith,
                    e,
                    Distinct-get_or chain (q / cs) (p / cs) once (index q l)
                        (index p (omega (arith, h))) z,
                  ) in
                  let below : q % cs < cs = mod-lt q big in
                  cluster_byte-other dev m c (p % cs) k source s w lo hi fit
                    (get_or chain (q / cs) 0) (q % cs) lo' hi' ne
                    (omega (arith, below, cluster_size-eq m sound room small d))
                  ∙ sym (
                      over-outside (chain_byte dev v d chain) p k source s q
                        (blocks_apart cs p q k e inside below))
            ];
        others = λ e i lo' hi' ne l.
            cluster_byte-other dev m c (p % cs) k source s w lo hi fit e i lo' hi'
              (λ q. ground (
                arith,
                ne,
                ap (λ (a : ℕ). has a chain) q,
                has-get_or chain (p / cs) (index p (omega (arith, h))),
              ))
              (omega (arith, l, cluster_size-eq m sound room small d));
        tables = w.tables;
      }

  -- A round of the outer loop.
  write_clusters-step :
      (fuel : ℕ) (d : dev.Disk) (p requested : ℕ) (source : List ℕ) (s c : ℕ) (d1 : dev.Disk)
      → (requested == 0) ≡ false
      → (fat_file_cluster_size v == 0) ≡ false
      → (v.bytes_per_sector == 0) ≡ false
      → fat_file_cluster_at dev v d f p ≡ c
      → ltb c 2 ≡ false
      → let cs = fat_file_cluster_size v in
        let n = least requested (cs - p % cs) in
        write_sectors dev v n d c (p % cs) n source s ≡ (true, n, d1)
        → let r = write_clusters dev v fuel d1 f (p + n) (requested - n) source (s + n) in
          write_clusters dev v (suc fuel) d f p requested source s ≡ (r.0, n + r.1, r.2)
  unfolding write_clusters
  write_clusters-step fuel d p requested source s c d1 z y x e l h = rw (z, y, x, e, l, h) refl

  pub write_clusters_lem :
      (fuel : ℕ) (d : dev.Disk) (p requested : ℕ) (source : List ℕ) (s : ℕ)
      → IsOpen dev v d f rest
      → p + requested ≤ (length rest + 1) * fat_file_cluster_size v
      → requested ≤ fuel
      → (d' : dev.Disk) × (write_clusters dev v fuel d f p requested source s
          ≡ (true, requested, d'))
        × Written dev v d d' (f.first_cluster ∷ rest) p requested source s
  unfolding write_clusters
  write_clusters_lem zero d p requested source s o h l =
      let z : requested ≡ 0 = omega (arith, l) in
      (d, rw z refl, Written-nothing dev v d (f.first_cluster ∷ rest) p requested source s z)
  write_clusters_lem (suc fuel) d p requested source s o h l = elim (Bool-cases (requested == 0)) [
    | inl z ↦
        let y : requested ≡ 0 = ==→eq requested 0 z in
        (d, rw y refl, Written-nothing dev v d (f.first_cluster ∷ rest) p requested source s y)
    | inr some_left ↦
        let cs = fat_file_cluster_size v in
        let chain = f.first_cluster ∷ rest in
        let big : 0 < cs = sized m sound room small d f rest o in
        let below : p % cs < cs = mod-lt p big in
        let n = least requested (cs - p % cs) in
        let (few, first, second) =
          least_bounds requested (cs - p % cs) (ground (arith, some_left)) (omega (arith, below)) in
        let (at, lo, hi) =
          cluster_at_lem m sound room small d f rest o p (omega (arith, h, few, first)) in
        let c = get_or chain (p / cs) 0 in
        let fit : p % cs + n ≤ cs = omega (arith, second, below) in
        let (d1, here, w) =
          write_sectors_lem m sound room n d c (p % cs) n source s lo hi
            (omega (arith, fit, cluster_size-eq m sound room small d)) (omega arith) in
        let part = cluster-Written d d1 p n source s o (omega (arith, h, few, first)) fit w in
        let o1 = IsOpen-tables dev m (ok m sound room small d) d d1 f rest part.tables o in
        let (d2, r, w2) =
          write_clusters_lem fuel d1 (p + n) (requested - n) source (s + n) o1
            (omega (arith, h, first)) (omega (arith, l, few, first)) in
        let whole : n + (requested - n) ≡ requested = omega (arith, first) in
        let sectors : (v.bytes_per_sector == 0) ≡ false = ground (arith, (mounted-sizes m).0) in
        let clusters : (cs == 0) ≡ false = ground (arith, big) in
        let low : ltb c 2 ≡ false = ground (arith, lo) in
        (
          d2,
          write_clusters-step fuel d p requested source s c d1 some_left clusters sectors at low
                here
              ∙ ap (λ (r : Bool × ℕ × dev.Disk). (r.0, n + r.1, r.2)) r
              ∙ ap (λ (i : ℕ). (true, i, d2)) whole,
          Written-trans dev v d d1 d2 chain p n (requested - n) source s requested (sym whole) part
              w2,
        )
  ]
