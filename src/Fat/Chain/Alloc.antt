-- ===== src/Fat/Chain/Alloc.antt =====
-- `allocchain`: it takes the first free clusters, or leaves every entry as it was.
use fastsystem.Prelude.{
  ℕ, zero, suc, ◌+◌, ◌-◌, ◌≤◌, ◌<◌, ◌≡◌, refl, ◌≢◌, inl, inr, true, false, List, [], ◌∷◌, ◌++◌,
  arith, ◌==◌, if◌then◌else◌, length, has, Bool-cases, ltb, length-append,
}
use fastsystem.Fat.Table.{FatTable, IsData, IsReliable}
use fastsystem.Fat.Chain.{allocchain_loop, allocchain, abandon}
use fastsystem.Fat.Chain.Links.{Links, last_of, has-last_of}
use fastsystem.Fat.Chain.Grown.{Grown, abandon-same, Grown-start, Grown-extend}

-- The free entries among the `n` from `lo` on.
abbrev pub free_count : (ℕ → ℕ) → ℕ → ℕ → ℕ
free_count r lo zero = 0
free_count r lo (suc n) = (if r lo == 0 then 1 else 0) + free_count r (lo + 1) n

module _ {t : FatTable} (ok : IsReliable t) (s0 : t.State) where
  abbrev Taken : ℕ → ℕ × t.State → Type 0
  Taken n (r, s) =
      (zs : List ℕ) × (last : ℕ) × Grown t s0 s r last (t.max_cluster + 1) zs × (length zs ≡ n)

  abbrev Unchanged : ℕ × t.State → Type 0
  Unchanged (r, s) = (r ≡ 0) × ((a : ℕ) → IsData t a → t.read s a ≡ t.read s0 a)

  -- One round with a free cluster.
  taken_round :
      (left : ℕ) (s : t.State) (cluster wanted first previous : ℕ) (ys : List ℕ)
      → Grown t s0 s first previous cluster ys
      → IsData t cluster
      → t.read s cluster ≡ 0
      → (s' : t.State) × (first' : ℕ) × (zs : List ℕ) × Grown t s0 s' first' cluster
          (cluster + 1)
          zs
        × (length zs ≡ length ys + 1)
        × (allocchain_loop t (suc left) s cluster (suc wanted) first previous
            ≡ allocchain_loop t left s' (cluster + 1) wanted first' cluster)
  unfolding allocchain_loop
  taken_round left s cluster wanted first previous [] g d free = (
    (t.write s cluster t.eoc_mark).1,
    cluster,
    cluster ∷ [],
    Grown-start ok s0 s first previous cluster g d free,
    omega arith,
    ground (arith, g.ends, ok.write_done s cluster t.eoc_mark d),
  )
  taken_round left s cluster wanted first previous (y ∷ ys) g d free = (
    (t.write (t.write s cluster t.eoc_mark).1 previous cluster).1,
    first,
    y ∷ ys ++ cluster ∷ [],
    Grown-extend ok s0 s first previous cluster y ys g d free,
    omega (arith, length-append ys (cluster ∷ [])),
    let dy = g.taken y (ground arith) in
        let dl = g.taken (last_of y ys) (has-last_of y ys) in
        let s1 : t.State = (t.write s cluster t.eoc_mark).1 in
        ground (
          arith,
          g.ends,
          dy,
          dl,
          ok.max_lt_eoc,
          ok.write_done s cluster t.eoc_mark d,
          ok.write_done s1 previous cluster,
        ),
  )

  -- One round with a cluster in use.
  skip_round :
      (left : ℕ) (s : t.State) (cluster wanted first previous : ℕ)
      → t.read s cluster ≢ 0
      → allocchain_loop t (suc left) s cluster (suc wanted) first previous
        ≡ allocchain_loop t left s (cluster + 1) (suc wanted) first previous
  unfolding allocchain_loop
  skip_round left s cluster wanted first previous used = ground arith

  Grown-mono :
      (s : t.State) (first previous c d : ℕ) (ys : List ℕ)
      → Grown t s0 s first previous c ys
      → c ≤ d
      → Grown t s0 s first previous d ys
  Grown-mono s first previous c d ys g l = record {
    ends = g.ends;
    taken = λ a i. ground (arith, g.taken a i);
    same = g.same;
  }

  -- Clusters from the loop's own one on have not been touched yet.
  untouched :
      (s : t.State) (first previous cluster : ℕ) (ys : List ℕ)
      → Grown t s0 s first previous cluster ys
      → IsData t cluster
      → t.read s cluster ≡ t.read s0 cluster
  untouched s first previous cluster ys g d = elim (Bool-cases (has cluster ys)) [
    | inl e ↦ absurd (omega (arith, g.taken cluster e))
    | inr e ↦ g.same cluster d e
  ]

  loop_takes :
      (left : ℕ) (s : t.State) (cluster wanted first previous : ℕ) (ys : List ℕ)
      → Grown t s0 s first previous cluster ys
      → 2 ≤ cluster
      → cluster + left ≡ t.max_cluster + 1
      → wanted ≤ free_count (t.read s0) cluster left
      → Taken (length ys + wanted) (allocchain_loop t left s cluster wanted first previous)
  loop_takes left s cluster zero first previous ys g lo hi fits =
      unfold allocchain_loop in
      (
        ys,
        previous,
        Grown-mono s first previous cluster (t.max_cluster + 1) ys g (omega arith),
        omega arith,
      )
  loop_takes zero s cluster (suc wanted) first previous ys g lo hi fits = absurd (omega arith)
  loop_takes (suc left) s cluster (suc wanted) first previous ys g lo hi fits =
      let d : IsData t cluster = omega arith in
      let e = untouched s first previous cluster ys g d in
      elim (Bool-cases (t.read s0 cluster == 0)) [
        | inl free ↦
            let (s', first', zs, g', l, q) =
              taken_round left s cluster wanted first previous ys g d (ground (arith, e)) in
            let (ws, last, g2, n) =
              loop_takes left s' (cluster + 1) wanted first' cluster zs g' (omega arith)
                (omega arith) (ground arith) in
            rw q (ws, last, g2, omega arith)
        | inr used ↦ rw (skip_round left s cluster wanted first previous (ground (arith, e))) (
            loop_takes left s (cluster + 1) (suc wanted) first previous ys
              (Grown-mono s first previous cluster (cluster + 1) ys g (omega arith)) (omega arith)
              (omega arith) (ground arith))
      ]

  loop_fails :
      (left : ℕ) (s : t.State) (cluster wanted first previous : ℕ) (ys : List ℕ)
      → Grown t s0 s first previous cluster ys
      → 2 ≤ cluster
      → cluster + left ≡ t.max_cluster + 1
      → free_count (t.read s0) cluster left < wanted
      → Unchanged (allocchain_loop t left s cluster wanted first previous)
  loop_fails left s cluster zero first previous ys g lo hi lacks = absurd (omega arith)
  loop_fails zero s cluster (suc wanted) first previous ys g lo hi lacks =
      unfold allocchain_loop abandon in
      (ground (arith, ok.max_lt_eoc), abandon-same ok s0 s first previous cluster ys g)
  loop_fails (suc left) s cluster (suc wanted) first previous ys g lo hi lacks =
      let d : IsData t cluster = omega arith in
      let e = untouched s first previous cluster ys g d in
      elim (Bool-cases (t.read s0 cluster == 0)) [
        | inl free ↦
            let (s', first', zs, g', l, q) =
              taken_round left s cluster wanted first previous ys g d (ground (arith, e)) in
            rw q (
              loop_fails left s' (cluster + 1) wanted first' cluster zs g' (omega arith)
                (omega arith) (ground arith))
        | inr used ↦ rw (skip_round left s cluster wanted first previous (ground (arith, e))) (
            loop_fails left s (cluster + 1) (suc wanted) first previous ys
              (Grown-mono s first previous cluster (cluster + 1) ys g (omega arith)) (omega arith)
              (omega arith) (ground arith))
      ]

-- A range has at most its own number of free entries.
pub free_count-le : (r : ℕ → ℕ) (lo n : ℕ) → free_count r lo n ≤ n
free_count-le r lo zero = omega arith
free_count-le r lo (suc n) = ground (arith, free_count-le r (lo + 1) n)

-- `s` is `s0` with a new chain through `r ∷ zs`, which were free.
pub record Allocated (t : FatTable) (s0 s : t.State) (r : ℕ) (zs : List ℕ) : Type 0 where
  pub links : Links t (t.read s) r zs
  pub was_free : (a : ℕ) → has a (r ∷ zs) ≡ true → IsData t a × (t.read s0 a ≡ 0)
  pub others : (a : ℕ) → IsData t a → has a (r ∷ zs) ≡ false → t.read s a ≡ t.read s0 a

module _ {t : FatTable} (ok : IsReliable t) (s : t.State) (count : ℕ) where
  Grown-Allocated :
      (s' : t.State) (r last : ℕ) (zs : List ℕ)
      → Grown t s s' r last (t.max_cluster + 1) zs
      → 0 < length zs
      → (xs : List ℕ) × Allocated t s s' r xs × (length xs + 1 ≡ length zs)
  Grown-Allocated s' r last [] g p = absurd (omega arith)
  Grown-Allocated s' r last (x ∷ xs) g p = rw g.ends.0 (
    xs,
    record {
      links = g.ends.2;
      was_free = λ a i. ((g.taken a i).0, (g.taken a i).2);
      others = g.same;
    },
    omega arith,
  )

  enters :
      0 < count
      → count ≤ t.cluster_count
      → allocchain t s count ≡ allocchain_loop t t.cluster_count s 2 count 0 0
  unfolding allocchain
  enters p q =
      let e : t.max_cluster - 1 ≡ t.cluster_count = omega (arith, ok.max_is) in
      rw (← e) (ground (arith, ok.is_ready, ok.max_is, ok.max_lt_eoc))

  fresh : Grown t s s 0 0 2 []
  fresh = record { ends = (refl, refl); taken = λ a i. cc; same = λ a d i. refl }

  -- On a reliable table with at least `count` free clusters, and `count` not 0, `allocchain`
  -- returns the head of a chain of `count` clusters that were free, and no other entry changes.
  pub allocchain-Allocated :
      0 < count
      → count ≤ free_count (t.read s) 2 t.cluster_count
      → (zs : List ℕ) × Allocated t s (allocchain t s count).1 (allocchain t s count).0 zs
        × (length zs + 1 ≡ count)
  allocchain-Allocated p q =
      let l = free_count-le (t.read s) 2 t.cluster_count in
      let (zs, last, g, n) =
        loop_takes ok s t.cluster_count s 2 count 0 0 [] fresh (omega arith)
          (omega (arith, ok.max_is)) q in
      let (xs, al, m) =
        Grown-Allocated (allocchain_loop t t.cluster_count s 2 count 0 0).1
          (allocchain_loop t t.cluster_count s 2 count 0 0).0 last zs g (omega arith) in
      rw (enters p (omega arith)) (xs, al, omega arith)

  -- On a reliable table with fewer than `count` free clusters, `allocchain` returns 0, and every
  -- entry is as it was.
  pub allocchain_fails :
      free_count (t.read s) 2 t.cluster_count < count
      → ((allocchain t s count).0 ≡ 0)
        × ((a : ℕ) → IsData t a → t.read (allocchain t s count).1 a ≡ t.read s a)
  allocchain_fails lacks = elim (Bool-cases (ltb t.cluster_count count)) [
    | inl big ↦
        unfold allocchain in (ground (arith, ok.is_ready), λ a d. ground (arith, ok.is_ready))
    | inr small ↦ rw (enters (omega arith) (ground arith)) (
        loop_fails ok s t.cluster_count s 2 count 0 0 [] fresh (omega arith)
          (omega (arith, ok.max_is)) lacks)
  ]
