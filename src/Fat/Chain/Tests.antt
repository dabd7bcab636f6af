-- ===== src/Fat/Chain/Tests.antt =====
-- Runs of the chain operations, and instances of their theorems, on a table in memory.
use fastsystem.Prelude.{
  ℕ, ◌+◌, ◌≡◌, ◌≢◌, refl, arith, true, false, List, [], ◌∷◌, ◌++◌, ◌==◌, if◌then◌else◌, length, has,
}
use fastsystem.Fat.Table.{FatTable, IsData, IsReliable}
use fastsystem.Fat.Chain.{
  chain_length, get_nth_cluster, freechain, allocchain, allocchain_loop, resizechain,
}
use fastsystem.Fat.Chain.Links.{Links}
use fastsystem.Fat.Chain.Length.{chain_length-Links, get_nth_cluster-Links}
use fastsystem.Fat.Chain.Free.{Freed, freechain-Freed}
use fastsystem.Fat.Chain.Alloc.{Allocated, allocchain-Allocated, allocchain_fails}
use fastsystem.Fat.Chain.Resize.{
  resizechain_frees, resizechain_shrinks, resizechain_grows, resizechain_full,
}

-- Six clusters, 2 to 7.
abbrev memory_table : FatTable
memory_table = record {
  State = ℕ → ℕ;
  ready = true;
  cluster_count = 6;
  max_cluster = 7;
  eoc_mark = 0xFFF8;
  read = λ s c. s c;
  write = λ s c x. (true, λ a. if a == c then x else s a);
}

memory_table-IsReliable : IsReliable memory_table
memory_table-IsReliable = record {
  is_ready = refl;
  max_is = refl;
  max_lt_eoc = omega arith;
  write_done = λ s c x h small. refl;
  read-write = λ s c x d h k small. refl;
}

-- The chain 2, 4, 3; the clusters 5 to 7 are free.
abbrev three_used : ℕ → ℕ
three_used c = if c == 2 then 4 else if c == 4 then 3 else if c == 3 then 0xFFFF else 0

three_used-Links : Links memory_table three_used 2 (4 ∷ 3 ∷ [])
three_used-Links = ground arith

chain_length-Links_example : chain_length memory_table three_used 2 ≡ 3
chain_length-Links_example =
    chain_length-Links memory_table-IsReliable three_used 2 (4 ∷ 3 ∷ []) three_used-Links

get_nth_cluster-Links_example : get_nth_cluster memory_table three_used 2 2 ≡ 3
get_nth_cluster-Links_example =
    get_nth_cluster-Links memory_table-IsReliable three_used 2 2 (4 ∷ 3 ∷ []) three_used-Links

freechain-Freed_example :
    ((freechain memory_table three_used 2).0 ≡ true)
    × Freed memory_table three_used (2 ∷ 4 ∷ 3 ∷ []) (freechain memory_table three_used 2).1
freechain-Freed_example =
    freechain-Freed memory_table-IsReliable three_used 2 (4 ∷ 3 ∷ []) three_used-Links

allocchain-Allocated_example :
    (zs : List ℕ) × Allocated memory_table three_used
      (allocchain memory_table three_used 2).1
      (allocchain memory_table three_used 2).0
      zs
    × (length zs + 1 ≡ 2)
allocchain-Allocated_example =
    allocchain-Allocated memory_table-IsReliable three_used 2 (omega arith) (omega arith)

allocchain_fails_example :
    ((allocchain memory_table three_used 4).0 ≡ 0)
    × ((a : ℕ) → IsData memory_table a → (allocchain memory_table three_used 4).1 a ≡ three_used a)
allocchain_fails_example = allocchain_fails memory_table-IsReliable three_used 4 (omega arith)

resizechain_frees_example :
    let (done, first, s') = resizechain memory_table three_used 2 0 in
    (done ≡ true) × (first ≡ 0) × Freed memory_table three_used (2 ∷ 4 ∷ 3 ∷ []) s'
resizechain_frees_example =
    resizechain_frees memory_table-IsReliable three_used 2 (4 ∷ 3 ∷ []) three_used-Links

resizechain_shrinks_example :
    let (done, first, s') = resizechain memory_table three_used 2 2 in
    (done ≡ true)
    × (first ≡ 2)
    × Links memory_table s' 2 (4 ∷ [])
    × ((a : ℕ)
        → IsData memory_table a
        → a ≢ 4
        → s' a ≡ (if has a (3 ∷ []) then 0 else three_used a))
resizechain_shrinks_example =
    resizechain_shrinks memory_table-IsReliable three_used 2 3 (4 ∷ []) [] three_used-Links

resizechain_grows_example :
    let (done, first, s') = resizechain memory_table three_used 2 5 in
    (done ≡ true)
    × (first ≡ 2)
    × ((zs : List ℕ) × Links memory_table s' 2 ((4 ∷ 3 ∷ []) ++ zs)
        × (length (2 ∷ (4 ∷ 3 ∷ []) ++ zs) ≡ 5)
        × ((a : ℕ) → has a zs ≡ true → three_used a ≡ 0)
        × ((a : ℕ) → IsData memory_table a → a ≢ 3 → has a zs ≡ false → s' a ≡ three_used a))
resizechain_grows_example =
    resizechain_grows memory_table-IsReliable three_used 2 5 (4 ∷ 3 ∷ []) three_used-Links
      (omega arith) (omega arith)

resizechain_full_example :
    let (done, first, s') = resizechain memory_table three_used 2 7 in
    (done ≡ false) × (first ≡ 2) × ((a : ℕ) → IsData memory_table a → s' a ≡ three_used a)
resizechain_full_example =
    resizechain_full memory_table-IsReliable three_used 2 7 (4 ∷ 3 ∷ []) three_used-Links
      (omega arith)

-- The first free clusters are taken: 5, then 6.
two_taken :
    let (first, s) = allocchain memory_table three_used 2 in
    (first ≡ 5) × (s 5 ≡ 6) × (s 6 ≡ 0xFFF8) × (s 7 ≡ 0)
unfolding allocchain allocchain_loop
two_taken = (refl, refl, refl, refl)
