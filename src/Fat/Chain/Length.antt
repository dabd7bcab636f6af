-- ===== src/Fat/Chain/Length.antt =====
-- `chain_length` and `get_nth_cluster` against the chain that the table holds.
use fastsystem.Prelude.{
  ℕ, zero, suc, ◌+◌, ◌<◌, ◌≡◌, refl, ◌≢◌, inl, inr, List, [], ◌∷◌, arith, length, get_or,
  Bool-cases,
}
use fastsystem.Fat.Table.{FatTable, IsReliable}
use fastsystem.Fat.Chain.{
  is_valid_data_cluster, is_eoc, chain_length_loop, chain_length, get_nth_cluster_loop,
  get_nth_cluster,
}
use fastsystem.Fat.Chain.Links.{Links, Links-IsData, Links-length}

module _ {t : FatTable} (ok : IsReliable t) (s : t.State) where
  chain_length_loop-Links :
      (left count x : ℕ) (xs : List ℕ)
      → Links t (t.read s) x xs
      → length xs < left
      → chain_length_loop t left s count x ≡ count + length xs + 1
  unfolding chain_length_loop is_valid_data_cluster is_eoc
  chain_length_loop-Links zero count x xs h l = absurd (omega arith)
  chain_length_loop-Links (suc left) count x [] h l = ground (arith, ok.max_lt_eoc)
  chain_length_loop-Links (suc left) count x (y ∷ ys) h l = ground (
    arith,
    ok.max_lt_eoc,
    Links-IsData ok (t.read s) y ys h.2,
    chain_length_loop-Links left (count + 1) y ys h.2 (omega arith),
  )

  chain_length_loop_sound :
      (left count x : ℕ)
      → chain_length_loop t left s count x ≢ 0
      → (xs : List ℕ) × Links t (t.read s) x xs
        × (chain_length_loop t left s count x ≡ count + length xs + 1)
  unfolding chain_length_loop is_valid_data_cluster is_eoc
  chain_length_loop_sound zero count x h = absurd (h refl)
  chain_length_loop_sound (suc left) count x h = elim (Bool-cases (is_eoc t (t.read s x))) [
    | inl e ↦ ([], ground arith, ground arith)
    | inr e ↦
        let (xs, k, q) = chain_length_loop_sound left (count + 1) (t.read s x) (ground arith) in
        (t.read s x ∷ xs, (ground arith, refl, k), ground arith)
  ]

  -- On a reliable table, where `chain_length` is not 0 it is the length of a well-formed chain from
  -- that cluster.
  chain_length_sound :
      (x : ℕ)
      → chain_length t s x ≢ 0
      → (xs : List ℕ) × Links t (t.read s) x xs × (chain_length t s x ≡ length xs + 1)
  unfolding chain_length
  chain_length_sound x h =
      let (xs, k, q) = chain_length_loop_sound t.max_cluster 0 x (ground arith) in
      (xs, k, ground arith)

  -- On a reliable table, `chain_length` counts the clusters of a well-formed chain.
  pub chain_length-Links :
      (x : ℕ) (xs : List ℕ) → Links t (t.read s) x xs → chain_length t s x ≡ length xs + 1
  unfolding chain_length is_valid_data_cluster
  chain_length-Links x xs h = ground (
    arith,
    ok.max_is,
    Links-IsData ok (t.read s) x xs h,
    Links-length ok (t.read s) x xs h,
    chain_length_loop-Links t.max_cluster 0 x xs h,
  )

  get_nth_cluster_loop-Links :
      (i x : ℕ) (xs : List ℕ)
      → Links t (t.read s) x xs
      → get_nth_cluster_loop t i s x ≡ get_or (x ∷ xs) i 0
  unfolding get_nth_cluster_loop is_valid_data_cluster is_eoc
  get_nth_cluster_loop-Links zero x xs h = refl
  get_nth_cluster_loop-Links (suc i) x [] h = ground (arith, ok.max_lt_eoc)
  get_nth_cluster_loop-Links (suc i) x (y ∷ ys) h = ground (
    arith,
    ok.max_lt_eoc,
    Links-IsData ok (t.read s) y ys h.2,
    get_nth_cluster_loop-Links i y ys h.2,
  )

  -- On a reliable table, `get_nth_cluster` of a well-formed chain is its element at the index, and
  -- 0 past its end.
  pub get_nth_cluster-Links :
      (x i : ℕ) (xs : List ℕ)
      → Links t (t.read s) x xs
      → get_nth_cluster t s x i ≡ get_or (x ∷ xs) i 0
  unfolding get_nth_cluster is_valid_data_cluster
  get_nth_cluster-Links x i xs h =
      ground (arith, Links-IsData ok (t.read s) x xs h, get_nth_cluster_loop-Links i x xs h)
