-- ===== src/Fat/Chain/Free.antt =====
-- `freechain` clears the entries of a chain and no other.
use fastsystem.Prelude.{
  ℕ, zero, suc, ◌≤◌, ◌<◌, ◌≡◌, true, false, List, [], ◌∷◌, arith, if◌then◌else◌, length, has,
}
use fastsystem.Fat.Table.{FatTable, IsData, IsReliable}
use fastsystem.Fat.Chain.{is_valid_data_cluster, is_eoc, freechain_loop, freechain}
use fastsystem.Fat.Chain.Links.{
  Links, Links-IsData, Links-length, Links-not-has, Links-frame, Links-has-IsData,
}

-- `s'` is `s` with the entries of `xs` cleared.
abbrev pub Freed : (t : FatTable) → t.State → List ℕ → t.State → Type 0
Freed t s xs s' = (a : ℕ) → IsData t a → t.read s' a ≡ (if has a xs then 0 else t.read s a)

module _ {t : FatTable} (ok : IsReliable t) where
  -- Writing one cluster of a chain leaves the chain behind it as it is.
  pub Links-write :
      (s : t.State) (x y v : ℕ) (ys : List ℕ)
      → IsData t x
      → v ≤ t.eoc_mark
      → has x (y ∷ ys) ≡ false
      → Links t (t.read s) y ys
      → Links t (t.read (t.write s x v).1) y ys
  Links-write s x y v ys d b out h =
      Links-frame t (t.read s) (t.read (t.write s x v).1) y ys
        (λ a i.
          ground (arith, ok.read-write s x v a d (Links-has-IsData ok (t.read s) y a ys h i) b))
        h

  freechain_loop-Freed :
      (left : ℕ) (s : t.State) (x : ℕ) (xs : List ℕ)
      → Links t (t.read s) x xs
      → length xs < left
      → ((freechain_loop t left s x).0 ≡ true) × Freed t s (x ∷ xs) (freechain_loop t left s x).1
  unfolding freechain_loop is_valid_data_cluster is_eoc
  freechain_loop-Freed zero s x xs h l = absurd (omega arith)
  freechain_loop-Freed (suc left) s x [] h l = (
    ground (arith, ok.max_lt_eoc, ok.write_done s x 0),
    λ a d. ground (arith, ok.max_lt_eoc, ok.write_done s x 0, ok.read-write s x 0 a),
  )
  freechain_loop-Freed (suc left) s x (y ∷ ys) h l =
      let out = Links-not-has ok (t.read s) x (y ∷ ys) h in
      let (done, rest) =
        freechain_loop-Freed left (t.write s x 0).1 y ys
          (Links-write s x y 0 ys h.0 (omega arith) out h.2) (omega arith) in
      let b = Links-IsData ok (t.read s) y ys h.2 in
      (
        ground (arith, ok.max_lt_eoc, ok.write_done s x 0),
        λ a d. ground (arith, ok.max_lt_eoc, ok.write_done s x 0, ok.read-write s x 0 a, rest a),
      )

  -- On a reliable table a well-formed chain is freed: the call succeeds, the chain's entries are 0
  -- and no other entry changes.
  pub freechain-Freed :
      (s : t.State) (x : ℕ) (xs : List ℕ)
      → Links t (t.read s) x xs
      → ((freechain t s x).0 ≡ true) × Freed t s (x ∷ xs) (freechain t s x).1
  unfolding freechain is_valid_data_cluster
  freechain-Freed s x xs h =
      let (done, rest) =
        freechain_loop-Freed t.max_cluster s x xs h
          (omega (arith, ok.max_is, Links-length ok (t.read s) x xs h)) in
      let b = Links-IsData ok (t.read s) x xs h in
      (ground (arith, ok.is_ready), λ a d. ground (arith, ok.is_ready, rest a))
