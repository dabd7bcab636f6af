-- ===== src/Fat/Chain/Kept.antt =====
-- What every write of an entry keeps, `allocchain` keeps, and `resizechain` where the table is
-- full.
use fastsystem.Prelude.{
  ℕ, zero, suc, ◌+◌, ◌-◌, ◌≤◌, ◌<◌, ◌≡◌, refl, arith, Bool, true, false, not, ◌||◌, List, length,
  ltb, ◌==◌, if◌then◌else◌,
}
use fastsystem.Fat.Table.{FatTable, IsData, IsReliable}
use fastsystem.Fat.Chain.{
  is_valid_data_cluster, is_eoc, freechain_loop, freechain, abandon, allocchain_loop, allocchain,
  resizechain,
}
use fastsystem.Fat.Chain.Links.{Links}
use fastsystem.Fat.Chain.Alloc.{free_count, allocchain_fails}
use fastsystem.Fat.Chain.Resize.{resizechain-grow, full_grow}

module _ {t : FatTable} (ok : IsReliable t) (Keeps : t.State → Type 0)
    (step : (s : t.State) (c x : ℕ)
      → IsData t c
      → x ≤ t.eoc_mark
      → Keeps s
      → Keeps (t.write s c x).1) where
  if-Keeps :
      {A : Type 0} (b : Bool) (x y : A × t.State)
      → (b ≡ true → Keeps x.1)
      → (b ≡ false → Keeps y.1)
      → Keeps (if b then x else y).1
  if-Keeps true x y h k = h refl
  if-Keeps false x y h k = k refl

  valid-IsData : (c : ℕ) → not (is_valid_data_cluster t c) ≡ false → IsData t c
  unfolding is_valid_data_cluster
  valid-IsData c e = (ground (arith, e), ground (arith, e))

  freechain_loop-Keeps :
      (left : ℕ) (s : t.State) (c : ℕ) → Keeps s → Keeps (freechain_loop t left s c).1
  unfolding freechain_loop
  freechain_loop-Keeps zero s c p = p
  freechain_loop-Keeps (suc left) s c p =
      if-Keeps (not (is_valid_data_cluster t c)) _ _ (λ e. p)
        (λ e.
          let q = step s c 0 (valid-IsData c e) (omega arith) p in
          if-Keeps (not (t.write s c 0).0) _ _ (λ e. q)
            (λ e.
              if-Keeps (t.read s c == 0 || is_eoc t (t.read s c)) _ _ (λ e. q)
                (λ e.
                  if-Keeps (not (is_valid_data_cluster t (t.read s c))) _ _ (λ e. q)
                    (λ e. freechain_loop-Keeps left (t.write s c 0).1 (t.read s c) q))))

  freechain-Keeps : (s : t.State) (c : ℕ) → Keeps s → Keeps (freechain t s c).1
  unfolding freechain
  freechain-Keeps s c p =
      if-Keeps (not t.ready) _ _ (λ e. p)
        (λ e.
          if-Keeps (c == 0) _ _ (λ e. p)
            (λ e.
              if-Keeps (not (is_valid_data_cluster t c)) _ _ (λ e. p)
                (λ e. freechain_loop-Keeps t.max_cluster s c p)))

  abandon-Keeps : (s : t.State) (c : ℕ) → Keeps s → Keeps (abandon t s c).1
  unfolding abandon
  abandon-Keeps s c p = if-Keeps (c == 0) _ _ (λ e. p) (λ e. freechain-Keeps s c p)

  allocchain_loop-Keeps :
      (left : ℕ) (s : t.State) (c wanted first previous : ℕ)
      → 2 ≤ c
      → c + left ≡ t.max_cluster + 1
      → ((previous == 0) ≡ false → IsData t previous)
      → Keeps s
      → Keeps (allocchain_loop t left s c wanted first previous).1
  unfolding allocchain_loop
  allocchain_loop-Keeps left s c zero first previous lo hi d p = p
  allocchain_loop-Keeps zero s c (suc wanted) first previous lo hi d p = abandon-Keeps s first p
  allocchain_loop-Keeps (suc left) s c (suc wanted) first previous lo hi d p =
      let here : IsData t c = (lo, omega (arith, hi)) in
      let lo' : 2 ≤ c + 1 = omega (arith, lo) in
      let hi' : c + 1 + left ≡ t.max_cluster + 1 = omega (arith, hi) in
      let first' = if first == 0 then c else first in
      let s1 = (t.write s c t.eoc_mark).1 in
      let s2 = (t.write s1 previous c).1 in
      let q : Keeps s1 = step s c t.eoc_mark here (omega arith) p in
      let small : c ≤ t.eoc_mark = omega (arith, here, ok.max_lt_eoc) in
      if-Keeps (not (t.read s c == 0)) _ _
        (λ e. allocchain_loop-Keeps left s (c + 1) (suc wanted) first previous lo' hi' d p)
        (λ e.
          if-Keeps (not (t.write s c t.eoc_mark).0) _ _ (λ e. abandon-Keeps s1 first q)
            (λ e.
              if-Keeps (previous == 0) _ _
                (λ e. allocchain_loop-Keeps left s1 (c + 1) wanted first' c lo' hi' (λ z. here) q)
                (λ z.
                  let q2 : Keeps s2 = step s1 previous c (d z) small q in
                  if-Keeps (not (t.write s1 previous c).0) _ _ (λ e. freechain-Keeps s2 first' q2)
                    (λ e.
                      allocchain_loop-Keeps left s2 (c + 1) wanted first' c lo' hi' (λ z. here)
                        q2))))

  allocchain-Keeps : (s : t.State) (count : ℕ) → Keeps s → Keeps (allocchain t s count).1
  unfolding allocchain
  allocchain-Keeps s count p =
      if-Keeps (not t.ready || count == 0) _ _ (λ e. p)
        (λ e.
          if-Keeps (ltb t.max_cluster 2 || t.eoc_mark == 0) _ _ (λ e. p)
            (λ e.
              let big : 2 ≤ t.max_cluster = ground (arith, e) in
              if-Keeps (ltb t.cluster_count count) _ _ (λ e. p)
                (λ e.
                  allocchain_loop-Keeps (t.max_cluster - 1) s 2 count 0 0 (omega arith)
                    (omega (arith, big)) (λ z. absurd (ground (arith, z))) p)))

  pub full-Keeps :
      (s : t.State) (x required : ℕ) (xs : List ℕ)
      → Links t (t.read s) x xs
      → length xs + 1 + free_count (t.read s) 2 t.cluster_count < required
      → Keeps s
      → Keeps (resizechain t s x required).2
  full-Keeps s x required xs h lacks p =
      let (zero_head, same) =
        allocchain_fails ok s (required - (length xs + 1)) (omega (arith, lacks)) in
      rw
        (
          resizechain-grow ok s x required xs h (omega (arith, lacks)),
          full_grow ok s x required xs h zero_head,
        )
        (allocchain-Keeps s (required - (length xs + 1)) p)
