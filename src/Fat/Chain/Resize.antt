-- ===== src/Fat/Chain/Resize.antt =====
-- `resizechain`: a chain is cut or extended in place, and freed or started at its ends.
use fastsystem.Prelude.{
  ℕ, ◌+◌, ◌-◌, ◌≤◌, ◌<◌, ◌≡◌, refl, ◌∙◌, ◌≢◌, true, false, List, [], ◌∷◌, ◌++◌, arith,
  if◌then◌else◌, length, has, get_or, length-append,
}
use mathlib.Core.List.{append-nil}
use fastsystem.Fat.Table.{FatTable, IsData, IsReliable}
use fastsystem.Fat.Chain.{is_eoc, freechain, allocchain, get_nth_cluster, shrink, grow, resizechain}
use fastsystem.Fat.Chain.Links.{
  Links, Links-IsData, Links-append, Links-has-IsData, Links-not-has, last_of, has-last_of,
}
use fastsystem.Fat.Chain.Length.{chain_length-Links, get_nth_cluster-Links}
use fastsystem.Fat.Chain.Free.{Freed, freechain-Freed, Links-write}
use fastsystem.Fat.Chain.Grown.{has-append}
use fastsystem.Fat.Chain.Alloc.{free_count, Allocated, allocchain-Allocated, allocchain_fails}

get_or-last : (x : ℕ) (xs ys : List ℕ) → get_or (x ∷ xs ++ ys) (length xs) 0 ≡ last_of x xs
get_or-last x [] ys = refl
get_or-last x (y ∷ xs) ys = get_or-last y xs ys

module _ {t : FatTable} (ok : IsReliable t) where
  -- The parts of a chain on either side of a cut.
  Links-tail :
      (r : ℕ → ℕ) (x c : ℕ) (pre post : List ℕ)
      → Links t r x (pre ++ c ∷ post)
      → (r (last_of x pre) ≡ c) × Links t r c post
  Links-tail r x c [] post h = (h.1, h.2)
  Links-tail r x c (y ∷ pre) post h = Links-tail r y c pre post h.2

  Links-nonzero :
      (r : ℕ → ℕ) (x a : ℕ) (xs : List ℕ) → Links t r x xs → has a (x ∷ xs) ≡ true → r a ≢ 0
  Links-nonzero r x a [] h i = ground (arith, ok.max_lt_eoc)
  Links-nonzero r x a (y ∷ ys) h i =
      ground (arith, Links-IsData ok r y ys h.2, Links-nonzero r y a ys h.2)

  -- Marking the cluster before the cut ends the first part there.
  Links-cut :
      (r r' : ℕ → ℕ) (x c : ℕ) (pre post : List ℕ)
      → Links t r x (pre ++ c ∷ post)
      → t.eoc_mark ≤ r' (last_of x pre)
      → ((a : ℕ) → has a (x ∷ pre) ≡ true → a ≢ last_of x pre → r' a ≡ r a)
      → Links t r' x pre
  Links-cut r r' x c [] post h e same = (h.0, e)
  Links-cut r r' x c (y ∷ pre) post h e same = (
    h.0,
    ground (
      arith,
      same x,
      has-last_of y pre,
      Links-not-has ok r x (y ∷ pre ++ c ∷ post) h,
      has-append (last_of y pre) (y ∷ pre) (c ∷ post),
    ),
    Links-cut r r' y c pre post h.2 e (λ a i ne. ground (arith, same a)),
  )

  -- A size of no clusters frees the chain.
  pub resizechain_frees :
      (s : t.State) (x : ℕ) (xs : List ℕ)
      → Links t (t.read s) x xs
      → let (done, first, s') = resizechain t s x 0 in
        (done ≡ true) × (first ≡ 0) × Freed t s (x ∷ xs) s'
  unfolding resizechain
  resizechain_frees s x xs h =
      let (done, f) = freechain-Freed ok s x xs h in
      let d = Links-IsData ok (t.read s) x xs h in
      (ground arith, ground arith, λ a da. ground (arith, f a da))

  last-IsData : (r : ℕ → ℕ) (x : ℕ) (xs : List ℕ) → Links t r x xs → IsData t (last_of x xs)
  last-IsData r x xs h = Links-has-IsData ok r x (last_of x xs) xs h (has-last_of x xs)

  nth-last :
      (s : t.State) (x n : ℕ) (xs ys : List ℕ)
      → Links t (t.read s) x (xs ++ ys)
      → n ≡ length xs
      → get_nth_cluster t s x n ≡ last_of x xs
  nth-last s x n xs ys h e =
      rw e (get_nth_cluster-Links ok s x (length xs) (xs ++ ys) h ∙ get_or-last x xs ys)

  -- The two parts of a chain share no cluster.
  pre-apart :
      (r : ℕ → ℕ) (x c a : ℕ) (pre post : List ℕ)
      → Links t r x (pre ++ c ∷ post)
      → has a (x ∷ pre) ≡ true
      → IsData t a × (has a (c ∷ post) ≡ false)
  pre-apart r x c a [] post h i = ground (arith, Links-not-has ok r x (c ∷ post) h)
  pre-apart r x c a (y ∷ pre) post h i = ground (
    arith,
    Links-not-has ok r x (y ∷ pre ++ c ∷ post) h,
    has-append x (y ∷ pre) (c ∷ post),
    pre-apart r y c a pre post h.2,
  )

  shrink_lem :
      (s : t.State) (x c : ℕ) (pre post : List ℕ)
      → Links t (t.read s) x (pre ++ c ∷ post)
      → shrink t s x (length pre + 1) ≡ freechain t (t.write s (last_of x pre) t.eoc_mark).1 c
  unfolding shrink is_eoc
  shrink_lem s x c pre post h =
      let e = nth-last s x (length pre + 1 - 1) pre (c ∷ post) h (omega arith) in
      let (next, tl) = Links-tail (t.read s) x c pre post h in
      let dc = Links-IsData ok (t.read s) c post tl in
      let (dl, out) = pre-apart (t.read s) x c (last_of x pre) pre post h (has-last_of x pre) in
      ground (arith, e, next, dc, dl, ok.max_lt_eoc, ok.write_done s (last_of x pre) t.eoc_mark dl)

  resizechain-shrink :
      (s : t.State) (x required : ℕ) (xs : List ℕ)
      → Links t (t.read s) x xs
      → 0 < required
      → required < length xs + 1
      → resizechain t s x required ≡ ((shrink t s x required).0, x, (shrink t s x required).1)
  unfolding resizechain
  resizechain-shrink s x required xs h p q =
      ground (arith, Links-IsData ok (t.read s) x xs h, chain_length-Links ok s x xs h)

  pub resizechain-grow :
      (s : t.State) (x required : ℕ) (xs : List ℕ)
      → Links t (t.read s) x xs
      → length xs + 1 < required
      → resizechain t s x required
        ≡ ((grow t s x (length xs + 1) required).0, x, (grow t s x (length xs + 1) required).1)
  unfolding resizechain
  resizechain-grow s x required xs h q =
      ground (arith, Links-IsData ok (t.read s) x xs h, chain_length-Links ok s x xs h)

  -- On a reliable table, a call that asks for fewer clusters than a well-formed chain has, and for
  -- one at least, succeeds and keeps the first cluster: the chain is that many of the old clusters,
  -- the entries of the others are 0, and no other entry changes but that of the new last one.
  pub resizechain_shrinks :
      (s : t.State) (x c : ℕ) (pre post : List ℕ)
      → Links t (t.read s) x (pre ++ c ∷ post)
      → let (done, first, s') = resizechain t s x (length pre + 1) in
        (done ≡ true)
        × (first ≡ x)
        × Links t (t.read s') x pre
        × ((a : ℕ)
            → IsData t a
            → a ≢ last_of x pre
            → t.read s' a ≡ (if has a (c ∷ post) then 0 else t.read s a))
  resizechain_shrinks s x c pre post h =
      let l = last_of x pre in
      let s1 : t.State = (t.write s l t.eoc_mark).1 in
      let (next, tl) = Links-tail (t.read s) x c pre post h in
      let (dl, out) = pre-apart (t.read s) x c (last_of x pre) pre post h (has-last_of x pre) in
      let (done, f) =
        freechain-Freed ok s1 c post
          (Links-write ok s l c t.eoc_mark post dl (omega arith) out tl) in
      rw
        (
          resizechain-shrink s x (length pre + 1) (pre ++ c ∷ post) h (omega arith)
              (omega (arith, length-append pre (c ∷ post))),
          shrink_lem s x c pre post h,
        )
        (
          done,
          refl,
          Links-cut (t.read s) (t.read (freechain t s1 c).1) x c pre post h
              (ground (arith, f l dl, ok.read-write s l t.eoc_mark l dl dl))
              (λ a i ne. ground (
                arith,
                pre-apart (t.read s) x c a pre post h i,
                f a,
                ok.read-write s l t.eoc_mark a dl,
              )),
          λ a d ne. ground (arith, f a d, ok.read-write s l t.eoc_mark a dl d),
        )

  grow_lem :
      (s : t.State) (x required r : ℕ) (s1 : t.State) (xs : List ℕ)
      → Links t (t.read s) x xs
      → allocchain t s (required - (length xs + 1)) ≡ (r, s1)
      → IsData t r
      → grow t s x (length xs + 1) required ≡ (true, (t.write s1 (last_of x xs) r).1)
  unfolding grow
  grow_lem s x required r s1 xs h e d =
      let n = nth-last s x (length xs + 1 - 1) xs [] (rw append-nil h) (omega arith) in
      let dl = last-IsData (t.read s) x xs h in
      ground (arith, n, dl, ok.max_lt_eoc, ok.write_done s1 (last_of x xs) r dl)

  pub full_grow :
      (s : t.State) (x required : ℕ) (xs : List ℕ)
      → Links t (t.read s) x xs
      → (allocchain t s (required - (length xs + 1))).0 ≡ 0
      → grow t s x (length xs + 1) required
        ≡ (false, (allocchain t s (required - (length xs + 1))).1)
  unfolding grow
  full_grow s x required xs h z =
      let n = nth-last s x (length xs + 1 - 1) xs [] (rw append-nil h) (omega arith) in
      let dl = last-IsData (t.read s) x xs h in ground (arith, n, dl, z)

  -- A chain of clusters that were free, put behind a chain that is in use.
  Links-join :
      (s s1 : t.State) (x r : ℕ) (xs zs : List ℕ)
      → Links t (t.read s) x xs
      → Allocated t s s1 r zs
      → Links t (t.read (t.write s1 (last_of x xs) r).1) x (xs ++ r ∷ zs)
  Links-join s s1 x r xs zs h al =
      let dl = last-IsData (t.read s) x xs h in
      let dr = Links-IsData ok (t.read s1) r zs al.links in
      let apart : (a : ℕ) → has a (x ∷ xs) ≡ true → has a (r ∷ zs) ≡ false =
        λ a i. ground (arith, Links-nonzero (t.read s) x a xs h i, al.was_free a) in
      Links-append ok (t.read s) (t.read (t.write s1 (last_of x xs) r).1) x r xs zs h
        (Links-write ok s1 (last_of x xs) r r zs dl (omega (arith, ok.max_lt_eoc))
          (apart (last_of x xs) (has-last_of x xs)) al.links)
        (ground (arith, ok.max_lt_eoc, ok.read-write s1 (last_of x xs) r (last_of x xs) dl dl))
        (λ a i ne. ground (
          arith,
          ok.max_lt_eoc,
          Links-has-IsData ok (t.read s) x a xs h i,
          apart a i,
          al.others a,
          ok.read-write s1 (last_of x xs) r a dl,
        ))

  -- On a reliable table, a call that asks for more clusters than a well-formed chain has, and no
  -- more than are free beyond them, succeeds and keeps the first cluster: the chain has that many
  -- clusters and begins with the old ones, the new ones were free, and no entry changes but those
  -- of the new ones and of the old last one.
  pub resizechain_grows :
      (s : t.State) (x required : ℕ) (xs : List ℕ)
      → Links t (t.read s) x xs
      → length xs + 1 < required
      → required ≤ length xs + 1 + free_count (t.read s) 2 t.cluster_count
      → let (done, first, s') = resizechain t s x required in
        (done ≡ true)
        × (first ≡ x)
        × ((zs : List ℕ) × Links t (t.read s') x (xs ++ zs)
            × (length (x ∷ xs ++ zs) ≡ required)
            × ((a : ℕ) → has a zs ≡ true → t.read s a ≡ 0)
            × ((a : ℕ)
                → IsData t a
                → a ≢ last_of x xs
                → has a zs ≡ false
                → t.read s' a ≡ t.read s a))
  resizechain_grows s x required xs h p q =
      let n = required - (length xs + 1) in
      let s1 : t.State = (allocchain t s n).1 in
      let r = (allocchain t s n).0 in
      let (zs, al, m) = allocchain-Allocated ok s n (omega arith) (omega arith) in
      let dl = last-IsData (t.read s) x xs h in
      let dr = Links-IsData ok (t.read s1) r zs al.links in
      rw (resizechain-grow s x required xs h p, grow_lem s x required r s1 xs h refl dr)
        (
          refl,
          refl,
          (
            r ∷ zs,
            Links-join s s1 x r xs zs h al,
            omega (arith, length-append xs (r ∷ zs)),
            λ a i. (al.was_free a i).1,
            λ a d ne i.
                ground
                  (arith, ok.max_lt_eoc, al.others a d i, ok.read-write s1 (last_of x xs) r a dl d),
          ),
        )

  -- On a reliable table, a call that asks for more clusters than a well-formed chain has together
  -- with the free ones fails, keeps the first cluster, and leaves every entry as it was.
  pub resizechain_full :
      (s : t.State) (x required : ℕ) (xs : List ℕ)
      → Links t (t.read s) x xs
      → length xs + 1 + free_count (t.read s) 2 t.cluster_count < required
      → let (done, first, s') = resizechain t s x required in
        (done ≡ false) × (first ≡ x) × ((a : ℕ) → IsData t a → t.read s' a ≡ t.read s a)
  resizechain_full s x required xs h lacks =
      let n = required - (length xs + 1) in
      let (zero_head, same) = allocchain_fails ok s n (omega arith) in
      rw (resizechain-grow s x required xs h (omega arith), full_grow s x required xs h zero_head)
        (refl, refl, same)
