-- ===== src/Fat/Chain/Grown.antt =====
-- The state of `allocchain`'s loop: a chain of clusters that were free, in a table that is
-- otherwise as it was.
use fastsystem.Prelude.{
  ℕ, ◌+◌, ◌<◌, ◌≡◌, refl, sym, true, false, ◌||◌, List, [], ◌∷◌, ◌++◌, arith, ◌==◌, if◌then◌else◌,
  has,
}
use fastsystem.Fat.Table.{FatTable, IsData, IsReliable}
use fastsystem.Fat.Chain.{abandon}
use fastsystem.Fat.Chain.Links.{Links, Links-IsData, last_of, has-last_of, Links-append}
use fastsystem.Fat.Chain.Free.{freechain-Freed}

abbrev pub Ends : (t : FatTable) → t.State → ℕ → ℕ → List ℕ → Type 0
Ends t s first previous [] = (first ≡ 0) × (previous ≡ 0)
Ends t s first previous (x ∷ xs) = (first ≡ x) × (previous ≡ last_of x xs) × Links t (t.read s) x xs

-- `ys` has been allocated since `s0`, all of it below `cluster`.
pub record Grown (t : FatTable) (s0 s : t.State) (first previous cluster : ℕ) (ys : List ℕ)
    : Type 0 where
  pub ends : Ends t s first previous ys
  pub taken : (a : ℕ) → has a ys ≡ true → IsData t a × (a < cluster) × (t.read s0 a ≡ 0)
  pub same : (a : ℕ) → IsData t a → has a ys ≡ false → t.read s a ≡ t.read s0 a

pub has-append : (a : ℕ) (xs ys : List ℕ) → has a (xs ++ ys) ≡ (has a xs || has a ys)
has-append a [] ys = refl
has-append a (x ∷ xs) ys = ground (arith, has-append a xs ys)

last_of-append : (x : ℕ) (xs : List ℕ) (c : ℕ) → last_of x (xs ++ c ∷ []) ≡ c
last_of-append x [] c = refl
last_of-append x (y ∷ ys) c = last_of-append y ys c

module _ {t : FatTable} (ok : IsReliable t) (s0 : t.State) where
  pub abandon-same :
      (s : t.State) (first previous cluster : ℕ) (ys : List ℕ)
      → Grown t s0 s first previous cluster ys
      → (a : ℕ) → IsData t a
      → t.read (abandon t s first).1 a ≡ t.read s0 a
  unfolding abandon
  abandon-same s first previous cluster [] g a d = ground (arith, g.same a, g.ends)
  abandon-same s first previous cluster (x ∷ xs) g a d =
      let f = freechain-Freed ok s x xs g.ends.2 in
      ground (arith, Links-IsData ok (t.read s) x xs g.ends.2, g.same a, g.taken a, f.1 a, g.ends)

  -- The first cluster taken.
  pub Grown-start :
      (s : t.State) (first previous cluster : ℕ)
      → Grown t s0 s first previous cluster []
      → IsData t cluster
      → t.read s cluster ≡ 0
      → Grown t s0 (t.write s cluster t.eoc_mark).1 cluster cluster (cluster + 1) (cluster ∷ [])
  Grown-start s first previous cluster g d free = record {
    ends = (refl, refl, (d, ground (arith, ok.read-write s cluster t.eoc_mark cluster d d)));
    taken = λ a i. ground (arith, g.same a);
    same = λ a da i. ground (arith, g.same a, ok.read-write s cluster t.eoc_mark a d da);
  }

  -- The next cluster is marked and linked behind the last one.
  pub Grown-extend :
      (s : t.State) (first previous cluster x : ℕ) (xs : List ℕ)
      → Grown t s0 s first previous cluster (x ∷ xs)
      → IsData t cluster
      → t.read s cluster ≡ 0
      → Grown t s0
          (t.write (t.write s cluster t.eoc_mark).1 previous cluster).1
          first
          cluster
          (cluster + 1)
          (x ∷ xs ++ cluster ∷ [])
  Grown-extend s first previous cluster x xs g d free = record {
    ends = (
      g.ends.0,
      sym (last_of-append x xs cluster),
      Links-append ok (t.read s) (t.read s2) x cluster xs [] g.ends.2
          (d, ground (arith, at cluster d, new)) (ground (arith, at (last_of x xs) dp, g.ends))
          (λ a i ne. ground (arith, at a (g.taken a i).0, g.taken a i, g.ends)),
    );
    taken = λ a i. ground (arith, g.taken a, g.same a, has-append a (x ∷ xs) (cluster ∷ []));
    same = λ a da i.
        ground (
          arith,
          g.same a,
          at a da,
          has-append a (x ∷ xs) (cluster ∷ []),
          has-last_of x xs,
          g.ends,
        );
  }
    where
      s2 : t.State
      s2 = (t.write (t.write s cluster t.eoc_mark).1 previous cluster).1

      dp : IsData t (last_of x xs)
      dp = (g.taken (last_of x xs) (has-last_of x xs)).0

      new : last_of x xs < cluster
      new = (g.taken (last_of x xs) (has-last_of x xs)).1

      at :
          (a : ℕ)
          → IsData t a
          → t.read s2 a
            ≡ (if a == previous then cluster else if a == cluster then t.eoc_mark else t.read s a)
      at a da = ground (
        arith,
        dp,
        g.ends,
        ok.max_lt_eoc,
        ok.read-write s cluster t.eoc_mark a d da,
        ok.read-write (t.write s cluster t.eoc_mark).1 previous cluster a,
      )
