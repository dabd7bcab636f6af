-- ===== src/Fat/Chain/Links.antt =====
-- The chain that starts at a cluster, as the list of the clusters that follow it.
use fastsystem.Prelude.{
  ℕ, ◌+◌, ◌≤◌, ◌<◌, ◌≡◌, refl, ◌≢◌, inl, inr, true, false, List, [], ◌∷◌, arith, ◌==◌, ◌++◌, length,
  has, Distinct, length-le_of_Distinct, Bool-cases, ==→eq,
}
use mathlib.Core.Path.{ap, ap₂, sym, ◌∙◌, subst}
use fastsystem.Fat.Table.{FatTable, IsData, IsReliable}

-- `Links t r x xs`: from `x` the entries of the table `r` lead through `xs` to an end mark.
abbrev pub Links : FatTable → (ℕ → ℕ) → ℕ → List ℕ → Type 0
Links t r x [] = IsData t x × (t.eoc_mark ≤ r x)
Links t r x (y ∷ ys) = IsData t x × (r x ≡ y) × Links t r y ys

module _ {t : FatTable} (ok : IsReliable t) where
  pub Links-IsData : (r : ℕ → ℕ) (x : ℕ) (xs : List ℕ) → Links t r x xs → IsData t x
  Links-IsData r x [] h = h.0
  Links-IsData r x (y ∷ ys) h = h.0

  -- The table determines the chain.
  Links-unique : (r : ℕ → ℕ) (x : ℕ) (xs ys : List ℕ) → Links t r x xs → Links t r x ys → xs ≡ ys
  Links-unique r x [] [] h k = refl
  Links-unique r x [] (y ∷ ys) h k = absurd (omega (arith, ok.max_lt_eoc, Links-IsData r y ys k.2))
  Links-unique r x (y ∷ ys) [] h k = absurd (omega (arith, ok.max_lt_eoc, Links-IsData r y ys h.2))
  Links-unique r x (y ∷ xs) (z ∷ ys) h k =
      let e : y ≡ z = sym h.1 ∙ k.1 in
      ap₂ ◌∷◌ e (Links-unique r z xs ys (subst (λ w. Links t r w xs) e h.2) k.2)

  Links-has :
      (r : ℕ → ℕ) (x a : ℕ) (xs : List ℕ)
      → Links t r x xs
      → has a xs ≡ true
      → (zs : List ℕ) × Links t r a zs × (length zs < length xs)
  Links-has r x a [] h i = cc
  Links-has r x a (y ∷ ys) h i = elim (Bool-cases (a == y)) [
    | inl e ↦ (ys, subst (λ w. Links t r w ys) (sym (==→eq a y e)) h.2, omega arith)
    | inr e ↦ let (zs, k, l) = Links-has r y a ys h.2 (ground arith) in (zs, k, omega arith)
  ]

  pub Links-not-has : (r : ℕ → ℕ) (x : ℕ) (xs : List ℕ) → Links t r x xs → has x xs ≡ false
  Links-not-has r x xs h = elim (Bool-cases (has x xs)) [
    | inl e ↦
        let (zs, k, l) = Links-has r x x xs h e in
        absurd (omega (arith, ap length (Links-unique r x xs zs h k)))
    | inr e ↦ e
  ]

  pub Links-Distinct : (r : ℕ → ℕ) (x : ℕ) (xs : List ℕ) → Links t r x xs → Distinct (x ∷ xs)
  Links-Distinct r x [] h = (refl, tt)
  Links-Distinct r x (y ∷ ys) h = (Links-not-has r x (y ∷ ys) h, Links-Distinct r y ys h.2)

  pub Links-has-IsData :
      (r : ℕ → ℕ) (x a : ℕ) (xs : List ℕ) → Links t r x xs → has a (x ∷ xs) ≡ true → IsData t a
  Links-has-IsData r x a [] h i = ground arith
  Links-has-IsData r x a (y ∷ ys) h i = ground (arith, Links-has-IsData r y a ys h.2)

  -- A chain has at most one cluster for each entry of the table.
  pub Links-length :
      (r : ℕ → ℕ) (x : ℕ) (xs : List ℕ) → Links t r x xs → length xs + 1 ≤ t.cluster_count
  Links-length r x xs h = omega (
    arith,
    ok.max_is,
    length-le_of_Distinct t.cluster_count 2 (x ∷ xs) (Links-Distinct r x xs h)
        (λ a i. let b = Links-has-IsData r x a xs h i in (b.0, omega (arith, ok.max_is))),
  )

-- A chain depends on the entries of its own clusters only.
pub Links-frame :
    (t : FatTable) (r r' : ℕ → ℕ) (x : ℕ) (xs : List ℕ)
    → ((a : ℕ) → has a (x ∷ xs) ≡ true → r' a ≡ r a)
    → Links t r x xs
    → Links t r' x xs
Links-frame t r r' x [] e h = ground (arith, e x)
Links-frame t r r' x (y ∷ ys) e h =
    (h.0, ground (arith, e x), Links-frame t r r' y ys (λ a i. ground (arith, e a)) h.2)

-- The last cluster of a chain.
abbrev pub last_of : ℕ → List ℕ → ℕ
last_of x [] = x
last_of x (y ∷ ys) = last_of y ys

pub has-last_of : (x : ℕ) (xs : List ℕ) → has (last_of x xs) (x ∷ xs) ≡ true
has-last_of x [] = ground arith
has-last_of x (y ∷ ys) = ground (arith, has-last_of y ys)

-- Pointing the last cluster of a chain at another chain joins the two.
pub Links-append :
    {t : FatTable} (ok : IsReliable t) (r r' : ℕ → ℕ) (x c : ℕ) (xs cs : List ℕ)
    → Links t r x xs
    → Links t r' c cs
    → r' (last_of x xs) ≡ c
    → ((a : ℕ) → has a (x ∷ xs) ≡ true → a ≢ last_of x xs → r' a ≡ r a)
    → Links t r' x (xs ++ c ∷ cs)
Links-append ok r r' x c [] cs h k e same = (h.0, e, k)
Links-append ok r r' x c (y ∷ ys) cs h k e same = (
  h.0,
  ground (arith, same x, Links-not-has ok r x (y ∷ ys) h, has-last_of y ys),
  Links-append ok r r' y c ys cs h.2 k e (λ a i ne. ground (arith, same a)),
)
