-- ===== src/Names/Case.antt =====
-- `names_equal` compares names up to the case of their letters.
use fastsystem.Prelude.{
  ℕ, ◌≡◌, ◌↔◌, refl, arith, true, List, [], ◌∷◌, ◌==◌, inl, inr, Bool-cases, ==→eq,
}
use fastsystem.Names.{tolower, toupper, names_equal}

abbrev lower : List ℕ → List ℕ
lower [] = []
lower (c ∷ cs) = tolower c ∷ lower cs

abbrev pub upper : List ℕ → List ℕ
upper [] = []
upper (c ∷ cs) = toupper c ∷ upper cs

refl_eq : (n : ℕ) → (n == n) ≡ true
refl_eq n = ground arith

names_equal-eq : (a b : List ℕ) → names_equal a b ≡ true → lower a ≡ lower b
unfolding names_equal
names_equal-eq [] [] h = refl
names_equal-eq [] (y ∷ b) h = absurd cc
names_equal-eq (x ∷ a) [] h = absurd cc
names_equal-eq (x ∷ a) (y ∷ b) h = elim (Bool-cases (tolower x == tolower y)) [
  | inl e ↦
      let r = names_equal-eq a b (ground (arith, e, h)) in
      rw (==→eq (tolower x) (tolower y) e, r) refl
  | inr e ↦ absurd (ground (arith, e, h))
]

eq-names_equal : (a b : List ℕ) → lower a ≡ lower b → names_equal a b ≡ true
unfolding names_equal
eq-names_equal [] [] h = refl
eq-names_equal [] (y ∷ b) h = absurd cc
eq-names_equal (x ∷ a) [] h = absurd cc
eq-names_equal (x ∷ a) (y ∷ b) h =
    let e : tolower x ≡ tolower y = cc in
    let r : lower a ≡ lower b = cc in rw (e, refl_eq (tolower y)) (eq-names_equal a b r)

-- Two names are found equal exactly if they are the same in lower case.
names_equal-lower : (a b : List ℕ) → (names_equal a b ≡ true) ↔ (lower a ≡ lower b)
names_equal-lower a b = (names_equal-eq a b, eq-names_equal a b)

tolower-toupper : (c : ℕ) → tolower (toupper c) ≡ tolower c
unfolding tolower toupper
tolower-toupper c = ground arith

-- A name is found equal to itself in capitals.
pub names_equal-upper : (a : List ℕ) → names_equal a (upper a) ≡ true
unfolding names_equal
names_equal-upper [] = refl
names_equal-upper (c ∷ a) = rw (tolower-toupper c, refl_eq (tolower c)) (names_equal-upper a)
