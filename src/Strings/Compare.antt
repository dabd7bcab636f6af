-- ===== src/Strings/Compare.antt =====
-- `strcmp` finds the equal strings.
use fastsystem.Prelude.{
  ℕ, ◌≡◌, ◌∙◌, refl, sym, ap, arith, Bool, true, false, inl, inr, ◌&&◌, List, [], ◌∷◌, ltb, ◌==◌, ℤ,
  pos, negsuc, Bool-cases, ==→eq,
}
use fastsystem.Strings.{strcmp}

abbrev pub is_zero : ℤ → Bool
is_zero (pos n) = n == 0
is_zero (negsuc n) = false

-- No character is 0.
abbrev pub is_string : List ℕ → Bool
is_string [] = true
is_string (c ∷ s) = ltb 0 c && is_string s

pub strcmp_self : (s : List ℕ) → is_zero (strcmp s s) ≡ true
unfolding strcmp
strcmp_self [] = refl
strcmp_self (c ∷ s) = ground (arith, strcmp_self s)

pub strcmp-eq :
    (s1 s2 : List ℕ)
    → is_string s1 ≡ true
    → is_string s2 ≡ true
    → is_zero (strcmp s1 s2) ≡ true
    → s1 ≡ s2
unfolding strcmp
strcmp-eq [] [] h k e = refl
strcmp-eq [] (d ∷ s2) h k e = absurd (ground (arith, k, e))
strcmp-eq (c ∷ s1) [] h k e = absurd (ground (arith, h, e))
strcmp-eq (c ∷ s1) (d ∷ s2) h k e = elim (Bool-cases (c == d)) [
  | inl t ↦
      let q : c ≡ d = ==→eq c d t in
      let r = strcmp-eq s1 s2 (ground (arith, h)) (ground (arith, k)) (ground (arith, e, t)) in
      rw (q, r) refl
  | inr t ↦ absurd (ground (arith, e, t))
]

abbrev pub equal : List ℕ → List ℕ → Bool
equal [] [] = true
equal [] (d ∷ s2) = false
equal (c ∷ s1) [] = false
equal (c ∷ s1) (d ∷ s2) = c == d && equal s1 s2

pub equal_self : (s : List ℕ) → equal s s ≡ true
equal_self [] = refl
equal_self (c ∷ s) = ground (arith, equal_self s)

pub equal-eq : (s1 s2 : List ℕ) → equal s1 s2 ≡ true → s1 ≡ s2
equal-eq [] [] e = refl
equal-eq [] (d ∷ s2) e = absurd (ground (arith, e))
equal-eq (c ∷ s1) [] e = absurd (ground (arith, e))
equal-eq (c ∷ s1) (d ∷ s2) e =
    let q : c ≡ d = ==→eq c d (ground (arith, e)) in
    let r = equal-eq s1 s2 (ground (arith, e)) in rw (q, r) refl

-- For strings without a 0, `strcmp` is 0 exactly when they are equal.
pub strcmp-equal :
    (s1 s2 : List ℕ)
    → is_string s1 ≡ true
    → is_string s2 ≡ true
    → is_zero (strcmp s1 s2) ≡ equal s1 s2
strcmp-equal s1 s2 h k = elim (Bool-cases (is_zero (strcmp s1 s2))) [
  | inl t ↦ t ∙ sym (ap (equal s1) (sym (strcmp-eq s1 s2 h k t)) ∙ equal_self s1)
  | inr f ↦ elim (Bool-cases (equal s1 s2)) [
    | inl t ↦ absurd (
        ground (
          arith,
          f,
          ap (λ (s : List ℕ). is_zero (strcmp s1 s)) (sym (equal-eq s1 s2 t)) ∙ strcmp_self s1,
        ))
    | inr g ↦ f ∙ sym g
  ]
]
