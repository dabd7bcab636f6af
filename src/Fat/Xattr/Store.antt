-- ===== src/Fat/Xattr/Store.antt =====
-- Tables with one entry for a key at most, and what writing an entry does to them.
use fastsystem.Prelude.{
  ℕ, zero, suc, ◌<◌, ◌≡◌, ◌≢◌, ◌∙◌, refl, sym, arith, true, false, inl, inr, none, some, List, [],
  ◌∷◌, length, get_or, set, Bool-cases,
}
use fastsystem.Strings.Compare.{is_string}
use fastsystem.Fat.Xattr.{XattrEntry, cleared}
use fastsystem.Fat.Xattr.Keys.{
  has_key, HasStrings, has_key-eq, eq-has_key, content, lookup, lookup-none,
}

-- Strings in every entry, and no key in two of them.
abbrev pub IsStore : List XattrEntry → Type 0
IsStore [] = Unit
IsStore (e ∷ t) = HasStrings e × (e.used ≡ true → lookup t e.path e.name ≡ none) × IsStore t

pub IsStore-get_or :
    (t : List XattrEntry) (k : ℕ) → IsStore t → k < length t → HasStrings (get_or t k cleared)
IsStore-get_or [] k s h = absurd (omega (arith, h))
IsStore-get_or (e ∷ t) zero s h = s.0
IsStore-get_or (e ∷ t) (suc k) s h = IsStore-get_or t k s.2 (omega (arith, h))

pub lookup-set_other :
    (t : List XattrEntry) (k : ℕ) (e : XattrEntry) (path name : List ℕ)
    → k < length t
    → has_key (get_or t k cleared) path name ≡ false
    → has_key e path name ≡ false
    → lookup (set t k e) path name ≡ lookup t path name
unfolding lookup
lookup-set_other [] k e path name h a b = absurd (omega (arith, h))
lookup-set_other (x ∷ t) zero e path name h a b = rw (a, b) refl
lookup-set_other (x ∷ t) (suc k) e path name h a b =
    rw (lookup-set_other t k e path name (omega (arith, h)) a b) refl

pub lookup-set_here :
    (t : List XattrEntry) (k : ℕ) (e : XattrEntry) (path name : List ℕ)
    → k < length t
    → ((j : ℕ) → j < k → has_key (get_or t j cleared) path name ≡ false)
    → has_key e path name ≡ true
    → lookup (set t k e) path name ≡ some (content e)
unfolding lookup
lookup-set_here [] k e path name h a b = absurd (omega (arith, h))
lookup-set_here (x ∷ t) zero e path name h a b = rw b refl
lookup-set_here (x ∷ t) (suc k) e path name h a b =
    rw (a 0 (omega arith))
      (lookup-set_here t k e path name (omega (arith, h)) (λ j l. a (suc j) (omega (arith, l))) b)

pub all-lookup :
    (t : List XattrEntry) (path name : List ℕ)
    → ((j : ℕ) → j < length t → has_key (get_or t j cleared) path name ≡ false)
    → lookup t path name ≡ none
unfolding lookup
all-lookup [] path name h = refl
all-lookup (x ∷ t) path name h =
    rw (h 0 (omega arith)) (all-lookup t path name (λ j l. h (suc j) (omega (arith, l))))

-- Behind an entry with a key there is no other one.
pub only_once :
    (t : List XattrEntry) (k j : ℕ) (path name : List ℕ)
    → IsStore t
    → k < length t
    → is_string path ≡ true
    → is_string name ≡ true
    → has_key (get_or t k cleared) path name ≡ true
    → k < j
    → j < length t
    → has_key (get_or t j cleared) path name ≡ false
only_once [] k j path name s h a b m l i = absurd (omega (arith, h))
only_once (e ∷ t) zero zero path name s h a b m l i = absurd (omega (arith, l))
only_once (e ∷ t) zero (suc j) path name s h a b m l i =
    let (u, p, q) = has_key-eq e path name m in
    lookup-none t path name (rw (p, q) at s.1 u) j (omega (arith, i))
only_once (e ∷ t) (suc k) zero path name s h a b m l i = absurd (omega (arith, l))
only_once (e ∷ t) (suc k) (suc j) path name s h a b m l i =
    only_once t k j path name s.2 (omega (arith, h)) a b m (omega (arith, l)) (omega (arith, i))

pub IsStore-set :
    (t : List XattrEntry) (k : ℕ) (e : XattrEntry)
    → IsStore t
    → k < length t
    → HasStrings e
    → (e.used ≡ true
        → (j : ℕ) → j < length t
        → j ≢ k
        → has_key (get_or t j cleared) e.path e.name ≡ false)
    → IsStore (set t k e)
IsStore-set [] k e s h w alone = absurd (omega (arith, h))
IsStore-set (x ∷ t) zero e s h w alone = (
  w,
  λ u.
      all-lookup t e.path e.name
        (λ j l. alone u (suc j) (omega (arith, l)) (λ z. omega (arith, z))),
  s.2,
)
IsStore-set (x ∷ t) (suc k) e s h w alone = (
  s.0,
  λ u.
      let old = s.1 u in
      lookup-set_other t k e x.path x.name (omega (arith, h))
        (lookup-none t x.path x.name old k (omega (arith, h)))
        (elim (Bool-cases (has_key e x.path x.name)) [
          | inl m ↦
              let (a, b) = s.0 u in
              let (v, p, q) = has_key-eq e x.path x.name m in
              absurd (
                ground (
                  arith,
                  eq-has_key x e.path e.name u (sym p) (sym q),
                  alone v 0 (omega arith) (λ z. omega (arith, z)),
                ))
          | inr m ↦ m
        ])
      ∙ old,
  IsStore-set t k e s.2 (omega (arith, h)) w
      (λ u j l ne. alone u (suc j) (omega (arith, l)) (λ z. ne (omega (arith, z)))),
)
