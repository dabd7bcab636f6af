-- ===== src/Fat/Xattr/Slots.antt =====
-- What the attributes are after an entry is written or cleared.
use fastsystem.Prelude.{
  ℕ, ◌<◌, ◌≡◌, ◌≢◌, ◌∙◌, refl, sym, ap, arith, true, false, inl, inr, ◌&&◌, Option, none, some,
  List, ltb, ◌==◌, if◌then◌else◌, length, get_or, set, Bool-cases, ==→eq, get_or-set_self,
  get_or-set_ne, length-set,
}
use fastsystem.Strings.Compare.{is_string, equal, equal_self, equal-eq}
use fastsystem.Fat.Xattr.{XattrEntry, cleared}
use fastsystem.Fat.Xattr.Keys.{
  has_key, HasStrings, has_key-eq, eq-has_key, has_key-cleared, content, lookup, IsFirst,
}
use fastsystem.Fat.Xattr.Store.{
  IsStore, IsStore-get_or, lookup-set_other, lookup-set_here, all-lookup, only_once, IsStore-set,
}

-- The attributes with one of them replaced.
abbrev pub with_attribute :
    (List ℕ → List ℕ → Option (List ℕ))
    → List ℕ
    → List ℕ
    → Option (List ℕ)
    → List ℕ
    → List ℕ
    → Option (List ℕ)
with_attribute f path name v p n = if equal p path && equal n name then v else f p n

-- No entry but the one at `k` has the key.
abbrev pub IsAlone : List XattrEntry → ℕ → List ℕ → List ℕ → Type 0
IsAlone t k path name =
    (j : ℕ) → j < length t → j ≢ k → has_key (get_or t j cleared) path name ≡ false

pub IsFirst-IsAlone :
    (t : List XattrEntry) (k : ℕ) (path name : List ℕ)
    → IsStore t
    → is_string path ≡ true
    → is_string name ≡ true
    → IsFirst t path name k
    → IsAlone t k path name
IsFirst-IsAlone t k path name s a b w j l ne = elim (Bool-cases (ltb j k)) [
  | inl h ↦ w.before j (ground (arith, h))
  | inr h ↦ elim (Bool-cases (j == k)) [
    | inl e ↦ absurd (ne (==→eq j k e))
    | inr e ↦ only_once t k j path name s w.inside a b w.here (ground (arith, h, e)) l
  ]
]

-- An entry whose key is another one does not match.
other_key :
    (e : XattrEntry) (path name p n : List ℕ)
    → (e.used ≡ true → (e.path ≡ path) × (e.name ≡ name))
    → HasStrings e
    → is_string p ≡ true
    → is_string n ≡ true
    → (equal p path && equal n name) ≡ false
    → has_key e p n ≡ false
other_key e path name p n key w a b other = elim (Bool-cases (has_key e p n)) [
  | inl m ↦
      let (u, x, y) = has_key-eq e p n m in
      let (x', y') = key u in
      let i : equal p path ≡ true = ap (equal p) (sym x' ∙ x) ∙ equal_self p in
      let j : equal n name ≡ true = ap (equal n) (sym y' ∙ y) ∙ equal_self n in
      absurd (ground (arith, i, j, other))
  | inr m ↦ m
]

pub lookup-written :
    (t : List XattrEntry) (k : ℕ) (e : XattrEntry) (p n : List ℕ)
    → IsStore t
    → k < length t
    → HasStrings e
    → e.used ≡ true
    → IsAlone t k e.path e.name
    → ((get_or t k cleared).used ≡ true → has_key (get_or t k cleared) e.path e.name ≡ true)
    → is_string p ≡ true
    → is_string n ≡ true
    → IsStore (set t k e)
      × (lookup (set t k e) p n ≡ with_attribute (lookup t) e.path e.name (some (content e)) p n)
lookup-written t k e p n s h w u alone slot a b =
    let old = get_or t k cleared in
    let (c, d) = w u in
    let ws = IsStore-get_or t k s h in
    (
      IsStore-set t k e s h w (λ v. alone),
      elim (Bool-cases (equal p e.path && equal n e.name)) [
        | inl same ↦
            let x = equal-eq p e.path (ground (arith, same)) in
            let y = equal-eq n e.name (ground (arith, same)) in
            lookup-set_here t k e p n h
              (λ j l. rw (x, y) (alone j (omega (arith, l, h)) (λ z. omega (arith, z, l))))
              (eq-has_key e p n u (sym x) (sym y))
            ∙ rw same refl
        | inr differ ↦
            lookup-set_other t k e p n h
              (other_key old e.path e.name p n
                (λ v. let (v', q, r) = has_key-eq old e.path e.name (slot v) in (q, r)) ws a b
                differ)
              (other_key e e.path e.name p n (λ v. (refl, refl)) w a b differ)
            ∙ rw differ refl
      ],
    )

pub lookup-cleared :
    (t : List XattrEntry) (k : ℕ) (path name p n : List ℕ)
    → IsStore t
    → is_string path ≡ true
    → is_string name ≡ true
    → IsFirst t path name k
    → is_string p ≡ true
    → is_string n ≡ true
    → IsStore (set t k cleared)
      × (lookup (set t k cleared) p n ≡ with_attribute (lookup t) path name none p n)
lookup-cleared t k path name p n s c d w a b =
    let old = get_or t k cleared in
    let ws = IsStore-get_or t k s w.inside in
    let alone = IsFirst-IsAlone t k path name s c d w in
    (
      IsStore-set t k cleared s w.inside (λ v. absurd (ground (arith, v)))
          (λ v. absurd (ground (arith, v))),
      elim (Bool-cases (equal p path && equal n name)) [
        | inl same ↦
            let x = equal-eq p path (ground (arith, same)) in
            let y = equal-eq n name (ground (arith, same)) in
            let gone : lookup (set t k cleared) path name ≡ none =
              all-lookup (set t k cleared) path name (λ j l.
                cleared_slot t k path name w.inside alone j
                  (omega (arith, l, length-set t k cleared))) in
            rw (same, x, y) gone
        | inr differ ↦
            lookup-set_other t k cleared p n w.inside
              (other_key old path name p n
                (λ v. let (v', q, r) = has_key-eq old path name w.here in (q, r)) ws a b differ)
              (has_key-cleared p n)
            ∙ rw differ refl
      ],
    )
  where
    cleared_slot :
        (t : List XattrEntry) (k : ℕ) (path name : List ℕ)
        → k < length t
        → IsAlone t k path name
        → (j : ℕ) → j < length t
        → has_key (get_or (set t k cleared) j cleared) path name ≡ false
    cleared_slot t k path name h alone j l = elim (Bool-cases (j == k)) [
      | inl e ↦ rw (==→eq j k e, get_or-set_self t k cleared cleared h) (has_key-cleared path name)
      | inr e ↦
          rw (get_or-set_ne t k j cleared cleared (λ z. ground (arith, e, z)))
            (alone j l (λ z. ground (arith, e, z)))
    ]
