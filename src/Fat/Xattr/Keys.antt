-- ===== src/Fat/Xattr/Keys.antt =====
-- The table of attributes as a finite map, and what the search in it finds.
use fastsystem.Prelude.{
  ℕ, zero, suc, ◌+◌, ◌<◌, ◌≡◌, ◌∙◌, refl, ap, arith, Bool, true, false, inl, inr, not, ◌&&◌, ◌⊎◌,
  Option, none, some, List, [], ◌∷◌, if◌then◌else◌, length, get_or, Bool-cases,
}
use fastsystem.Strings.Compare.{is_string, equal, equal_self, equal-eq, strcmp-equal}
use fastsystem.Fat.File.{slice}
use fastsystem.Fat.Xattr.{XattrEntry, cleared, matches, find_entry, find_free}

-- The strings of an entry in use hold no 0.
abbrev pub HasStrings : XattrEntry → Type 0
HasStrings e = e.used ≡ true → (is_string e.path ≡ true) × (is_string e.name ≡ true)

-- Whether an entry is in use and has a path and a name.
unfoldable pub has_key : XattrEntry → List ℕ → List ℕ → Bool
has_key e path name = e.used && equal e.path path && equal e.name name

-- The comparison of the source finds the equal keys.
matches-has_key :
    (e : XattrEntry) (path name : List ℕ)
    → HasStrings e
    → is_string path ≡ true
    → is_string name ≡ true
    → matches e path name ≡ has_key e path name
unfolding matches has_key
matches-has_key e path name w h k = elim (Bool-cases e.used) [
  | inl u ↦
      let (a, b) = w u in rw (u, strcmp-equal e.path path a h, strcmp-equal e.name name b k) refl
  | inr u ↦ rw u refl
]

pub has_key-eq :
    (e : XattrEntry) (path name : List ℕ)
    → has_key e path name ≡ true
    → (e.used ≡ true) × (e.path ≡ path) × (e.name ≡ name)
unfolding has_key
has_key-eq e path name m = (
  ground (arith, m),
  equal-eq e.path path (ground (arith, m)),
  equal-eq e.name name (ground (arith, m)),
)

pub eq-has_key :
    (e : XattrEntry) (path name : List ℕ)
    → e.used ≡ true
    → e.path ≡ path
    → e.name ≡ name
    → has_key e path name ≡ true
unfolding has_key
eq-has_key e path name u a b = rw (u, a, b, equal_self path, equal_self name) refl

pub has_key-cleared : (path name : List ℕ) → has_key cleared path name ≡ false
unfolding has_key
has_key-cleared path name = refl

abbrev pub content : XattrEntry → List ℕ
content e = slice e.value 0 e.size

-- The value under a path and a name.
unfoldable pub lookup : List XattrEntry → List ℕ → List ℕ → Option (List ℕ)
lookup [] path name = none
lookup (e ∷ es) path name = if has_key e path name then some (content e) else lookup es path name

-- The first entry that matches is at `k`.
pub record IsFirst (t : List XattrEntry) (path name : List ℕ) (k : ℕ) : Type 0 where
  pub inside : k < length t
  pub here : has_key (get_or t k cleared) path name ≡ true
  pub before : (j : ℕ) → j < k → has_key (get_or t j cleared) path name ≡ false
  pub value : lookup t path name ≡ some (content (get_or t k cleared))

pub lookup-none :
    (t : List XattrEntry) (path name : List ℕ)
    → lookup t path name ≡ none
    → (j : ℕ) → j < length t
    → has_key (get_or t j cleared) path name ≡ false
unfolding lookup
lookup-none [] path name e j h = absurd (omega (arith, h))
lookup-none (x ∷ t) path name e zero h = ground (arith, e)
lookup-none (x ∷ t) path name e (suc j) h =
    lookup-none t path name (ground (arith, e)) j (omega (arith, h))

pub find_entry_lem :
    (t : List XattrEntry) (i : ℕ) (path name : List ℕ)
    → ((j : ℕ) → j < length t → HasStrings (get_or t j cleared))
    → is_string path ≡ true
    → is_string name ≡ true
    → ((find_entry t i path name ≡ none) × (lookup t path name ≡ none))
      ⊎ ((k : ℕ) × (find_entry t i path name ≡ some (i + k)) × IsFirst t path name k)
unfolding find_entry lookup
find_entry_lem [] i path name w x y = inl (refl, refl)
find_entry_lem (e ∷ t) i path name ws x y =
    let same = matches-has_key e path name (ws 0 (omega arith)) x y in
    elim (Bool-cases (has_key e path name)) [
      | inl m ↦ inr (
        0,
        rw (same ∙ m) (ap some (omega arith)),
        record {
          inside = omega arith;
          here = m;
          before = λ j h. absurd (omega (arith, h));
          value = rw m refl;
        },
      )
      | inr m ↦
          elim (find_entry_lem t (i + 1) path name (λ j l. ws (suc j) (omega (arith, l))) x y) [
            | inl (a, b) ↦ inl (rw (same ∙ m, a) refl, rw (m, b) refl)
            | inr (k, a, w) ↦ inr (
              suc k,
              rw (same ∙ m, a) (ap some (omega arith)),
              record {
                inside = omega (arith, w.inside);
                here = w.here;
                before = later k m w.before;
                value = rw (m, w.value) refl;
              },
            )
          ]
    ]
  where
    later :
        (k : ℕ)
        → has_key e path name ≡ false
        → ((j : ℕ) → j < k → has_key (get_or t j cleared) path name ≡ false)
        → (j : ℕ) → j < suc k
        → has_key (get_or (e ∷ t) j cleared) path name ≡ false
    later k m h zero l = m
    later k m h (suc j) l = h j (omega (arith, l))

-- Whether an entry is free.
pub has_room : List XattrEntry → Bool
has_room [] = false
has_room (e ∷ t) = if not e.used then true else has_room t

pub find_free_lem :
    (t : List XattrEntry) (i : ℕ)
    → ((find_free t i ≡ none) × (has_room t ≡ false))
      ⊎ ((k : ℕ) × (find_free t i ≡ some (i + k))
          × (k < length t)
          × (has_room t ≡ true)
          × ((get_or t k cleared).used ≡ false))
unfolding find_free has_room
find_free_lem [] i = inl (refl, refl)
find_free_lem (e ∷ t) i = elim (Bool-cases e.used) [
  | inr u ↦ inr (0, rw u (ap some (omega arith)), omega arith, rw u refl, u)
  | inl u ↦ elim (find_free_lem t (i + 1)) [
    | inl (a, b) ↦ inl (rw (u, a) refl, rw (u, b) refl)
    | inr (k, a, l, r, f) ↦
        inr (suc k, rw (u, a) (ap some (omega arith)), omega (arith, l), rw (u, r) refl, f)
  ]
]
