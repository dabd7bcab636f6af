-- ===== src/Fat/Xattr/Search.antt =====
-- The keys that the calls accept, and what the two searches in the table find.
use fastsystem.Prelude.{
  ℕ, Bool, ltb, ◌&&◌, ◌<◌, ◌≡◌, ◌∙◌, ap, arith, true, false, inl, inr, ◌⊎◌, none, some, List,
  length, get_or,
}
use fastsystem.Strings.Compare.{is_string}
use fastsystem.Fat.Xattr.{
  XattrEntry, cleared, fat_xattr_find, fat_xattr_find_free, fat_xattr_valid_name,
  fat_xattr_valid_path,
}
use fastsystem.Fat.Xattr.Keys.{lookup, IsFirst, find_entry_lem, has_room, find_free_lem}
use fastsystem.Fat.Xattr.Store.{IsStore, IsStore-get_or}

-- A path and a name that the calls accept.
pub record IsKey (path name : List ℕ) : Type 0 where
  pub path_string : is_string path ≡ true
  pub name_string : is_string name ≡ true
  pub path_some : 0 < length path
  pub path_fits : length path < 256
  pub name_some : 0 < length name
  pub name_fits : length name < 128

pub valid_key :
    (path name : List ℕ)
    → IsKey path name
    → (fat_xattr_valid_path path ≡ true) × (fat_xattr_valid_name name ≡ true)
unfolding fat_xattr_valid_path fat_xattr_valid_name
valid_key path name w =
    (ground (arith, w.path_some, w.path_fits), ground (arith, w.name_some, w.name_fits))

-- Whether the calls accept a path and a name.
abbrev pub is_valid_key : List ℕ → List ℕ → Bool
is_valid_key path name =
    ltb 0 (length path) && ltb (length path) 256 && ltb 0 (length name) && ltb (length name) 128

pub valid-is_valid_key :
    (path name : List ℕ)
    → (fat_xattr_valid_path path && fat_xattr_valid_name name) ≡ is_valid_key path name
unfolding fat_xattr_valid_path fat_xattr_valid_name
valid-is_valid_key path name = ground arith

pub is_valid_key-IsKey :
    (path name : List ℕ)
    → is_string path ≡ true
    → is_string name ≡ true
    → is_valid_key path name ≡ true
    → IsKey path name
is_valid_key-IsKey path name x y h = record {
  path_string = x;
  name_string = y;
  path_some = ground (arith, h);
  path_fits = ground (arith, h);
  name_some = ground (arith, h);
  name_fits = ground (arith, h);
}

-- What the search for a key and the search for a free entry find.
pub found :
    (t : List XattrEntry) (path name : List ℕ)
    → IsStore t
    → is_string path ≡ true
    → is_string name ≡ true
    → ((fat_xattr_find t path name ≡ none) × (lookup t path name ≡ none))
      ⊎ ((k : ℕ) × (fat_xattr_find t path name ≡ some k) × IsFirst t path name k)
unfolding fat_xattr_find
found t path name s x y = elim (find_entry_lem t 0 path name (λ j. IsStore-get_or t j s) x y) [
  | inl a ↦ inl a
  | inr (k, e, w) ↦ inr (k, e ∙ ap some (omega arith), w)
]

pub free :
    (t : List XattrEntry)
    → ((fat_xattr_find_free t ≡ none) × (has_room t ≡ false))
      ⊎ ((k : ℕ) × (fat_xattr_find_free t ≡ some k)
          × (k < length t)
          × (has_room t ≡ true)
          × ((get_or t k cleared).used ≡ false))
unfolding fat_xattr_find_free
free t = elim (find_free_lem t 0) [
  | inl a ↦ inl a
  | inr (k, e, l, r, u) ↦ inr (k, e ∙ ap some (omega arith), l, r, u)
]
