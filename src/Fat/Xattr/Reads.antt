-- ===== src/Fat/Xattr/Reads.antt =====
-- Reading and removing an attribute, and reading one that was set.
use fastsystem.Prelude.{
  ◌&&◌, ℕ, ◌≤◌, ◌<◌, ◌≡◌, ◌∙◌, refl, sym, ap, arith, Bool, true, false, inl, inr, not, Option, none,
  some, List, [], ltb, if◌then◌else◌, length, get_or, length-set, Bool-cases, ℤ, pos,
}
use fastsystem.Strings.Compare.{is_string, equal, equal_self, equal-eq}
use fastsystem.Fat.File.Contents.{slice-range, length-range}
use fastsystem.Fat.Xattr.{
  XattrEntry, cleared, fails, fat_xattr_valid_path, fat_xattr_valid_name, fat_setxattr,
  fat_getxattr, fat_removexattr,
}
use fastsystem.Fat.Xattr.Keys.{content, lookup, has_room}
use fastsystem.Fat.Xattr.Store.{IsStore}
use fastsystem.Fat.Xattr.Search.{
  IsKey, is_valid_key, valid-is_valid_key, is_valid_key-IsKey, valid_key, found,
}
use fastsystem.Fat.Xattr.Accepted.{stored_result, succeeds, fat_setxattr-accepted}
use fastsystem.Fat.Xattr.Slots.{with_attribute, lookup-cleared}

length-content : (e : XattrEntry) → length (content e) ≡ e.size
length-content e =
    ap length (slice-range e.value 0 e.size) ∙ length-range (λ i. get_or e.value i 0) 0 e.size

-- What reading returns and stores, by the attribute there is.
abbrev pub get_result : Option (List ℕ) → Bool → ℕ → ℤ × List ℕ
get_result none wanted size = (fails 61, [])
get_result (some value) wanted size =
    if not wanted
    then (pos (length value), [])
    else if ltb size (length value)
    then (fails 34, [])
    else (pos (length value), value)

get_accepted :
    (t : List XattrEntry) (path name : List ℕ) (wanted : Bool) (size : ℕ)
    → IsStore t
    → IsKey path name
    → fat_getxattr t path name wanted size ≡ get_result (lookup t path name) wanted size
unfolding fat_getxattr
get_accepted t path name wanted size s w =
    let (a, b) = valid_key path name w in
    elim (found t path name s w.path_string w.name_string) [
      | inl (e, absent) ↦ rw (a, b, e, absent) refl
      | inr (k, e, first) ↦ rw (a, b, e, first.value, length-content (get_or t k cleared)) refl
    ]

get_bad_key :
    (t : List XattrEntry) (path name : List ℕ) (wanted : Bool) (size : ℕ)
    → is_valid_key path name ≡ false
    → fat_getxattr t path name wanted size ≡ (fails 22, [])
unfolding fat_getxattr
get_bad_key t path name wanted size h =
    let e = valid-is_valid_key path name in
    elim (Bool-cases (fat_xattr_valid_path path)) [
      | inr a ↦ rw a refl
      | inl a ↦
          let b : fat_xattr_valid_name name ≡ false = ground (arith, e, h, a) in rw (a, b) refl
    ]

-- Reading an attribute in a table of strings without two entries for a key: the call returns EINVAL
-- (22) when the path has no character or 256 and more, or the name none or 128 and more; without an
-- attribute that has the path and the name it returns ENODATA (61); without a buffer it returns the
-- length of the value; with a buffer that is too small it returns ERANGE (34) and stores nothing;
-- otherwise it stores the value and returns its length.
pub fat_getxattr_lem :
    (t : List XattrEntry) (path name : List ℕ) (wanted : Bool) (size : ℕ)
    → IsStore t
    → is_string path ≡ true
    → is_string name ≡ true
    → fat_getxattr t path name wanted size ≡ (
        if not (is_valid_key path name)
        then (fails 22, [])
        else get_result (lookup t path name) wanted size)
fat_getxattr_lem t path name wanted size s x y = elim (Bool-cases (is_valid_key path name)) [
  | inl g ↦ rw g (get_accepted t path name wanted size s (is_valid_key-IsKey path name x y g))
  | inr g ↦ rw g (get_bad_key t path name wanted size g)
]

-- Removing the attribute under a key that the calls accept, from a table without two entries for a
-- key: the call returns 0 where there is one and ENODATA (61) otherwise; after it there is none,
-- each attribute under another key of strings is what it was, and the table has no key twice.
pub fat_removexattr_lem :
    (t : List XattrEntry) (path name p n : List ℕ)
    → IsStore t
    → IsKey path name
    → is_string p ≡ true
    → is_string n ≡ true
    → let result = fat_removexattr t path name in
      (result.0 ≡ (elim (lookup t path name) [ none ↦ fails 61 | some value ↦ pos 0 ]))
      × (length result.1 ≡ length t)
      × IsStore result.1
      × (lookup result.1 p n ≡ with_attribute (lookup t) path name none p n)
unfolding fat_removexattr
fat_removexattr_lem t path name p n s w x y =
    let (a, b) = valid_key path name w in
    elim (found t path name s w.path_string w.name_string) [
      | inl (e, absent) ↦ rw (a, b, e, absent) (refl, refl, s, unchanged absent)
      | inr (k, e, first) ↦
          let (s', l) = lookup-cleared t k path name p n s w.path_string w.name_string first x y in
          rw (a, b, e, first.value) (refl, length-set t k cleared, s', l)
    ]
  where
    unchanged :
        lookup t path name ≡ none → lookup t p n ≡ with_attribute (lookup t) path name none p n
    unchanged absent = elim (Bool-cases (equal p path && equal n name)) [
      | inl same ↦
          let i = equal-eq p path (ground (arith, same)) in
          let j = equal-eq n name (ground (arith, same)) in rw (same, i, j) absent
      | inr differ ↦ rw differ refl
    ]

-- An attribute that was set is read back: when setting a value of 1024 bytes at most under a key
-- that the calls accept, with a flag of 0, 1 or 2, in a table without two entries for a key,
-- returned its size, reading under the key into a buffer of at least that size stores the value.
pub fat_getxattr-fat_setxattr :
    (t : List XattrEntry) (path name value : List ℕ) (flags size : ℕ)
    → IsStore t
    → IsKey path name
    → length value ≤ 1024
    → flags < 3
    → (fat_setxattr t path name value (length value) flags).0 ≡ pos (length value)
    → length value ≤ size
    → fat_getxattr (fat_setxattr t path name value (length value) flags).1 path name true size
      ≡ (pos (length value), value)
fat_getxattr-fat_setxattr t path name value flags size s w h f done l =
    let result = fat_setxattr t path name value (length value) flags in
    let (e, _, kept, view) =
      fat_setxattr-accepted t path name value flags path name s w h f w.path_string w.name_string in
    let good : succeeds (stored_result (lookup t path name) (has_room t) flags (length value))
        ≡ true =
      ap succeeds (sym e ∙ done) in
    let same : lookup result.1 path name ≡ some value =
      rw (good, equal_self path, equal_self name) at view in
    let fits : ltb size (length value) ≡ false = ground (arith, l) in
    get_accepted result.1 path name true size kept w ∙ rw (same, fits) refl
