-- ===== src/Fat/Xattr/Tests.antt =====
-- Runs of the attribute calls on a small table, and the theorems at concrete inputs.
use fastsystem.Prelude.{
  not, if◌then◌else◌, ℕ, zero, suc, ◌≡◌, refl, arith, true, none, some, List, [], ◌∷◌, length,
  replicate, pos,
}
use fastsystem.Strings.{strcmp}
use fastsystem.Fat.File.{slice}
use fastsystem.Fat.Write.{paste}
use fastsystem.Fat.Xattr.{
  XattrEntry, cleared, fails, matches, find_entry, fat_xattr_find, find_free, fat_xattr_find_free,
  fat_xattr_valid_name, fat_xattr_valid_path, store_entry, fat_setxattr, fat_getxattr,
  fat_removexattr,
}
use fastsystem.Fat.Xattr.Keys.{lookup, has_room}
use fastsystem.Fat.Xattr.Store.{IsStore}
use fastsystem.Fat.Xattr.Slots.{with_attribute}
use fastsystem.Fat.Xattr.Search.{IsKey, is_valid_key}
use fastsystem.Fat.Xattr.Accepted.{IsUpdated}
use fastsystem.Fat.Xattr.Calls.{set_result, fat_setxattr_lem}
use fastsystem.Fat.Xattr.Reads.{
  get_result, fat_getxattr_lem, fat_removexattr_lem, fat_getxattr-fat_setxattr,
}

IsStore-replicate : (n : ℕ) → IsStore (replicate n cleared)
IsStore-replicate zero = tt
IsStore-replicate (suc n) =
    (λ u. absurd (ground (arith, u)), λ u. absurd (ground (arith, u)), IsStore-replicate n)

-- Of a path of two characters with an attribute, and of names of the user's and the system's.
abbrev file : List ℕ
file = 47 ∷ 97 ∷ []

abbrev user : List ℕ
user = 117 ∷ []

abbrev sys : List ℕ
sys = 115 ∷ []

file-user : IsKey file user
file-user = record {
  path_string = refl;
  name_string = refl;
  path_some = omega arith;
  path_fits = omega arith;
  name_some = omega arith;
  name_fits = omega arith;
}

file-sys : IsKey file sys
file-sys = record {
  path_string = refl;
  name_string = refl;
  path_some = omega arith;
  path_fits = omega arith;
  name_some = omega arith;
  name_fits = omega arith;
}

abbrev none_set : List XattrEntry
none_set = replicate 64 cleared

abbrev one_set : List XattrEntry
one_set = (fat_setxattr none_set file user (1 ∷ 2 ∷ []) 2 1).1

one_set-IsStore : IsStore one_set
one_set-IsStore =
    (fat_setxattr_lem none_set file user (1 ∷ 2 ∷ []) 1 file user (IsStore-replicate 64) refl refl
      (omega arith) refl refl).2

-- A second attribute of the file is created, cannot be created again and can be replaced; one that
-- is not there cannot.
runs :
    ((fat_setxattr one_set file sys (7 ∷ []) 1 1).0 ≡ pos 1)
    × ((fat_setxattr one_set file user (7 ∷ []) 1 1).0 ≡ fails 17)
    × ((fat_setxattr one_set file user (7 ∷ []) 1 2).0 ≡ pos 1)
    × ((fat_setxattr one_set file sys (7 ∷ []) 1 2).0 ≡ fails 61)
    × (fat_getxattr one_set file user true 8 ≡ (pos 2, 1 ∷ 2 ∷ []))
    × (fat_getxattr one_set file user true 1 ≡ (fails 34, []))
    × ((fat_removexattr one_set file sys).0 ≡ fails 61)
unfolding strcmp slice paste matches find_entry fat_xattr_find find_free fat_xattr_find_free
    fat_xattr_valid_name fat_xattr_valid_path store_entry fat_setxattr fat_getxattr fat_removexattr
runs = (refl, refl, refl, refl, refl, refl, refl)

fat_setxattr_lem_example :
    IsUpdated one_set file sys
      (7 ∷ [])
      file
      user
      (set_result (lookup one_set file sys) (has_room one_set) file sys 1 1)
      (fat_setxattr one_set file sys (7 ∷ []) 1 1)
fat_setxattr_lem_example =
    fat_setxattr_lem one_set file sys (7 ∷ []) 1 file user one_set-IsStore refl refl (omega arith)
      refl refl

fat_getxattr_lem_example : fat_getxattr one_set file user true 8 ≡ (
    if not (is_valid_key file user)
    then (fails 22, [])
    else get_result (lookup one_set file user) true 8)
fat_getxattr_lem_example = fat_getxattr_lem one_set file user true 8 one_set-IsStore refl refl

fat_removexattr_lem_example :
    let result = fat_removexattr one_set file user in
    (result.0 ≡ (elim (lookup one_set file user) [ none ↦ fails 61 | some value ↦ pos 0 ]))
    × (length result.1 ≡ length one_set)
    × IsStore result.1
    × (lookup result.1 file sys ≡ with_attribute (lookup one_set) file user none file sys)
fat_removexattr_lem_example =
    fat_removexattr_lem one_set file user file sys one_set-IsStore file-user refl refl

fat_getxattr-fat_setxattr_example :
    fat_getxattr (fat_setxattr one_set file sys (7 ∷ []) 1 1).1 file sys true 4 ≡ (pos 1, 7 ∷ [])
fat_getxattr-fat_setxattr_example =
    fat_getxattr-fat_setxattr one_set file sys (7 ∷ []) 1 4 one_set-IsStore file-sys (omega arith)
      (omega arith) runs.0 (omega arith)
