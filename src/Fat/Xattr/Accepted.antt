-- ===== src/Fat/Xattr/Accepted.antt =====
-- What setting an attribute does when its arguments are accepted.
use fastsystem.Prelude.{
  ℕ, zero, suc, ◌+◌, ◌≤◌, ◌<◌, ◌≡◌, ◌∙◌, refl, ap, arith, Bool, true, false, inl, inr, Option, none,
  some, List, ltb, leb, ◌==◌, if◌then◌else◌, length, get_or, replicate, length-replicate,
  length-set, Bool-cases, ℤ, pos, negsuc,
}
use fastsystem.Strings.Compare.{is_string}
use fastsystem.Fat.File.{slice}
use fastsystem.Fat.File.Contents.{slice-range}
use fastsystem.Fat.Write.{paste}
use fastsystem.Fat.Write.Bytes.{range-over, get_or-paste}
use fastsystem.Fat.Xattr.{
  XattrEntry, cleared, fails, fat_xattr_find, fat_xattr_find_free, fat_xattr_valid_name,
  fat_xattr_valid_path, store_entry, fat_setxattr,
}
use fastsystem.Fat.Xattr.Keys.{has_key, lookup, lookup-none, has_room}
use fastsystem.Fat.Xattr.Store.{IsStore}
use fastsystem.Fat.Xattr.Search.{IsKey, valid_key, found, free}
use fastsystem.Fat.Xattr.Slots.{with_attribute, IsAlone, IsFirst-IsAlone, lookup-written}

-- What setting an attribute of `size` bytes under such a key returns, by the one there was and by
-- whether an entry is free. A flag of 1 is to create it, of 2 to replace it.
abbrev pub stored_result : Option (List ℕ) → Bool → ℕ → ℕ → ℤ
stored_result (some old) room flags size = if flags == 1 then fails 17 else pos size
stored_result none room flags size =
    if flags == 2 then fails 61 else if room then pos size else fails 28

abbrev pub succeeds : ℤ → Bool
succeeds (pos n) = true
succeeds (negsuc n) = false

-- The bytes that are stored are read back.
stored_value :
    (value : List ℕ)
    → length value ≤ 1024
    → slice (paste (replicate 1024 0) 0 value 0 (length value)) 0 (length value) ≡ value
stored_value value h =
    let b = paste (replicate 1024 0) 0 value 0 (length value) in
    let zero_byte : ℕ = 0 in
    slice-range b 0 (length value)
    ∙ range-over (λ j. get_or (replicate 1024 0) j 0) (λ i. get_or b i 0) 0 (length value) value
        refl
        (λ k l.
          get_or-paste (replicate 1024 0) 0 value 0 (length value) (0 + k)
            (omega (arith, h, length-replicate 1024 zero_byte)))

set_found :
    (t : List XattrEntry) (path name value : List ℕ) (size flags i : ℕ)
    → fat_xattr_valid_path path ≡ true
    → fat_xattr_valid_name name ≡ true
    → ltb 1024 size ≡ false
    → flags < 3
    → fat_xattr_find t path name ≡ some i
    → fat_setxattr t path name value size flags
      ≡ (if flags == 1 then (fails 17, t) else store_entry t i path name value size)
unfolding fat_setxattr
set_found t path name value size zero i a b c h e = rw (a, b, c, e) refl
set_found t path name value size (suc zero) i a b c h e = rw (a, b, c, e) refl
set_found t path name value size (suc (suc zero)) i a b c h e = rw (a, b, c, e) refl
set_found t path name value size (suc (suc (suc flags))) i a b c h e = absurd (omega (arith, h))

set_room :
    (t : List XattrEntry) (path name value : List ℕ) (size flags i : ℕ)
    → fat_xattr_valid_path path ≡ true
    → fat_xattr_valid_name name ≡ true
    → ltb 1024 size ≡ false
    → flags < 3
    → fat_xattr_find t path name ≡ none
    → fat_xattr_find_free t ≡ some i
    → fat_setxattr t path name value size flags
      ≡ (if flags == 2 then (fails 61, t) else store_entry t i path name value size)
unfolding fat_setxattr
set_room t path name value size zero i a b c h e f = rw (a, b, c, e, f) refl
set_room t path name value size (suc zero) i a b c h e f = rw (a, b, c, e, f) refl
set_room t path name value size (suc (suc zero)) i a b c h e f = rw (a, b, c, e) refl
set_room t path name value size (suc (suc (suc flags))) i a b c h e f = absurd (omega (arith, h))

set_full :
    (t : List XattrEntry) (path name value : List ℕ) (size flags : ℕ)
    → fat_xattr_valid_path path ≡ true
    → fat_xattr_valid_name name ≡ true
    → ltb 1024 size ≡ false
    → flags < 3
    → fat_xattr_find t path name ≡ none
    → fat_xattr_find_free t ≡ none
    → fat_setxattr t path name value size flags
      ≡ (if flags == 2 then (fails 61, t) else (fails 28, t))
unfolding fat_setxattr
set_full t path name value size zero a b c h e f = rw (a, b, c, e, f) refl
set_full t path name value size (suc zero) a b c h e f = rw (a, b, c, e, f) refl
set_full t path name value size (suc (suc zero)) a b c h e f = rw (a, b, c, e) refl
set_full t path name value size (suc (suc (suc flags))) a b c h e f = absurd (omega (arith, h))

-- A call that set an attribute to a value returned `done` and left the table `after`: the number of
-- entries is the same, no key has two of them, and where the call succeeded, the attribute has the
-- value and each other one is what it was; otherwise every one is.
abbrev pub IsUpdated :
    List XattrEntry → List ℕ → List ℕ → List ℕ → List ℕ → List ℕ → ℤ → ℤ × List XattrEntry → Type 0
IsUpdated t path name value p n done result =
    (result.0 ≡ done)
    × (length result.1 ≡ length t)
    × IsStore result.1
    × (lookup result.1 p n ≡ (
        if succeeds done
        then with_attribute (lookup t) path name (some value) p n
        else lookup t p n))

stored :
    (t : List XattrEntry) (path name value p n : List ℕ) (k : ℕ)
    → IsStore t
    → IsKey path name
    → length value ≤ 1024
    → is_string p ≡ true
    → is_string n ≡ true
    → k < length t
    → IsAlone t k path name
    → ((get_or t k cleared).used ≡ true → has_key (get_or t k cleared) path name ≡ true)
    → IsUpdated t path name value p n
        (pos (length value))
        (store_entry t k path name value (length value))
unfolding store_entry
stored t path name value p n k s w h a b i alone slot =
    let e : XattrEntry = record {
      used = true;
      path = path;
      name = name;
      value = paste (replicate 1024 0) 0 value 0 (length value);
      size = length value;
    } in
    let (s', l) =
      lookup-written t k e p n s i (λ u. (w.path_string, w.name_string)) refl alone slot a b in
    let q : leb 256 (length path) ≡ false = ground (arith, w.path_fits) in
    let r : leb 128 (length name) ≡ false = ground (arith, w.name_fits) in
    rw (q, r)
      (
        refl,
        length-set t k e,
        s',
        l ∙ ap (λ c. with_attribute (lookup t) path name (some c) p n) (stored_value value h),
      )

pub failed :
    (t : List XattrEntry) (path name value p n : List ℕ) (number : ℕ)
    → IsStore t
    → IsUpdated t path name value p n (negsuc number) (negsuc number, t)
failed t path name value p n number s = (refl, refl, s, refl)

-- A call with a key, a size and flags that are accepted.
pub fat_setxattr-accepted :
    (t : List XattrEntry) (path name value : List ℕ) (flags : ℕ) (p n : List ℕ)
    → IsStore t
    → IsKey path name
    → length value ≤ 1024
    → flags < 3
    → is_string p ≡ true
    → is_string n ≡ true
    → IsUpdated t path name value p n
        (stored_result (lookup t path name) (has_room t) flags (length value))
        (fat_setxattr t path name value (length value) flags)
fat_setxattr-accepted t path name value flags p n s w h f x y =
    let (a, b) = valid_key path name w in
    let c : ltb 1024 (length value) ≡ false = ground (arith, h) in
    elim (found t path name s w.path_string w.name_string) [
      | inr (k, e, first) ↦ elim (Bool-cases (flags == 1)) [
        | inl g ↦
            rw (set_found t path name value (length value) flags k a b c f e, first.value, g)
              (failed t path name value p n 16 s)
        | inr g ↦
            rw (set_found t path name value (length value) flags k a b c f e, first.value, g)
              (stored t path name value p n k s w h x y first.inside
                (IsFirst-IsAlone t k path name s w.path_string w.name_string first)
                (λ u. first.here))
      ]
      | inl (e, absent) ↦ elim (free t) [
        | inl (full, no_room) ↦ elim (Bool-cases (flags == 2)) [
          | inl g ↦
              rw (set_full t path name value (length value) flags a b c f e full, absent, g)
                (failed t path name value p n 60 s)
          | inr g ↦
              rw
                (set_full t path name value (length value) flags a b c f e full, absent, no_room, g)
                (failed t path name value p n 27 s)
        ]
        | inr (k, e', l, room, u) ↦ elim (Bool-cases (flags == 2)) [
          | inl g ↦
              rw (set_room t path name value (length value) flags k a b c f e e', absent, g)
                (failed t path name value p n 60 s)
          | inr g ↦
              rw (set_room t path name value (length value) flags k a b c f e e', absent, room, g)
                (stored t path name value p n k s w h x y l
                  (λ j i ne. lookup-none t path name absent j i)
                  (λ v. absurd (ground (arith, u, v))))
        ]
      ]
    ]
