-- ===== src/Fat/Xattr/Calls.antt =====
-- What setting an attribute does, whatever its arguments are.
use fastsystem.Prelude.{
  not, ◌*◌, ◌/◌, ◌^◌, bit_and, and_lowest, bit_and-mask, ==→eq, ltb→lt, ℕ, zero, suc, ◌<◌, ◌≡◌,
  refl, arith, Bool, true, false, inl, inr, Option, List, ltb, ◌==◌, if◌then◌else◌, length,
  Bool-cases, ℤ,
}
use fastsystem.Strings.Compare.{is_string}
use fastsystem.Fat.Xattr.{
  XattrEntry, fails, fat_xattr_valid_name, fat_xattr_valid_path, fat_setxattr,
}
use fastsystem.Fat.Xattr.Keys.{lookup, has_room}
use fastsystem.Fat.Xattr.Store.{IsStore}
use fastsystem.Fat.Xattr.Search.{is_valid_key, valid-is_valid_key, is_valid_key-IsKey, valid_key}
use fastsystem.Fat.Xattr.Accepted.{stored_result, IsUpdated, failed, fat_setxattr-accepted}

-- What setting an attribute of `size` bytes returns: EINVAL (22) for a key that is too long or
-- empty and for flags other than 0, 1 and 2, ERANGE (34) for more than 1024 bytes, or the above.
abbrev pub set_result : Option (List ℕ) → Bool → List ℕ → List ℕ → ℕ → ℕ → ℤ
set_result old room path name flags size =
    if not (is_valid_key path name)
    then fails 22
    else if ltb 2 flags
    then fails 22
    else if ltb 1024 size
    then fails 34
    else stored_result old room flags size

-- The flags besides the two lowest are tested by a mask.
other_flags : (flags : ℕ) → flags < 2 ^ 32 → bit_and flags 0xFFFFFFFC ≡ flags / 4 * 4
other_flags flags h = omega (
  arith,
  and_lowest flags 0xFFFFFFFC,
  and_lowest (flags / 2) 0x7FFFFFFE,
  bit_and-mask 30 (flags / 2 / 2),
)

set_bad_key :
    (t : List XattrEntry) (path name value : List ℕ) (size flags : ℕ)
    → is_valid_key path name ≡ false
    → fat_setxattr t path name value size flags ≡ (fails 22, t)
unfolding fat_setxattr
set_bad_key t path name value size flags h =
    let e = valid-is_valid_key path name in
    elim (Bool-cases (fat_xattr_valid_path path)) [
      | inr a ↦ rw a refl
      | inl a ↦
          let b : fat_xattr_valid_name name ≡ false = ground (arith, e, h, a) in rw (a, b) refl
    ]

set_bad_flags :
    (t : List XattrEntry) (path name value : List ℕ) (size flags : ℕ)
    → fat_xattr_valid_path path ≡ true
    → fat_xattr_valid_name name ≡ true
    → flags < 2 ^ 32
    → 2 < flags
    → fat_setxattr t path name value size flags ≡ (fails 22, t)
unfolding fat_setxattr
set_bad_flags t path name value size flags a b h k = elim (Bool-cases (flags == 3)) [
  | inl e ↦ rw (a, b, ==→eq flags 3 e) refl
  | inr e ↦
      let c : (bit_and flags 0xFFFFFFFC == 0) ≡ false = ground (arith, other_flags flags h, e, k) in
      rw (a, b, c) refl
]

set_too_large :
    (t : List XattrEntry) (path name value : List ℕ) (size flags : ℕ)
    → fat_xattr_valid_path path ≡ true
    → fat_xattr_valid_name name ≡ true
    → flags < 3
    → ltb 1024 size ≡ true
    → fat_setxattr t path name value size flags ≡ (fails 34, t)
unfolding fat_setxattr
set_too_large t path name value size zero a b h c = rw (a, b, c) refl
set_too_large t path name value size (suc zero) a b h c = rw (a, b, c) refl
set_too_large t path name value size (suc (suc zero)) a b h c = rw (a, b, c) refl
set_too_large t path name value size (suc (suc (suc flags))) a b h c = absurd (omega (arith, h))

-- Setting an attribute to all bytes of a value, in a table of strings without two entries for a
-- key: the call returns EINVAL (22) when the path has no character or 256 and more, the name none
-- or 128 and more, or the flags are other than 0, 1 (to create) and 2 (to replace); ERANGE (34)
-- when the value has more than 1024 bytes; EEXIST (17) when it is to create an attribute that is
-- there, ENODATA (61) when it is to replace one that is not, ENOSPC (28) when a new one finds no
-- free entry, and otherwise the size. When it succeeds, the attribute under the key has the value
-- and each attribute under another key of strings is what it was; when it fails, every one is. The
-- table has no key twice after it.
pub fat_setxattr_lem :
    (t : List XattrEntry) (path name value : List ℕ) (flags : ℕ) (p n : List ℕ)
    → IsStore t
    → is_string path ≡ true
    → is_string name ≡ true
    → flags < 2 ^ 32
    → is_string p ≡ true
    → is_string n ≡ true
    → IsUpdated t path name value p n
        (set_result (lookup t path name) (has_room t) path name flags (length value))
        (fat_setxattr t path name value (length value) flags)
fat_setxattr_lem t path name value flags p n s ps ns f x y =
    elim (Bool-cases (is_valid_key path name)) [
      | inr g ↦
          rw (set_bad_key t path name value (length value) flags g, g)
            (failed t path name value p n 21 s)
      | inl g ↦
          let w = is_valid_key-IsKey path name ps ns g in
          let (a, b) = valid_key path name w in
          elim (Bool-cases (ltb 2 flags)) [
            | inl k ↦
                rw
                  (
                    set_bad_flags t path name value (length value) flags a b f (ltb→lt 2 flags k),
                    g,
                    k,
                  )
                  (failed t path name value p n 21 s)
            | inr k ↦
                let few : flags < 3 = ground (arith, k) in
                elim (Bool-cases (ltb 1024 (length value))) [
                  | inl l ↦
                      rw (set_too_large t path name value (length value) flags a b few l, g, k, l)
                        (failed t path name value p n 33 s)
                  | inr l ↦
                      rw (g, k, l)
                        (fat_setxattr-accepted t path name value flags p n s w (ground (arith, l))
                          few x y)
                ]
          ]
    ]
