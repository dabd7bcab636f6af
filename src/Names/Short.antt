-- ===== src/Names/Short.antt =====
-- The 11 characters that `strfilenamedos` makes and `getshortfilename` reads.
use fastsystem.Prelude.{
  ◌*◌, ◌-◌, ℕ, zero, suc, ◌+◌, ◌≤◌, ◌<◌, ◌≡◌, ◌∙◌, refl, sym, ap, arith, Bool, true, false, not,
  ◌&&◌, ◌||◌, some, List, [], ◌∷◌, ◌++◌, ltb, leb, ◌==◌, if◌then◌else◌, length, get_or, set,
  replicate, inl, inr, Bool-cases, length-set, length-append,
}
use fastsystem.Names.{
  toupper, is_dos_character, dos_character, strfilenamedos_loop, strfilenamedos, lfn_entry_count,
  copy_name, getshortfilename,
}

-- A character of a short name: a space, or one that the file system allows.
abbrev pub is_short_character : ℕ → Bool
is_short_character c = c == 32 || is_dos_character c

abbrev all_short : List ℕ → Bool
all_short [] = true
all_short (c ∷ cs) = is_short_character c && all_short cs

underscore : is_dos_character 95 ≡ true
unfolding is_dos_character
underscore = refl

dos_character_lem : (c : ℕ) → is_dos_character (dos_character c) ≡ true
unfolding dos_character
dos_character_lem c = pick (if leb 128 c then 95 else toupper c)
  where
    pick : (u : ℕ) → is_dos_character (if not (is_dos_character u) then 95 else u) ≡ true
    pick u = elim (Bool-cases (is_dos_character u)) [
      | inl e ↦ rw (e, e) refl
      | inr e ↦ rw e underscore
    ]

all_short-set :
    (xs : List ℕ) (i c : ℕ)
    → all_short xs ≡ true
    → is_dos_character c ≡ true
    → all_short (set xs i c) ≡ true
all_short-set [] i c h k = refl
all_short-set (x ∷ xs) zero c h k = ground arith
all_short-set (x ∷ xs) (suc i) c h k = ground (arith, all_short-set xs i c)

strfilenamedos_loop_lem :
    (source destination : List ℕ) (pos : ℕ) (extension : Bool)
    → length destination ≡ 11
    → all_short destination ≡ true
    → let r = strfilenamedos_loop source destination pos extension in
      (length r ≡ 11) × (all_short r ≡ true)
unfolding strfilenamedos_loop
strfilenamedos_loop_lem [] d pos e h k = (h, k)
strfilenamedos_loop_lem (c ∷ s) d pos e h k = elim (Bool-cases (c == 46)) [
  | inl t ↦ rw t (strfilenamedos_loop_lem s d (if e then pos else 8) true h k)
  | inr f ↦ elim (Bool-cases (ltb pos 11)) [
    | inr l ↦ rw (f, l) (strfilenamedos_loop_lem s d pos e h k)
    | inl l ↦
        rw (f, l)
          (strfilenamedos_loop_lem s (set d pos (dos_character c)) (pos + 1) e
            (length-set d pos (dos_character c) ∙ h)
            (all_short-set d pos (dos_character c) k (dos_character_lem c)))
  ]
]

-- Whatever the bytes of a name and however many, the short name has 11 characters, each a space or
-- an allowed one.
strfilenamedos_lem :
    (source : List ℕ)
    → (length (strfilenamedos source) ≡ 11) × (all_short (strfilenamedos source) ≡ true)
unfolding strfilenamedos
strfilenamedos_lem source = strfilenamedos_loop_lem source (replicate 11 32) 0 false refl refl

-- The characters of a part of a short name that are not spaces.
kept : ℕ → List ℕ → ℕ → List ℕ
kept zero name11 i = []
kept (suc left) name11 i =
    let rest = kept left name11 (i + 1) in
    if get_or name11 i 0 == 32 then rest else get_or name11 i 0 ∷ rest

append_one : (xs ys : List ℕ) (c : ℕ) → (xs ++ c ∷ []) ++ ys ≡ xs ++ c ∷ ys
append_one [] ys c = refl
append_one (x ∷ xs) ys c = ap (λ zs. x ∷ zs) (append_one xs ys c)

append_none : (xs : List ℕ) → xs ++ [] ≡ xs
append_none [] = refl
append_none (x ∷ xs) = ap (λ zs. x ∷ zs) (append_none xs)

length-kept : (left : ℕ) (name11 : List ℕ) (i : ℕ) → length (kept left name11 i) ≤ left
unfolding kept
length-kept zero name11 i = omega arith
length-kept (suc left) name11 i = ground (arith, length-kept left name11 (i + 1))

copy_name-kept :
    (left : ℕ) (name11 : List ℕ) (i : ℕ) (output : List ℕ) (output_size : ℕ)
    → length output + left < output_size
    → copy_name left name11 i output output_size ≡ some (output ++ kept left name11 i)
unfolding copy_name kept
copy_name-kept zero name11 i output size h = ap some (sym (append_none output))
copy_name-kept (suc left) name11 i output size h = elim (Bool-cases (get_or name11 i 0 == 32)) [
  | inl e ↦ rw e (copy_name-kept left name11 (i + 1) output size (omega arith))
  | inr e ↦
      let c = get_or name11 i 0 in
      let room : leb size (length output + 1) ≡ false = ground arith in
      let l = length-append output (c ∷ []) in
      rw (e, room)
        (copy_name-kept left name11 (i + 1) (output ++ c ∷ []) size (omega (arith, l, h))
          ∙ ap some (append_one output (kept left name11 (i + 1)) c))
]

-- In a buffer of 13 characters or more the name is the part before the dot without its spaces, and,
-- if the extension does not start with a space, a dot and the extension without its spaces.
getshortfilename_lem :
    (name11 : List ℕ) (output_size : ℕ)
    → 13 ≤ output_size
    → getshortfilename name11 output_size
      ≡ some (
          if get_or name11 8 0 == 32
          then kept 8 name11 0
          else kept 8 name11 0 ++ 46 ∷ kept 3 name11 8)
unfolding getshortfilename
getshortfilename_lem name11 size h =
    let base = kept 8 name11 0 in
    let l = length-kept 8 name11 0 in
    let sized : (size == 0) ≡ false = ground arith in
    let room : leb size (length base + 1) ≡ false = ground (arith, l) in
    let dotted = length-append base (46 ∷ []) in
    rw (sized, copy_name-kept 8 name11 0 [] size (omega (arith, h)))
      (elim (Bool-cases (get_or name11 8 0 == 32)) [
        | inl e ↦ rw e refl
        | inr e ↦
            rw (e, room)
              (copy_name-kept 3 name11 8 (base ++ 46 ∷ []) size (omega (arith, dotted, l, h))
                ∙ ap some (append_one base (kept 3 name11 8) 46))
      ])

-- A long name that is not empty has the least number of entries of 13 characters that hold it.
pub lfn_entry_count_lem :
    (n : ℕ) → 0 < n → (n ≤ 13 * lfn_entry_count n) × (13 * (lfn_entry_count n - 1) < n)
unfolding lfn_entry_count
lfn_entry_count_lem n h = ground arith
