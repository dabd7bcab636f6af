-- ===== src/Names.antt =====
-- The names of files: `strfilenamedos` to `lfn_checksum` and `lfn_entry_count` of kernel/fat.c,
-- with `toupper` and `tolower` of kernel/string.c.
--
-- A string is the list of its characters without the final 0, so that no element is 0, and each is
-- the value of an `unsigned char`. A buffer that is filled from its start is a list that grows.
pub mod Short
pub mod Case
pub mod Utf
mod Tests
use fastsystem.Prelude.{
  ℕ, zero, suc, ◌+◌, ◌-◌, ◌*◌, ◌/◌, ◌%◌, bit_and, Bool, true, false, not, ◌&&◌, ◌||◌, Option, none,
  some, List, [], ◌∷◌, ◌++◌, ltb, leb, ◌==◌, if◌then◌else◌, u8, length, get_or, set, has, replicate,
}

pub toupper : ℕ → ℕ
toupper c = if leb 97 c && leb c 122 then c - 32 else c

pub tolower : ℕ → ℕ
tolower c = if leb 65 c && leb c 90 then c + 32 else c

-- The characters of "_^$~!#%&-{}()@'`".
abbrev pub marks : List ℕ
marks = 95 ∷ 94 ∷ 36 ∷ 126 ∷ 33 ∷ 35 ∷ 37 ∷ 38 ∷ 45 ∷ 123 ∷ 125 ∷ 40 ∷ 41 ∷ 64 ∷ 39 ∷ 96 ∷ []

pub is_dos_character : ℕ → Bool
is_dos_character c = (leb 65 c && leb c 90) || (leb 48 c && leb c 57) || has c marks

-- The character that `strfilenamedos` stores.
pub dos_character : ℕ → ℕ
dos_character c =
    let u = if leb 128 c then 95 else toupper c in if not (is_dos_character u) then 95 else u

-- The `for` of `strfilenamedos`.
pub strfilenamedos_loop : List ℕ → List ℕ → ℕ → Bool → List ℕ
strfilenamedos_loop [] destination pos extension = destination
strfilenamedos_loop (c ∷ source) destination pos extension =
    let dot = strfilenamedos_loop source destination (if extension then pos else 8) true in
    let stored =
      strfilenamedos_loop source (set destination pos (dos_character c)) (pos + 1) extension in
    let dropped = strfilenamedos_loop source destination pos extension in
    if c == 46 then dot else if ltb pos 11 then stored else dropped

pub strfilenamedos : List ℕ → List ℕ
strfilenamedos source = strfilenamedos_loop source (replicate 11 32) 0 false

-- A `for` of `getshortfilename` from index `i`, with `left` characters to go: `output` so far, or
-- none if it is full.
pub copy_name : ℕ → List ℕ → ℕ → List ℕ → ℕ → Option (List ℕ)
copy_name zero name11 i output output_size = some output
copy_name (suc left) name11 i output output_size =
    let c = get_or name11 i 0 in
    let skipped = copy_name left name11 (i + 1) output output_size in
    let copied = copy_name left name11 (i + 1) (output ++ c ∷ []) output_size in
    if c == 32 then skipped else if leb output_size (length output + 1) then none else copied

-- The part before the dot holds no space, so the `while` that takes spaces from its end takes none.
pub getshortfilename : List ℕ → ℕ → Option (List ℕ)
getshortfilename name11 output_size =
    let base = copy_name 8 name11 0 [] output_size in
    if output_size == 0 then none else elim base [
      | none ↦ none
      | some output ↦
          if get_or name11 8 0 == 32
          then some output
          else if leb output_size (length output + 1)
          then none
          else copy_name 3 name11 8 (output ++ 46 ∷ []) output_size
    ]

pub names_equal : List ℕ → List ℕ → Bool
names_equal [] [] = true
names_equal [] (y ∷ b) = false
names_equal (x ∷ a) [] = false
names_equal (x ∷ a) (y ∷ b) =
    let rest = names_equal a b in if not (tolower x == tolower y) then false else rest

-- The `for` of `lfn_checksum`.
pub checksum_loop : ℕ → ℕ → List ℕ → ℕ → ℕ
checksum_loop zero sum name i = sum
checksum_loop (suc left) sum name i =
    checksum_loop left (u8 ((if bit_and sum 1 == 0 then 0 else 0x80) + sum / 2 + get_or name i 0))
      name (i + 1)

pub lfn_checksum : List ℕ → ℕ
lfn_checksum name = checksum_loop 11 0 name 0

pub lfn_entry_count : ℕ → ℕ
lfn_entry_count utf16_length = if utf16_length == 0 then 0 else (utf16_length + 12) / 13
