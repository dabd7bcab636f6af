-- ===== src/Names/Tests.antt =====
-- Concrete names.
use fastsystem.Prelude.{ℕ, ◌≡◌, refl, List, [], ◌∷◌}
use fastsystem.Names.{
  dos_character, is_dos_character, strfilenamedos_loop, strfilenamedos, toupper, lfn_checksum,
  checksum_loop,
}

-- "fat.c" and "FAT     C  ".
abbrev fat_c : List ℕ
fat_c = 102 ∷ 97 ∷ 116 ∷ 46 ∷ 99 ∷ []

abbrev fat_c_short : List ℕ
fat_c_short = 70 ∷ 65 ∷ 84 ∷ 32 ∷ 32 ∷ 32 ∷ 32 ∷ 32 ∷ 67 ∷ 32 ∷ 32 ∷ []

strfilenamedos-value : strfilenamedos fat_c ≡ fat_c_short
unfolding strfilenamedos strfilenamedos_loop dos_character is_dos_character toupper
strfilenamedos-value = refl

lfn_checksum-value : lfn_checksum fat_c_short ≡ 71
unfolding lfn_checksum checksum_loop
lfn_checksum-value = refl
