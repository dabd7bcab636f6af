-- ===== src/Strings.antt =====
-- Strings, kernel/string.c: `strcmp`.
--
-- A string is the list of its characters without the final 0, each the value of an `unsigned char`.
-- `strlen` is `length`.
pub mod Compare
use fastsystem.Prelude.{ℕ, ◌-◌, List, [], ◌∷◌, ◌==◌, leb, if◌then◌else◌, ℤ, pos, negsuc, sub}

-- The difference of the first characters that differ, or 0.
unfoldable pub strcmp : List ℕ → List ℕ → ℤ
strcmp [] [] = pos 0
strcmp [] (d ∷ s2) = sub 0 d
strcmp (c ∷ s1) [] = sub c 0
strcmp (c ∷ s1) (d ∷ s2) = let rest = strcmp s1 s2 in if c == d then rest else sub c d
