-- ===== src/Fat/Entries/Memory.antt =====
-- A disk in memory, for the tests.
use fastsystem.Prelude.{
  ℕ, zero, suc, ◌+◌, ◌*◌, ◌≤◌, ◌≡◌, ap, refl, arith, true, some, List, [], ◌∷◌, ◌==◌, if◌then◌else◌,
  Bool-cases, inl, inr, length, get_or,
}
use fastsystem.Fat.Volume.{getfatsize, sectorsize}
use fastsystem.Fat.Entries.{Device, IsSound}
use fastsystem.Fat.Volume.Sample.{small_volume, small_volume_values}

-- A disk as a function from a sector and an index to a byte.
abbrev pub bytes_of : ℕ → (ℕ → ℕ) → List ℕ
bytes_of zero f = []
bytes_of (suc n) f = f 0 ∷ bytes_of n (λ i. f (suc i))

length-bytes_of : (n : ℕ) (f : ℕ → ℕ) → length (bytes_of n f) ≡ n
length-bytes_of zero f = refl
length-bytes_of (suc n) f = ap suc (length-bytes_of n (λ i. f (suc i)))

bytes_of-get_or : (b : List ℕ) (n : ℕ) → length b ≡ n → bytes_of n (λ i. get_or b i 0) ≡ b
bytes_of-get_or [] zero e = refl
bytes_of-get_or [] (suc n) e = absurd (omega arith)
bytes_of-get_or (x ∷ b) zero e = absurd (omega arith)
bytes_of-get_or (x ∷ b) (suc n) e = ap (λ (t : List ℕ). x ∷ t) (bytes_of-get_or b n (omega arith))

abbrev pub memory_disk : Device
memory_disk = record {
  Disk = ℕ → ℕ → ℕ;
  read = λ d s. some (bytes_of sectorsize (d s));
  write = λ d s b. (true, λ m. if m == s then (λ i. get_or b i 0) else d m);
}

stored :
    (d : ℕ → ℕ → ℕ) (n m : ℕ) (b : List ℕ)
    → length b ≡ sectorsize
    → memory_disk.read (memory_disk.write d n b).1 m
      ≡ (if m == n then some b else memory_disk.read d m)
stored d n m b h = elim (Bool-cases (m == n)) [
  | inl e ↦ rw e (ap some (bytes_of-get_or b sectorsize h))
  | inr e ↦ rw e refl
]

pub memory_disk-IsSound : IsSound memory_disk 1000
memory_disk-IsSound = record {
  read_done = λ d n l. (bytes_of sectorsize (d n), refl, length-bytes_of sectorsize (d n));
  write_done = λ d n b l h. refl;
  read-write = λ d n m b l h. stored d n m b h;
}

pub room :
    small_volume.lba_start
      + small_volume.reserved_sectors_count
      + small_volume.number_fats * getfatsize small_volume
    ≤ 1000
room = omega (arith, small_volume_values)

abbrev pub blank : ℕ → ℕ → ℕ
blank s i = 0
