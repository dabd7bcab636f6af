-- ===== src/Fat/Write/Zero.antt =====
-- `fat_file_zero_range` inside a file.
use fastsystem.Prelude.{
  ℕ, ◌*◌, ◌<◌, ◌≡◌, Bool, true, ◌&&◌, List, ◌∷◌, length, ltb, leb, if◌then◌else◌,
}
use fastsystem.Fat.Volume.{Volume}
use fastsystem.Fat.Entries.{Device}
use fastsystem.Fat.File.{FatFile, fat_file_cluster_size}
use fastsystem.Fat.File.Contents.{chain_byte}

-- Values with those from `a` to before `b` cleared.
abbrev pub zeroed : (ℕ → ℕ) → ℕ → ℕ → ℕ → ℕ
zeroed g a b q = if leb a q && ltb q b then 0 else g q

-- The result of a call that clears the bytes of a chain from `start` to before `end`, and leaves
-- the position behind them: every other byte of the chain is what it was.
abbrev pub Cleared :
    (dev : Device) (v : Volume) (d : dev.Disk) (f : FatFile)
    → List ℕ
    → ℕ
    → ℕ
    → Bool × FatFile × dev.Disk
    → Type 0
Cleared dev v d f rest start end r =
    (d' : dev.Disk) × (r
      ≡ (true, record f { position = if ltb start end then end else f.position }, d'))
    × ((q : ℕ)
        → q < length (f.first_cluster ∷ rest) * fat_file_cluster_size v
        → chain_byte dev v d' (f.first_cluster ∷ rest) q
          ≡ zeroed (chain_byte dev v d (f.first_cluster ∷ rest)) start end q)
