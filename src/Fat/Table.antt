-- ===== src/Fat/Table.antt =====
-- The interface between the cluster chains of kernel/fat.c and the file allocation table that
-- `readcluster` and `writecluster` keep on the disk.
use fastsystem.Prelude.{ℕ, ◌+◌, ◌≤◌, ◌<◌, ◌≡◌, Bool, true, ◌==◌, if◌then◌else◌}

-- What the chain operations call: `hasactive() && isfattype()`, `getclustercount`,
-- `fat_max_cluster`, `fat_eoc_mark`, `readcluster` and `writecluster`.
pub record FatTable : Type 1 where
  pub State : Type 0
  pub ready : Bool
  pub cluster_count : ℕ
  pub max_cluster : ℕ
  pub eoc_mark : ℕ
  pub read : State → ℕ → ℕ
  pub write : State → ℕ → ℕ → Bool × State

-- A cluster number that stands for a data cluster.
abbrev pub IsData : FatTable → ℕ → Type 0
IsData t c = (2 ≤ c) × (c ≤ t.max_cluster)

-- What a mounted table on a disk without I/O errors promises.
pub record IsReliable (t : FatTable) : Type 0 where
  pub is_ready : t.ready ≡ true
  pub max_is : t.max_cluster ≡ t.cluster_count + 1
  pub max_lt_eoc : t.max_cluster < t.eoc_mark
  pub write_done : (s : t.State) (c x : ℕ) → IsData t c → x ≤ t.eoc_mark → (t.write s c x).0 ≡ true
  pub read-write :
      (s : t.State) (c x d : ℕ)
      → IsData t c
      → IsData t d
      → x ≤ t.eoc_mark
      → t.read (t.write s c x).1 d ≡ (if d == c then x else t.read s d)
