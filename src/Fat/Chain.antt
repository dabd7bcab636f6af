-- ===== src/Fat/Chain.antt =====
-- Cluster chains, kernel/fat.c: `is_eoc` to `resizechain`.
use fastsystem.Prelude.{
  ℕ, zero, suc, ◌+◌, ◌-◌, ◌≤◌, ◌<◌, ◌≡◌, Bool, true, false, not, ◌&&◌, ◌||◌, ltb, leb, ◌==◌,
  if◌then◌else◌,
}
pub mod Links
pub mod Length
pub mod Free
pub mod Grown
pub mod Alloc
pub mod Resize
pub mod Kept
mod Tests
use fastsystem.Fat.Table.{FatTable}

module _ (t : FatTable) where
  open t use {State, ready, cluster_count, max_cluster, eoc_mark, read, write}

  pub is_valid_data_cluster : ℕ → Bool
  is_valid_data_cluster c = leb 2 c && leb c max_cluster

  pub is_eoc : ℕ → Bool
  is_eoc c = if eoc_mark == 0 then false else leb eoc_mark c

  -- The `while` of `freechain`. `left` is `max_cluster` less `iterations`: at 0 the test
  -- `++iterations > max_cluster` holds.
  pub freechain_loop : ℕ → State → ℕ → Bool × State
  freechain_loop zero s cluster = (false, s)
  freechain_loop (suc left) s cluster =
      let next = read s cluster in
      let (wrote, s') = write s cluster 0 in
      let rest = freechain_loop left s' next in
      if not (is_valid_data_cluster cluster)
      then (false, s)
      else if not wrote
      then (false, s')
      else if next == 0 || is_eoc next
      then (true, s')
      else if not (is_valid_data_cluster next)
      then (false, s')
      else rest

  pub freechain : State → ℕ → Bool × State
  freechain s first =
      if not ready
      then (false, s)
      else if first == 0
      then (true, s)
      else if not (is_valid_data_cluster first)
      then (false, s)
      else freechain_loop max_cluster s first

  -- The clean-up of `allocchain` after a failed write.
  pub abandon : State → ℕ → ℕ × State
  abandon s first = if first == 0 then (0, s) else (0, (freechain s first).1)

  -- The `for` of `allocchain`, with `left` clusters still to look at. `wanted` is
  -- `count - found`.
  pub allocchain_loop : ℕ → State → ℕ → ℕ → ℕ → ℕ → ℕ × State
  allocchain_loop left s cluster zero first previous = (first, s)
  allocchain_loop zero s cluster (suc wanted) first previous = abandon s first
  allocchain_loop (suc left) s cluster (suc wanted) first previous =
      let first' = if first == 0 then cluster else first in
      let (marked, s1) = write s cluster eoc_mark in
      let (linked, s2) = write s1 previous cluster in
      let skip = allocchain_loop left s (cluster + 1) (suc wanted) first previous in
      let start = allocchain_loop left s1 (cluster + 1) wanted first' cluster in
      let extend = allocchain_loop left s2 (cluster + 1) wanted first' cluster in
      if not (read s cluster == 0)
      then skip
      else if not marked
      then abandon s1 first
      else if previous == 0
      then start
      else if not linked
      then (0, (freechain s2 first').1)
      else extend

  pub allocchain : State → ℕ → ℕ × State
  allocchain s count =
      if not ready || count == 0
      then (0, s)
      else if ltb max_cluster 2 || eoc_mark == 0
      then (0, s)
      else if ltb cluster_count count
      then (0, s)
      else allocchain_loop (max_cluster - 1) s 2 count 0 0

  -- The `while` of `chain_length`, as in `freechain_loop`; `count` has not been raised yet.
  pub chain_length_loop : ℕ → State → ℕ → ℕ → ℕ
  chain_length_loop zero s count cluster = 0
  chain_length_loop (suc left) s count cluster =
      let next = read s cluster in
      let rest = chain_length_loop left s (count + 1) next in
      if not (is_valid_data_cluster cluster)
      then 0
      else if next == 0
      then 0
      else if is_eoc next
      then count + 1
      else if not (is_valid_data_cluster next)
      then 0
      else rest

  pub chain_length : State → ℕ → ℕ
  chain_length s first =
      if first == 0 || not (is_valid_data_cluster first)
      then 0
      else chain_length_loop max_cluster s 0 first

  -- The `for` of `get_nth_cluster`, with `left` steps to go.
  pub get_nth_cluster_loop : ℕ → State → ℕ → ℕ
  get_nth_cluster_loop zero s cluster = cluster
  get_nth_cluster_loop (suc left) s cluster =
      let next = read s cluster in
      let rest = get_nth_cluster_loop left s next in
      if not (is_valid_data_cluster cluster)
      then 0
      else if ltb next 2 || is_eoc next
      then 0
      else rest

  pub get_nth_cluster : State → ℕ → ℕ → ℕ
  get_nth_cluster s first index =
      if ltb first 2 || not (is_valid_data_cluster first)
      then 0
      else get_nth_cluster_loop index s first

  -- `current_count > required` in `resizechain`.
  pub shrink : State → ℕ → ℕ → Bool × State
  shrink s first required =
      let cluster = get_nth_cluster s first (required - 1) in
      let next = read s cluster in
      let (cut, s1) = write s cluster eoc_mark in
      if ltb cluster 2
      then (false, s)
      else if leb 2 next && not (is_eoc next)
      then if not cut then (false, s1) else freechain s1 next
      else (true, s)

  -- `current_count < required` in `resizechain`.
  pub grow : State → ℕ → ℕ → ℕ → Bool × State
  grow s first current required =
      let cluster = get_nth_cluster s first (current - 1) in
      let (next, s1) = allocchain s (required - current) in
      let (linked, s2) = write s1 cluster next in
      if ltb cluster 2
      then (false, s)
      else if next == 0
      then (false, s1)
      else if not linked
      then (false, (freechain s2 next).1)
      else (true, s2)

  -- The result is the value returned, `*first_cluster` afterwards, and the table.
  pub resizechain : State → ℕ → ℕ → Bool × ℕ × State
  resizechain s first required =
      let (freed, s1) = freechain s first in
      let (fresh, s2) = allocchain s required in
      let current = chain_length s first in
      let (cut, s3) = shrink s first required in
      let (grown, s4) = grow s first current required in
      if required == 0
      then if first == 0
        then (true, first, s)
        else if freed
        then (true, 0, s1)
        else (false, first, s1)
      else if first == 0
      then (not (fresh == 0), fresh, s2)
      else if current == 0
      then (false, first, s)
      else if current == required
      then (true, first, s)
      else if ltb required current
      then (cut, first, s3)
      else (grown, first, s4)
