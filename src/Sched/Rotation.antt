-- ===== src/Sched/Rotation.antt =====
-- `find_next_ready` is a round robin: the first ready task after the given one, going round.
use fastsystem.Prelude.{
  ℕ, zero, suc, ◌+◌, ◌-◌, ◌%◌, ◌≤◌, ◌<◌, ◌≡◌, ◌≢◌, ◌⊎◌, ◌∙◌, ap, sym, arith, true, false, none,
  some, List, ltb, ◌==◌, if◌then◌else◌, length, get_or, inl, inr, Bool-cases, ==→eq, ltb→lt,
}
use native.Mathlib.Nat.{mod-lt, mod-eq_of_lt, add-mod_right}
use fastsystem.Sched.{Task, System, task, is_ready, unused_task, find_loop, find_next_ready}

abbrev pub IsReadyAt : List Task → ℕ → Type 0
IsReadyAt ts i = is_ready (get_or ts i unused_task).state ≡ true

-- `j` is reached from `from` in `k` steps, and no task is passed on the way that is ready.
pub record IsFirst (ts : List Task) (from lo : ℕ) (j k : ℕ) : Type 0 where
  pub index : j ≡ (from + k) % length ts
  pub found : IsReadyAt ts j
  pub after : lo ≤ k
  pub passed :
      (m : ℕ)
      → lo ≤ m
      → m < k
      → is_ready (get_or ts ((from + m) % length ts) unused_task).state ≡ false

module _ (ts : List Task) (from : ℕ) where
  find_loop-some :
      (left i j : ℕ)
      → find_loop left ts from i ≡ some j
      → (k : ℕ) × IsFirst ts from i j k × (k < i + left)
  unfolding find_loop
  find_loop-some zero i j h = cc
  find_loop-some (suc left) i j h =
      elim (Bool-cases (is_ready (get_or ts ((from + i) % length ts) unused_task).state)) [
        | inl e ↦ (
          i,
          record {
            index = ground arith;
            found = ground arith;
            after = omega arith;
            passed = λ m a b. absurd (omega arith);
          },
          omega arith,
        )
        | inr e ↦
            let (k, f, l) = find_loop-some left (i + 1) j (ground arith) in
            (
              k,
              record {
                index = f.index;
                found = f.found;
                after = omega (arith, f.after);
                passed = λ m a b. pass left i j k f e m a b;
              },
              omega arith,
            )
      ]
    where
      pass :
          (left i j k : ℕ)
          → IsFirst ts from (i + 1) j k
          → is_ready (get_or ts ((from + i) % length ts) unused_task).state ≡ false
          → (m : ℕ) → i ≤ m
          → m < k
          → is_ready (get_or ts ((from + m) % length ts) unused_task).state ≡ false
      pass left i j k f e m a b = elim (Bool-cases (m == i)) [
        | inl q ↦ rw (==→eq m i q) e
        | inr q ↦ f.passed m (ground arith) b
      ]

  find_loop-none :
      (left i : ℕ)
      → find_loop left ts from i ≡ none
      → (m : ℕ) → i ≤ m
      → m < i + left
      → is_ready (get_or ts ((from + m) % length ts) unused_task).state ≡ false
  unfolding find_loop
  find_loop-none zero i h m a b = absurd (omega arith)
  find_loop-none (suc left) i h m a b = elim (Bool-cases (m == i)) [
    | inl q ↦ rw (==→eq m i q) (ground arith)
    | inr q ↦ find_loop-none left (i + 1) (ground arith) m (ground arith) (omega arith)
  ]

-- The steps from one index to another, going forward; from an index to itself it is a full turn.
abbrev pub distance : ℕ → ℕ → ℕ → ℕ
distance n from j = if ltb from j then j - from else j + n - from

mod-turn : (n a j : ℕ) → j < n → (a ≡ j) ⊎ (a ≡ j + n) → a % n ≡ j
mod-turn n a j k (inl e) = rw e (mod-eq_of_lt k)
mod-turn n a j k (inr e) = rw (e, add-mod_right j n) (mod-eq_of_lt k)

pub distance-mod : (n from j : ℕ) → from < n → j < n → (from + distance n from j) % n ≡ j
distance-mod n from j h k =
    mod-turn n (from + distance n from j) j k
      (elim (Bool-cases (ltb from j)) [ inl e ↦ inl (ground arith) | inr e ↦ inr (ground arith) ])

pub distance_bounds :
    (n from j : ℕ) → from < n → j < n → (1 ≤ distance n from j) × (distance n from j ≤ n)
distance_bounds n from j h k = (ground arith, ground arith)

turn-nearer :
    (n from w k : ℕ)
    → from < n
    → w < n
    → 1 ≤ k
    → k < distance n from w
    → distance n ((from + k) % n) w < distance n from w
turn-nearer n from w k p q a b = elim (Bool-cases (ltb (from + k) n)) [
  | inl e ↦ rw (mod-eq_of_lt (ltb→lt (from + k) n e)) (ground arith)
  | inr e ↦
      rw (mod-turn n (from + k) (from + k - n) (ground arith) (inr (ground arith))) (ground arith)
]

true-ne_false : true ≢ false
true-ne_false e = cc

module _ (s : System) (from : ℕ) where
  -- The task found is ready, it is at most one turn away, and no task on the way to it is ready.
  pub find_next_ready-IsFirst :
      (j : ℕ)
      → find_next_ready s from ≡ some j
      → (k : ℕ) × IsFirst s.thread from 1 j k × (k ≤ length s.thread)
  unfolding find_next_ready
  find_next_ready-IsFirst j h =
      let (k, f, l) = find_loop-some s.thread from (length s.thread) 1 j (ground arith) in
      (k, f, omega arith)

  -- None is found only if none is ready.
  pub find_next_ready-none :
      find_next_ready s from ≡ none
      → from < length s.thread
      → (j : ℕ) → j < length s.thread
      → is_ready (task s j).state ≡ false
  unfolding find_next_ready
  find_next_ready-none h p j q =
      let d = distance (length s.thread) from j in
      let r =
        find_loop-none s.thread from (length s.thread) 1 (ground arith) d
          ((distance_bounds (length s.thread) from j p q).0)
          (ground (arith, distance_bounds (length s.thread) from j p q)) in
      let e = distance-mod (length s.thread) from j p q in
      ap (λ i. is_ready (get_or s.thread i unused_task).state) (sym e) ∙ r

  -- No starvation: where a task other than the chosen one is ready, the choice brings the turn
  -- strictly nearer to it.
  pub find_next_ready_nearer :
      (j w : ℕ)
      → find_next_ready s from ≡ some j
      → from < length s.thread
      → w < length s.thread
      → is_ready (task s w).state ≡ true
      → j ≢ w
      → (j < length s.thread) × (distance (length s.thread) j w < distance (length s.thread) from w)
  find_next_ready_nearer j w e p q r d =
      let n = length s.thread in
      let (k, f, l) = find_next_ready-IsFirst j e in
      let b = distance_bounds n from w p q in
      let m = distance-mod n from w p q in
      let same : (distance n from w ≡ k) → j ≡ w =
        λ g. f.index ∙ ap (λ i. (from + i) % n) (sym g) ∙ m in
      let short : k < distance n from w = elim (Bool-cases (ltb k (distance n from w))) [
        | inl g ↦ ltb→lt k (distance n from w) g
        | inr g ↦ elim (Bool-cases (distance n from w == k)) [
          | inl g' ↦ absurd (d (same (==→eq (distance n from w) k g')))
          | inr g' ↦ absurd (
              true-ne_false (
                sym r
                ∙ ap (λ i. is_ready (get_or s.thread i unused_task).state) (sym m)
                ∙ f.passed (distance n from w) (b.0) (ground (arith, g, g'))))
        ]
      ] in
      rw f.index (mod-lt (from + k) (omega (arith, p)), turn-nearer n from w k p q f.after short)
