-- ===== src/Sched/Timely.antt =====
-- Tasks in order: their priorities and ids.
use fastsystem.Prelude.{
  ℕ, ◌≤◌, ◌<◌, ◌≡◌, ◌∙◌, ap, sym, arith, some, List, ◌==◌, length, get_or, set, length-set,
  get_or-set_self, get_or-set_ne, inl, inr, Bool-cases, ==→eq,
}
use fastsystem.Sched.{Task, quantum, max_priority, unused_task}

-- Every task has a priority that is allowed and the id of a task.
pub record IsTimely (ts : List Task) : Type 0 where
  pub priorities : (i : ℕ) → i < length ts → (get_or ts i unused_task).priority ≤ max_priority
  pub ids :
      (i : ℕ)
      → i < length ts
      → (x : ℕ) × ((get_or ts i unused_task).thread_id ≡ some x) × (x < length ts)

-- A change of one task that keeps its priority and its id.
pub set-IsTimely :
    (ts : List Task) (c : ℕ) (t : Task)
    → c < length ts
    → IsTimely ts
    → t.priority ≡ (get_or ts c unused_task).priority
    → t.thread_id ≡ (get_or ts c unused_task).thread_id
    → IsTimely (set ts c t)
set-IsTimely ts c t h timely p q =
    let l = length-set ts c t in
    record {
      priorities = λ i k. elim (Bool-cases (c == i)) [
        | inl z ↦
            let n : c ≡ i = ==→eq c i z in
            let same : (get_or (set ts c t) i unused_task).priority
                ≡ (get_or ts c unused_task).priority =
              ap (λ (j : ℕ). (get_or (set ts c t) j unused_task).priority) (sym n)
              ∙ ap (λ u. u.priority) (get_or-set_self ts c t unused_task h)
              ∙ p in
            omega (arith, same, timely.priorities c h)
        | inr z ↦
            let same =
              ap (λ u. u.priority)
                (get_or-set_ne ts c i t unused_task (λ n. ground (arith, z, n))) in
            omega (arith, same, timely.priorities i (omega (arith, k, l)))
      ];
      ids = λ i k. elim (Bool-cases (c == i)) [
        | inl z ↦
            let n : c ≡ i = ==→eq c i z in
            let (x, e, b) = timely.ids c h in
            (
              x,
              ap (λ (j : ℕ). (get_or (set ts c t) j unused_task).thread_id) (sym n)
                  ∙ ap (λ u. u.thread_id) (get_or-set_self ts c t unused_task h)
                  ∙ q
                  ∙ e,
              omega (arith, b, l),
            )
        | inr z ↦
            let (x, e, b) = timely.ids i (omega (arith, k, l)) in
            (
              x,
              ap (λ u. u.thread_id) (get_or-set_ne ts c i t unused_task (λ n. ground (arith, z, n)))
                  ∙ e,
              omega (arith, b, l),
            )
      ];
    }

pub quantum_small : (p : ℕ) → p ≤ max_priority → quantum p ≤ max_priority
unfolding quantum
quantum_small p h = ground (arith, h)
