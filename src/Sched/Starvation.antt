-- ===== src/Sched/Starvation.antt =====
-- How many calls of `schedule` a task can be ready for.
use fastsystem.Prelude.{
  ℕ, ◌+◌, ◌*◌, ◌≤◌, ◌<◌, ◌≡◌, ◌∙◌, refl, ap, arith, true, some, Option, length, inl, inr,
}
use fastsystem.Sched.{System, task, is_ready, schedule, max_priority}
use fastsystem.Sched.Rotation.{distance, distance_bounds}
use fastsystem.Sched.Timely.{IsTimely}
use fastsystem.Sched.Fair.{schedule-Moves}

-- What happens while the task `w` stays ready: a number of calls of `schedule`, and between them
-- whatever keeps the current task, the number of tasks, and the priorities and ids in order, and
-- gives the current task no more time.
pub data Run (w : ℕ) (s : System) : ℕ → System → Type 0 where
  start : Run w s 0 s
  between :
      {k : ℕ} {s' : System} (s'' : System)
      → Run w s k s'
      → s''.current_thread ≡ s'.current_thread
      → length s''.thread ≡ length s'.thread
      → IsTimely s''.thread
      → ((c : ℕ)
          → s'.current_thread ≡ some c
          → (task s'' c).quantum_left ≤ (task s' c).quantum_left)
      → is_ready (task s'' w).state ≡ true
      → Run w s k s''
  scheduled :
      {k : ℕ} {s' : System} (frame : Option ℕ)
      → Run w s k s'
      → is_ready (task (schedule s' frame).1 w).state ≡ true
      → Run w s (k + 1) (schedule s' frame).1

-- The calls that may still come before `w` is started, where `c` is the current task: the time of
-- `c`, and that of the tasks on the way from it to `w`.
abbrev ahead : System → ℕ → ℕ → ℕ
ahead s c w = distance (length s.thread) c w * (max_priority + 1) + (task s c).quantum_left

-- After `k` calls there are at least `k` less ahead.
record Nearer (w : ℕ) (s s' : System) (c k : ℕ) : Type 0 where
  size : length s'.thread ≡ length s.thread
  timely : IsTimely s'.thread
  waits : is_ready (task s' w).state ≡ true
  now : ℕ
  current : s'.current_thread ≡ some now
  inside : now < length s.thread
  near : k + ahead s' now w ≤ ahead s c w

Run-Nearer :
    {w : ℕ} {s : System} {k : ℕ} {s' : System} (c : ℕ)
    → s.current_thread ≡ some c
    → c < length s.thread
    → w < length s.thread
    → IsTimely s.thread
    → is_ready (task s w).state ≡ true
    → Run w s k s'
    → Nearer w s s' c k
Run-Nearer c here h l timely r start = record {
  size = refl;
  timely = timely;
  waits = r;
  now = c;
  current = here;
  inside = h;
  near = omega arith;
}
Run-Nearer {w} {s} c here h l timely r (between s'' run same size kept less waits) =
    let n = Run-Nearer c here h l timely r run in
    let q = less n.now n.current in
    let e = ap (λ (i : ℕ). distance i n.now w) size in
    record {
      size = size ∙ n.size;
      timely = kept;
      waits = waits;
      now = n.now;
      current = same ∙ n.current;
      inside = n.inside;
      near = omega (arith, n.near, q, e);
    }
Run-Nearer {w} {s} c here h l timely r (scheduled {k} {s'} frame run waits) =
    let n = Run-Nearer c here h l timely r run in
    let ((size, kept), moved) =
      schedule-Moves n.now w s' frame n.current (omega (arith, n.inside, n.size))
        (omega (arith, l, n.size)) n.timely n.waits waits in
    elim moved [
      | inl (stays, less) ↦
          let e = ap (λ (i : ℕ). distance i n.now w) size in
          record {
            size = size ∙ n.size;
            timely = kept;
            waits = waits;
            now = n.now;
            current = stays;
            inside = n.inside;
            near = omega (arith, n.near, less, e);
          }
      | inr (j, goes, i, d, fresh) ↦
          let e = ap (λ (i : ℕ). distance i j w) size in
          record {
            size = size ∙ n.size;
            timely = kept;
            waits = waits;
            now = j;
            current = goes;
            inside = omega (arith, i, n.size);
            near = omega (arith, n.near, d, fresh, e);
          }
    ]

-- No starvation: from a state with a current task, and in which every task has a priority of at
-- most 7 and the id of a task, as long as a task stays ready, and whatever happens between the
-- calls of `schedule` keeps this, the current task and the number of tasks and gives the current
-- task no more time, there are less calls than 8 for each task and the time that the current task
-- had.
pub schedule-Run :
    (w : ℕ) (s : System) (k : ℕ) (s' : System) (c : ℕ)
    → s.current_thread ≡ some c
    → c < length s.thread
    → w < length s.thread
    → IsTimely s.thread
    → is_ready (task s w).state ≡ true
    → Run w s k s'
    → k < 8 * length s.thread + (task s c).quantum_left
schedule-Run w s k s' c here h l timely r run =
    let n = Run-Nearer c here h l timely r run in
    let a = distance_bounds (length s.thread) c w h l in
    let b =
      distance_bounds (length s'.thread) n.now w (omega (arith, n.inside, n.size))
        (omega (arith, l, n.size)) in
    omega (arith, n.near, a, b)
