-- ===== src/Sched/Steps.antt =====
-- The operations of the scheduler as the steps of one machine, in any order.
use fastsystem.Prelude.{
  ℕ, ◌+◌, ◌≡◌, ◌∙◌, sym, arith, Bool, true, false, not, ◌&&◌, Option, none, some, some, ltb, ◌==◌,
  if◌then◌else◌, u32, length, inl, inr, Bool-cases, ==→eq, ap, get_or-set_ne,
}
use fastsystem.Sched.{
  Task, TaskState, System, task, put, is_running, is_idle, is_terminated, is_sleeping, unused_task,
  quantum, schedule, set_task_state, set_task_priority, task_ready, task_yield, task_block,
  task_msleep, task_sleep, scheduler_tick, timer_handler, wake, tick_reached, ready, sleep, block,
  msleep_delta, sleep_delta, max_priority, sleep_until,
}
use fastsystem.Sched.Clock.{task-scheduler_tick}
use fastsystem.Sched.Running.{IsExclusive, get_or-set_quiet, schedule-IsExclusive}

-- What a piece of kernel code does to the scheduler's state: an interrupt of the timer, a switch,
-- or a call of the task functions on any id. No call sets a task running by itself.
pub data Step (s : System) : System → Type 0 where
  interrupt : (initialized : Bool) (frame : Option ℕ) → Step s (timer_handler initialized s frame).1
  switch : (frame : Option ℕ) → Step s (schedule s frame).1
  wakeup : (i : ℕ) → Step s (task_ready s i)
  yield : (i : ℕ) → Step s (task_yield s i)
  blocked : (i : ℕ) → Step s (task_block s i)
  msleep : (i milliseconds : ℕ) → Step s (task_msleep s i milliseconds)
  sleeps : (i seconds : ℕ) → Step s (task_sleep s i seconds)
  prioritised : (i priority : ℕ) → Step s (set_task_priority s i priority)
  marked : (i : ℕ) (st : TaskState) → is_running st ≡ false → Step s (set_task_state s i st)

pub data Steps (s : System) : System → Type 0 where
  done : Steps s s
  after : {s' s'' : System} → Steps s s' → Step s' s'' → Steps s s''

-- A change of one task that does not set it running.
data Lowers (s : System) (i : ℕ) : System → Type 0 where
  same : Lowers s i s
  changed :
      (t : Task)
      → (is_running t.state ≡ true → is_running (task s i).state ≡ true)
      → Lowers s i (put s i t)

put-IsExclusive :
    (s : System) (i : ℕ) (t : Task)
    → (is_running t.state ≡ true → is_running (task s i).state ≡ true)
    → IsExclusive s
    → IsExclusive (put s i t)
put-IsExclusive s i t h e j r = elim (Bool-cases (i == j)) [
  | inl g ↦ same (==→eq i j g)
  | inr g ↦ e j (
      ap (λ u. is_running u.state)
        (sym (get_or-set_ne s.thread i j t unused_task (ground (arith, g))))
      ∙ r)
]
  where
    same : i ≡ j → s.current_thread ≡ some j
    same g = elim (Bool-cases (is_running t.state)) [
      | inl x ↦ e i (h x) ∙ ap some g
      | inr x ↦ absurd (
          ground (
            arith,
            ap (λ k. is_running (task (put s i t) k).state) g ∙ r,
            get_or-set_quiet s.thread i t x,
          ))
    ]

Lowers-IsExclusive :
    {s : System} {i : ℕ} {s' : System} → Lowers s i s' → IsExclusive s → IsExclusive s'
Lowers-IsExclusive same e = e
Lowers-IsExclusive {s} {i} (changed t h) e = put-IsExclusive s i t h e

if-Lowers :
    {s : System} {i : ℕ} (b : Bool) {x y : System}
    → Lowers s i x
    → Lowers s i y
    → Lowers s i (if b then x else y)
if-Lowers true l m = l
if-Lowers false l m = m

task_ready-Lowers : (s : System) (i : ℕ) → Lowers s i (task_ready s i)
unfolding task_ready
task_ready-Lowers s i =
    let t = task s i in
    let q = if t.quantum_left == 0 then quantum t.priority else t.quantum_left in
    if-Lowers (not (ltb i (length s.thread))) same (
      if-Lowers (is_terminated t.state) same
        (changed (record t { state = ready; quantum_left = q }) (λ e. cc)))

task_yield-Lowers : (s : System) (i : ℕ) → Lowers s i (task_yield s i)
unfolding task_yield
task_yield-Lowers s i =
    let t = task s i in
    if-Lowers (not (ltb i (length s.thread))) same (
      if-Lowers (is_running t.state)
        (changed (record t { state = ready; quantum_left = 0 }) (λ e. cc)) same)

task_block-Lowers : (s : System) (i : ℕ) → Lowers s i (task_block s i)
unfolding task_block
task_block-Lowers s i = if-Lowers (not (ltb i (length s.thread))) same (
    if-Lowers (is_idle s i) same
      (changed (record (task s i) { state = block; quantum_left = 0 }) (λ e. cc)))

sleep_until-Lowers : (s : System) (i delta : ℕ) → Lowers s i (sleep_until s i delta)
sleep_until-Lowers s i delta = if-Lowers (not (ltb i (length s.thread))) same (
    if-Lowers (is_idle s i) same (
      changed
        (record (task s i) {
          wake_tick = u32 (s.timertick + delta);
          state = sleep;
          quantum_left = 0;
        })
        (λ e. cc)))

set_task_priority-Lowers : (s : System) (i p : ℕ) → Lowers s i (set_task_priority s i p)
unfolding set_task_priority
set_task_priority-Lowers s i priority =
    let p = if ltb max_priority priority then max_priority else priority in
    let t = task s i in
    let q = if is_running t.state && t.quantum_left == 0 then quantum p else t.quantum_left in
    if-Lowers (not (ltb i (length s.thread))) same
      (changed (record t { priority = p; quantum_left = q }) (λ e. e))

set_task_state-Lowers :
    (s : System) (i : ℕ) (st : TaskState)
    → is_running st ≡ false
    → Lowers s i (set_task_state s i st)
unfolding set_task_state
set_task_state-Lowers s i st h =
    if-Lowers (not (ltb i (length s.thread))) same
      (changed (record (task s i) { state = st }) (λ e. absurd (ground (arith, e, h))))

wake_running :
    (now : ℕ) (t : Task) → is_running (wake now t).state ≡ true → is_running t.state ≡ true
unfolding wake
wake_running now t h =
    go (is_terminated t.state) (is_sleeping t.state && tick_reached now t.wake_tick) h
  where
    go :
        (a b : Bool)
        → let t' : Task =
            if a
            then t
            else if b
            then record t { state = ready; quantum_left = quantum t.priority }
            else t in
          is_running t'.state ≡ true → is_running t.state ≡ true
    go true b e = e
    go false true e = absurd cc
    go false false e = e

tick-IsExclusive :
    (s : System) (now : ℕ)
    → IsExclusive s
    → IsExclusive (scheduler_tick (record s { timertick = now }))
unfolding scheduler_tick
tick-IsExclusive s now e i r = e i (
    wake_running now (task s i) (
      ap (λ t. is_running t.state) (sym (task-scheduler_tick (record s { timertick = now }) i))
      ∙ r))

-- An interrupt of the timer keeps the running state to the current task.
pub timer_handler-IsExclusive :
    (initialized : Bool) (s : System) (frame : Option ℕ)
    → IsExclusive s
    → IsExclusive (timer_handler initialized s frame).1
unfolding timer_handler
timer_handler-IsExclusive false s frame e = e
timer_handler-IsExclusive true s none e = e
timer_handler-IsExclusive true s (some esp) e =
    let s' = scheduler_tick (record s { timertick = u32 (s.timertick + 1) }) in
    go (schedule s' (some esp))
      (schedule-IsExclusive s' (some esp) (tick-IsExclusive s (u32 (s.timertick + 1)) e))
  where
    go :
        (r : Option ℕ × System)
        → IsExclusive r.1
        → let o : Option ℕ × System = elim r.0 [
          | none ↦ (some esp, r.1)
          | some f ↦ (some f, r.1)
        ] in
          IsExclusive o.1
    go (none, x) h = h
    go (some f, x) h = h

Step-IsExclusive : {s s' : System} → Step s s' → IsExclusive s → IsExclusive s'
unfolding task_msleep task_sleep
Step-IsExclusive {s} (interrupt b frame) e = timer_handler-IsExclusive b s frame e
Step-IsExclusive {s} (switch frame) e = schedule-IsExclusive s frame e
Step-IsExclusive {s} (wakeup i) e = Lowers-IsExclusive (task_ready-Lowers s i) e
Step-IsExclusive {s} (yield i) e = Lowers-IsExclusive (task_yield-Lowers s i) e
Step-IsExclusive {s} (blocked i) e = Lowers-IsExclusive (task_block-Lowers s i) e
Step-IsExclusive {s} (msleep i m) e =
    Lowers-IsExclusive (sleep_until-Lowers s i (msleep_delta s.timer_frequency m)) e
Step-IsExclusive {s} (sleeps i m) e =
    Lowers-IsExclusive (sleep_until-Lowers s i (sleep_delta s.timer_frequency m)) e
Step-IsExclusive {s} (prioritised i p) e = Lowers-IsExclusive (set_task_priority-Lowers s i p) e
Step-IsExclusive {s} (marked i st h) e = Lowers-IsExclusive (set_task_state-Lowers s i st h) e

-- However the timer's interrupts, the switches and the calls of the task functions follow each
-- other, from a state in which no task but the current one is running they lead to such a state.
pub Steps-IsExclusive : {s s' : System} → Steps s s' → IsExclusive s → IsExclusive s'
Steps-IsExclusive done e = e
Steps-IsExclusive (after steps step) e = Step-IsExclusive step (Steps-IsExclusive steps e)
