-- ===== src/Sched.antt =====
-- The task scheduler, kernel/fskrnl.c: `valid_task_id` to `task_sleep`, `tick_reached`,
-- `scheduler_tick`, `find_next_ready`, `schedule` and `timer_handler`.
--
-- A task id is a natural number or `none`, a negative one, which the functions that take an id
-- turn away as they turn away one past the end. A function between `irq_save_disable` and
-- `irq_restore` is one step. The processor's side of a switch (`save_context`, the task segment,
-- the thread's descriptor) changes no field that is modelled here.
pub mod Rotation
pub mod Clock
pub mod Running
pub mod Steps
pub mod Timely
pub mod Fair
pub mod Starvation
mod Tests
use fastsystem.Prelude.{
  ℕ, zero, suc, ◌+◌, ◌-◌, ◌*◌, ◌/◌, ◌%◌, ◌^◌, ◌<◌, ◌≡◌, Bool, true, false, not, ◌&&◌, ◌||◌, Option,
  none, some, List, [], ◌∷◌, ltb, leb, ◌==◌, if◌then◌else◌, u32, length, get_or, set,
}

-- TASK_UNUSED to TASK_TERMINATE.
pub data TaskState : Type 0 where
  unused ready running sleep block terminate : TaskState

abbrev pub is_ready : TaskState → Bool
is_ready ready = true
is_ready _ = false

abbrev pub is_running : TaskState → Bool
is_running running = true
is_running _ = false

abbrev pub is_sleeping : TaskState → Bool
is_sleeping sleep = true
is_sleeping _ = false

abbrev pub is_terminated : TaskState → Bool
is_terminated terminate = true
is_terminated _ = false

-- `quantum_left` is an `int` that is only lowered from above 0. `none` in `esp` is NULL.
pub record Task : Type 0 where
  pub state : TaskState
  pub priority : ℕ
  pub quantum_left : ℕ
  pub wake_tick : ℕ
  pub pid : ℕ
  pub thread_id : Option ℕ
  pub esp : Option ℕ

abbrev pub unused_task : Task
unused_task = record {
  state = unused;
  priority = 0;
  quantum_left = 0;
  wake_tick = 0;
  pid = 0;
  thread_id = none;
  esp = none;
}

-- `thread[0 .. thread_count)` and the globals beside it; `none` is a negative id.
pub record System : Type 0 where
  pub thread : List Task
  pub current_thread : Option ℕ
  pub current_process : ℕ
  pub idle_thread_id : Option ℕ
  pub timertick : ℕ
  pub timer_frequency : ℕ

abbrev pub task : System → ℕ → Task
task s i = get_or s.thread i unused_task

abbrev pub put : System → ℕ → Task → System
put s i t = record s { thread = set s.thread i t }

abbrev pub max_priority : ℕ
max_priority = 7

pub valid_task_id : System → Option ℕ → Bool
valid_task_id s none = false
valid_task_id s (some i) = ltb i (length s.thread)

pub task_is_runnable : Task → Bool
task_is_runnable t = is_ready t.state || is_running t.state

-- `(priority > 0) ? priority : 1`
pub quantum : ℕ → ℕ
quantum p = if ltb 0 p then p else 1

pub set_task_state : System → ℕ → TaskState → System
set_task_state s i st =
    if not (ltb i (length s.thread)) then s else put s i (record (task s i) { state = st })

-- A negative priority is raised to `PRIORITY_IDLE`, which is the least one here.
pub set_task_priority : System → ℕ → ℕ → System
set_task_priority s i priority =
    let p = if ltb max_priority priority then max_priority else priority in
    let t = task s i in
    let q = if is_running t.state && t.quantum_left == 0 then quantum p else t.quantum_left in
    if not (ltb i (length s.thread))
    then s
    else put s i (record t { priority = p; quantum_left = q })

pub task_ready : System → ℕ → System
task_ready s i =
    let t = task s i in
    let q = if t.quantum_left == 0 then quantum t.priority else t.quantum_left in
    if not (ltb i (length s.thread))
    then s
    else if is_terminated t.state
    then s
    else put s i (record t { state = ready; quantum_left = q })

pub task_yield : System → ℕ → System
task_yield s i =
    let t = task s i in
    if not (ltb i (length s.thread))
    then s
    else if is_running t.state
    then put s i (record t { state = ready; quantum_left = 0 })
    else s

abbrev pub is_idle : System → ℕ → Bool
is_idle s i = elim s.idle_thread_id [ none ↦ false | some j ↦ i == j ]

-- The step before the wait: a caller that blocks itself then halts until its state changes.
pub task_block : System → ℕ → System
task_block s i =
    if not (ltb i (length s.thread))
    then s
    else if is_idle s i
    then s
    else put s i (record (task s i) { state = block; quantum_left = 0 })

abbrev pub sleep_until : System → ℕ → ℕ → System
sleep_until s i delta =
    if not (ltb i (length s.thread))
    then s
    else if is_idle s i
    then s
    else put s i (record (task s i) {
      wake_tick = u32 (s.timertick + delta);
      state = sleep;
      quantum_left = 0;
    })

pub msleep_delta : ℕ → ℕ → ℕ
msleep_delta frequency milliseconds =
    if not (frequency == 0) && ltb (0xFFFFFFFF / frequency) milliseconds
    then 0xFFFFFFFF
    else u32 (frequency * milliseconds) / 1000

pub sleep_delta : ℕ → ℕ → ℕ
sleep_delta frequency seconds =
    if not (frequency == 0) && ltb (0xFFFFFFFF / frequency) seconds
    then 0xFFFFFFFF
    else u32 (seconds * frequency)

-- As in `task_block`, without the wait.
pub task_msleep : System → ℕ → ℕ → System
task_msleep s i milliseconds = sleep_until s i (msleep_delta s.timer_frequency milliseconds)

pub task_sleep : System → ℕ → ℕ → System
task_sleep s i seconds = sleep_until s i (sleep_delta s.timer_frequency seconds)

-- `(long)(now - deadline) >= 0`
pub tick_reached : ℕ → ℕ → Bool
tick_reached now deadline = ltb (u32 (now + 2 ^ 32 - deadline)) (2 ^ 31)

-- The body of the loop of `scheduler_tick`.
pub wake : ℕ → Task → Task
wake now t =
    if is_terminated t.state
    then t
    else if is_sleeping t.state && tick_reached now t.wake_tick
    then record t { state = ready; quantum_left = quantum t.priority }
    else t

pub wake_all : ℕ → List Task → List Task
wake_all now [] = []
wake_all now (t ∷ ts) = wake now t ∷ wake_all now ts

pub scheduler_tick : System → System
scheduler_tick s = record s { thread = wake_all s.timertick s.thread }

-- The `for` of `find_next_ready` at step `i`, with `left` steps to go.
pub find_loop : ℕ → List Task → ℕ → ℕ → Option ℕ
find_loop zero ts from i = none
find_loop (suc left) ts from i =
    let index = (from + i) % length ts in
    let rest = find_loop left ts from (i + 1) in
    if is_ready (get_or ts index unused_task).state then some index else rest

pub find_next_ready : System → ℕ → Option ℕ
find_next_ready s from =
    if leb (length s.thread) 0 then none else find_loop (length s.thread) s.thread from 1

-- The switch to another task, which `schedule` makes in three places.
pub switch_to : System → Option ℕ → ℕ → ℕ → Option ℕ × System
switch_to s frame next q =
    let t = task s next in
    let s' = record (put s next (record t { state = running; quantum_left = q })) {
      current_thread = some next;
      current_process = t.pid;
    } in
    (elim t.esp [ none ↦ frame | some f ↦ some f ], s')

abbrev pub is_waiting : TaskState → Bool
is_waiting terminate = true
is_waiting sleep = true
is_waiting block = true
is_waiting _ = false

-- `schedule` from the point where the running task has given up the processor.
pub dispatch : System → Option ℕ → ℕ → Option ℕ × System
dispatch s frame c =
    let t = task s c in
    elim (find_next_ready s c) [
      | some next ↦ switch_to s frame next (quantum (task s next).priority)
      | none ↦
          if not (is_terminated t.state)
          then (frame, put s c (record t { state = running; quantum_left = quantum t.priority }))
          else elim s.idle_thread_id [ none ↦ (frame, s) | some i ↦ switch_to s frame i 1 ]
    ]

-- `schedule` where the current task sleeps, is blocked or has ended.
pub dispatch_waiting : System → Option ℕ → ℕ → Option ℕ × System
dispatch_waiting s frame c =
    let next : Option ℕ = elim (find_next_ready s c) [
      | some n ↦ some n
      | none ↦ s.idle_thread_id
    ] in
    if valid_task_id s next
    then elim next [
      | none ↦ (frame, s)
      | some n ↦ switch_to s frame n (quantum (task s n).priority)
    ]
    else (frame, s)

-- `schedule` with the frame already saved.
pub schedule_saved : System → Option ℕ → ℕ → Option ℕ × System
schedule_saved s frame c =
    let t = task s c in
    let q = t.quantum_left - 1 in
    let s' = put s c (record t { quantum_left = q }) in
    let s'' = put s c (record t { quantum_left = q; state = ready }) in
    if is_waiting t.state
    then dispatch_waiting s frame c
    else if is_running t.state
    then if ltb 0 q then (frame, s') else dispatch s'' frame c
    else dispatch s frame c

pub schedule : System → Option ℕ → Option ℕ × System
schedule s frame = elim s.current_thread [
  | none ↦ (frame, s)
  | some c ↦
      let t = task s c in
      let saved : System = elim frame [ none ↦ s | some f ↦ put s c (record t { esp = some f }) ] in
      if leb (length s.thread) 0
      then (frame, s)
      else if not (valid_task_id s (some c))
      then (frame, s)
      else if not (valid_task_id s t.thread_id)
      then (frame, s)
      else schedule_saved saved frame c
]

-- The interrupt of the timer.
pub timer_handler : Bool → System → Option ℕ → Option ℕ × System
timer_handler scheduler_initialized s current_esp =
    let s' = record s { timertick = u32 (s.timertick + 1) } in
    let (next, s'') = schedule (scheduler_tick s') current_esp in
    if not scheduler_initialized then (current_esp, s') else elim current_esp [
      | none ↦ (none, s')
      | some esp ↦ elim next [ none ↦ (some esp, s'') | some f ↦ (some f, s'') ]
    ]
