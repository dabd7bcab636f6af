-- ===== src/Sched/Tests.antt =====
-- The scheduler at concrete tasks.
use fastsystem.Prelude.{
  ℕ, zero, suc, ◌+◌, ◌*◌, ◌≡◌, ◌<◌, ◌≤◌, refl, arith, true, false, none, some, [], ◌∷◌, u32,
}
use fastsystem.Sched.{
  Task, TaskState, System, task, is_ready, is_sleeping, unused_task, find_loop, find_next_ready,
  msleep_delta, tick_reached, ready, running, block, scheduler_tick, task_msleep, timer_handler,
  task_yield, schedule, schedule_saved, dispatch, switch_to, valid_task_id, quantum,
}
use fastsystem.Sched.Rotation.{IsFirst, find_next_ready-IsFirst}
use fastsystem.Sched.Timely.{IsTimely}
use fastsystem.Sched.Starvation.{Run, start, scheduled, schedule-Run}
use fastsystem.Sched.Clock.{msleep_delta-saturated, task_msleep-scheduler_tick}
use fastsystem.Sched.Running.{IsExclusive}
use fastsystem.Sched.Steps.{done, after, interrupt, yield, Steps-IsExclusive}

abbrev worker : TaskState → ℕ → Task
worker st i = record unused_task {
  state = st;
  priority = 2;
  quantum_left = 2;
  thread_id = some i;
  pid = i;
  esp = some (4096 * i);
}

abbrev four_tasks : System
four_tasks = record {
  thread = worker running 0 ∷ worker ready 1 ∷ worker block 2 ∷ worker ready 3 ∷ [];
  current_thread = some 0;
  current_process = 0;
  idle_thread_id = none;
  timertick = 4294967295;
  timer_frequency = 1000;
}

four_tasks_next : find_next_ready four_tasks 0 ≡ some 1
unfolding find_next_ready find_loop
four_tasks_next = refl

four_tasks-IsExclusive : IsExclusive four_tasks
four_tasks-IsExclusive zero r = refl
four_tasks-IsExclusive (suc zero) r = absurd cc
four_tasks-IsExclusive (suc (suc zero)) r = absurd cc
four_tasks-IsExclusive (suc (suc (suc zero))) r = absurd cc
four_tasks-IsExclusive (suc (suc (suc (suc i)))) r = absurd cc

find_next_ready-IsFirst_example : (k : ℕ) × IsFirst four_tasks.thread 0 1 1 k × (k ≤ 4)
find_next_ready-IsFirst_example = find_next_ready-IsFirst four_tasks 0 1 four_tasks_next

-- The first call lowers the quantum of task 0, the second one starts task 1.
abbrev two_calls : System
two_calls = (schedule (schedule four_tasks none).1 none).1

two_calls-Run : Run 3 four_tasks 2 two_calls
unfolding schedule schedule_saved dispatch switch_to find_next_ready find_loop valid_task_id quantum
two_calls-Run = scheduled none (scheduled none start refl) refl

four_tasks-IsTimely : IsTimely four_tasks.thread
four_tasks-IsTimely = record { priorities = low; ids = own }
  where
    low : (i : ℕ) → i < 4 → (task four_tasks i).priority ≤ 7
    low zero h = omega arith
    low (suc zero) h = omega arith
    low (suc (suc zero)) h = omega arith
    low (suc (suc (suc zero))) h = omega arith
    low (suc (suc (suc (suc i)))) h = absurd (omega (arith, h))

    own : (i : ℕ) → i < 4 → (x : ℕ) × ((task four_tasks i).thread_id ≡ some x) × (x < 4)
    own zero h = (0, refl, omega arith)
    own (suc zero) h = (1, refl, omega arith)
    own (suc (suc zero)) h = (2, refl, omega arith)
    own (suc (suc (suc zero))) h = (3, refl, omega arith)
    own (suc (suc (suc (suc i)))) h = absurd (omega (arith, h))

schedule-Run_example : 2 < 8 * 4 + 2
schedule-Run_example =
    schedule-Run 3 four_tasks 2 two_calls 0 refl (omega arith) (omega arith) four_tasks-IsTimely
      refl two_calls-Run

task_msleep-scheduler_tick_example :
    let later =
      scheduler_tick (record (task_msleep four_tasks 0 20) { timertick = u32 (4294967295 + 20) }) in
    (is_ready (task later 0).state ≡ true) × (is_sleeping (task later 0).state ≡ false)
task_msleep-scheduler_tick_example =
    task_msleep-scheduler_tick four_tasks 0 20 20 (omega arith) refl (omega arith) (omega arith)

Steps-IsExclusive_example : IsExclusive (timer_handler true (task_yield four_tasks 0) (some 64)).1
Steps-IsExclusive_example =
    Steps-IsExclusive (after (after done (yield 0)) (interrupt true (some 64)))
      four_tasks-IsExclusive

msleep_delta-saturated_example :
    tick_reached (u32 (7 + 1)) (u32 (7 + msleep_delta 1000 4294968)) ≡ true
msleep_delta-saturated_example = msleep_delta-saturated 1000 4294968 7 (omega arith) (omega arith)
