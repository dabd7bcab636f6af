-- ===== src/Sched/Clock.antt =====
-- Sleeping: `tick_reached` and `scheduler_tick`.
use fastsystem.Prelude.{
  true, ltb, ℕ, zero, suc, ◌+◌, ◌*◌, ◌/◌, ◌^◌, ◌≤◌, ◌<◌, ◌≡◌, refl, arith, false, not, List, [],
  ◌∷◌, leb, ◌==◌, u32, length, get_or, inl, inr, ap, ◌∙◌, get_or-set_self, Bool-cases,
}
use native.Mathlib.Nat.{le-div_iff_mul-le}
use fastsystem.Sched.{
  Task, System, task, is_sleeping, is_ready, unused_task, tick_reached, wake, wake_all,
  scheduler_tick, is_idle, put, task_msleep, msleep_delta, sleep,
}

-- The clock is read modulo 2^32, and the comparison is right across its wrap: `k` ticks after time
-- `t` a delay of `delta` ticks set at `t` is over exactly if `delta ≤ k`, as long as `delta` is at
-- most 2^31 and `k` less.
tick_reached-after :
    (t delta k : ℕ)
    → delta ≤ 2 ^ 31
    → k < 2 ^ 31
    → tick_reached (u32 (t + k)) (u32 (t + delta)) ≡ leb delta k
unfolding tick_reached
tick_reached-after t delta k h l = ground arith

length-wake_all : (now : ℕ) (ts : List Task) → length (wake_all now ts) ≡ length ts
unfolding wake_all
length-wake_all now [] = refl
length-wake_all now (t ∷ ts) = omega (arith, length-wake_all now ts)

get_or-wake_all :
    (now : ℕ) (ts : List Task) (i : ℕ)
    → get_or (wake_all now ts) i unused_task ≡ wake now (get_or ts i unused_task)
unfolding wake_all wake
get_or-wake_all now [] i = refl
get_or-wake_all now (t ∷ ts) zero = refl
get_or-wake_all now (t ∷ ts) (suc i) = get_or-wake_all now ts i

-- A tick acts on every task by itself.
pub task-scheduler_tick :
    (s : System) (i : ℕ) → task (scheduler_tick s) i ≡ wake s.timertick (task s i)
unfolding scheduler_tick
task-scheduler_tick s i = get_or-wake_all s.timertick s.thread i

pub length-scheduler_tick : (s : System) → length (scheduler_tick s).thread ≡ length s.thread
unfolding scheduler_tick
length-scheduler_tick s = length-wake_all s.timertick s.thread

-- A delay that does not overflow is the number of ticks that it says.
pub msleep_delta-exact : (f m : ℕ) → f * m < 2 ^ 32 → msleep_delta f m ≡ f * m / 1000
unfolding msleep_delta
msleep_delta-exact f m h = elim (Bool-cases (f == 0)) [
  | inl g ↦ ground arith
  | inr g ↦
      let b : m ≤ 0xFFFFFFFF / f = (le-div_iff_mul-le (ground (arith, g))).1 (omega (arith, h)) in
      ground arith
]

-- The deadline of a task that went to sleep at a tick, seen by `wake` at a later one.
wake-slept :
    (t : Task) (now delta k : ℕ)
    → delta ≤ 2 ^ 31
    → k < 2 ^ 31
    → let st =
        (wake
          (u32 (now + k))
          (record t { wake_tick = u32 (now + delta); state = sleep; quantum_left = 0 })).state in
      (is_ready st ≡ leb delta k) × (is_sleeping st ≡ not (leb delta k))
unfolding wake
wake-slept t now delta k h l = ground (arith, tick_reached-after now delta k h l)

abbrev slept_task : System → ℕ → ℕ → Task
slept_task s i milliseconds = record (task s i) {
  wake_tick = u32 (s.timertick + s.timer_frequency * milliseconds / 1000);
  state = sleep;
  quantum_left = 0;
}

task_msleep-put :
    (s : System) (i milliseconds : ℕ)
    → i < length s.thread
    → is_idle s i ≡ false
    → s.timer_frequency * milliseconds < 2 ^ 32
    → task_msleep s i milliseconds ≡ put s i (slept_task s i milliseconds)
unfolding task_msleep
task_msleep-put s i m p q h = rw (msleep_delta-exact s.timer_frequency m h, q) (ground arith)

-- A task other than the idle one that sleeps for a number of milliseconds which does not overflow
-- in ticks: at the tick `k` ticks later, `k` less than 2^31, it still sleeps if `k` is less than
-- the ticks asked for, and is ready if it is not.
pub task_msleep-scheduler_tick :
    (s : System) (i milliseconds k : ℕ)
    → i < length s.thread
    → is_idle s i ≡ false
    → s.timer_frequency * milliseconds < 2 ^ 32
    → k < 2 ^ 31
    → let slept = task_msleep s i milliseconds in
      let later = scheduler_tick (record slept { timertick = u32 (s.timertick + k) }) in
      let over = leb (s.timer_frequency * milliseconds / 1000) k in
      (is_ready (task later i).state ≡ over) × (is_sleeping (task later i).state ≡ not over)
task_msleep-scheduler_tick s i milliseconds k p q h l =
    let slept = task_msleep s i milliseconds in
    let delta = s.timer_frequency * milliseconds / 1000 in
    let e =
      task-scheduler_tick (record slept { timertick = u32 (s.timertick + k) }) i
      ∙ ap (λ x. wake (u32 (s.timertick + k)) (task x i)) (task_msleep-put s i milliseconds p q h)
      ∙ ap (wake (u32 (s.timertick + k)))
          (get_or-set_self s.thread i (slept_task s i milliseconds) unused_task p) in
    let w = wake-slept (task s i) s.timertick delta k (omega (arith, h)) l in
    (ap (λ t. is_ready t.state) e ∙ w.0, ap (λ t. is_sleeping t.state) e ∙ w.1)

-- With a timer that runs, a delay of milliseconds that is too long for 32 bits of ticks is cut to
-- one that is over at the next tick.
pub msleep_delta-saturated :
    (f m t : ℕ)
    → 0 < f
    → 0xFFFFFFFF / f < m
    → tick_reached (u32 (t + 1)) (u32 (t + msleep_delta f m)) ≡ true
unfolding tick_reached msleep_delta
msleep_delta-saturated f m t h k =
    let e : (f == 0) ≡ false = ground arith in
    let l : ltb (0xFFFFFFFF / f) m ≡ true = ground arith in rw (e, l) (ground arith)
