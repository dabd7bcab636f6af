-- ===== src/Sched/Fair.antt =====
-- No task that is ready starves: each call of `schedule` uses up the current task's time or goes
-- round.
use fastsystem.Prelude.{
  ℕ, ◌-◌, ◌≤◌, ◌<◌, ◌≡◌, ◌⊎◌, ◌∙◌, refl, ap, sym, arith, true, false, Option, none, some, ltb, leb,
  ◌==◌, length, get_or, set, length-set, get_or-set_self, get_or-set_ne, inl, inr, Bool-cases,
  Option-cases, ==→eq,
}
use fastsystem.Sched.{
  Task, System, task, put, is_ready, is_running, is_waiting, ready, running, quantum, valid_task_id,
  max_priority, find_next_ready, switch_to, dispatch, dispatch_waiting, schedule_saved, schedule,
  unused_task,
}
use fastsystem.Sched.Rotation.{distance, find_next_ready-none, find_next_ready_nearer}
use fastsystem.Sched.Timely.{IsTimely, set-IsTimely, quantum_small}

-- The current task is still `c` and has less time left.
abbrev pub Stays : ℕ → System → System → Type 0
Stays c s s' = (s'.current_thread ≡ some c) × ((task s' c).quantum_left < (task s c).quantum_left)

-- The current task is one from which the way to `w` is shorter, and has its time.
abbrev pub Jumps : ℕ → ℕ → System → System → Type 0
Jumps c w s s' =
    (j : ℕ) × (s'.current_thread ≡ some j)
    × (j < length s.thread)
    × (distance (length s.thread) j w < distance (length s.thread) c w)
    × ((task s' j).quantum_left ≤ max_priority)

-- A change that keeps the tasks in order.
abbrev pub Keeps : System → System → Type 0
Keeps s s' = (length s'.thread ≡ length s.thread) × IsTimely s'.thread

module _ (c w : ℕ) where
  next_inside :
      (s : System) (next : ℕ)
      → c < length s.thread
      → w < length s.thread
      → is_ready (task s w).state ≡ true
      → find_next_ready s c ≡ some next
      → next < length s.thread
  next_inside s next h k r e = elim (Bool-cases (next == w)) [
    | inl z ↦ omega (arith, k, ==→eq next w z)
    | inr z ↦ (find_next_ready_nearer s c next w e h k r (λ n. ground (arith, z, n))).0
  ]

  switch_to-Jumps :
      (s : System) (frame : Option ℕ) (next : ℕ)
      → c < length s.thread
      → w < length s.thread
      → IsTimely s.thread
      → is_ready (task s w).state ≡ true
      → find_next_ready s c ≡ some next
      → is_ready (task (switch_to s frame next (quantum (task s next).priority)).1 w).state ≡ true
      → let s' = (switch_to s frame next (quantum (task s next).priority)).1 in
        Keeps s s' × Jumps c w s s'
  unfolding switch_to
  switch_to-Jumps s frame next h k timely r e r' =
      let q = quantum (task s next).priority in
      let t : Task = record (task s next) { state = running; quantum_left = q } in
      let nearer = find_next_ready_nearer s c next w e h k r in
      let i = next_inside s next h k r e in
      elim (Bool-cases (next == w)) [
        | inl z ↦
            let n : next ≡ w = ==→eq next w z in
            let now : get_or (set s.thread next t) w unused_task ≡ t =
              ap (λ (i : ℕ). get_or (set s.thread i t) w unused_task) n
              ∙ get_or-set_self s.thread w t unused_task k in
            absurd (ground (arith, sym r' ∙ ap (λ u. is_ready u.state) now))
        | inr z ↦
            let (l, d) = nearer (λ n. ground (arith, z, n)) in
            let left = ap (λ u. u.quantum_left) (get_or-set_self s.thread next t unused_task i) in
            (
              (length-set s.thread next t, set-IsTimely s.thread next t i timely refl refl),
              (
                next,
                refl,
                l,
                d,
                omega
                    (arith, left, quantum_small (task s next).priority (timely.priorities next i)),
              ),
            )
      ]

  dispatch-Jumps :
      (s : System) (frame : Option ℕ)
      → c < length s.thread
      → w < length s.thread
      → IsTimely s.thread
      → is_ready (task s w).state ≡ true
      → is_ready (task (dispatch s frame c).1 w).state ≡ true
      → Keeps s (dispatch s frame c).1 × Jumps c w s (dispatch s frame c).1
  unfolding dispatch
  dispatch-Jumps s frame h k timely r r' = elim (Option-cases (find_next_ready s c)) [
    | inl e ↦ absurd (ground (arith, r, find_next_ready-none s c e h w k))
    | inr (next, e) ↦
        rw (dispatch, e) (switch_to-Jumps s frame next h k timely r e (rw (dispatch, e) at r'))
  ]

  dispatch_waiting-Jumps :
      (s : System) (frame : Option ℕ)
      → c < length s.thread
      → w < length s.thread
      → IsTimely s.thread
      → is_ready (task s w).state ≡ true
      → is_ready (task (dispatch_waiting s frame c).1 w).state ≡ true
      → Keeps s (dispatch_waiting s frame c).1 × Jumps c w s (dispatch_waiting s frame c).1
  unfolding dispatch_waiting valid_task_id
  dispatch_waiting-Jumps s frame h k timely r r' = elim (Option-cases (find_next_ready s c)) [
    | inl e ↦ absurd (ground (arith, r, find_next_ready-none s c e h w k))
    | inr (next, e) ↦
        let v : ltb next (length s.thread) ≡ true = ground (arith, next_inside s next h k r e) in
        rw (dispatch_waiting, e, v)
          (switch_to-Jumps s frame next h k timely r e (rw (dispatch_waiting, e, v) at r'))
  ]

  -- The current task may be set ready, and no other changes.
  put_ready :
      (s : System) (t : Task)
      → c < length s.thread
      → (is_ready (task s c).state ≡ true → is_ready t.state ≡ true)
      → is_ready (task s w).state ≡ true
      → is_ready (task (put s c t) w).state ≡ true
  put_ready s t h keeps r = elim (Bool-cases (c == w)) [
    | inl z ↦
        let n : c ≡ w = ==→eq c w z in
        ap (λ (i : ℕ). is_ready (get_or (set s.thread c t) i unused_task).state) (sym n)
        ∙ ap (λ u. is_ready u.state) (get_or-set_self s.thread c t unused_task h)
        ∙ keeps (ap (λ (i : ℕ). is_ready (task s i).state) n ∙ r)
    | inr z ↦
        ap (λ u. is_ready u.state)
          (get_or-set_ne s.thread c w t unused_task (λ n. ground (arith, z, n)))
        ∙ r
  ]

  -- One of the two changes.
  abbrev pub Moves : System → System → Type 0
  Moves s s' = Keeps s s' × (Stays c s s' ⊎ Jumps c w s s')

  Jumps-Moves : (s s' : System) → Keeps s s' × Jumps c w s s' → Moves s s'
  Jumps-Moves s s' (kept, jumps) = (kept, inr jumps)

  -- What moves from a state in which the current task has as much time.
  put-Moves :
      (s s' : System) (t : Task)
      → c < length s.thread
      → t.quantum_left ≡ (task s c).quantum_left
      → Moves (put s c t) s'
      → Moves s s'
  put-Moves s s' t h e (kept, m) =
      let left = ap (λ u. u.quantum_left) (get_or-set_self s.thread c t unused_task h) ∙ e in
      (
        (kept.0 ∙ length-set s.thread c t, kept.1),
        elim m [
          | inl (now, less) ↦ inl (now, omega (arith, less, left))
          | inr jumps ↦ inr (rw (length-set s.thread c t) at jumps)
        ],
      )

  put-Jumps :
      (s s' : System) (t : Task) → Keeps (put s c t) s' × Jumps c w (put s c t) s' → Moves s s'
  put-Jumps s s' t (kept, jumps) =
      ((kept.0 ∙ length-set s.thread c t, kept.1), inr (rw (length-set s.thread c t) at jumps))

  schedule_saved-Moves :
      (s : System) (frame : Option ℕ)
      → s.current_thread ≡ some c
      → c < length s.thread
      → w < length s.thread
      → IsTimely s.thread
      → is_ready (task s w).state ≡ true
      → is_ready (task (schedule_saved s frame c).1 w).state ≡ true
      → Moves s (schedule_saved s frame c).1
  unfolding schedule_saved
  schedule_saved-Moves s frame here h k timely r r' =
      let t = task s c in
      let q = t.quantum_left - 1 in
      let t' : Task = record t { quantum_left = q } in
      let t'' : Task = record t { quantum_left = q; state = ready } in
      elim (Bool-cases (is_waiting t.state)) [
        | inl a ↦
            rw (schedule_saved, a)
              (Jumps-Moves s (dispatch_waiting s frame c).1
                (dispatch_waiting-Jumps s frame h k timely r (rw (schedule_saved, a) at r')))
        | inr a ↦ elim (Bool-cases (is_running t.state)) [
          | inr b ↦
              rw (schedule_saved, a, b)
                (Jumps-Moves s (dispatch s frame c).1
                  (dispatch-Jumps s frame h k timely r (rw (schedule_saved, a, b) at r')))
          | inl b ↦ elim (Bool-cases (ltb 0 q)) [
            | inl d ↦
                let left = ap (λ u. u.quantum_left) (get_or-set_self s.thread c t' unused_task h) in
                rw (schedule_saved, a, b, d)
                  (
                    (length-set s.thread c t', set-IsTimely s.thread c t' h timely refl refl),
                    inl (here, ground (arith, left, d)),
                  )
            | inr d ↦
                let l = length-set s.thread c t'' in
                rw (schedule_saved, a, b, d)
                  (put-Jumps s (dispatch (put s c t'') frame c).1 t'' (
                    dispatch-Jumps (put s c t'') frame (omega (arith, l, h)) (omega (arith, l, k))
                      (set-IsTimely s.thread c t'' h timely refl refl)
                      (put_ready s t'' h (λ e. refl) r) (rw (schedule_saved, a, b, d) at r')))
          ]
        ]
      ]

  -- While `w` stays ready, a call of `schedule` uses up time of the current task or moves to one
  -- nearer to `w`.
  pub schedule-Moves :
      (s : System) (frame : Option ℕ)
      → s.current_thread ≡ some c
      → c < length s.thread
      → w < length s.thread
      → IsTimely s.thread
      → is_ready (task s w).state ≡ true
      → is_ready (task (schedule s frame).1 w).state ≡ true
      → Moves s (schedule s frame).1
  unfolding schedule valid_task_id
  schedule-Moves s frame here h k timely r r' =
      let a : leb (length s.thread) 0 ≡ false = ground (arith, h) in
      let b : ltb c (length s.thread) ≡ true = ground (arith, h) in
      let (x, n, i) = timely.ids c h in
      let d : ltb x (length s.thread) ≡ true = ground (arith, i) in
      elim (Option-cases frame) [
        | inl f ↦
            rw (schedule, here, a, b, n, d, f)
              (schedule_saved-Moves s none here h k timely r
                (rw (schedule, here, a, b, n, d, f) at r'))
        | inr (y, f) ↦
            let t : Task = record (task s c) { esp = some y } in
            let l = length-set s.thread c t in
            rw (schedule, here, a, b, n, d, f)
              (put-Moves s (schedule_saved (put s c t) (some y) c).1 t h refl (
                schedule_saved-Moves (put s c t) (some y) here (omega (arith, l, h))
                  (omega (arith, l, k)) (set-IsTimely s.thread c t h timely refl refl)
                  (put_ready s t h (λ e. e) r) (rw (schedule, here, a, b, n, d, f) at r')))
      ]
