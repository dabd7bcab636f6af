-- ===== src/Sched/Running.antt =====
-- At most one task has the processor: `schedule` keeps the running state to the current task.
use fastsystem.Prelude.{
  ℕ, zero, suc, ◌-◌, ◌≡◌, ◌∙◌, refl, sym, arith, Bool, true, false, not, Option, none, some, List,
  [], ◌∷◌, ltb, leb, ◌==◌, if◌then◌else◌, length, get_or, set, inl, inr, Bool-cases, get_or-set_ne,
  ==→eq, ap,
}
use fastsystem.Sched.{
  Task, TaskState, System, task, put, is_running, is_terminated, is_waiting, unused_task, quantum,
  valid_task_id, find_next_ready, switch_to, dispatch, dispatch_waiting, schedule_saved, schedule,
  ready, running,
}

-- No task but the current one is running.
abbrev pub IsExclusive : System → Type 0
IsExclusive s = (i : ℕ) → is_running (task s i).state ≡ true → s.current_thread ≡ some i

abbrev IsQuiet : System → Type 0
IsQuiet s = (i : ℕ) → is_running (task s i).state ≡ false

abbrev IsQuietBut : System → ℕ → Type 0
IsQuietBut s c = (i : ℕ) → is_running (task s i).state ≡ true → i ≡ c

quiet-IsExclusive : (s : System) → IsQuiet s → IsExclusive s
quiet-IsExclusive s q i e = absurd (ground (arith, q i))

but-IsQuiet :
    (s : System) (c : ℕ) → IsQuietBut s c → is_running (task s c).state ≡ false → IsQuiet s
but-IsQuiet s c b h i = elim (Bool-cases (is_running (task s i).state)) [
  | inl e ↦ ap (λ j. is_running (task s j).state) (b i e) ∙ h
  | inr e ↦ e
]

but-IsExclusive : (s : System) (c : ℕ) → s.current_thread ≡ some c → IsQuietBut s c → IsExclusive s
but-IsExclusive s c h b i e = h ∙ ap some (sym (b i e))

-- A write of one task leaves the others.
put-IsQuietBut : (s : System) (c : ℕ) (t : Task) → IsQuietBut s c → IsQuietBut (put s c t) c
put-IsQuietBut s c t b i e = elim (Bool-cases (c == i)) [
  | inl g ↦ sym (==→eq c i g)
  | inr g ↦ b i (
      ap (λ u. is_running u.state)
        (sym (get_or-set_ne s.thread c i t unused_task (ground (arith, g))))
      ∙ e)
]

quiet-IsQuietBut : (s : System) (c : ℕ) → IsQuiet s → IsQuietBut s c
quiet-IsQuietBut s c q i e = absurd (ground (arith, q i))

pub get_or-set_quiet :
    (ts : List Task) (c : ℕ) (t : Task)
    → is_running t.state ≡ false
    → is_running (get_or (set ts c t) c unused_task).state ≡ false
get_or-set_quiet [] c t h = refl
get_or-set_quiet (x ∷ ts) zero t h = h
get_or-set_quiet (x ∷ ts) (suc c) t h = get_or-set_quiet ts c t h

put-IsQuiet :
    (s : System) (c : ℕ) (t : Task)
    → IsQuietBut s c
    → is_running t.state ≡ false
    → IsQuiet (put s c t)
put-IsQuiet s c t b h =
    but-IsQuiet (put s c t) c (put-IsQuietBut s c t b) (get_or-set_quiet s.thread c t h)

switch_to-IsExclusive :
    (s : System) (frame : Option ℕ) (next q : ℕ)
    → IsQuiet s
    → IsExclusive (switch_to s frame next q).1
unfolding switch_to
switch_to-IsExclusive s frame next q h i e = ap some (
    sym (
      put-IsQuietBut s next (record (task s next) { state = running; quantum_left = q })
        (quiet-IsQuietBut s next h) i e))

dispatch-IsExclusive :
    (s : System) (frame : Option ℕ) (c : ℕ)
    → s.current_thread ≡ some c
    → IsQuiet s
    → IsExclusive (dispatch s frame c).1
unfolding dispatch
dispatch-IsExclusive s frame c h q =
    go (find_next_ready s c) (is_terminated (task s c).state) s.idle_thread_id
  where
    go :
        (next : Option ℕ) (dead : Bool) (idle : Option ℕ)
        → let r : Option ℕ × System = elim next [
          | some n ↦ switch_to s frame n (quantum (task s n).priority)
          | none ↦
              if not dead
              then (
                frame,
                put s c (record (task s c) {
                  state = running;
                  quantum_left = quantum (task s c).priority;
                }),
              )
              else elim idle [ none ↦ (frame, s) | some i ↦ switch_to s frame i 1 ]
        ] in
          IsExclusive r.1
    go (some n) dead idle = switch_to-IsExclusive s frame n (quantum (task s n).priority) q
    go none false idle =
        but-IsExclusive
          (put s c
            (record (task s c) { state = running; quantum_left = quantum (task s c).priority }))
          c h
          (put-IsQuietBut s c
            (record (task s c) { state = running; quantum_left = quantum (task s c).priority })
            (quiet-IsQuietBut s c q))
    go none true none = quiet-IsExclusive s q
    go none true (some i) = switch_to-IsExclusive s frame i 1 q

dispatch_waiting-IsExclusive :
    (s : System) (frame : Option ℕ) (c : ℕ) → IsQuiet s → IsExclusive (dispatch_waiting s frame c).1
unfolding dispatch_waiting valid_task_id
dispatch_waiting-IsExclusive s frame c q =
    go (elim (find_next_ready s c) [ some n ↦ some n | none ↦ s.idle_thread_id ])
  where
    go :
        (next : Option ℕ)
        → let r : Option ℕ × System =
            if valid_task_id s next
            then elim next [
              | none ↦ (frame, s)
              | some n ↦ switch_to s frame n (quantum (task s n).priority)
            ]
            else (frame, s) in
          IsExclusive r.1
    go none = quiet-IsExclusive s q
    go (some n) =
        elim (ltb n (length s.thread))
          as (λ b.
            let r : Option ℕ × System =
              if b then switch_to s frame n (quantum (task s n).priority) else (frame, s) in
            IsExclusive r.1) [
              | true ↦ switch_to-IsExclusive s frame n (quantum (task s n).priority) q
              | false ↦ quiet-IsExclusive s q
            ]

waiting-quiet : (st : TaskState) → is_waiting st ≡ true → is_running st ≡ false
waiting-quiet st h = ground arith

schedule_saved-IsExclusive :
    (s : System) (frame : Option ℕ) (c : ℕ)
    → s.current_thread ≡ some c
    → IsQuietBut s c
    → IsExclusive (schedule_saved s frame c).1
unfolding schedule_saved
schedule_saved-IsExclusive s frame c h b =
    let t = task s c in
    let q = t.quantum_left - 1 in
    go (is_waiting t.state) (is_running t.state) (ltb 0 q)
      (λ e. but-IsQuiet s c b (waiting-quiet t.state e)) (λ e. but-IsQuiet s c b e)
  where
    go :
        (w r l : Bool)
        → (w ≡ true → IsQuiet s)
        → (r ≡ false → IsQuiet s)
        → let t = task s c in
          let q = t.quantum_left - 1 in
          let s' = put s c (record t { quantum_left = q }) in
          let s'' = put s c (record t { quantum_left = q; state = ready }) in
          let o : Option ℕ × System =
            if w
            then dispatch_waiting s frame c
            else if r
            then if l then (frame, s') else dispatch s'' frame c
            else dispatch s frame c in
          IsExclusive o.1
    go true r l f g = dispatch_waiting-IsExclusive s frame c (f refl)
    go false false l f g = dispatch-IsExclusive s frame c h (g refl)
    go false true true f g =
        let s' = put s c (record (task s c) { quantum_left = (task s c).quantum_left - 1 }) in
        but-IsExclusive s' c h
          (put-IsQuietBut s c (record (task s c) { quantum_left = (task s c).quantum_left - 1 }) b)
    go false true false f g =
        let t' = record (task s c) { quantum_left = (task s c).quantum_left - 1; state = ready } in
        dispatch-IsExclusive (put s c t') frame c h (put-IsQuiet s c t' b refl)

some-eq : {i j : ℕ} → some i ≡ some j → i ≡ j
some-eq e = cc

-- `schedule` keeps the running state to the current task, whatever the task it is called from does.
pub schedule-IsExclusive :
    (s : System) (frame : Option ℕ) → IsExclusive s → IsExclusive (schedule s frame).1
unfolding schedule
schedule-IsExclusive s frame e = go s.current_thread refl
  where
    go :
        (o : Option ℕ)
        → s.current_thread ≡ o
        → let r : Option ℕ × System = elim o [
          | none ↦ (frame, s)
          | some c ↦
              let t = task s c in
              let saved : System = elim frame [
                | none ↦ s
                | some f ↦ put s c (record t { esp = some f })
              ] in
              if leb (length s.thread) 0
              then (frame, s)
              else if not (valid_task_id s (some c))
              then (frame, s)
              else if not (valid_task_id s t.thread_id)
              then (frame, s)
              else schedule_saved saved frame c
        ] in
          IsExclusive r.1
    go none h = e
    go (some c) h =
        check (leb (length s.thread) 0) (valid_task_id s (some c))
          (valid_task_id s (task s c).thread_id) frame
      where
        b : IsQuietBut s c
        b i x = some-eq (sym (e i x) ∙ h)

        check :
            (k1 k2 k3 : Bool) (f : Option ℕ)
            → let saved : System = elim f [
              | none ↦ s
              | some f ↦ put s c (record (task s c) { esp = some f })
            ] in
              let r : Option ℕ × System =
                if k1
                then (f, s)
                else if not k2
                then (f, s)
                else if not k3
                then (f, s)
                else schedule_saved saved f c in
              IsExclusive r.1
        check true k2 k3 f = e
        check false false k3 f = e
        check false true false f = e
        check false true true none = schedule_saved-IsExclusive s none c h b
        check false true true (some f) =
            schedule_saved-IsExclusive (put s c (record (task s c) { esp = some f })) (some f) c h
              (put-IsQuietBut s c (record (task s c) { esp = some f }) b)
