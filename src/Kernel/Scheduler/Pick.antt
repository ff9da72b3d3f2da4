-- ===== src/Kernel/Scheduler/Pick.antt =====
-- src/kernel/scheduler.cpp: `schedule` when the next task of the queue can run.
use umbra_os.Prelude.{
  ℕ, suc, ◌+◌, ◌≡◌, ◌≢◌, refl, sym, ◌∙◌, ap, List, ◌∷◌, if◌then◌else◌, done, ==_of_ne, ==_refl,
  false, true, leb, ◌>>=◌, ◌⊎◌, inl, inr,
}
use mathlib.Core.Path.{fun_ext}
use umbra_os.Prelude.Maps.{update, update_ne, update_same}
use umbra_os.Kernel.TaskList.{is_empty}
use umbra_os.Kernel.TaskList.Links.{Links, following, next_task_lem}
use umbra_os.Kernel.Scheduler.{
  Scheduler, Task, Status, ready, running, sleeping, waiting_io, pick, round, status_of, set_status,
  save, pick_runs, pick_starts, pick_sleeps, is_ready, schedule, load, switch_to_next,
}

-- The contexts after the interrupt has stored the registers of the task that it interrupted. A task
-- that is ready has not run yet, and keeps its first context.
abbrev pub saved_task : Status → ℕ → Task → Task
saved_task ready regs t = t
saved_task running regs t = record t { context = regs }
saved_task sleeping regs t = record t { context = regs }
saved_task waiting_io regs t = record t { context = regs }

abbrev pub saved_tasks : Scheduler → ℕ → ℕ → Task
saved_tasks s regs =
    update s.tasks s.current_task
      (saved_task (s.tasks s.current_task).status regs (s.tasks s.current_task))

-- A task that can run at once, or whose sleep is over.
abbrev pub CanRun : ℕ → Task → Type 0
CanRun tsc t =
    (t.status ≡ ready)
    ⊎ (t.status ≡ running)
    ⊎ ((t.status ≡ sleeping) × (leb t.tsc_sleep tsc ≡ true))

-- The search stops at a task that can run, and changes nothing but that task's status.
pick_stops :
    (fuel : ℕ) (rdtsc : ℕ → ℕ) (s : Scheduler)
    → CanRun (rdtsc 0) (s.tasks s.current_task)
    → (pick (suc (suc fuel)) rdtsc 0 s ≡ done s) × ((s.tasks s.current_task).status ≡ running)
      ⊎ (pick (suc (suc fuel)) rdtsc 0 s ≡ done (set_status s s.current_task running))
unfolding round
pick_stops fuel rdtsc s (inl r) = inr (pick_starts (suc fuel) rdtsc 0 s r)
pick_stops fuel rdtsc s (inr (inl r)) = inl (pick_runs (suc fuel) rdtsc 0 s r, r)
pick_stops fuel rdtsc s (inr (inr (r, e))) = inr (
    pick_sleeps (suc fuel) rdtsc 0 s r
    ∙ wakes
    ∙ pick_runs fuel rdtsc (0 + 1) (set_status s s.current_task running)
        (rw (==_refl s.current_task, status_of) refl))
  where
    wakes :
        (round (rdtsc 0) s sleeping >>= pick (suc fuel) rdtsc (0 + 1))
        ≡ pick (suc fuel) rdtsc (0 + 1) (set_status s s.current_task running)
    wakes = rw (e, round)

module _ (rdtsc : ℕ → ℕ) (fuel : ℕ) (first cell : ℕ × ℕ) (whole rest : List (ℕ × ℕ)) where
  abbrev next : ℕ
  next = (following first rest).1

  -- The scheduler that goes on with the next task.
  abbrev turned : Scheduler → Scheduler
  turned s = record s {
    queue = record (s.queue) { current = (following first rest).0 };
    current_task = (following first rest).1;
  }

  abbrev pub Runs : Scheduler → Scheduler → Type 0
  Runs s r =
      (r.current_task ≡ next)
      × ((r.tasks next).status ≡ running)
      × ((r.tasks next).context ≡ (s.tasks next).context)
      × ((r.tasks next).address_space ≡ (s.tasks next).address_space)
      × (r.queue ≡ (turned s).queue)
      × ((t : ℕ) → t ≢ next → r.tasks t ≡ s.tasks t)

  turn :
      (s : Scheduler)
      → Links s.queue.nodes s.queue.front (first ∷ whole)
      → Links s.queue.nodes s.queue.current (cell ∷ rest)
      → CanRun (rdtsc 0) (s.tasks next)
      → (r : Scheduler) × ((switch_to_next s >>= pick (suc (suc fuel)) rdtsc 0) ≡ done r) × Runs s r
  unfolding switch_to_next
  turn s f c ok = elim (pick_stops fuel rdtsc (turned s) ok) [
    | inl (e, run) ↦ (
      turned s,
      rw (next_task_lem s.queue first cell whole rest f c) e,
      (refl, run, refl, refl, refl, λ t ne. refl),
    )
    | inr e ↦ (
      set_status (turned s) next running,
      rw (next_task_lem s.queue first cell whole rest f c) e,
      (
        refl,
        rw (==_refl next) refl,
        rw (==_refl next) refl,
        rw (==_refl next) refl,
        refl,
        λ t ne. update_ne (s.tasks) next t _ (λ q. ne (sym q)),
      ),
    )
  ]

  abbrev saved : Scheduler → ℕ → Scheduler
  saved s regs = record s { tasks = saved_tasks s regs; timer = false }

  saved-eq :
      (s : Scheduler) (regs : ℕ)
      → (if is_ready (status_of s)
          then record s { timer = false }
          else save (record s { timer = false }) regs)
        ≡ saved s regs
  saved-eq s regs = by_status (status_of s) refl
    where
      task : Task
      task = s.tasks s.current_task

      with_task : Task → Scheduler
      with_task t = record s { tasks = update s.tasks s.current_task t; timer = false }

      unchanged : update s.tasks s.current_task task ≡ s.tasks
      unchanged = fun_ext (λ t. update_same s.tasks s.current_task t)

      by_status :
          (st : Status)
          → status_of s ≡ st
          → (if is_ready st
              then record s { timer = false }
              else save (record s { timer = false }) regs)
            ≡ with_task (saved_task st regs task)
      by_status ready e =
          ap (λ (m : ℕ → Task). record s { tasks = m; timer = false }) (sym unchanged)
      by_status running e = refl
      by_status sleeping e = refl
      by_status waiting_io e = refl

  resume :
      (regs : ℕ) (s r : Scheduler)
      → s.queue.front ≢ 0
      → (switch_to_next (saved s regs) >>= pick (suc (suc fuel)) rdtsc 0) ≡ done r
      → schedule (suc (suc fuel)) rdtsc regs s ≡ done (load r)
  unfolding schedule is_empty
  resume regs s r ne h = rw (saved-eq s regs, ==_of_ne s.queue.front 0 ne, h)

  -- When the run queue is linked and the task behind the current node can run, `schedule` stores
  -- the interrupted registers in the current task, unless that is ready, and goes on with the next
  -- task: from its context, in its address space, with the timer on, that task running and every
  -- other as it was.
  pub schedule_next :
      (regs : ℕ) (s : Scheduler)
      → Links s.queue.nodes s.queue.front (first ∷ whole)
      → Links s.queue.nodes s.queue.current (cell ∷ rest)
      → CanRun (rdtsc 0) (saved_tasks s regs next)
      → (r : Scheduler) × (schedule (suc (suc fuel)) rdtsc regs s
          ≡ done (
            (saved_tasks s regs next).context,
            record r { space = (saved_tasks s regs next).address_space; timer = true },
          ))
        × Runs (record s { tasks = saved_tasks s regs }) r
  unfolding load
  schedule_next regs s f c ok =
      let (r, e, runs) = turn (saved s regs) f c ok in
      (
        r,
        resume regs s r (λ z. f.1 (sym f.0 ∙ z)) e
            ∙ ap
                (λ x.
                  done
                    (x, record r { space = (r.tasks r.current_task).address_space; timer = true }))
                (ap (λ x. (r.tasks x).context) runs.0 ∙ runs.2)
            ∙ ap
                (λ x.
                  done ((saved_tasks s regs next).context, record r { space = x; timer = true }))
                (ap (λ x. (r.tasks x).address_space) runs.0 ∙ runs.3),
        runs,
      )
