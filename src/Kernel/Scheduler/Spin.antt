-- ===== src/Kernel/Scheduler/Spin.antt =====
-- src/kernel/scheduler.cpp: two or more tasks that all wait, and the loop that looks for one to run.
use umbra_os.Prelude.{
  ℕ, zero, suc, ◌+◌, ◌≡◌, ◌≢◌, refl, sym, ◌∙◌, ap, List, [], ◌∷◌, ◌++◌, ◌==◌, done, out_of_fuel,
  ==_of_ne, false, Bool-cases, inl, inr, ==_iff, if◌then◌else◌,
}
use mathlib.Core.Path.{subst}
use umbra_os.Kernel.TaskList.{Node, get_current, is_empty}
use umbra_os.Kernel.TaskList.Links.{Links, following, next_task_lem}
use umbra_os.Kernel.Scheduler.{
  Scheduler, Task, waiting_io, pick, pick_waits, skip, schedule, switch_to_next, save, is_ready,
  status_of,
}

-- Each task of the chain differs from the one that `next_task` comes to behind it.
abbrev pub Turns : ℕ × ℕ → ℕ × ℕ → List (ℕ × ℕ) → Type 0
Turns first cell [] = cell.1 ≢ first.1
Turns first cell (next ∷ cells) = (cell.1 ≢ next.1) × Turns first next cells

abbrev pub Waits : (ℕ → Task) → List (ℕ × ℕ) → Type 0
Waits tasks [] = Unit {0}
Waits tasks (cell ∷ cells) = ((tasks cell.1).status ≡ waiting_io) × Waits tasks cells

module _ (rdtsc : ℕ → ℕ) (first : ℕ × ℕ) (whole : List (ℕ × ℕ)) where
  -- A state of the loop: the current node stands in the chain, and its task is the current task.
  record At (s : Scheduler) (cell : ℕ × ℕ) (rest : List (ℕ × ℕ)) : Type 0 where
    front : Links s.queue.nodes s.queue.front (first ∷ whole)
    here : Links s.queue.nodes s.queue.current (cell ∷ rest)
    task : s.current_task ≡ cell.1
    all_turn : Turns first first whole
    rest_turn : Turns first cell rest
    all_wait : Waits s.tasks (first ∷ whole)
    rest_wait : Waits s.tasks (cell ∷ rest)

  moved : Scheduler → ℕ × ℕ → Scheduler
  moved s cell = record s { queue = record (s.queue) { current = cell.0 }; current_task = cell.1 }

  -- The cell behind a position, its task and what follows it.
  skip-eq :
      (s : Scheduler) (cell : ℕ × ℕ) (rest : List (ℕ × ℕ))
      → At s cell rest
      → ((following first rest).1 == cell.1) ≡ false
      → (following first rest).0 ≢ 0
      → (s.queue.nodes (following first rest).0).task ≡ (following first rest).1
      → skip s ≡ done (moved s (following first rest))
  unfolding skip moved get_current
  skip-eq s cell rest a ne z t = rw (
    next_task_lem s.queue first cell whole rest a.front a.here,
    a.task,
    ne,
    ==_of_ne (following first rest).0 0 z,
    t,
  )

  onward : ℕ × ℕ → List (ℕ × ℕ) → List (ℕ × ℕ)
  onward cell [] = whole
  onward cell (next ∷ rest) = rest

  skip-At :
      (s : Scheduler) (cell : ℕ × ℕ) (rest : List (ℕ × ℕ))
      → At s cell rest
      → (skip s ≡ done (moved s (following first rest)))
        × At (moved s (following first rest)) (following first rest) (onward cell rest)
  unfolding moved onward
  skip-At s cell [] a = (
    skip-eq s cell [] a (==_of_ne first.1 cell.1 (λ e. a.rest_turn (sym e))) a.front.1 a.front.2,
    record {
      front = a.front;
      here = (refl, a.front.1, a.front.2, a.front.3);
      task = refl;
      all_turn = a.all_turn;
      rest_turn = a.all_turn;
      all_wait = a.all_wait;
      rest_wait = a.all_wait;
    },
  )
  skip-At s cell (next ∷ rest) a = (
    skip-eq s cell (next ∷ rest) a (==_of_ne next.1 cell.1 (λ e. a.rest_turn.0 (sym e))) a.here.3.1
        a.here.3.2,
    record {
      front = a.front;
      here = (refl, a.here.3.1, a.here.3.2, a.here.3.3);
      task = refl;
      all_turn = a.all_turn;
      rest_turn = a.rest_turn.1;
      all_wait = a.all_wait;
      rest_wait = a.rest_wait.1;
    },
  )

  pick-At :
      (fuel k : ℕ) (s : Scheduler) (cell : ℕ × ℕ) (rest : List (ℕ × ℕ))
      → At s cell rest
      → pick fuel rdtsc k s ≡ out_of_fuel
  unfolding pick
  pick-At zero k s cell rest a = refl
  pick-At (suc fuel) k s cell rest a =
      pick_waits fuel rdtsc k s (ap (λ t. (s.tasks t).status) a.task ∙ a.rest_wait.0)
      ∙ rw (skip-At s cell rest a).0 (
          pick-At fuel (k + 1) (moved s (following first rest)) (following first rest)
            (onward cell rest) (skip-At s cell rest a).1)

-- What `schedule` stores leaves the status of each task.
saved :
    (regs : ℕ) (s : Scheduler)
    → (m : ℕ → Task) × ((if is_ready (status_of s)
          then record s { timer = false }
          else save (record s { timer = false }) regs)
        ≡ record s { tasks = m; timer = false })
      × ((t : ℕ) → (m t).status ≡ (s.tasks t).status)
saved regs s = elim (Bool-cases (is_ready (status_of s))) [
  | inl e ↦ (s.tasks, rw e refl, λ t. refl)
  | inr e ↦ (
    (save s regs).tasks,
    rw e refl,
    λ t. elim (Bool-cases (s.current_task == t)) [
      | inl here ↦ rw here (ap (λ x. (s.tasks x).status) ((==_iff s.current_task t).0 here))
      | inr away ↦ rw away refl
    ],
  )
]

Waits-same :
    (tasks tasks' : ℕ → Task) (cells : List (ℕ × ℕ))
    → ((t : ℕ) → (tasks' t).status ≡ (tasks t).status)
    → Waits tasks cells
    → Waits tasks' cells
Waits-same tasks tasks' [] e w = tt
Waits-same tasks tasks' (cell ∷ cells) e w = (e cell.1 ∙ w.0, Waits-same tasks tasks' cells e w.1)

spins_from :
    (rdtsc : ℕ → ℕ) (first cell : ℕ × ℕ) (whole rest : List (ℕ × ℕ)) (regs fuel : ℕ) (s : Scheduler)
    → Links s.queue.nodes s.queue.front (first ∷ whole)
    → Links s.queue.nodes s.queue.current (cell ∷ rest)
    → Turns first first whole
    → Turns first cell rest
    → Waits s.tasks (first ∷ whole)
    → Waits s.tasks (cell ∷ rest)
    → schedule fuel rdtsc regs s ≡ out_of_fuel
unfolding schedule is_empty switch_to_next moved
spins_from rdtsc first cell whole rest regs fuel s f c turns turn waits wait =
    let (m, e, kept) = saved regs s in
    let before = record s { tasks = m; timer = false; current_task = cell.1 } in
    let at : At rdtsc first whole before cell rest = record {
      front = f;
      here = c;
      task = refl;
      all_turn = turns;
      rest_turn = turn;
      all_wait = Waits-same s.tasks m (first ∷ whole) kept waits;
      rest_wait = Waits-same s.tasks m (cell ∷ rest) kept wait;
    } in
    let next = following first rest in
    let spins =
      pick-At rdtsc first whole fuel 0 (moved rdtsc first whole before next) next
        (onward rdtsc first whole cell rest) (skip-At rdtsc first whole before cell rest at).1 in
    let full = ==_of_ne s.queue.front 0 (λ z. f.1 (sym f.0 ∙ z)) in
    rw (e, full, next_task_lem s.queue first cell whole rest f c, spins) refl

-- What holds along a list holds from any of its cells on.
module _ (first cell : ℕ × ℕ) (rest : List (ℕ × ℕ)) where
  abbrev TurnsAll : List (ℕ × ℕ) → Type 0
  TurnsAll [] = Unit {0}
  TurnsAll (next ∷ cells) = Turns first next cells

  suffix-Turns : (before : List (ℕ × ℕ)) → TurnsAll (before ++ cell ∷ rest) → Turns first cell rest
  suffix-Turns [] t = t
  suffix-Turns (b ∷ []) t = t.1
  suffix-Turns (b ∷ b' ∷ before) t = suffix-Turns (b' ∷ before) t.1

  suffix-Waits :
      (tasks : ℕ → Task) (before : List (ℕ × ℕ))
      → Waits tasks (before ++ cell ∷ rest)
      → Waits tasks (cell ∷ rest)
  suffix-Waits tasks [] w = w
  suffix-Waits tasks (b ∷ before) w = suffix-Waits tasks before w.1

  suffix-Links :
      (nodes : ℕ → Node) (before : List (ℕ × ℕ)) (p : ℕ)
      → Links nodes p (before ++ cell ∷ rest)
      → Links nodes cell.0 (cell ∷ rest)
  suffix-Links nodes [] p l = (refl, l.1, l.2, l.3)
  suffix-Links nodes (b ∷ before) p l = suffix-Links nodes before (nodes b.0).next l.3

-- When the run queue is linked and the current node stands in it, no two neighbours of the queue
-- hold the same task, the last and the first counted as neighbours, and all of its tasks wait for
-- input or output, `schedule` runs out of any fuel, whatever the time: it does not end, so it does
-- not come to the idle task.
pub schedule_spins :
    (rdtsc : ℕ → ℕ) (first cell : ℕ × ℕ) (whole before rest : List (ℕ × ℕ)) (regs fuel : ℕ)
    (s : Scheduler)
    → first ∷ whole ≡ before ++ cell ∷ rest
    → Links s.queue.nodes s.queue.front (first ∷ whole)
    → s.queue.current ≡ cell.0
    → Turns first first whole
    → Waits s.tasks (first ∷ whole)
    → schedule fuel rdtsc regs s ≡ out_of_fuel
schedule_spins rdtsc first cell whole before rest regs fuel s parts f c turns waits =
    let l =
      suffix-Links first cell rest s.queue.nodes before s.queue.front
        (subst (Links s.queue.nodes s.queue.front) parts f) in
    spins_from rdtsc first cell whole rest regs fuel s f (c, l.1, l.2, l.3) turns
      (suffix-Turns first cell rest before (subst (TurnsAll first cell rest) parts turns)) waits
      (suffix-Waits first cell rest s.tasks before (subst (Waits s.tasks) parts waits))
