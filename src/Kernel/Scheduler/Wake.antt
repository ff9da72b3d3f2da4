-- ===== src/Kernel/Scheduler/Wake.antt =====
-- src/kernel/scheduler.cpp: `wake_net`, over a run queue whose nodes are linked.
use umbra_os.Prelude.{
  length, ℕ, zero, suc, ◌<◌, ◌≡◌, refl, ◌∙◌, ap, List, [], ◌∷◌, ◌==◌, if◌then◌else◌, arith, Bool,
  true, false, done, ==_of_ne, ==_iff, Bool-cases, inl, inr,
}
use umbra_os.Prelude.Maps.{update}
use umbra_os.Kernel.TaskList.{Node}
use umbra_os.Kernel.TaskList.Links.{Links}
use umbra_os.Kernel.Scheduler.{
  Scheduler, Task, Status, ready, running, sleeping, waiting_io, wake_walk, woken, wake_net,
}

-- Whether a task stands in the chain.
abbrev pub queued : ℕ → List (ℕ × ℕ) → Bool
queued t [] = false
queued t (cell ∷ cells) = if cell.1 == t then true else queued t cells

abbrev pub after_wake : List (ℕ × ℕ) → (ℕ → Task) → ℕ → Task
after_wake cells tasks t = if queued t cells then woken (tasks t) else tasks t

abbrev wake_status : Status → Status
wake_status st = elim st [ waiting_io ↦ running | other ↦ other ]

status_twice : (st : Status) → wake_status (wake_status st) ≡ wake_status st
status_twice ready = refl
status_twice running = refl
status_twice sleeping = refl
status_twice waiting_io = refl

woken_twice : (t : Task) → woken (woken t) ≡ woken t
woken_twice t = ap (λ x. record t { status = x }) (status_twice t.status)

woken_if : (b : Bool) (t : Task) → (if b then woken (woken t) else woken t) ≡ woken t
woken_if true t = woken_twice t
woken_if false t = refl

wake_again :
    (cell : ℕ × ℕ) (cells : List (ℕ × ℕ)) (tasks : ℕ → Task) (t : ℕ)
    → after_wake cells (update tasks cell.1 (woken (tasks cell.1))) t
      ≡ after_wake (cell ∷ cells) tasks t
wake_again cell cells tasks t = elim (Bool-cases (cell.1 == t)) [
  | inl e ↦ rw (e, (==_iff cell.1 t).0 e) (woken_if (queued t cells) (tasks t))
  | inr e ↦ rw (e, queued) refl
]

walk-eq :
    (cells : List (ℕ × ℕ)) (fuel : ℕ) (nodes : ℕ → Node) (p : ℕ) (tasks : ℕ → Task)
    → Links nodes p cells
    → length cells < fuel
    → (r : ℕ → Task) × (wake_walk woken fuel nodes p tasks ≡ done r)
      × ((t : ℕ) → r t ≡ after_wake cells tasks t)
unfolding wake_walk
walk-eq cells zero nodes p tasks l h = ground arith
walk-eq [] (suc fuel) nodes p tasks l h = (tasks, rw (l.0) refl, λ t. refl)
walk-eq ((a, u) ∷ cells) (suc fuel) nodes p tasks l h =
    let (r, e, same) =
      walk-eq cells fuel nodes (nodes a).next (update tasks u (woken (tasks u))) l.3
        (omega (arith, h)) in
    (r, rw (l.0, ==_of_ne a 0 l.1, l.2) e, λ t. same t ∙ wake_again (a, u) cells tasks t)

-- When the nodes of the run queue are linked, `wake_net` comes to an end within one step for each
-- node and one more, and sets running each task of the queue that waits for input or output. It
-- changes no other field of a task and no other task.
wake_net_lem :
    (cells : List (ℕ × ℕ)) (fuel : ℕ) (s : Scheduler)
    → Links s.queue.nodes s.queue.front cells
    → length cells < fuel
    → (r : ℕ → Task) × (wake_net fuel s ≡ done (record s { tasks = r }))
      × ((t : ℕ) → r t ≡ after_wake cells s.tasks t)
unfolding wake_net
wake_net_lem cells fuel s l h =
    let (r, e, same) = walk-eq cells fuel s.queue.nodes s.queue.front s.tasks l h in
    (r, rw (e) refl, same)
