-- ===== src/Tests/Tasks.antt =====
-- The scheduler with two tasks in its queue, the keyboard and the timer.
use umbra_os.Prelude.{
  zero, suc, ℕ, ◌≡◌, refl, true, false, List, [], ◌∷◌, arith, done, out_of_fuel, ◌==◌,
  if◌then◌else◌, inl,
}
use umbra_os.Utils.RingBuffer
use umbra_os.Kernel.TaskList.{TaskList}
use umbra_os.Kernel.TaskList.Links.{Links}
use umbra_os.Kernel.Scheduler.{Scheduler, Task, Status, ready, running, waiting_io, schedule}
use umbra_os.Kernel.Scheduler.Spin.{schedule_spins}
use umbra_os.Kernel.Scheduler.Pick.{schedule_next, saved_tasks, Runs}
use umbra_os.Kernel.Keyboard.{handler}
use umbra_os.Kernel.Keyboard.Machine.{Modifiers, encode, step, handler_refines}

abbrev task : Status → Task
task st = record {
  status = st;
  tsc_sleep = 0;
  context = 7;
  address_space = 9;
  events = RingBuffer.new (λ i. record { key_code = 0; ascii = 0; pressed = false });
}

-- The node at 8 holds the task at 100, the node at 16 the task at 200.
abbrev queue : TaskList
queue = record {
  nodes = λ a.
      if a == 8
      then record { task = 100; prev = 0; next = 16 }
      else record { task = 200; prev = 8; next = 0 };
  front = 8;
  current = 8;
}

abbrev queue_cells : List (ℕ × ℕ)
queue_cells = (8, 100) ∷ (16, 200) ∷ []

queue-Links : Links queue.nodes 8 queue_cells
queue-Links = (refl, omega arith, refl, (refl, omega arith, refl, (refl, tt)))

-- The first task runs, and the other has the status given.
abbrev scheduler : Status → Status → Scheduler
scheduler st other = record {
  tasks = λ t. if t == 100 then task st else task other;
  current_task = 100;
  idle_task = 300;
  queue = queue;
  timer = true;
  space = 9;
}

-- The second task has been interrupted.
abbrev waiting : Scheduler
waiting = record (scheduler waiting_io waiting_io) {
  current_task = 200;
  queue = record queue { current = 16 };
}

schedule_spins_example : schedule 50 (λ k. k) 55 waiting ≡ out_of_fuel
schedule_spins_example =
    schedule_spins (λ k. k) (8, 100) (16, 200) ((16, 200) ∷ []) ((8, 100) ∷ []) [] 55 50 waiting
      refl queue-Links refl (omega arith, omega arith) (refl, (refl, tt))

schedule_next_example :
    (r : Scheduler) × (schedule 2 (λ k. k) 55 (scheduler running ready)
      ≡ done (
        (saved_tasks (scheduler running ready) 55 200).context,
        record r {
          space = (saved_tasks (scheduler running ready) 55 200).address_space;
          timer = true;
        },
      ))
    × Runs
        (λ k. k)
        0
        (8, 100)
        (8, 100)
        ((16, 200) ∷ [])
        ((16, 200) ∷ [])
        (record (scheduler running ready) { tasks = saved_tasks (scheduler running ready) 55 })
        r
schedule_next_example =
    schedule_next (λ k. k) 0 (8, 100) (8, 100) ((16, 200) ∷ []) ((16, 200) ∷ []) 55
      (scheduler running ready) queue-Links queue-Links (inl refl)

-- The key A with shift held.
abbrev shifted : Modifiers
shifted = record { shift = true; caps = false }

handler_refines_example :
    handler (encode shifted) 28 ≡ (encode (step shifted 28).0, (step shifted 28).1)
handler_refines_example = handler_refines shifted 28 (omega arith)

-- The readings between the first and the last, all alike.
abbrev steady : ℕ → List (ℕ × ℕ)
steady zero = []
steady (suc n) = (0, 5000) ∷ steady n
