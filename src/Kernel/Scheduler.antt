-- ===== src/Kernel/Scheduler.antt =====
-- src/kernel/scheduler.cpp: the round-robin scheduler. A task is an address in `tasks`. Register
-- contents and address spaces are tokens that are only moved. Interrupts are off inside the
-- functions, and only the waiting of a task, by `yield`, lets another run.
pub mod Pick
pub mod Spin
pub mod Wake
use umbra_os.Prelude.{
  ℕ, zero, suc, ◌+◌, ◌*◌, ◌%◌, ◌^◌, Bool, true, false, not, Option, none, some, ◌==◌, leb,
  if◌then◌else◌, ◌≡◌, refl, Outcome, done, fault, out_of_fuel, ◌>>=◌,
}
use umbra_os.Prelude.Maps.{update}
use umbra_os.Utils.RingBuffer
use umbra_os.Utils.RingBuffer.{Ringbuffer}
use umbra_os.Kernel.Keyboard.{KeyboardEvent}
use umbra_os.Kernel.TaskList
use umbra_os.Kernel.TaskList.{TaskList, Node}

pub data Status : Type 0 where
  ready running sleeping waiting_io : Status

-- The fields of a `Task` that the scheduler uses.
pub record Task : Type 0 where
  pub status : Status
  pub tsc_sleep : ℕ
  pub context : ℕ
  pub address_space : ℕ
  pub events : Ringbuffer KeyboardEvent

-- The statics of the file. `timer` says whether the local timer interrupts, and `space` is the
-- address space that is loaded.
pub record Scheduler : Type 0 where
  pub tasks : ℕ → Task
  pub current_task : ℕ
  pub idle_task : ℕ
  pub queue : TaskList
  pub timer : Bool
  pub space : ℕ

abbrev pub status_of : Scheduler → Status
status_of s = (s.tasks s.current_task).status

abbrev pub set_status : Scheduler → ℕ → Status → Scheduler
set_status s t st = record s { tasks = update s.tasks t (record (s.tasks t) { status = st }) }

-- `if (queue.next_task() != current_task) current_task = queue.get_current(); else current_task =
-- idle_task;`.
unfoldable pub skip : Scheduler → Outcome Scheduler
skip s = do
  (t, queue) ← TaskList.next_task s.queue
  other ← TaskList.get_current queue
  done (record s {
    queue = queue;
    current_task = if t == s.current_task then s.idle_task else other;
  })

-- One round of the `while` loop, at a time stamp.
unfoldable pub round : ℕ → Scheduler → Status → Outcome Scheduler
round tsc s ready = done (set_status s s.current_task running)
round tsc s running = done s
round tsc s sleeping =
    if leb (s.tasks s.current_task).tsc_sleep tsc
    then done (set_status s s.current_task running)
    else skip s
round tsc s waiting_io = skip s

-- The loop. `rdtsc k` is what the time stamp counter reads in round `k`.
unfoldable pub pick : ℕ → (ℕ → ℕ) → ℕ → Scheduler → Outcome Scheduler
pick zero rdtsc k s = out_of_fuel
pick (suc fuel) rdtsc k s = elim (status_of s) [
  | running ↦ done s
  | ready ↦ round (rdtsc k) s ready
  | other ↦ round (rdtsc k) s other >>= pick fuel rdtsc (k + 1)
]

-- A round of the loop, by the status of the current task.
pub pick_waits :
    (fuel : ℕ) (rdtsc : ℕ → ℕ) (k : ℕ) (s : Scheduler)
    → status_of s ≡ waiting_io
    → pick (suc fuel) rdtsc k s ≡ (skip s >>= pick fuel rdtsc (k + 1))
unfolding pick round
pick_waits fuel rdtsc k s e = rw (e, pick)

pub pick_runs :
    (fuel : ℕ) (rdtsc : ℕ → ℕ) (k : ℕ) (s : Scheduler)
    → status_of s ≡ running
    → pick (suc fuel) rdtsc k s ≡ done s
unfolding pick round
pick_runs fuel rdtsc k s e = rw (e, pick)

pub pick_starts :
    (fuel : ℕ) (rdtsc : ℕ → ℕ) (k : ℕ) (s : Scheduler)
    → status_of s ≡ ready
    → pick (suc fuel) rdtsc k s ≡ done (set_status s s.current_task running)
unfolding pick round
pick_starts fuel rdtsc k s e = rw (e, pick)

pub pick_sleeps :
    (fuel : ℕ) (rdtsc : ℕ → ℕ) (k : ℕ) (s : Scheduler)
    → status_of s ≡ sleeping
    → pick (suc fuel) rdtsc k s ≡ (round (rdtsc k) s sleeping >>= pick fuel rdtsc (k + 1))
unfolding pick
pick_sleeps fuel rdtsc k s e = rw (e, pick)

abbrev pub save : Scheduler → ℕ → Scheduler
save s regs = record s {
  tasks = update s.tasks s.current_task (record (s.tasks s.current_task) { context = regs });
}

abbrev pub is_ready : Status → Bool
is_ready ready = true
is_ready _ = false

-- The registers that the interrupt returns to, and the scheduler after it.
abbrev pub Resumed : Type 0
Resumed = ℕ × Scheduler

unfoldable pub load : Scheduler → Resumed
load s =
    let t = s.tasks s.current_task in
    (t.context, record s { space = t.address_space; timer = true })

unfoldable pub switch_to_next : Scheduler → Outcome Scheduler
switch_to_next s = do
  (t, queue) ← TaskList.next_task s.queue
  done (record s { queue = queue; current_task = t })

unfoldable pub schedule : ℕ → (ℕ → ℕ) → ℕ → Scheduler → Outcome Resumed
schedule fuel rdtsc regs s =
    let stopped = record s { timer = false } in
    let idling = pick fuel rdtsc 0 (record stopped { current_task = s.idle_task }) in
    let saved = if is_ready (status_of s) then stopped else save stopped regs in
    let turned = switch_to_next saved >>= pick fuel rdtsc 0 in
    if TaskList.is_empty s.queue
    then (if s.idle_task == 0
        then done (regs, record s { timer = true })
        else (idling >>= λ r. done (load r)))
    else (turned >>= λ r. done (load r))

unfoldable pub add_task : ℕ → ℕ → Scheduler → Scheduler
add_task node t s = record s { queue = TaskList.add_task node t s.queue }

-- `sleep` and `await_io` up to their `yield`. `cycles` is `Timer::ms_to_cycles(ms)`.
unfoldable pub sleep : ℕ → ℕ → Scheduler → Scheduler
sleep tsc cycles s = record s {
  tasks =
      update s.tasks s.current_task (record (s.tasks s.current_task) {
        status = sleeping;
        tsc_sleep = (tsc + cycles) % 2 ^ 64;
      });
}

unfoldable pub await_io : Scheduler → Scheduler
await_io s = set_status s s.current_task waiting_io

abbrev pub woken : Task → Task
woken t = record t { status = elim t.status [ waiting_io ↦ running | other ↦ other ] }

-- The walk of `wake_net` and `wake_io` over the queue, with what is done to each task.
unfoldable pub wake_walk : (Task → Task) → ℕ → (ℕ → Node) → ℕ → (ℕ → Task) → Outcome (ℕ → Task)
wake_walk wake zero nodes p tasks = out_of_fuel
wake_walk wake (suc fuel) nodes p tasks =
    let t = (nodes p).task in
    let on = wake_walk wake fuel nodes (nodes p).next (update tasks t (wake (tasks t))) in
    if p == 0 then done tasks else on

unfoldable pub wake_net : ℕ → Scheduler → Outcome Scheduler
wake_net fuel s = do
  tasks ← wake_walk woken fuel s.queue.nodes s.queue.front s.tasks
  done (record s { tasks = tasks })

-- Five events are kept, in a ring of that many cells.
abbrev pub told : KeyboardEvent → Task → Task
told kb_event t = woken (record t { events = RingBuffer.write 5 t.events kb_event })

unfoldable pub wake_io : ℕ → KeyboardEvent → Scheduler → Outcome Scheduler
wake_io fuel kb_event s = do
  tasks ← wake_walk (told kb_event) fuel s.queue.nodes s.queue.front s.tasks
  done (record s { tasks = tasks })
