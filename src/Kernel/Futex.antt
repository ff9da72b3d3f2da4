-- ===== src/Kernel/Futex.antt =====
-- src/kernel/scheduler.cpp, scheduler.hpp and syscalls/futex.cpp: tasks that wait for a word of memory. Tasks stand
-- at addresses; each has a list of the words that it waits for.
pub mod Waits
pub mod Wakes
use umbra_os.Prelude.{
  ℕ, zero, suc, ◌+◌, ◌%◌, ◌^◌, Bool, true, false, Option, none, some, ◌==◌, if◌then◌else◌, Outcome,
  done, out_of_fuel, ◌>>=◌,
}
use umbra_os.Prelude.Maps.{update}
use umbra_os.Utils.LinkedList
use umbra_os.Utils.LinkedList.{DoublyLinkedList, Node}
use umbra_os.Kernel.TaskList
use umbra_os.Kernel.Scheduler.{Scheduler, Task, running, set_status}

-- `futex_handles`, and the field `futexes` of each task.
pub record Futexes : Type 0 where
  pub handles : DoublyLinkedList
  pub futexes : ℕ → DoublyLinkedList

-- `node` is the address of the list's new node.
unfoldable pub add_futex_handle : ℕ → ℕ → Futexes → Futexes
add_futex_handle node task f = record f { handles = LinkedList.push node task f.handles }

unfoldable pub remove_futex_handle : ℕ → ℕ → Futexes → Outcome Futexes
remove_futex_handle fuel task f = do
  handles ← LinkedList.remove fuel task f.handles
  done (record f { handles = handles })

-- The body of the loop of `wake_futex_handles` for a task, once it is known what its list has.
abbrev pub woken_by : Option ℕ → ℕ → Scheduler → Scheduler
woken_by none task s = s
woken_by (some pointer) task s = set_status s task running

-- The walk over the tasks; `steps` is fuel for the one over a task's words.
unfoldable pub wake_from :
    ℕ → ℕ → ℕ → (ℕ → DoublyLinkedList) → (ℕ → Node) → ℕ → Scheduler → Outcome Scheduler
wake_from zero steps pointer futexes nodes p s = out_of_fuel
wake_from (suc fuel) steps pointer futexes nodes p s =
    let task = (nodes p).value in
    let on : Outcome Scheduler = LinkedList.get steps pointer (futexes task) >>= λ held.
    wake_from fuel steps pointer futexes nodes (nodes p).next (woken_by held task s) in
    if p == 0 then done s else on

unfoldable pub wake_futex_handles : ℕ → ℕ → ℕ → Futexes → Scheduler → Outcome Scheduler
wake_futex_handles fuel steps pointer f s =
    wake_from fuel steps pointer f.futexes f.handles.nodes f.handles.head s

-- `block_on`: `condition k` is what the condition says when it is asked for the `k`-th time. Before each time
-- in the loop but the first the task awaits input or output, and others run.
unfoldable pub block_loop : ℕ → (ℕ → Bool) → ℕ → Outcome ℕ
block_loop zero condition k = out_of_fuel
block_loop (suc fuel) condition k =
    let on = block_loop fuel condition (k + 1) in if condition k then done k else on

unfoldable pub block_on : ℕ → (ℕ → Bool) → Outcome ℕ
block_on fuel condition =
    let waits = block_loop fuel condition 1 in if condition 0 then done 0 else waits

-- What a wait returns: 0, or the negative of an error number.
pub data Waited : Type 0 where
  again : Waited
  returned : Waited

-- `sys_futex_wait`. `first` and `second` are the addresses of the two lists' new nodes, and `during` what other
-- tasks do to the lists while the task is blocked.
unfoldable pub sys_futex_wait :
    ℕ → ℕ → ℕ → (Futexes → Futexes) → ℕ → ℕ → ℕ → ℕ → Futexes → Outcome (Waited × Futexes)
sys_futex_wait fuel first second during task pointer word expected f =
    let added = add_futex_handle first task f in
    let list = LinkedList.push second pointer (added.futexes task) in
    let pushed = record added { futexes = update added.futexes task list } in
    let finish : Outcome (Waited × Futexes) = block_on fuel (λ k. false) >>= λ k.
    LinkedList.remove fuel pointer ((during pushed).futexes task) >>= λ left.
    let after = record (during pushed) { futexes = update (during pushed).futexes task left } in
    (if LinkedList.is_empty left then remove_futex_handle fuel task after else done after) >>= λ f'.
    done (returned, f') in
    if word == expected then finish else done (again, f)

unfoldable pub sys_futex_wake : ℕ → ℕ → ℕ → Futexes → Scheduler → Outcome Scheduler
sys_futex_wake fuel steps pointer f s = wake_futex_handles fuel steps pointer f s

-- `kill_and_yield` up to its `yield`. The current task goes back to the heap, and stays the current one.
unfoldable pub kill_and_yield : Scheduler → Outcome Scheduler
kill_and_yield s =
    let killed : Outcome Scheduler =
      TaskList.remove_current s.queue >>= λ queue. done (record s { queue = queue }) in
    if TaskList.is_empty s.queue then done s else killed
