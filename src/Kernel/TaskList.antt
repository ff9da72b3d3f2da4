-- ===== src/Kernel/TaskList.antt =====
-- src/kernel/scheduler.hpp: `TaskList`, the run queue with its moving `current`.
pub mod Links
pub mod Doubly
pub mod Removal
pub mod Queue
pub mod Run
pub mod Turns
use umbra_os.Prelude.{ℕ, zero, suc, Bool, ◌==◌, if◌then◌else◌, Outcome, done, fault, out_of_fuel}
use umbra_os.Prelude.Maps.{update}

pub record Node : Type 0 where
  pub task : ℕ
  pub prev : ℕ
  pub next : ℕ

-- `nodes` is the memory that the pointers lead to; address 0 is the null pointer.
pub record TaskList : Type 0 where
  pub nodes : ℕ → Node
  pub front : ℕ
  pub current : ℕ

abbrev pub set_prev : (ℕ → Node) → ℕ → ℕ → ℕ → Node
set_prev nodes p q = update nodes p (record (nodes p) { prev = q })

abbrev pub set_next : (ℕ → Node) → ℕ → ℕ → ℕ → Node
set_next nodes p q = update nodes p (record (nodes p) { next = q })

unfoldable pub new : (ℕ → Node) → TaskList
new nodes = record { nodes = nodes; front = 0; current = 0 }

-- `current->task`, which is a fault at a null `current`.
unfoldable pub get_current : TaskList → Outcome ℕ
get_current l = if l.current == 0 then fault else done (l.nodes l.current).task

abbrev pub go_next : TaskList → TaskList
go_next l =
    let next = (l.nodes l.current).next in
    record l { current = if next == 0 then l.front else next }

-- The task is null when the list is empty.
abbrev pub task_at : TaskList → ℕ
task_at l = if l.current == 0 then 0 else (l.nodes l.current).task

unfoldable pub next_task : TaskList → Outcome (ℕ × TaskList)
next_task l = if l.current == 0 then fault else done (task_at (go_next l), go_next l)

-- `node` is the address that `new Node(task)` returns.
unfoldable pub add_task : ℕ → ℕ → TaskList → TaskList
add_task node task l =
    let made = update l.nodes node (record { task = task; prev = 0; next = 0 }) in
    if l.front == 0 then record { nodes = made; front = node; current = node } else record {
      nodes = set_prev (set_next made node l.front) l.front node;
      front = node;
      current = l.current;
    }

-- What `remove_current` does before it moves on: the node leaves the chain.
unfoldable pub detach : TaskList → Outcome TaskList
detach l =
    let here = l.nodes l.current in
    let passed = set_next l.nodes here.prev here.next in
    let next = (passed l.current).next in
    if l.current == l.front
    then done (record l { front = here.next })
    else if here.prev == 0
    then fault
    else done (record l {
      nodes = if next == 0 then passed else set_prev passed next (passed l.current).prev;
    })

-- `next` is read again from the node before it is deleted.
abbrev pub move_on : TaskList → TaskList
move_on l =
    let next = (l.nodes l.current).next in
    record l { current = if next == 0 then l.front else next }

abbrev pub after : Outcome TaskList → Outcome TaskList
after (done l) = done (move_on l)
after fault = fault
after out_of_fuel = out_of_fuel

unfoldable pub remove_current : TaskList → Outcome TaskList
remove_current l = if l.current == 0 then done l else after (detach l)

unfoldable pub is_empty : TaskList → Bool
is_empty l = l.front == 0
