-- ===== src/Kernel/Task/Standard.antt =====
-- src/kernel/task.cpp: a new task's descriptors.
use umbra_os.Prelude.{
  ℕ, ◌+◌, ◌%◌, ◌^◌, ◌<◌, ◌≡◌, ◌≢◌, refl, ◌∙◌, ◌==◌, if◌then◌else◌, List, [], ◌∷◌, done, arith,
  ==_of_ne, false, true, Bool, ◌≤◌, ◌⊎◌, leb,
}
use umbra_os.Utils.LinkedList
use umbra_os.Utils.LinkedList.{Node, DoublyLinkedList}
use umbra_os.Utils.LinkedList.Chain.{Chain, push-Chain}
use umbra_os.Fs.Handles.{Task, add_file_handle, get_file_handle, no_id}
use umbra_os.Fs.Handles.Lookup.{handle_from-eq, first_with}
use umbra_os.Libc.Strings.{Bytes}
use umbra_os.Libc.Strings.Terminated.{IsString, strcpy_lem, strlen_lem}
use umbra_os.Kernel.Keyboard.{KeyboardEvent}
use umbra_os.Kernel.UserStack.{Auxiliary}
use umbra_os.Kernel.Task
use umbra_os.Kernel.Task.{
  Standards, Machine, with_standards, no_handles, create, user_context, kernel_context, Context,
  context_of, space_of, task_name_length,
}
use umbra_os.Memory.Vmm.{Tables}
use umbra_os.Utils.RingBuffer

-- Three descriptors that differ and are not null, with their ids, and three new nodes.
pub record AreOpen (st : Standards) (ids : ℕ → ℕ) : Type 0 where
  pub stdin_id : ids st.stdin ≡ 0
  pub stdout_id : ids st.stdout ≡ 1
  pub stderr_id : ids st.stderr ≡ 2
  pub stdin_set : st.stdin ≢ 0
  pub stdout_set : st.stdout ≢ 0
  pub stderr_set : st.stderr ≢ 0
  pub node0_set : st.node0 ≢ 0
  pub node1_set : st.node1 ≢ 0
  pub node2_set : st.node2 ≢ 0
  pub node_01 : st.node0 ≢ st.node1
  pub node_02 : st.node0 ≢ st.node2
  pub node_12 : st.node1 ≢ st.node2

module _ (st : Standards) (ids : ℕ → ℕ) (memory : ℕ → Node) (o : AreOpen st ids) where
  abbrev cells : List (ℕ × ℕ)
  cells = (st.node2, st.stderr) ∷ (st.node1, st.stdout) ∷ (st.node0, st.stdin) ∷ []

  abbrev list : DoublyLinkedList
  list = LinkedList.push st.node2 st.stderr (
      LinkedList.push st.node1 st.stdout
        (LinkedList.push st.node0 st.stdin (LinkedList.new memory)))

  -- A descriptor that has an id keeps it.
  add_given :
      (node fd : ℕ) (t : Task)
      → fd ≢ 0
      → ids fd < 3
      → add_file_handle node fd ids t ≡ (
        ids fd,
        ids,
        record t {
          handles = LinkedList.push node fd t.handles;
          next_id = (t.next_id + 1) % 2 ^ 32;
        },
      )
  unfolding add_file_handle
  add_given node fd t set small =
      let given : (ids fd == no_id) ≡ false =
        ==_of_ne (ids fd) no_id (λ e. omega (arith, e, small)) in
      rw (==_of_ne fd 0 set, given) refl

  abbrev added : Task
  added = record { handles = list; socket_handles = LinkedList.new memory; next_id = 6 }

  with_standards-eq : with_standards st ids (no_handles memory) ≡ (ids, added)
  unfolding with_standards
  with_standards-eq =
      let first = no_handles memory in
      let second = record first {
        handles = LinkedList.push st.node0 st.stdin first.handles;
        next_id = 4;
      } in
      let third = record second {
        handles = LinkedList.push st.node1 st.stdout second.handles;
        next_id = 5;
      } in
      rw
        (
          add_given st.node0 st.stdin first o.stdin_set (omega (arith, o.stdin_id)),
          add_given st.node1 st.stdout second o.stdout_set (omega (arith, o.stdout_id)),
          add_given st.node2 st.stderr third o.stderr_set (omega (arith, o.stderr_id)),
        )
        refl

  chained : Chain list.nodes list.head cells
  unfolding LinkedList.new
  chained =
      let empty = LinkedList.new memory in
      let one = LinkedList.push st.node0 st.stdin empty in
      let two = LinkedList.push st.node1 st.stdout one in
      push-Chain st.node2 st.stderr two ((st.node1, st.stdout) ∷ (st.node0, st.stdin) ∷ [])
        o.node2_set (o.node_12, (o.node_02, tt))
        (push-Chain st.node1 st.stdout one ((st.node0, st.stdin) ∷ []) o.node1_set (o.node_01, tt)
          (push-Chain st.node0 st.stdin empty [] o.node0_set tt (refl, tt)))

  found :
      (fuel id : ℕ) → 3 < fuel → get_file_handle fuel ids id added ≡ done (first_with ids id cells)
  unfolding get_file_handle
  found fuel id h = handle_from-eq fuel ids id list.nodes list.head cells h chained

  -- With at least 4 units of fuel, the ids 0, 1 and 2 of a new task lead to the three standard
  -- descriptors, every greater id to none, and the next id is 6.
  pub with_standards_lem :
      (fuel : ℕ)
      → 3 < fuel
      → let (ids', t) = with_standards st ids (no_handles memory) in
        (get_file_handle fuel ids' 0 t ≡ done st.stdin)
        × (get_file_handle fuel ids' 1 t ≡ done st.stdout)
        × (get_file_handle fuel ids' 2 t ≡ done st.stderr)
        × (t.next_id ≡ 6)
        × ((id : ℕ) → 2 < id → get_file_handle fuel ids' id t ≡ done 0)
  with_standards_lem fuel h = rw with_standards-eq (
    found fuel 0 h ∙ rw (o.stderr_id, o.stdout_id, o.stdin_id) refl,
    found fuel 1 h ∙ rw (o.stderr_id, o.stdout_id) refl,
    found fuel 2 h ∙ rw o.stderr_id refl,
    refl,
    λ id k. found fuel id h ∙ rw (o.stderr_id, o.stdout_id, o.stdin_id) (ground (arith, k)),
  )

-- Where a task starts, and the ring of its code and of its stack: 3 for a program.
abbrev pub Starts : Context → ℕ → Bool → Type 0
Starts c entry user_mode =
    (c.iret_rip ≡ entry)
    × (c.iret_cs % 4 ≡ (if user_mode then 3 else 0))
    × (c.iret_ss % 4 ≡ (if user_mode then 3 else 0))

context_of-Starts :
    (hhdm : ℕ) (number auxv : Auxiliary) (user_mode : Bool) (entry pml4 : ℕ) (s : Tables)
    → Starts (context_of hhdm number auxv user_mode entry pml4 s).0 entry user_mode
unfolding context_of user_context kernel_context
context_of-Starts hhdm number auxv true entry pml4 s = (refl, refl, refl)
context_of-Starts hhdm number auxv false entry pml4 s = (refl, refl, refl)

-- When the three standard descriptors have their ids, are not null and get three new nodes, and the
-- name has fewer than 64 characters, ends and does not overlap the task's own, `create` with fuel
-- for each character of the name and one more, and at least 4, makes a task. It has the name, the
-- ids 0, 1 and 2 lead to the three descriptors, it starts at the entry, and its code and stack
-- segments are of ring 3 for a program and of ring 0 for the kernel.
pub create_lem :
    (fuel hhdm kernel_pml4 : ℕ) (number auxv : Auxiliary) (st : Standards) (memory : ℕ → Node)
    (events : ℕ → KeyboardEvent) (m : Bytes) (name own n entry : ℕ) (user_mode : Bool)
    (page_map : ℕ) (w : Machine)
    → AreOpen st w.ids
    → IsString m name n
    → (own + n < name) ⊎ (name + n < own)
    → n < 64
    → n < fuel
    → 3 < fuel
    → (task : Task.Task) × (w' : Machine) × (create fuel hhdm kernel_pml4 number auxv st memory
          events m name own entry user_mode page_map w
        ≡ done (task, w'))
      × ((k : ℕ) → k ≤ n → task.name k ≡ m (name + k))
      × (get_file_handle fuel w'.ids 0 task.handles ≡ done st.stdin)
      × (get_file_handle fuel w'.ids 1 task.handles ≡ done st.stdout)
      × (get_file_handle fuel w'.ids 2 task.handles ≡ done st.stderr)
      × Starts task.context entry user_mode
unfolding create
create_lem fuel hhdm kernel_pml4 number auxv st memory events m name own n entry user_mode page_map
      w o s apart short long four =
    let (r, e, same, others) = strcpy_lem m own name n s apart fuel long in
    let fits : leb task_name_length n ≡ false = ground (arith, short) in
    let std = with_standards_lem st w.ids memory o fuel four in
    let given = with_standards st w.ids (no_handles memory) in
    let space = space_of hhdm kernel_pml4 page_map w.tables in
    let context = context_of hhdm number auxv user_mode entry space.0 space.1 in
    let ring = context_of-Starts hhdm number auxv user_mode entry space.0 space.1 in
    (
      record {
        pid = w.next_pid;
        space = space.0;
        context = context.0;
        name = λ i. r (own + i);
        handles = given.1;
        events = RingBuffer.new events;
      },
      record { next_pid = (w.next_pid + 1) % 2 ^ 64; tables = context.1; ids = given.0 },
      rw (strlen_lem m name n s fuel long, fits, e) refl,
      same,
      std.0,
      std.1,
      std.2,
      ring,
    )
