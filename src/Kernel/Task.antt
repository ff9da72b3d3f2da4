-- ===== src/Kernel/Task.antt =====
-- src/kernel/task.cpp: `Task::create` and the destructor. A task's name and its ring of events are memory of its own;
-- the registers that are not named here are 0.
pub mod Standard
use umbra_os.Prelude.{
  ℕ, zero, suc, ◌+◌, ◌-◌, ◌*◌, ◌/◌, ◌%◌, ◌^◌, Bool, ◌==◌, if◌then◌else◌, List, [], ◌∷◌, length,
  Outcome, done, fault, leb, ◌>>=◌,
}
use umbra_os.Prelude.Maps.{update}
use umbra_os.Libc.Strings.{Bytes, strcpy, strlen}
use umbra_os.Utils.RingBuffer
use umbra_os.Utils.RingBuffer.{Ringbuffer}
use umbra_os.Utils.LinkedList
use umbra_os.Utils.LinkedList.{Node}
use umbra_os.Memory.Pmm
use umbra_os.Memory.Pmm.{page_size, phys_to_virt}
use umbra_os.Memory.Vmm
use umbra_os.Memory.Vmm.{Tables, pte_present, pte_writable, pte_user, pte_nx}
use umbra_os.Kernel.Keyboard.{KeyboardEvent}
use umbra_os.Kernel.Descriptors.{stack_size, kernel_cs, kernel_ds, user_cs, user_ds}
use umbra_os.Kernel.UserStack.{Auxiliary, user_stack, user_stack_base, iret_rsp}
use umbra_os.Fs.Handles
use umbra_os.Fs.Handles.{add_file_handle}

pub record Context : Type 0 where
  pub iret_rip : ℕ
  pub iret_cs : ℕ
  pub iret_flags : ℕ
  pub iret_rsp : ℕ
  pub iret_ss : ℕ

-- The fields that `create` sets; the status is `Ready`. `space` is the top table of the address space.
pub record Task : Type 0 where
  pub pid : ℕ
  pub space : ℕ
  pub context : Context
  pub name : Bytes
  pub handles : Handles.Task
  pub events : Ringbuffer KeyboardEvent

-- `next_pid`, the page tables, and the ids of descriptors.
pub record Machine : Type 0 where
  pub next_pid : ℕ
  pub tables : Tables
  pub ids : ℕ → ℕ

-- The addresses of the descriptors that `get_stdin`, `get_stdout` and `get_stderr` return, with those of the nodes
-- that the list makes for them.
pub record Standards : Type 0 where
  pub stdin : ℕ
  pub stdout : ℕ
  pub stderr : ℕ
  pub node0 : ℕ
  pub node1 : ℕ
  pub node2 : ℕ

-- The calls of `add_file_handle`.
unfoldable pub with_standards : Standards → (ℕ → ℕ) → Handles.Task → (ℕ → ℕ) × Handles.Task
with_standards st ids t =
    let (id0, ids0, t0) = add_file_handle st.node0 st.stdin ids t in
    let (id1, ids1, t1) = add_file_handle st.node1 st.stdout ids0 t0 in
    let (id2, ids2, t2) = add_file_handle st.node2 st.stderr ids1 t1 in (ids2, t2)

-- The handles of a new task; `memory` is what the lists' nodes will stand in.
abbrev pub no_handles : (ℕ → Node) → Handles.Task
no_handles memory = record {
  handles = LinkedList.new memory;
  socket_handles = LinkedList.new memory;
  next_id = 3;
}

-- Words in memory from an address up.
unfoldable pub stored : List ℕ → ℕ → (ℕ → ℕ) → ℕ → ℕ
stored [] addr words = words
stored (w ∷ ws) addr words = stored ws (addr + 8) (update words addr w)

abbrev pub stack_pages : ℕ
stack_pages = stack_size / page_size

-- The branch for a program: its stack is mapped, and holds no arguments and no environment. Its top is a multiple
-- of 16.
unfoldable pub user_context : ℕ → Auxiliary → Auxiliary → ℕ → ℕ → Tables → Context × Tables
user_context hhdm number auxv entry pml4 s =
    let (phys, pmm) = Pmm.alloc s.pmm stack_pages in
    let flags = pte_present + pte_writable + pte_nx + pte_user in
    let mapped =
      Vmm.map_range hhdm pml4 (user_stack_base - stack_size) phys stack_pages flags
        (record s { pmm = pmm }) in
    let top = phys_to_virt hhdm (phys + stack_size) in
    let garbage = mapped.words ((top + 2 ^ 64 - 8) % 2 ^ 64) in
    let stack = user_stack number auxv garbage [] [] in
    (
      record {
        iret_rip = entry;
        iret_cs = user_cs + 3;
        iret_flags = 0x202;
        iret_rsp = iret_rsp number auxv garbage [] [];
        iret_ss = user_ds + 3;
      },
      record mapped {
        words = stored stack ((top + 2 ^ 64 - 8 * length stack) % 2 ^ 64) mapped.words;
      },
    )

unfoldable pub kernel_context : ℕ → ℕ → Tables → Context × Tables
kernel_context hhdm entry s =
    let (phys, pmm) = Pmm.alloc s.pmm stack_pages in
    (
      record {
        iret_rip = entry;
        iret_cs = kernel_cs;
        iret_flags = 0x202;
        iret_rsp = phys_to_virt hhdm (phys + stack_size);
        iret_ss = kernel_ds;
      },
      record s { pmm = pmm },
    )

unfoldable pub context_of : ℕ → Auxiliary → Auxiliary → Bool → ℕ → ℕ → Tables → Context × Tables
context_of hhdm number auxv user_mode entry pml4 s =
    if user_mode then user_context hhdm number auxv entry pml4 s else kernel_context hhdm entry s

unfoldable pub space_of : ℕ → ℕ → ℕ → Tables → ℕ × Tables
space_of hhdm kernel_pml4 page_map s =
    if page_map == 0 then Vmm.new_space hhdm kernel_pml4 s else (page_map, s)

-- The size of `name` in `task.hpp`.
abbrev pub task_name_length : ℕ
task_name_length = 64

-- `create`. A name that does not fit with its NUL would be written over the fields behind it, which is a fault
-- here. `page_map` is the top table of the space that is given, or 0; `m` is memory with the name at `name`
-- and the task's own at `own`.
unfoldable pub create :
    ℕ
    → ℕ
    → ℕ
    → Auxiliary
    → Auxiliary
    → Standards
    → (ℕ → Node)
    → (ℕ → KeyboardEvent)
    → Bytes
    → ℕ
    → ℕ
    → ℕ
    → Bool
    → ℕ
    → Machine
    → Outcome (Task × Machine)
create fuel hhdm kernel_pml4 number auxv st memory events m name own entry user_mode page_map w =
    let (space, s) = space_of hhdm kernel_pml4 page_map w.tables in
    let (context, s') = context_of hhdm number auxv user_mode entry space s in
    let (ids, handles) = with_standards st w.ids (no_handles memory) in
    strlen fuel m name >>= λ length.
    let named = strcpy fuel m own name in
    if leb task_name_length length
    then fault
    else named >>= λ named'. done (
      record {
        pid = w.next_pid;
        space = space;
        context = context;
        name = λ i. named' (own + i);
        handles = handles;
        events = RingBuffer.new events;
      },
      record { next_pid = (w.next_pid + 1) % 2 ^ 64; tables = s'; ids = ids },
    )

-- The destructor. What it deletes of the heap stays as it is.
unfoldable pub destroy : ℕ → Task → Tables → Tables
destroy hhdm task s =
    let (phys, s') = Vmm.virt_to_phys hhdm task.space (user_stack_base - stack_size) s in
    Vmm.destroy hhdm task.space (record s' { pmm = Pmm.free s'.pmm phys stack_pages })
