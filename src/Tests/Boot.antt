-- ===== src/Tests/Boot.antt =====
-- The start: a memory map of sixteen pages, the interrupt table, a first task and its run queue.
use umbra_os.Prelude.{
  ℕ, true, false, not, ◌+◌, ◌*◌, ◌^◌, ◌<◌, ◌≤◌, ◌≡◌, refl, ◌==◌, if◌then◌else◌, List, [], ◌∷◌, some,
  done, arith, inr, ◌&&◌,
}
use umbra_os.Libc.Strings.{Bytes}
use umbra_os.Libc.Strings.Terminated.{IsString}
use umbra_os.Utils.Bitmap
use umbra_os.Memory.Pmm
use umbra_os.Memory.Pmm.{Pmm, MemmapEntry, bitmap_size, place}
use umbra_os.Memory.Pmm.Alloc.{IsValid}
use umbra_os.Memory.Pmm.Entries.{covered, in_bitmap}
use umbra_os.Memory.Pmm.Start.{init_lem}
use umbra_os.Kernel.TaskList
use umbra_os.Kernel.TaskList.{TaskList}
use umbra_os.Kernel.TaskList.Queue.{Place, Op, add, remove, next, Represents}
use umbra_os.Kernel.TaskList.Run.{run, queue_refines}
use umbra_os.Kernel.TaskList.Turns.{turns, run-turns}
use umbra_os.Kernel.Descriptors.{idt_entry}
use umbra_os.Kernel.Interrupts.{idt_init, syscall_vect}
use umbra_os.Kernel.Interrupts.Gates.{Reads, idt_init_lem}
use umbra_os.Kernel.UserStack.{Auxiliary}
use umbra_os.Kernel.Task
use umbra_os.Kernel.Task.{Standards, Machine, create}
use umbra_os.Kernel.Task.Standard.{AreOpen, Starts, create_lem}
use umbra_os.Fs.Handles.{get_file_handle}

-- The first page is not usable, the 15 behind it are.
abbrev memory_map : List MemmapEntry
memory_map =
    record { base = 0; len = 4096; usable = false }
    ∷ record { base = 4096; len = 61440; usable = true }
    ∷ []

init_lem_example :
    (p : Pmm) × (base : ℕ) × (Pmm.init (λ b a. 0) memory_map ≡ some p)
    × IsValid p
    × ((place (bitmap_size memory_map) memory_map).0 ≡ some base)
    × ((i : ℕ)
        → i < 8 * bitmap_size memory_map
        → not (Bitmap.get p.bitmap i)
          ≡ (covered memory_map i && not (in_bitmap base (bitmap_size memory_map) i)))
unfolding bitmap_size Pmm.highest_addr
init_lem_example =
    init_lem (λ b a. 0) memory_map refl (λ b a. omega arith) (omega arith) (omega arith)
      (refl, (refl, tt)) ((λ i. refl), ((λ i. ground arith), tt)) refl

abbrev empty : TaskList
empty = TaskList.new (λ a. record { task = 0; prev = 0; next = 0 })

abbrev no_place : Place
no_place = record { before = []; rest = [] }

empty-Represents : Represents empty no_place
unfolding TaskList.new
empty-Represents = record {
  linked = (refl, tt);
  distinct = tt;
  current = refl;
  settled = λ e. refl;
}

-- The second task stands before the first, which is the current one.
abbrev calls : List Op
calls = add 8 1 ∷ add 16 2 ∷ next ∷ remove ∷ []

queue_refines_example :
    (r : TaskList) × (run calls empty ≡ done (0 ∷ 0 ∷ 2 ∷ 0 ∷ [], r))
    × Represents r (record { before = []; rest = (8, 1) ∷ [] })
queue_refines_example =
    queue_refines calls empty no_place
      (
        ((λ e. omega (arith, e)), tt),
        (((λ e. omega (arith, e)), ((λ e. omega (arith, e)), tt)), ((λ e. cc), (tt, tt))),
      )
      empty-Represents

idt_init_lem_example :
    Reads (idt_init (λ i. 2 ^ 63 + 16 * i) (λ i. idt_entry 0 0) syscall_vect) (2 ^ 63 + 16 * 254) 3
idt_init_lem_example =
    idt_init_lem (λ i. 2 ^ 63 + 16 * i) (λ i. idt_entry 0 0) syscall_vect (omega arith)
      (omega arith)

abbrev standards : Standards
standards = record { stdin = 10; stdout = 11; stderr = 12; node0 = 20; node1 = 21; node2 = 22 }

abbrev machine : Machine
machine = record {
  next_pid = 1;
  tables = record {
    words = λ a. 0;
    pmm = record { bitmap = record { bytes = λ i. 255; size = 1 }; last_page_idx = 0 };
  };
  ids = λ fd. if fd == 10 then 0 else if fd == 11 then 1 else 2;
}

machine-AreOpen : AreOpen standards machine.ids
machine-AreOpen = record {
  stdin_id = refl;
  stdout_id = refl;
  stderr_id = refl;
  stdin_set = λ e. omega (arith, e);
  stdout_set = λ e. omega (arith, e);
  stderr_set = λ e. omega (arith, e);
  node0_set = λ e. omega (arith, e);
  node1_set = λ e. omega (arith, e);
  node2_set = λ e. omega (arith, e);
  node_01 = λ e. omega (arith, e);
  node_02 = λ e. omega (arith, e);
  node_12 = λ e. omega (arith, e);
}

-- "sh" at 100.
abbrev named : Bytes
named a = if a == 100 then b's' else if a == 101 then b'h' else 0

named-IsString : IsString named 100 2
named-IsString = record { ends = refl; inner = λ k h. ground (arith, h) }

abbrev numbers : Auxiliary
numbers = record { at_secure = 23; at_entry = 9; at_phdr = 3; at_phent = 4; at_phnum = 5 }

create_lem_example :
    (task : Task.Task) × (w' : Machine) × (create 4 0 0 numbers numbers standards
        (λ a. record { value = 0; prev = 0; next = 0 })
        (λ i. record { key_code = 0; ascii = 0; pressed = false })
        named
        100
        200
        0x400000
        true
        4096
        machine
      ≡ done (task, w'))
    × ((k : ℕ) → k ≤ 2 → task.name k ≡ named (100 + k))
    × (get_file_handle 4 w'.ids 0 task.handles ≡ done 10)
    × (get_file_handle 4 w'.ids 1 task.handles ≡ done 11)
    × (get_file_handle 4 w'.ids 2 task.handles ≡ done 12)
    × Starts task.context 0x400000 true
create_lem_example =
    create_lem 4 0 0 numbers numbers standards (λ a. record { value = 0; prev = 0; next = 0 })
      (λ i. record { key_code = 0; ascii = 0; pressed = false }) named 100 200 2 0x400000 true 4096
      machine machine-AreOpen named-IsString (inr (omega arith)) (omega arith) (omega arith)
      (omega arith)

-- The task 2 stands before the task 1, which is the current one.
abbrev two_tasks : TaskList
two_tasks = record {
  nodes = λ a.
      if a == 8
      then record { task = 1; prev = 16; next = 0 }
      else record { task = 2; prev = 0; next = 8 };
  front = 16;
  current = 8;
}

two_tasks-Represents : Represents two_tasks (record { before = (16, 2) ∷ []; rest = (8, 1) ∷ [] })
two_tasks-Represents = record {
  linked = (
    refl,
    (λ e. omega (arith, e)),
    refl,
    (refl, (λ e. omega (arith, e)), refl, refl, (refl, tt)),
  );
  distinct = (((λ e. omega (arith, e)), tt), (tt, tt));
  current = refl;
  settled = λ e. cc;
}

run-turns_example :
    (r : TaskList) × (run (turns 2) two_tasks ≡ done (2 ∷ 1 ∷ [], r))
    × Represents r (record { before = (16, 2) ∷ []; rest = (8, 1) ∷ [] })
run-turns_example = run-turns two_tasks ((16, 2) ∷ []) (8, 1) [] two_tasks-Represents
