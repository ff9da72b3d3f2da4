-- ===== src/Tests/Futexes.antt =====
-- Two tasks that wait for different words, and a wake for one of them.
use umbra_os.Prelude.{
  ℕ, ◌≡◌, refl, ◌==◌, if◌then◌else◌, List, [], ◌∷◌, false, true, done, Bool-cases, inl, inr, arith,
}
use umbra_os.Utils.RingBuffer
use umbra_os.Utils.LinkedList.{DoublyLinkedList, push}
use umbra_os.Utils.LinkedList.Chain.{Chain, push-Chain}
use umbra_os.Kernel.Scheduler.{Scheduler, Task, waiting_io}
use umbra_os.Kernel.Futex.{Futexes, sys_futex_wake}
use umbra_os.Kernel.Futex.Wakes.{Words, Listed, after_wake, sys_futex_wake_lem}

abbrev no_values : DoublyLinkedList
no_values = record { nodes = λ a. record { value = 0; prev = 0; next = 0 }; head = 0; size = 0 }

-- Task 100 waits for the word at 4096, task 200 for the one at 4100.
abbrev futexes : Futexes
futexes = record {
  handles = push 16 200 (push 8 100 no_values);
  futexes = λ t.
      if t == 100
      then push 24 4096 no_values
      else if t == 200
      then push 32 4100 no_values
      else no_values;
}

abbrev cells : List (ℕ × ℕ)
cells = (16, 200) ∷ (8, 100) ∷ []

abbrev words : Words
words t = if t == 100 then (24, 4096) ∷ [] else if t == 200 then (32, 4100) ∷ [] else []

futexes-Chain : Chain futexes.handles.nodes futexes.handles.head cells
futexes-Chain =
    push-Chain 16 200 (push 8 100 no_values) ((8, 100) ∷ []) (λ e. omega (arith, e))
      ((λ e. omega (arith, e)), tt)
      (push-Chain 8 100 no_values [] (λ e. omega (arith, e)) tt (refl, tt))

words-Listed : Listed 2 futexes.futexes words
words-Listed t = elim (Bool-cases (t == 100)) [
  | inl e ↦
      rw e (push-Chain 24 4096 no_values [] (λ q. omega (arith, q)) tt (refl, tt), omega arith)
  | inr e ↦ rw e (elim (Bool-cases (t == 200)) [
    | inl g ↦
        rw g (push-Chain 32 4100 no_values [] (λ q. omega (arith, q)) tt (refl, tt), omega arith)
    | inr g ↦ rw g ((refl, tt), omega arith)
  ])
]

abbrev scheduler : Scheduler
scheduler = record {
  tasks = λ t. record {
    status = waiting_io;
    tsc_sleep = 0;
    context = t;
    address_space = 0;
    events = RingBuffer.new (λ i. record { key_code = 0; ascii = 0; pressed = false });
  };
  current_task = 0;
  idle_task = 0;
  queue = record { nodes = λ a. record { task = 0; prev = 0; next = 0 }; front = 0; current = 0 };
  timer = true;
  space = 0;
}

sys_futex_wake_lem_example :
    (r : ℕ → Task) × (sys_futex_wake 3 2 4096 futexes scheduler
      ≡ done (record scheduler { tasks = r }))
    × ((t : ℕ) → r t ≡ after_wake cells words 4096 scheduler.tasks t)
sys_futex_wake_lem_example =
    sys_futex_wake_lem cells words 3 2 4096 futexes scheduler futexes-Chain words-Listed
      (omega arith)
