-- ===== src/Kernel/Interrupts.antt =====
-- src/kernel/int.cpp, idt.cpp, syscalls/handler.cpp and src/libs/core/syscalls.hpp: from an interrupt's vector to its
-- handler, and from a number in a register to a system call. What the handlers do to the machine is a parameter.
pub mod Gates
use umbra_os.Prelude.{
  ℕ, zero, suc, ◌+◌, ◌%◌, ◌^◌, Option, none, some, ◌==◌, leb, if◌then◌else◌, List, [], ◌∷◌, length,
  get_elem?,
}
use umbra_os.Prelude.Maps.{update}
use umbra_os.Kernel.Descriptors.{IdtEntry, idt_entry}

abbrev pub timer_vect : ℕ
timer_vect = 32

abbrev pub keyboard_vect : ℕ
keyboard_vect = 33

abbrev pub e1000_vect : ℕ
e1000_vect = 43

abbrev pub syscall_vect : ℕ
syscall_vect = 0xfe

-- The functions that are set as handlers.
pub data IrqHandler : Type 0 where
  pit : IrqHandler
  lapic : IrqHandler
  keyboard : IrqHandler
  syscall : IrqHandler
  e1000 : IrqHandler

abbrev pub Handlers : Type 0
Handlers = ℕ → Option IrqHandler

unfoldable pub set_handler : ℕ → IrqHandler → Handlers → Handlers
set_handler vect handler handlers = update handlers vect (some handler)

-- `Interrupt::init`.
unfoldable pub init : Handlers → Handlers
init handlers = set_handler e1000_vect e1000 (
    set_handler syscall_vect syscall
      (set_handler keyboard_vect keyboard (set_handler timer_vect pit handlers)))

-- `Idt::init`: the loop from an index on. `int_handlers` are the addresses of the entry code.
unfoldable pub gate : (ℕ → ℕ) → ℕ → IdtEntry
gate int_handlers i =
    if i == syscall_vect
    then idt_entry (int_handlers i) 0b11101110
    else idt_entry (int_handlers i) 0b10001110

unfoldable pub gates_from : (ℕ → ℕ) → ℕ → ℕ → (ℕ → IdtEntry) → ℕ → IdtEntry
gates_from int_handlers zero i idt_entries = idt_entries
gates_from int_handlers (suc rounds) i idt_entries =
    gates_from int_handlers rounds (i + 1) (update idt_entries i (gate int_handlers i))

unfoldable pub idt_init : (ℕ → ℕ) → (ℕ → IdtEntry) → ℕ → IdtEntry
idt_init int_handlers idt_entries = gates_from int_handlers 256 0 idt_entries

-- The registers that a handler gets, of those that the entry code saves.
pub record Registers : Type 0 where
  pub rdi : ℕ
  pub rsi : ℕ
  pub rdx : ℕ
  pub rcx : ℕ
  pub r8 : ℕ
  pub r9 : ℕ
  pub r10 : ℕ
  pub rax : ℕ
  pub vect_num : ℕ

-- `SYSCALLS`, in the order of their numbers.
pub data SyscallCode : Type 0 where
  log : SyscallCode
  mmap : SyscallCode
  open_file : SyscallCode
  read : SyscallCode
  seek : SyscallCode
  close : SyscallCode
  tcb_set : SyscallCode
  exit : SyscallCode
  write : SyscallCode
  futex_wait : SyscallCode
  futex_wake : SyscallCode
  get_cwd : SyscallCode
  open_at : SyscallCode
  stat : SyscallCode
  read_entries : SyscallCode
  chdir : SyscallCode
  draw_from_buffer : SyscallCode
  mkdir : SyscallCode
  clock_get : SyscallCode
  sleep : SyscallCode
  get_kb_event : SyscallCode
  create_socket : SyscallCode
  send_msg : SyscallCode
  recv_msg : SyscallCode
  set_socket_opt : SyscallCode

abbrev pub syscalls : List SyscallCode
syscalls =
    log ∷ mmap ∷ open_file ∷ read ∷ seek ∷ close ∷ tcb_set ∷ exit ∷ write ∷ futex_wait ∷ futex_wake
    ∷ get_cwd ∷ open_at ∷ stat ∷ read_entries ∷ chdir ∷ draw_from_buffer ∷ mkdir ∷ clock_get ∷ sleep
    ∷ get_kb_event ∷ create_socket ∷ send_msg ∷ recv_msg ∷ set_socket_opt ∷ []

module _ {S : Type 0} (call : SyscallCode → List ℕ → S → ℕ × S) (invalid : S → S) where
  abbrev pub answered : Registers → Option SyscallCode → S → Registers × S
  answered regs none s = (regs, invalid s)
  answered regs (some code) s =
      let r = call code (regs.rsi ∷ regs.rdx ∷ regs.rcx ∷ regs.r8 ∷ regs.r9 ∷ regs.r10 ∷ []) s in
      (record regs { rax = r.0 }, r.1)

  -- `Syscall::handler`. `invalid` prints that there is no such call.
  unfoldable pub handler : Registers → S → Registers × S
  handler regs s =
      if leb (length syscalls) regs.rdi
      then (regs, invalid s)
      else answered regs (get_elem? syscalls regs.rdi) s

module _ {S : Type 0} (run : IrqHandler → Registers → S → Registers × S) (unknown : ℕ → S → S)
    (end_of_interrupt : S → S) where
  abbrev pub handled : Option IrqHandler → Registers → S → Registers × S
  handled none regs s = (regs, unknown regs.vect_num s)
  handled (some h) regs s = run h regs s

  -- `int_dispatch`. `unknown` prints the vector and waits for another interrupt, and `end_of_interrupt` is the
  -- write to the local controller.
  unfoldable pub int_dispatch : Handlers → Registers → S → Registers × S
  int_dispatch handlers regs s =
      let r = handled (handlers regs.vect_num) regs s in (r.0, end_of_interrupt r.1)
