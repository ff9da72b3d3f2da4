-- ===== src/Kernel/Calls.antt =====
-- src/kernel/syscalls/mmap.cpp and gui.cpp: memory for a task, and the screen and the keyboard for a program.
pub mod Drawing
use umbra_os.Prelude.{
  ℕ, zero, suc, ◌+◌, ◌-◌, ◌*◌, ◌/◌, ◌%◌, ◌^◌, Bool, true, false, not, ◌&&◌, ◌||◌, Option, none,
  some, ◌==◌, ltb, if◌then◌else◌,
}
use umbra_os.Prelude.Maps.{update}
use umbra_os.Utils.RingBuffer
use umbra_os.Utils.RingBuffer.{Ringbuffer}
use umbra_os.Kernel.Keyboard.{KeyboardEvent}
use umbra_os.Memory.Pmm
use umbra_os.Memory.Pmm.{page_size}
use umbra_os.Memory.Vmm
use umbra_os.Memory.Vmm.{Tables, pte_present, pte_writable, pte_user, pte_nx}

-- The tests of <sys/mman.h>: the flags MAP_ANONYMOUS and MAP_SHARED, PROT_WRITE and PROT_EXEC.
pub record Mman : Type 0 where
  pub anonymous : ℕ → Bool
  pub shared : ℕ → Bool
  pub prot_write : ℕ → Bool
  pub prot_exec : ℕ → Bool

-- An `int` that is widened to 64 bits.
abbrev pub widened : ℕ → ℕ
widened w = if ltb w (2 ^ 31) then w else 2 ^ 64 - 2 ^ 32 + w

-- `page_flags`, an `int`, as `map_range` gets it.
unfoldable pub page_flags : Mman → ℕ → ℕ
page_flags c prot =
    let base = pte_present + pte_user in
    let written = if c.prot_write prot then base + pte_writable else base in
    let guarded = if c.prot_exec prot then written else (written + pte_nx) % 2 ^ 32 in
    widened guarded

-- The current task's address space and `heap_cur`.
pub record Space : Type 0 where
  pub tables : Tables
  pub pml4 : ℕ
  pub heap_cur : ℕ

-- `sys_mmap`. A hint of 0 is none; `fd` is a 32-bit word.
unfoldable pub sys_mmap : Mman → ℕ → ℕ → ℕ → ℕ → ℕ → ℕ → ℕ → Space → ℕ × Space
sys_mmap c hhdm hint size prot flags fd offset s =
    let (addr, pmm) = Pmm.alloc s.tables.pmm (size / page_size) in
    let at = if hint == 0 then s.heap_cur else hint in
    let tables =
      Vmm.map_range hhdm s.pml4 at addr (size / page_size) (page_flags c prot)
        (record (s.tables) { pmm = pmm }) in
    let mapped = record s { tables = tables; heap_cur = (s.heap_cur + size) % 2 ^ 64 } in
    if not (fd == 2 ^ 32 - 1) || not (offset == 0) || not (c.anonymous flags) || c.shared flags
    then (0, s)
    else (s.heap_cur, mapped)

-- `sys_draw_from_buffer`: the inner loop from column `x` on, and the outer one from line `y` on, over pixels.
unfoldable pub draw_line : ℕ → (ℕ → ℕ) → ℕ → ℕ → ℕ → ℕ → (ℕ → ℕ) → ℕ → ℕ
draw_line zero buffer framebuffer_width width y x framebuffer = framebuffer
draw_line (suc rounds) buffer framebuffer_width width y x framebuffer =
    draw_line rounds buffer framebuffer_width width y (x + 1)
      (update framebuffer (y * framebuffer_width + x) (buffer (y * width + x)))

unfoldable pub draw_lines : ℕ → (ℕ → ℕ) → ℕ → ℕ → ℕ → (ℕ → ℕ) → ℕ → ℕ
draw_lines zero buffer framebuffer_width width y framebuffer = framebuffer
draw_lines (suc rounds) buffer framebuffer_width width y framebuffer =
    draw_lines rounds buffer framebuffer_width width (y + 1)
      (draw_line width buffer framebuffer_width width y 0 framebuffer)

unfoldable pub sys_draw_from_buffer : (ℕ → ℕ) → ℕ → ℕ → ℕ → (ℕ → ℕ) → ℕ → ℕ
sys_draw_from_buffer buffer framebuffer_width width height framebuffer =
    draw_lines height buffer framebuffer_width width 0 framebuffer

-- `sys_get_kb_event`: the answer, what is written, and the task's events.
unfoldable pub sys_get_kb_event :
    Ringbuffer KeyboardEvent → Bool × Option KeyboardEvent × Ringbuffer KeyboardEvent
sys_get_kb_event events =
    let (event, rest) = RingBuffer.read 5 events in
    elim event [ none ↦ (false, none, rest) | some e ↦ (true, some e, rest) ]
