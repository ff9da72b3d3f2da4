-- ===== src/Kernel.antt =====
-- src/kernel: tasks, the scheduler, the timer and the keyboard.
pub mod TaskList
pub mod Keyboard
pub mod Scheduler
pub mod Spinlock
pub mod Timer
pub mod Terminal
pub mod UserStack
pub mod Task
pub mod Tty
pub mod Descriptors
pub mod Interrupts
pub mod Futex
pub mod Calls
