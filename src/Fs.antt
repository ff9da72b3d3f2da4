-- ===== src/Fs.antt =====
-- src/kernel/fs, the handles of src/kernel/task.cpp and the calls of src/kernel/syscalls/fs.cpp.
pub mod Vfs
pub mod Handles
pub mod Syscalls
pub mod Create
pub mod Initramfs
pub mod Elf
pub mod Directories
