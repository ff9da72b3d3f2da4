-- ===== src/Lib.antt =====
-- Umbra OS, a 64-bit kernel in C++: its allocators, containers, string functions, scheduler,
-- keyboard, terminal, file layer, network and devices.
--
-- The page allocator (src/kernel/memory/pmm.cpp) keeps one bit for each page in a bitmap
-- (src/kernel/utils/bitmap.cpp). The heap (src/kernel/memory/heap.cpp) takes pages from it and cuts
-- them into blocks; `new` and `delete` are its calls. The containers of src/kernel/utils hold what
-- the rest of the kernel keeps: the ring buffer the keyboard events of a task, the list its handles,
-- the hash map the children of a directory. The timer interrupt calls the scheduler
-- (src/kernel/scheduler.cpp), which goes round its run queue (src/kernel/scheduler.hpp). The
-- keyboard interrupt (src/kernel/drivers/keyboard.cpp) hands its events to the scheduler, which
-- wakes the tasks that wait.
--
-- Memory/Pmm.antt is the page allocator, Memory/Heap.antt the heap and Memory/Vmm.antt the page
-- tables of src/kernel/memory/vmm.cpp, which Memory/Vmm/Start.antt builds for the kernel;
-- Utils/Bitmap.antt, Utils/RingBuffer.antt, Utils/HashMap.antt and Utils/LinkedList.antt are the
-- containers; Libc/Strings.antt is src/kernel/libc/string.cpp and Libc/Format.antt
-- src/kernel/libc/format.cpp; Kernel/TaskList.antt, Kernel/Scheduler.antt, Kernel/Timer.antt and
-- Kernel/Keyboard.antt are the scheduler, the timer (src/kernel/timer.cpp) and the keyboard.
-- Fs/Vfs.antt is src/kernel/fs/vfs.cpp with src/kernel/fs/tmpfs.cpp, Fs/Handles.antt the handles of
-- src/kernel/task.cpp, and Fs/Syscalls.antt the calls of src/kernel/syscalls/fs.cpp and clock.cpp,
-- which find a descriptor among the task's handles and pass it on to the file system. Fs/Create.antt
-- is the part of src/kernel/fs/vfs.cpp that makes nodes, Fs/Initramfs.antt
-- src/kernel/fs/initramfs.cpp, which makes them from an archive, Fs/Directories.antt the calls of
-- src/kernel/syscalls/fs.cpp on paths and directories, and Fs/Elf.antt src/kernel/elf.cpp.
-- Definitions have the names of the functions that they model, but for `open_file`, which is `open`.
-- The files in the folder beside each hold its theorems. Tests.antt runs the definitions at concrete
-- inputs.
--
-- Net/Ipv4.antt and Net/Checksum.antt are src/kernel/net/socket.cpp, Net/Udp.antt and Net/Icmp.antt
-- the two kinds of sockets, with what they share in Net/Message.antt, and Net/Calls.antt is
-- src/kernel/syscalls/socket.cpp. Net/E1000/Start.antt is how src/kernel/drivers/e1000.cpp finds and
-- starts the network adapter, and Net/E1000.antt the part of it that moves packets: its handler puts
-- them in a ring, the thread of `packet_handler` takes them out and hands them to the handler of
-- their protocol, and that to the ring of a socket. Kernel/Terminal.antt is src/kernel/terminal.cpp,
-- Kernel/Tty.antt src/kernel/drivers/tty.cpp, Kernel/Descriptors.antt the entries of
-- src/kernel/gdt.hpp and idt.hpp, Kernel/Spinlock.antt src/kernel/lock.cpp, Kernel/Futex.antt the
-- part of the scheduler that futexes use, with src/kernel/syscalls/futex.cpp, Kernel/UserStack.antt
-- the stack of `Task::create` in src/kernel/task.cpp, Kernel/Task.antt the rest of it with the
-- destructor, and Kernel/Calls.antt src/kernel/syscalls/mmap.cpp and gui.cpp.
--
-- Kernel/Interrupts.antt is src/kernel/int.cpp, idt.cpp and syscalls/handler.cpp: an interrupt's
-- vector leads to a handler, and the handler of system calls to one of those above.
-- Devices/Apic.antt is src/kernel/apic.cpp, whose table of pins says which vector a device raises,
-- with the register writes of src/kernel/timer.cpp; Devices/Pci.antt is src/kernel/drivers/pci.cpp
-- and pci.hpp, which hands the functions of the bus to the drivers. Apps/Ping.antt is
-- src/apps/ping.c, a program that sends its packets through a socket of the kernel.
--
-- Memory is a function from addresses, and the null pointer is address 0. A record holds the statics
-- of a file or the fields of a class, and an operation takes the old state to the new one. A virtual
-- call goes through a record of functions, and the numbers of the C library's headers are a record
-- too. An allocation inside an operation is an argument: the address that `new` returns. A machine
-- word is a natural number with its wrap-around written out. A loop is structural where its count is
-- known. A loop that follows pointers or looks for a NUL takes fuel, of which this is enough: one
-- more than the nodes of a chain or the characters of a string, and 16 and 20 digits for the numbers
-- of 64 bits. A file's capacity reaches what is needed in as many doublings as its statement names.
-- The loop of `schedule` does not always end; its fuel stays in the statements. `Outcome` says how
-- code ends: with a value, at a null pointer or past a buffer, or out of fuel.
--
-- Locks are held for the whole of an operation and are left out, but for Kernel/Spinlock.antt, in
-- which contexts interleave at each access. Time stamps, and the registers and address spaces that
-- the scheduler swaps, are tokens or arguments. A device is what its registers read, as a parameter,
-- and what is written to them. The entry code of interrupts, the loading of descriptor tables, the
-- order of the calls in src/kernel/kernel.cpp, the read and write of ports and model-specific
-- registers, and the drawing library with its program are not modelled: they are instructions of the
-- processor, calls of the parts above, or use the kernel from outside. Memory that is freed stays as
-- it is. Third-party headers and the build are not the kernel's own code.
pub mod Prelude
pub mod Utils
pub mod Libc
pub mod Memory
pub mod Kernel
pub mod Fs
pub mod Net
pub mod Devices
pub mod Apps
mod Tests
