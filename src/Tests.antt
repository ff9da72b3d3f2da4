-- ===== src/Tests.antt =====
-- Runs of the definitions at concrete inputs, and the theorems applied to them.
mod Allocators
mod Containers
mod Files
mod Futexes
mod Network
mod Paging
mod Tasks
mod Text
mod Trees
mod Sockets
mod Locks
mod Screen
mod Devices
mod Boot
