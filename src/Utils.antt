-- ===== src/Utils.antt =====
-- src/kernel/utils: the containers that the rest of the kernel is built on.
pub mod Bitmap
pub mod RingBuffer
pub mod HashMap
pub mod LinkedList
