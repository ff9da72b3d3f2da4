-- ===== src/Apps.antt =====
-- src/apps: programs that run on the kernel.
pub mod Ping
