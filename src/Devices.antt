-- ===== src/Devices.antt =====
-- src/kernel/drivers/pci.cpp and src/kernel/apic.cpp: the devices' registers.
pub mod Pci
pub mod Apic
