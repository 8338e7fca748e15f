-- ===== src/Arch.antt =====
-- sys/src/arch: the PCI bus and the processor's devices.
pub mod Exceptions
pub mod Ports
pub mod Pci
pub mod Devices
