-- ===== src/Drivers.antt =====
-- sys/src/drivers: the device drivers.
pub mod Ahci
pub mod Rtl8139
