-- ===== src/Arch/Ports.antt =====
-- Accesses of ports (sys/include/arch/x64/io.h) and of memory-mapped registers. The functions of
-- io.c are single instructions: a write enters a log, and a read is answered by the device, a
-- function of the log so far.
use mksd_old_archive.Base.{ℕ, List}

pub data Access : Type 0 where
  outb : (port value : ℕ) → Access
  inb : (port : ℕ) → Access
  outw : (port value : ℕ) → Access
  inw : (port : ℕ) → Access
  outl : (port value : ℕ) → Access
  inl : (port : ℕ) → Access
  write32 : (address value : ℕ) → Access
  read32 : (address : ℕ) → Access

-- The last access comes first.
abbrev pub Log : Type 0
Log = List Access

-- What the devices answer to a read of a port.
abbrev pub Device : Type 0
Device = Log → ℕ → ℕ
