-- ===== src/Lib.antt =====
-- MKSD, a small x86-64 kernel in C (sys/src, sys/include): a verification library of its parts.
--
-- The kernel is booted by Limine, which hands it a memory map. init.c brings up the physical
-- memory manager (mm/pmm.c), the page tables (mm/vmm.c, mm/mmap.c), a heap (mm/heap.c), the
-- interrupt controllers (arch/x64), ACPI, the PCI bus (arch/bus/pci.c), the disk and network
-- drivers, a small network stack (net), and a file system layer (fs).
--
-- Base: words of w bits with their wrap-around, bit operations read bit by bit, lists over the
--   native numbers, and byte-addressed memory with C strings. Base/Store holds memset, memzero and
--   memcpy of sys/src/lib/string.c. Base/Layout is the layout of C structs: `sizeof`, `offsetof`,
--   and `member`, a field in memory.
-- Mm/Pmm: sys/src/mm/pmm.c. `Pmm` is its state: the memory map, the address of the bitmap, and
--   memory. Each function of the file has its name. Mm/Pmm/Bitmap is about one bit, Mm/Pmm/Alloc
--   about allocation and release, Mm/Pmm/Init about init_bitmap and the sizes it computes.
--   Mm/Pmm/Frames is the specification of the allocator, a set of free frames, and Mm/Pmm/Refine
--   relates the two over histories of calls.
-- Text: sys/src/lib/string.c. Memory is a function from addresses to bytes, and string literals
--   never occur in it; a block that kmalloc returns is an argument. Text/Compare, Text/Split and
--   Text/Append are about the string functions, Text/Number about dec2str and hex2str, whose static
--   buffer is a memory of its own, and Text/Snprintf about snprintf, whose arguments are a list.
--   Text/Printk is printk of sys/src/lib/log.c; the terminal of the boot loader is the list of the
--   bytes that it was given.
-- Mm/Heap: sys/src/mm/heap.c, with its headers in memory. Mm/Heap/Blocks is about kmalloc.
--   Mm/Heap/Chain has the live blocks as a list and what holds of their headers, Mm/Heap/Unlink is
--   about kfree, Mm/Heap/History about histories of calls and of writes by the owners of blocks,
--   Mm/Heap/Kept about the bytes that a call writes and the pages that kmalloc runs out of, and
--   Mm/Heap/Resize about krealloc.
-- Mm/Vmm: sys/src/mm/vmm.c, and sys/src/mm/mmap.c in Mm/Vmm/Mmap. `Vmm` is the state of Mm/Pmm and
--   the addresses given to invlpg. Tables are read and written in that memory, at the addresses the
--   code computes. Mm/Vmm/Walk is about lookups, Mm/Vmm/Map about mapping, Mm/Vmm/Flags about the
--   page flags.
-- Arch/Ports: port accesses as a log; what a device answers to a read is a parameter.
-- Arch/Pci: sys/src/arch/bus/pci.c. Arch/Pci/Address is about configuration space, Arch/Pci/Bars
--   about what is read from and written to one function, Arch/Pci/Scan and Arch/Pci/Find about
--   pci_find and pci_find_any. The hypothesis `Mechanism` says that the host bridge follows
--   configuration mechanism 1 of the PCI specification.
-- Arch/Devices: sys/src/arch/x64/idt.c, ioapic.c and lapic.c, sys/src/intr/irq.c and
--   sys/src/drivers/timer/pit.c. Registers in memory are accesses of the same log as ports.
--   Arch/Devices/Table has what lidt loads, Arch/Devices/Sleep the functions that wait, and
--   Arch/Devices/Timing is about how they end; how many interrupts come in front of a test of a
--   loop is an argument.
-- Arch/Exceptions: sys/src/arch/x64/exceptions.c. Its handlers are in Arch/Exceptions/Handlers, on
--   Text/Printk, and Arch/Exceptions/Halt is about what they do. What follows if the processor
--   wakes from the hlt of a handler is left out.
-- Acpi: sys/src/acpi/acpi.c. `Acpi` holds its static variables; the tables are read from memory.
--   Acpi/Structs is sys/include/acpi/def.h. Acpi/Madt is about the walks over the MADT and the
--   checksum of a table.
-- Drivers/Ahci: sys/src/drivers/hdd/ahci.c: command slots, the command engine and the type of a
--   drive in Drivers/Ahci, take_ownership in Drivers/Ahci/Handoff, the commands that read and write
--   a drive in Drivers/Ahci/Command, and the set-up of a port in Drivers/Ahci/Ports, where a
--   parameter stands for what the disk writes to memory. Drivers/Ahci/Init has init_ports and
--   ahci_init, on Arch/Pci, Fs and Text/Snprintf. Drivers/Ahci/Slots is about find_cmdslot,
--   Drivers/Ahci/Tables about the command tables of a port, Drivers/Ahci/Fis, Drivers/Ahci/Built
--   and Drivers/Ahci/Fields about what the HBA finds in memory for a command, by the structs of
--   sys/include/drivers/hdd/ahci.h in Drivers/Ahci/Structs, and Drivers/Ahci/Drives about the names
--   of drives in /dev.
-- Drivers/Rtl8139: sys/src/drivers/net/rtl8139.c. `Nic` holds the variables of the file, memory,
--   and the interrupt controller with its log; `Card` holds the answers of the card, its writes by
--   DMA, and the blocks from kmalloc. Drivers/Rtl8139/Interrupt has the interrupt handler and
--   Drivers/Rtl8139/Boot the initialisation, which uses Arch/Pci, Mm/Pmm and Arch/Devices. The
--   other files are about sending, receiving, the answer to ARP packets, the end of the handler,
--   and what holds after every history of calls and interrupts.
-- Fs: sys/src/fs/vfs.c and devfs.c, on Text and a hash map, which is a parameter (`HashMap`) with
--   the laws of `IsHashMap`. A key is the bytes that it has at the call; hashmap.h keeps its address,
--   and the laws hold while these bytes stay there. Fs/Maps is a map with these laws. Fs/Block is sys/src/block/dev.c, on Fs and
--   Drivers/Ahci/Command, and Fs/Ext2 is sys/src/fs/ext2.c, with the superblock of
--   sys/include/fs/ext2.h in Fs/Superblock. Fs/Names and Fs/Path are about the lookup of a path,
--   Fs/Open about fopen, Fs/Devices about the nodes made at boot, and Fs/Drive about block devices
--   with and without a disk.
-- Kernel: sys/src/init.c, which calls the other parts in order. The bitmap, the strings of the file
--   system, the disk and the network card have a memory of their own each, as in these parts; the
--   accesses to devices are one log. Kernel/Gates is about the interrupt gates after `_start`, on
--   Drivers/Rtl8139/Gates, which is about those that rtl8139_init leaves. heap_init is called by
--   kmalloc, whose blocks are arguments here.
-- Vector: the macros of sys/include/lib/vector.h, on Mm/Heap; no file of the kernel uses them. The
--   size of an element is an argument. Vector/Elements is about the bytes of the elements,
--   Vector/Stack about a push and a pop of a vector that has a block, Vector/Step about one that may
--   have none, Vector/History about histories of both, and Vector/Overrun about VECTOR_POP_AT.
-- Net: sys/src/net. The headers of packets are in Net/Structs. Net/Checksum is checksum.c, the
--   other files are in Net itself. `Env` holds the blocks that kmalloc returns and what the NIC
--   driver says; Net/Frame is about Ethernet frames, Net/Message about ICMP messages and the wait
--   for an ARP reply.
-- A module Tests holds runs at concrete inputs.
--
-- Bounds and fuel: a loop that runs to a NUL takes fuel, and `none` is a run that did not end;
-- the length of the string, plus one, is enough. dec2str takes 22 and hex2str 32, more than the
-- digits of a 64-bit number. The carries of a checksum fold away in 4 rounds. release_entry takes
-- one round for each page of the entry and one more.
-- A result `none` of init_bitmap, pmm_alloc_inner and pmm_alloc is get_bitmap_size where no
-- entry of the map is usable: it dereferences NULL.
--
-- The waits of the drivers for their devices, the walks over the MADT and the search for _S5 take
-- fuel: more than the entries is enough for the walks, and more than the interrupts that the card
-- reports is enough for the handler of the RTL8139. In Fs and the RTL8139 driver an `Outcome`
-- tells a loop whose fuel is used up from an access that C leaves undefined.
-- The loop of VECTOR_POP_AT takes half of the elements from the index on, rounded up.
-- pit_sleep takes one round of fuel for each test of its loop, and lapic_timer_calibrate one for
-- each read of the counter; printk and the strings that it puts take their length, plus one, and
-- at least 22, for the digits of a number.
--
-- Not modelled: the assembly of io.c and cpu.c, which is the hardware's, but for the accesses in
-- Arch/Ports; the vendored headers hashmap.h and limine.h; what the parts other than the handlers
-- of exceptions.c print; the heap behind the kmalloc calls of the parts outside Mm/Heap and
-- Vector, where a block is an argument; and the layout in memory of nodes and files of vfs.c and of
-- the devices of pci.c, which are records.
pub mod Acpi
pub mod Arch
pub mod Base
pub mod Drivers
pub mod Fs
pub mod Kernel
pub mod Mm
pub mod Net
pub mod Text
pub mod Vector
