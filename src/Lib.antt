-- ===== src/Lib.antt =====
-- The core of the Staxus kernel, modelled function by function and verified. File names below are
-- those under the repository's src/.
--
-- Parts, and how they interact. Memory/Identity is the allocator of memory/managers/identity.c:
-- block headers lie in the memory that they manage, which Memory/Bytes models as a function from
-- addresses to bytes, with little-endian words of 16, 32 and 64 bits. Memory/Utils is
-- memory/utils.c on the same memory; idalloc_realloc copies with its memcpy. Strings/Utils is
-- string/utils.c, and Strings/Format the numerals of string/format.c and HexString of
-- video/print.c. Storage is storage/block.c and storage/partition/partition.c; Storage/Mbr and
-- Storage/Gpt read partition tables from a block device and register a device for each partition.
-- Files is file-systems/file-system.c: it mounts a block device with the first driver that claims
-- it, and passes calls on paths and files to the mount's driver. Fat32 is file-systems/fat32.c on a
-- block device of Storage: Fat32/Chain the file allocation table, Fat32/Transfer the bytes of
-- files, Fat32/Entries and Fat32/Directory directory entries and the walk over them, Fat32/Names83,
-- Fat32/Parse and Fat32/Write short and long names, Fat32/Search and Fat32/Create the search for a
-- path and new entries, and Fat32/Calls the functions that the driver registers. Memory/Manager is
-- memory/alloc.c, which hands calls to the loaded manager, and Mouse the packet handler of
-- io/mouse.c. Strings/Numerals has the theorems on the numerals of Strings/Format. Video/Screen is
-- video/gop.c and Video/Print vslprintf and its relatives of video/print.c; Video/Console is the
-- cursor of lprintf and printf on both. Images is file-formats/pe.c on an image in memory.
-- Interrupts is interrupt/gdt.c, idt.c, isr.c, irq.c and apic.c: a device's interrupt goes through
-- the table of isr.c to stub of irq.c and from there to the handler that installIRQ set. Pci is
-- bus/pci.c. Fonts is LoadFont of file-formats/psf/krnl.c, with the calls of the file system as a
-- parameter.
--
-- State. The allocator's static variables and the memory are the record Heap. The string functions
-- take a memory and return one. Storage has the record Storage of the two tables, Files the record
-- Vfs; both hold a world, a type parameter that stands for all that drivers and the allocator
-- change. Drivers and the allocator are records of functions on the world. A function pointer that
-- the source compares with NULL is an option. The laws that a theorem needs of them are its
-- hypotheses, such as Ledger in Storage/Ledger (a count of live allocations that malloc, aalloc and
-- free keep) and Disk in Fat32/Disk (reads copy from the disk to memory, writes copy back).
--
-- Integers. Numbers are natural numbers; sums and products of 64-bit words wrap through add64,
-- sub64 and mul64 of Memory/Identity, and a C comparison result is an integer of Base/Int. Pointers
-- are addresses; the address of a field below 2 ^ 64 does not wrap.
--
-- Loops and fuel. A counted loop recurses on the rounds left. A walk along a chain or to a
-- terminator takes fuel, and its result is none only when the fuel runs out: one more than the
-- number of blocks, or than the length of the string or of the bytes to read, is enough, which the
-- theorems state. The padding loop of idalloc_aalloc runs at most 24 rounds, since each adds at
-- least 1 to a number up to 24. The digits of a number below 2 ^ f take f + 1 rounds. The search of
-- PCIFindDevice and the shifts of the screen down and to the right have no fuel that is enough,
-- since the loops do not end, which is a theorem of each.
--
-- Specifications. Memory/Identity/Blocks and Join hold the allocator's abstract view: a list of
-- blocks, first fit, release, and what it means that a memory holds the blocks. Files/Table holds
-- lists of mounts, Fat32/Listed which entries a directory lists, Fat32/Resolve what it means that a
-- path leads to one, and Storage/Access the place of a device on the physical device below it.
--
-- The files named Tests apply the theorems to small inputs.
--
-- Not modelled: hardware access (storage/ahci.c, the keyboard and the serial port of io, the
-- machine instructions of interrupt, the port of bus/pci.c, whose replies are a parameter),
-- exceptionStub of interrupt/isr.c, the firmware's boot loader and kernel_entry.c, LoadFontEFI of
-- file-formats/psf/efi.c, floating point in math and FloatToString, and of file-formats/pe.c the
-- reading of the file, imports and unloading. In Files a string is the list of its characters, and
-- comparisons are those that Strings/Utils proves of strcmp and memcmp.
pub mod Base
pub mod Fat32
pub mod Files
pub mod Fonts
pub mod Images
pub mod Interrupts
pub mod Memory
pub mod Mouse
pub mod Pci
pub mod Storage
pub mod Strings
pub mod Video
