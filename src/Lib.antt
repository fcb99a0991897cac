-- ===== src/Lib.antt =====
-- MatesOS: a kernel for x86_64, in C++, started by an EFI boot loader.
--
-- The kernel first takes over the physical memory (the page frame allocator reads the map of the
-- firmware and marks its pages in a bitmap), then builds page tables from pages of that allocator,
-- then reads the ACPI tables, finds the PCI devices through page tables and handles the keyboard
-- and the mouse. The modules follow these parts:
--
-- - Bitmap: kernel/src/utils/Bitmap.{hpp,cpp}. The buffer is the memory from its pointer on.
--   Bitmap.Count counts the bits that are set.
-- - EfiMemory: kernel/src/utils/efiMemory.{hpp,cpp}. The descriptors are given by index, and the
--   size of one descriptor by the firmware.
-- - FrameAllocator: kernel/src/memory_management/PageFrameAllocator.{hpp,cpp}, one function for
--   each method with its name. FrameAllocator.Boot is ReadEFIMemoryMap, FrameAllocator.Marks what a
--   range of calls does to the bitmap, FrameAllocator.Consistent the invariant of the counters.
-- - Paging.Entry: kernel/src/memory_management/paging.{hpp,cpp}; Paging.Indexer:
--   PageMapIndexer.{hpp,cpp}; Paging.Manager: PageTableManager.{hpp,cpp}. The memory of the tables
--   is a map from the address of a word of eight bytes to its value. The manager asks for pages
--   through the interface Paging.Source, which Paging.FramesSource fills with the page frame
--   allocator. Paging.Manager.Tree is the invariant: the tables in use form a tree, and the
--   allocator holds none of them as free. Paging.Manager.Leaf has what the processor finds for an
--   address, which unlike WalkMemory tests all four entries.
-- - Heap: kernel/src/memory_management/heap.{hpp,cpp}; Heap.Segments has the headers, Split,
--   CombineForward and CombineBackward. Headers are kept by their address and do not overlap.
--   Heap.Chain says that they tile the heap, and Heap.Used lists the blocks in use. Heap.Walk is the
--   search of malloc, Heap.Expand is ExpandHeap, and Heap.Calls and Heap.Sequences have
--   the sequences of calls.
-- - Strings: kernel/src/library/string/strlen.cpp, strcmp.cpp and to_string.cpp. A string is the
--   memory from its pointer on; a buffer is static, and keeps what it held before.
-- - Acpi: kernel/src/acpi/acpi.{hpp,cpp} and checksum of kernel/src/utils/helpers.cpp.
-- - Drivers: kernel/src/utils/driver.{hpp,cpp}. The type of a driver and its activate method are
--   parameters: a driver is any class that derives from Driver.
-- - Pci: kernel/src/PCI/pci.{hpp,cpp}. Every header is mapped through Paging.Manager before it is
--   read; the configuration space is what the hardware answers at the address of a byte.
--   Pci.Functions lists the functions without the table of 32 headers, by its own test for a device.
-- - Madt: MADTInit of kernel/src/apic/madt.cpp; Madt.Records is its loop. A write past the end of
--   one of its tables ends it, with a result of its own; so does fuel that runs out, with another.
-- - Ahci: kernel/src/ahci/ahci.{hpp,cpp}; Ahci.Engine stops and starts a port, Ahci.Setup configures
--   it, Ahci.Command reads: what it writes, in order, and what it returns. What reads of a register
--   of the controller give is a parameter.
-- - Facp: kernel/src/facp/facp.{hpp,cpp}. The memory is read by bytes; Shutdown and Reboot are the
--   writes that they make, in order.
-- - Renderer: kernel/src/renderer/basic_renderer.hpp with its three files, br_color and framebuffer.hpp.
--   A frame buffer and a font are set; the pixels are a map from their indices. Renderer.Overlay and
--   Renderer.Restore are about the mouse pointer, Renderer.Text about the text cursor.
-- - Interrupts: kernel/src/interrupts/IDT.{hpp,cpp} and interrupts.cpp, and the gates of
--   kernel/src/utils/kernelUtil.cpp. Timer: kernel/src/scheduling/pit/pit.{hpp,cpp}. Writes to ports
--   are lists.
-- - Blocks: kernel/src/library/memory/memset.cpp, memcpy.cpp, memmove.cpp and memcmp.cpp. The address
--   that new gives memmove is a parameter.
-- - Input.Keyboard: kernel/src/userinput/kbScancodeTranslation.cpp and keyboard.cpp; Input.Mouse:
--   kernel/src/userinput/mouse.cpp.
--
-- Words are native numbers; a result that C++ cuts to w bits is cut by u8 to u64 of Base.Word, and a
-- difference of unsigned words wraps by sub64. Signed numbers are those of Base.Int. Panic halts the
-- machine: it is the result without a value of Base.Panic.
--
-- Loops with a count are structural recursion on what is left of it. The other loops run on fuel:
-- RequestPage on the bits from the hint on, which is as many steps as the loop can take; the ranged
-- IndentityMapMemory on the pages of the rounded size, one for each and one for the test that ends it,
-- which is enough for every range; the digits of to_string on 20, the most that a word of 64 bits has; strlen and strcmp on any number, and one more than the length
-- of the string is enough; malloc on the segments it walks, where fuel for two more than there are
-- is enough, and on the calls of itself, of which it makes at most two; the lines that PutChar
-- scrolls on 2, where one pass and the end of the loop are enough; the loops that wait for the SATA
-- controller on its reads, where one more than the read from which its bits stay clear is enough;
-- the walk over the MADT on one more than the length of the table, which is enough where no record
-- has length 0.
--
-- Not modelled: the constructor and the destructor of the AHCI driver, the renderer without a frame
-- buffer, the messages on the screen, the interrupt handlers, the APIC registers, the time since the
-- start, the names of PCI devices, the boot loader and the order of the kernel's start. The boot
-- loader, the names and the start are left for later; port access, descriptor tables and processor
-- identification are single instructions. gnu-efi is the library of another project.
pub mod Acpi
pub mod Ahci
pub mod Base
pub mod Bitmap
pub mod Bits
pub mod Blocks
pub mod Drivers
pub mod EfiMemory
pub mod Facp
pub mod FrameAllocator
pub mod Heap
pub mod Input
pub mod Interrupts
pub mod Madt
pub mod Paging
pub mod Pci
pub mod Renderer
pub mod Strings
mod Tests
pub mod Timer
