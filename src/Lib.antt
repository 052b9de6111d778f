-- ===== src/Lib.antt =====
-- AmazingOS: its kernel in Kernel/CrecentKernel/src.
--
-- The kernel starts in kernel/main.cpp, which sets up memory, the scheduler, the drivers and the file
-- systems and then runs the window manager. Interrupts feed the PS/2 driver, whose rings the window
-- manager polls. The VFS dispatches a path to the RAM overlay, or to the file system that is mounted
-- on the longest prefix of the path: TarFS over the initial RAM disk at /tar, exFAT at /disk.
--
-- Base holds what the parts share: Boolean tests on ℕ, lists over the native ℕ, integers, and memory
-- as a function from addresses to bytes.
--
-- Ps2 models drivers/ps2.cpp. `Ps2` is its static state; `handle_keyboard_interrupt`,
-- `handle_mouse_interrupt`, `poll_*` and `inject_*` have the names of the source, and `step` is one of
-- them. The bytes that the ports return are arguments. Ps2/Ring has the two rings, Ps2/Keymap the scan
-- code tables, and Ps2/Refinement the abstract driver with two bounded queues.
--
-- Fs/Node models the structures of fs/vfs.hpp and `ram_read` and `ram_write` of fs/vfs.cpp. A function
-- pointer is a `Handler`, and a `VFSNode*` a `NodeRef`. Sizes are 64 bits wide, so that sums are taken
-- modulo 2 ^ 64; addresses are not reduced. Fs/CString has the string helpers.
--
-- Fs/Tarfs models fs/tarfs.cpp: `tarfs_finddir` and `tarfs_readdir` in Fs/Tarfs itself, and
-- `tarfs_init` in Fs/Tarfs/Init. The walk over the archive runs on fuel, one step more than the range
-- has bytes, which is enough since each header moves it forward. A header's name is read within 512
-- bytes. The printed messages are left out, and so is the mount at the end, which is `register_mount`. A
-- directory that a lookup allocates is a node of the table, or one of a second list where the table is
-- full. Fs/Tarfs/Listing/Distinct and Fs/Tarfs/Listing/Complete are about the subdirectories listed.
--
-- Fs/Vfs models class VFS of fs/vfs.cpp: `World` is its static state with the table of TarFS, the
-- state of exFAT and memory. `open_path` is `VFS::open`. Fs/Vfs/Handle has `VFS::read` and
-- `VFS::write`, which share the handle of type `File`. exFAT is a parameter, the record `Exfat`.
--
-- Fs/Exfat models fs/exfat.cpp over a disk driver that is a parameter, the record `Ahci`, whose calls
-- return sectors or fail. `Volume` is the static state that the boot sector sets. The loop of
-- `Exfat::read` runs on fuel, one step more than there are bytes, and the walks over a directory on
-- 2 ^ 32 steps, after which a chain of 32-bit clusters has come back to where it was. Fs/Exfat/Reading
-- compares `exfat_read` with the bytes of the clusters, Fs/Exfat/Writing has the write and the mount,
-- Fs/Exfat/Directory the lookup and Fs/Exfat/Listing the listing. A cluster of more than 4096 bytes
-- overruns the buffer that the source has for it on the stack: for the read, an argument `overrun` stands
-- for what comes of it, and the other operations are modelled for clusters that fit.
--
-- Fs/Partition models fs/partition.cpp over the same driver: `find_exfat_partition`, whose `none` is a
-- division by zero. Behind the 512 bytes of its sector buffer stands an argument, which entries of fewer
-- than 40 bytes lead it to read.
--
-- Scheduler models kernel/scheduler.cpp with explicit pointers: `threads` is the store, and the run
-- queue and the list of all threads go through the links `next` and `all_next` in it. Searches run on
-- fuel; the theorems show that one step more than the list has threads is enough. `waitpid_begin` and
-- `waitpid_end` are the two halves of `scheduler_waitpid` around its call of `schedule`. Interrupts are
-- off in all of it. File descriptors, saved registers and the stack of a new thread are left out.
-- Base/Chain has the lists behind links, Scheduler/Choice the choice of the next thread.
--
-- Pmm models kernel/pmm.cpp: the free list runs through the first words of the free frames, in memory
-- of 64-bit words. `register_region` runs on fuel. The bounds of the kernel image, which the linker
-- sets, are arguments. Pmm/Modules has the search for modules in the boot information, on fuel for one
-- step more than it has bytes, and Pmm/Maps the memory maps and `pmm_init`, with fuel as an argument.
-- The boot information is a function that frames which become free do not change.
--
-- Vmm models kernel/vmm.cpp over the frame allocator: a table is its physical address, and its entries
-- are words of memory. The names are those of the source, with `active_pml4` as an argument.
-- `ensure_table` is the step that the source writes out for each level. Vmm/Space has the creation of an
-- address space, Vmm/Teardown and Vmm/Cloning its end and its copy, and Vmm/Boot the start-up. Vmm/Tables
-- gives each table a level, 4 for a PML4, and Vmm/Walks has the walk of an address. TLB and CR3 are left
-- out, as is the printed dump of a walk.
--
-- Heap models kernel/heap.cpp over Pmm and Vmm: `kmalloc` and `kfree`. The headers of pages are records
-- at their addresses, apart from the words that link free objects. The search for a slab runs on fuel,
-- one step more than the cache has slabs. Heap/Carving has the objects of a new slab, Heap/Slabs and
-- Heap/Allocation what an allocation and a release do to slabs.
--
-- Display models rectangles, the damaged parts of the screen and drivers/framebuffer.cpp. An `int` is an
-- integer (Base/Int): a sum that leaves 32 bits is undefined in the source and is not reduced. Display/Dirty
-- is the list of damaged rectangles of kernel/wm.cpp. Display/Framebuffer has the static state of
-- class Framebuffer and its operations on pixels, over memory of 32-bit words at their addresses; a loop
-- over rows and columns runs on the steps that are left. `draw_line` runs on fuel, one step more than the
-- columns and rows of the line. Display/Framebuffer/Fill compares `draw_rect` with the rectangle and the
-- clip rectangle, pixel by pixel.
--
-- Windows models the list of windows of kernel/wm.cpp with explicit pointers, like the scheduler, on fuel
-- for one step more than there are windows.
--
-- Syscall models the check of user buffers of kernel/syscall.cpp over the page tables of Vmm, and
-- Syscall/Files the file descriptors of a thread with sys_open, over the VFS, sys_close and the copy that
-- sys_fork makes. A descriptor points to a slot of its thread by the slot's index.
--
-- Display/Framebuffer/Swap copies the back buffer to the two pages of video memory, in words of 32 bits:
-- a line of the screen is a whole number of them. Swap/Copies, Swap/Rects and Swap/Sync follow a word, a
-- rectangle and the two pages.
--
-- Network models the packets of kernel/syscall.cpp: `ip_checksum` and `tcp_checksum` over the bytes, with
-- fuel for the loop that folds a sum, of which three rounds are enough, and in Network/Sockets what
-- `pci_poll_network` and the socket calls do to a socket. Network/Sockets/Stream runs a connection over the
-- segments that arrive and the calls that receive, in any order.
--
-- Vga models drivers/vga.cpp: the text screen in memory, its cursor and scrolling.
--
-- Not modelled: the ELF loader; the system calls but those, the packets that are sent, ARP and
-- waiting for the network; of the window manager the drawing, the desktop, the events and the
-- applications; of the frame buffer its set-up, the wallpaper, the round shapes, text and the copy
-- of images (`blit_buffer`); fonts and the serial port; the device drivers but PS/2, and of PS/2 the
-- set-up of the controller; start-up code, assembly, and the third-party font rasterizer.
mod Base
pub mod Ps2
pub mod Fs
pub mod Scheduler
pub mod Pmm
pub mod Vmm
pub mod Heap
pub mod Display
pub mod Syscall
pub mod Windows
pub mod Vga
pub mod Network
