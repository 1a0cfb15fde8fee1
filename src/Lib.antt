-- ===== src/Lib.antt =====
-- A model of nekosys, a 32-bit kernel with the libraries that it shares with its user programs, and
-- what is proved of it.
--
-- The program. The kernel keeps physical memory in page frames (kernel/memory/pagemanager.cpp) and
-- has a heap of its own (kernel/memory/heap.cpp). Threads (kernel/tasks/thread.cpp) wait on blockers
-- (kernel/tasks/blockers.cpp) and are run in turn by the scheduler (kernel/tasks/scheduler.cpp) on the
-- interrupts of the timer and of the system calls. Processes talk over named pipes
-- (kernel/namedpipe.cpp) and open files by the virtual file system (kernel/fs/vfs.cpp), which passes
-- reads on to FAT16 (kernel/fs/fat16.cpp). Page directories (kernel/memory/pagedirectory.cpp) map
-- virtual addresses to the frames. Processes (kernel/tasks/process.cpp) are found through a table
-- (kernel/tasks/processdir.cpp) and reach all of this by system calls (kernel/syscalls.cpp). Keyboard,
-- mouse and clock (kernel/device) give input; terminals and the framebuffer (kernel/video) show
-- output, of the kernel or of the one process that has the screen. Kernel and user programs use libneko: vectors, strings,
-- paths and ini files (libneko/include/nk). The scheduler keeps its queue in a vector, and paths are
-- vectors of strings.
--
-- The files.
--   Base: what the others share: lists, options and tests over the native numbers, words of 32 bits
--     (Base.Words) and the bits of a byte (Base.Bytes).
--   Neko.Vector: nk::Vector of libneko/include/nk/vector.h with its buffer, size and capacity
--     (EnsureCapacity, Add, Remove, RemoveBlock, Reserve, At, IndexOf, Contains, Clear). Growth,
--     Removal and Search hold the proofs for these groups of operations.
--   Neko.Text: nk::String of libneko/include/nk/string.h as the list of its bytes; Laws has the proofs.
--   Neko.FilePath: nk::Path of libneko/include/nk/path.h; Print is about the constructor and ToString,
--     Resolve about Resolve.
--   Neko.CircularQueue: nk::CircularQueue of libneko/include/nk/circularqueue.h; Fifo reads it as a
--     queue.
--   Neko.IniFile: nk::IniFile of libneko/include/nk/inifile.h; Sections is about what the parser keeps.
--   Memory.PageManager: Memory::PageManager of kernel/memory/pagemanager.cpp. Alloc is about single
--     frames, Continuous about AllocContinuous, Boot about Initialize and MarkPageframesAsUsed.
--   Memory.Heap: heap_init, kmalloc and kfree of kernel/memory/heap.cpp. Bitmap reads the allocation
--     map as a set of units, Blocks is about the two operations.
--   Memory.MemoryMap: Memory::MemoryMap of kernel/memory/memorymap.cpp; Largest is about the choice of
--     a chunk.
--   Memory.Paging: Memory::PageDirectory of kernel/memory/pagedirectory.cpp, over physical words in
--     which a walk through the tables translates addresses. Mapping is about tables and the words
--     they hold, Tables about GetPageTable, Promise about MapPage, Boot about the start of paging.
--   Tasks.Thread: the classes Thread, Process and the blockers as records in one store, Kernel, with
--     the operations Yield, Kill, Block and Sleep of kernel/tasks/thread.cpp.
--   Tasks.Blockers: IsBlocked of the blockers of kernel/tasks/blockers.cpp.
--   Tasks.Outcome: results of code that can read a deleted object or run forever.
--   Tasks.Scheduler: kernel/tasks/scheduler.cpp. Rotation is about FindNextThread, Switch about
--     ContextSwitch, Interrupt about HandleInterrupt.
--   Pipes: the manager of named pipes (kernel/namedpipe.cpp) and its system calls
--     (kernel/syscalls.cpp). Registry is about ids and names, Delivery about the packets.
--   Processes: kernel/tasks/process.cpp and kernel/tasks/processdir.cpp; Exit is about the end of a
--     process. Processes.Calls: the system calls of kernel/syscalls.cpp on processes, files, the
--     screen and shared buffers; Framebuffer is about the control of the screen, Lookup and Shared
--     are about shared buffers.
--   Environment: kernel/environment.cpp; Loading is about Load.
--   Elf: the images of libelf/elf.cpp. Elf.Loader: kernel/tasks/elfloader.cpp up to the loaded
--     sections; Coverage and Pages are about the pages of a section.
--   Devices: Keyboard (kernel/device/keyboard.cpp; Lines is about reading a line), Mouse
--     (kernel/device/mouse.cpp; Packets is about the queue of packets) and Cmos
--     (kernel/device/cmos.cpp).
--   Video: TextTty (kernel/video/texttty.cpp; Screen is about its cells), Framebuffer
--     (kernel/video/videomanager.cpp; Flush is about FlushBlock) and GraphicsTty
--     (kernel/video/graphicstty.cpp; Cursor is about PutChar).
--   Files.Vfs: the virtual file system (kernel/fs/vfs.cpp) over the interface of a file system
--     (kernel/include/kernel/fs/filesystem.h). Mounts is about the mount points, Handles about files.
--   Files.Fat16: Read of kernel/fs/fat16.cpp, over a block device that gives the bytes of its blocks.
--     Chain is about reading from the start of a file, Offset about reading further on.
--   Files.Directory: the directories of FAT16 (kernel/fs/fat16.cpp); Lookup is about GetFileMeta.
--   Files.Mbr: the partition table (kernel/fs/mbr.cpp).
--   Screen: rectangles (libgfx/include/gfx/rectangle.h) and the compositor's dirty region
--     (userland/sakura/DirtyRegionManager.cpp); Regions reads both as sets of points.
--   Sakura: the window system of userland/sakura: its pointer (Mouse.cpp; Bounds is about its place)
--     and its windows (Compositor.cpp: Adding is about AddWindow, Order and Fronting are about
--     BringToFront, Frames is about RenderFrame).
--   Shell: the command lines of userland/shell/CommandParser.cpp; Quoting is about parameters in
--     quotation marks.
--   The files named Tests run the definitions at concrete inputs, except Base/Tests, which has the
--     Boolean tests on numbers.
--
-- How the code is read.
--   Numbers are natural numbers; where the source computes with 32-bit words the wrap-around is
--     written out.
--   Memory that the code reads without a check of bounds (the frame map, the allocation map) is a
--     function on offsets, so that an access out of bounds has its effect there.
--   Objects that are shared and deleted (threads, processes) are entries of a store that may be gone.
--     A read of one that is gone is the outcome of its own that Tasks.Outcome gives it.
--   The loops of the source are structural recursion on what is left of their range. The loop of
--     FindNextThread has no bound; its fuel is one round of the queue, after which the same threads
--     would be tested again. The loop of Fat16::Read runs until the chain of clusters ends, within a
--     number of rounds that is a parameter: as many as the chain has clusters are enough.
--   Elements of a vector are of any type; what a fresh element holds is a parameter.
--   The kernel's font is a parameter of the graphics terminal; what fresh memory holds is part of
--     the state. The cache of translations of the processor is left out, and so is FlushPage.
--   Ports are read as the sequence of bytes that the device gives; writes to ports are left out.
--   The loops over the compositor's windows have fuel: a list of `n` windows needs one more round than
--     it has windows, and a list that has become a cycle is not ended by any.
--
-- Not modelled: the reading of FAT16's geometry; the start of a process by spawnp, with the arguments
-- and the stack that the loader gives it; the disk driver; the set-up of the video mode and of the
-- interrupts; GraphicsTTY::Clear; bitmaps and the drawing on them; the other user programs and the C
-- library; and of the parts above the machine context of a thread, the stacks, the task state segment,
-- the registers of the processor, and the ownership of buffers by destructors. The third-party code of
-- the repository (libpng/lodepng.cpp, libc/liballoc/liballoc.c, libneko/include/nk/function.h) is left
-- out too.
pub mod Base
pub mod Neko
pub mod Memory
pub mod Tasks
pub mod Pipes
pub mod Files
pub mod Screen
pub mod Devices
pub mod Processes
pub mod Video
pub mod Sakura
pub mod Shell
pub mod Elf
pub mod Environment
