-- ===== src/Lib.antt =====
-- Akari is a microkernel for i386 with its services and programs. This library models the core of the
-- kernel, what it allocates, what it schedules, and how processes talk to each other, and the services for
-- files and the keyboard.
--
--   * OrderedArray is src/inc/OrderedArray.hpp: cells kept in the order of a predicate. Its
--     operator[] is `get` and `put`, with insert and remove.
--   * Heap is src/Heap.cpp: the allocator of the kernel and of each process. Its index is an ordered array
--     of entries, which alloc, allocAligned and free split and merge.
--   * Memory is src/Memory.cpp's frame bitmap and the pages that take frames from it.
--   * Paging is the page tables and directories of src/Memory.cpp, with physAddr and mapPhysicalMem of
--     src/UserCalls.cpp and src/UserProcess.cpp. What allocAligned gives for new tables is a list in its
--     state.
--   * Elf is src/ELF.cpp: the loading of an image. The pages of the task are a map from their numbers, the
--     view of a directory that Paging has, and the frames are their bytes.
--   * Timer is src/Timer.cpp: the list of wake-ups, each with its wait relative to the one before.
--   * Tasks is src/Tasks.cpp: tasks, their message queues, port and privilege maps, what they block on,
--     and the choice of the next task, with returnToNextTask of src/Syscall.cpp.
--   * Ipc is src/UserIPCQueue.cpp: the message calls, over the tasks.
--   * Stream is the streams of src/Tasks.cpp, with the read and write calls of src/UserIPC.cpp.
--   * Text is the comparison and search of strings, of src/string.cpp.
--   * Text.Split is substr, trim and split of src/string.cpp; a round of split takes a byte at least.
--   * Text.Format is atoi and vasprintf of src/string.cpp, from a format and its arguments to the bytes.
--   * Calls is the name, process, privilege and interrupt calls of src/UserIPC.cpp, src/UserCalls.cpp,
--     src/UserProcess.cpp and src/UserPrivs.cpp, with callHandler of src/Descriptor.cpp. Its `System` adds
--     to the kernel of Tasks the registered names and the tasks that are not on the list.
--   * Fat is src/packages/fat/main.cpp: the volume, chains of clusters, reads of files, and directories.
--     The ATA service is a parameter: a function from a sector and a length to the bytes it answers with.
--   * Ata is src/packages/ata/main.cpp: reads and writes of bytes on a disk, and the loop over the requests.
--     The calls of MINDRVR are a parameter, whose hypotheses are those of a disk: a command for 1 to 256
--     sectors reads them, or replaces them. A read by DMA goes to physAddr of its buffer, a function of
--     Paging, and is a fault when the memory there is not the buffer's; the directory and the addresses
--     of the buffers are in the state or arguments. Ata.Requests puts the service behind the parameter
--     of Fat.
--   * Vfs is src/packages/vfs/main.cpp: the drivers, the root and who waits for it, and the loop over the
--     requests. What a driver answers is a parameter.
--   * Console is src/Console.cpp: the cells of the screen, the cursor, and the printing of characters.
--   * LinkedList is std::list of src/inc/list on a store of nodes; elsewhere such lists are sequences.
--   * Keyboard is src/packages/keyboard/main.cpp: the state that main starts in, the tables and the
--     loop from scancodes to bytes.
--   * Prelude has the shared helpers: tests, lists, machine words, bits and kernel results.
--
-- Each module declares the state and the operations, one function per function of the source in snake
-- case, and its children hold the theorems; the module Tests under each has small inputs. An operation
-- returns a `Result`: a value, `panic` for AkariPanic or a failed ASSERT (the repository builds with
-- DEBUG, where ASSERT panics), or `fault` for an access outside of an object. State is passed and
-- returned. Words are natural numbers, with u32 wrap-around written out where the source can overflow.
-- A pointer to a task is the task's id, and a pointer to a message is the message.
--
-- Loops are structural recursion, on the list they walk or on the number of rounds that is left: the
-- search of freeFrame has a round for each word and each bit, prepareFetchNextTask one for each task,
-- and cut's copy one for each byte it moves; the theorems show these to be enough.
-- The walks of Fat over a chain have the rounds as an argument; a read takes a round for each byte of its
-- offset and its length and two more. The loops of Ata over sectors have a round more than there are
-- sectors, the loop of Elf over a segment one more than it has bytes, and that of mapPhysicalMem, which
-- may not end, has its rounds as an argument. The theorems show these to be enough.
--
-- Not modelled: assembly, descriptor tables and paging registers; the placement allocator; task
-- creation and the core dump; the debugger; stream names and timed waits; the copies that
-- getProcessList makes; the other string functions; the other containers, which are sequences here;
-- and the other services and drivers under src/packages, of which src/packages/ata/mindrvr.cpp is a
-- third-party library.
mod Prelude
pub mod OrderedArray
pub mod Heap
pub mod Timer
pub mod Memory
pub mod Tasks
pub mod Ipc
pub mod Stream
pub mod Text
pub mod Calls
pub mod Fat
pub mod Keyboard
pub mod Vfs
pub mod Console
pub mod LinkedList
pub mod Ata
pub mod Elf
pub mod Paging
