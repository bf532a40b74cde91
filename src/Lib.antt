-- ===== src/Lib.antt =====
-- Verification of the foundation library of node.cpp.
--
-- The library gives the other parts of node.cpp their pointers, messages, logs and errors. Eight
-- parts are modelled here. The first is its tagged pointers (include/tagged_ptr_impl.h and
-- src/tagged_ptr_impl.cpp): pointers that carry a mark, flags, a mask or data. Each comes twice,
-- a generic structure that keeps every part in a member of its own and an optimized one that
-- packs the parts into the unused bits of 64-bit words. The build selects one of them; both are
-- meant to give a program the same answers. The second is the message of include/internal_msg.h,
-- which keeps its bytes in pages, lists the first four pages itself and the others in index
-- pages. The third is string_ref of include/string_ref.h, the string that the error classes
-- carry. The fourth is the log of include/log.h and src/log.cpp: threads put messages in a
-- circular buffer under its lock, and a thread writes the buffer to a file. The fifth is the stack of
-- include/stack_info.h, src/stack_info.cpp and src/stack_info_impl.h: the addresses of a stack are
-- taken at once, and written out later with what the program addr2line says of each. The sixth are the
-- errors of include/error.h, include/std_error.h and include/safe_memory_error.h, which in one build
-- carry such a stack and in the other a code alone. The seventh are the allocators of
-- include/allocator_template.h, include/malloc_based_allocator.h and src/page_allocator.cpp. The
-- eighth are the assertions of include/nodecpp_assert.h and src/nodecpp_assert.cpp.
--
--   - Base: names from the library passed on, Boolean tests on numbers (Base/Tests), the binary
--     digits of a number (Base/Bits), shifts and complements of 64-bit words (Base/Words).
--     Base/Outcome: what a call comes to, a value or one of the failures the code throws.
--     Base/Store: the objects of a program, so that a call that takes another object by
--     reference can be given the same object. Base/Lists: lists of bytes and of blocks, and what is
--     assumed of malloc. Base/Bytes and Base/Circle: bytes of a block, and of a block that is gone
--     round in a circle.
--   - TaggedPtr/Layout: the constants of the layout and low_non_zero_bit_pos.
--   - TaggedPtr/Zombie: generic_ptr_with_zombie_property_ and optimized_ptr_with_zombie_property_.
--   - TaggedPtr/ZombieData: generic_allocptr_with_zombie_property_and_data_ and its optimized form.
--   - TaggedPtr/Flags: generic_allocated_ptr_with_flags_ and its optimized form.
--   - TaggedPtr/MaskFlags: generic_allocated_ptr_with_mask_and_flags_ and its optimized form.
--   - TaggedPtr/PtrPtr: generic_ptrwithdatastructsdefs_ and optimized_ptrwithdatastructsdefs_, for
--     every configuration that the static assertions accept.
--   - Message/Memory: the pages that malloc gives, as bytes or as index pages (IndexPageHeader), and the
--     sizes. Message/Image: the bytes of an InternalMsg object. Message/Buffer: implAddPage, append and appendUint8.
--     Buffer/Contents: the invariant of the pages and index pages and the list of bytes a message
--     stands for; Buffer/Index: the index pages as pages are added.
--     Message/Lifetime: release, clear, moves, convertToPointer and restoreFromPointer, the bytes
--     reserved for the application, size. Message/Reading: ReadIter, which reads and skips bytes of a
--     message that nobody changes meanwhile. Message/Transfer: append of a ReadIter, of another message.
--   - StringRef: string_ref with its copies and moves over a memory of blocks and literals.
--     StringRef/Laws: the owners of its blocks.
--   - Log/Counters: LogLevel and SkippedMsgCounters with toStr. Log/State: LogBufferBaseData, its
--     start and end, and the objects that threads wait with. Log/Ring: insertSingleMsg and
--     justWrite. Log/Transport: insertMessage and addMsg of LogTransport, a part of a call for each
--     time it has the lock of the buffer. Log/Writer: a cycle of LogWriter::runLoop_ in its parts.
--     Log/Machine: the parts of calls and of cycles interleaved in any order, as a step relation;
--     Machine/Stream, the bytes of the file and of the buffer as one list. Log/Format: time stamps,
--     writoToLog and the text that log makes. Log/Front: Log with its levels and transports, and
--     default_log. Log/Forwards: fatal, error and the other calls that name a level. Log/Sinks: sinks
--     opened by a path, moves of transports, and how the thread of the writer begins and ends.
--   - Stack/Text: what is used of std::string and of the input of C. Stack/Resolve: what is found out
--     about an address (dladdr, sh, callAddr2Line, parseAddr2LineOutput), for GCC and Clang on Linux.
--     Stack/Cache: StackPointerInfoCache; Cache/Entries, what its entries stand for, Cache/Reached, the
--     caches that a run has. Stack/Pointers: StackPointers, arrays that their objects own. Stack/Info:
--     StackInfo, its text and its calls of the log; Info/Frames and Info/Taken, what the text is.
--   - Error/Messages: the codes and their texts. Error/Class: error, over what its domain does
--     (DomainOps). Error/Codes and Error/Traced: the domains of the two builds, which fill it in.
--     Error/Logging: log of the errors.
--   - Allocate/Elements: selective_allocator over StdRawAllocator. Allocate/Pages and Allocate/Wasm:
--     VirtualMemory as built for Linux and for WASM.
--   - Assert: nodecpp_assert and onAssertionFailed. In the other parts a failed assertion throws.
--   - Tests: every theorem applied at a concrete input.
--
-- In the tagged pointers Generic and Optimized are the two structures, with one function per member
-- function; Laws and Refine hold what is proved. A pointer is its address, a number; the
-- optimized structures work on numbers below 2 ^ 64 with the shifts and complements of a 64-bit
-- word. A failed assertion throws, as with the assertion header of the repository
-- (include/default_assert.h). The search of low_non_zero_bit_pos is on fuel, 64 steps, which is
-- enough for every 64-bit number but 0. The loop of append is on fuel, the number of bytes to
-- append, since a round writes one at least, and those of read and skip on one more than the bytes
-- to read; the loop over index pages is on the count of pages left, since an index page lists one
-- at least. malloc is a parameter, a function from the
-- blocks in use to a block; what is assumed of it is IsMalloc, that the block is not null and
-- not in use, and for strings IsApart, that it is no literal. A page is seen as bytes or as an index
-- page, by what the code casts it to; the two views are kept apart, since a page of a message is used in
-- one way at a time. A message turned into a pointer is copied as 80 bytes to the reserved first bytes of
-- its first page.
--
-- A level of the log is its number. The formatting library is a parameter: the text of a number
-- and of a time stamp, and format_to_n; what is assumed of it is IsDecimal and IsFormatter, that a
-- uint32_t has at most ten digits, a stamp at most 21 bytes, and that format_to_n writes at most as
-- many bytes as it is told and returns the size of the whole text. A wait of a thread is a value of
-- a result (Progress), and its end a step that asks for canRun; notifications leave no state. The
-- loop of the writer over the transports that wait is on fuel, one for each of them, which is
-- enough when none is in the list twice; Log/Machine takes its rounds one at a time, with other threads
-- between them.
--
-- What a stack uses of the system is a parameter (System): dladdr, the output of a command, and numbers
-- as text; so are malloc of the arrays, which may give nothing, and the stack that backtrace gives. A
-- string_ref of a StackInfo is its characters. The loop of sh is on fuel, one round more than there are
-- bytes to read, since a round that is not the last reads one at least. The constants of cerrno, of the
-- compiler, and mmap, munmap and msync are parameters too; what is assumed of them is IsErrno,
-- IsCLibrary and IsSystem. The lines that the page allocator logs before it throws are left out.
--
-- Not modelled: append of a ReadIter of the message itself, the call of std::thread that starts the
-- writer of a log, the branches of the stack for Windows, Mac and Android and of the page
-- allocator for Windows, which are calls of those systems, the translation of processor exceptions,
-- and the macros and aliases of the platforms.
pub mod Base
pub mod TaggedPtr
pub mod Message
pub mod StringRef
pub mod Log
pub mod Stack
pub mod Error
pub mod Allocate
pub mod Assert
pub mod Tests
