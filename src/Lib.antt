-- ===== src/Lib.antt =====
-- The native code of EnvironmentCheck: the message loops with their tasks, their queues and the
-- merging of queues, the concurrent loop, the events and latches that threads wait for,
-- reference-counted, shared and weak pointers, the trie of prefixes, hexadecimal, Base32 and
-- Base64 text, and the checks of the environment.
--
-- The program's parts and the files that model them. Paths are from the repository's root.
-- - DelayedTask.antt models app/src/main/cpp/delayed_task.h, delayed_task.cc and
--   task_source_grade.h: a task, its order (operator> is the function >) and the heap of tasks.
-- - TaskSource.antt models task_source.h and task_source.cc beside them: the two heaps of a
--   queue, of which the secondary can be paused. GetNumPendingTasks is get_num_pending_tasks,
--   RegisterTask is register, PopTask is pop_task, and so on; Contents and Top hold the proofs.
-- - TaskQueues.antt and the files below it model message_loop_task_queues.h and
--   message_loop_task_queues.cc. Entries has the entry of a queue and the maps and sets, Reads the
--   const methods over the map of entries, State and Merging the methods that change the state;
--   each method has its name in snake case.
-- - Consistent has what the comment on merging asks of the links between queues; Best, Peek,
--   Pending, Wakes, Register, Next, MergeOutcome, UnmergeOutcome, Disposed, DisposedTasks and
--   Roundtrip say what the methods do to the tasks on offer, and Invariant, Methods, Sources,
--   Merges and Run that every history keeps the links.
-- - MessageLoopImpl.antt models message_loop_impl.h and message_loop_impl.cc: the methods of a
--   loop over its queue. Flush shows what FlushTasks runs and that it ends, Shutdown what DoRun
--   leaves behind.
-- - MessageLoop.antt models message_loop.h and message_loop.cc, the loops of the threads over
--   the one instance of the queues; TaskRunner.antt models task_runner.h, task_runner.cc,
--   task_runners.h, task_runners.cc, memory/task_runner_checker.h and
--   memory/task_runner_checker.cc. Threads says which queues run on one thread, Posting what
--   becomes of a task, Checker what a checker answers.
-- - Thread.antt models thread.h and thread.cc, ThreadHost.antt thread_host.h and thread_host.cc.
--   Starting says what the constructor of a thread has at its end, ThreadHost/Threads which
--   threads a host has.
-- - UniqueObject.antt models unique_object.h; Tallies and Changes say what a method does to the
--   account of a value, Balance that each has one owner.
-- - ConcurrentMessageLoop.antt models concurrent_message_loop.h and concurrent_message_loop.cc:
--   the methods, and the steps of its threads as the relation Step. Balance and Account say where
--   each closure is, Stopping and LeftBehind what happens after Terminate.
-- - Base64.antt models CheckEnv/src/main/cpp/base64.h and base64.cc: the encoders; Decoder has
--   the decoder into a buffer and its size. Tables, Groups and Sizes hold the lemmas, Roundtrip
--   and Written the theorems.
-- - AsciiTrie.antt models ascii_trie.h and ascii_trie.cc: Nodes says which nodes a filled trie
--   has, Queries what a query answers.
-- - WaitableEvent.antt models synchronization/waitable_event.h and waitable_event.cc: AutoReset
--   and ManualReset say which waits a signal ends, Timeouts how a timed wait ends.
-- - CountDownLatch.antt models synchronization/count_down_latch.h and count_down_latch.cc; Wait
--   says when a wait is over.
-- - HexCodec.antt models hex_codec.cc.
-- - RefCounted.antt models memory/ref_counted_internal.h and ref_counted.h, RefPtr.antt
--   memory/ref_ptr.h and ref_ptr_internal.h. Meaning and Allowed say what a program means by its
--   pointers alone, References and Counted how often they refer to an object, Heaps which heap
--   belongs to the counts; Refinement and Run have the proofs.
-- - CheckEnv.antt has the files below it for CheckEnv/src/main/cpp: System is what the checks
--   ask the operating system, Common models common.cpp, MobileInfo mobile_info.cpp, Debug
--   check_debug.cpp, MultiOpen check_multi_open.cpp, Root check_root.cpp and check_cpu.cpp, Sign
--   check_sign.cpp. Lines and Reading, Texts and Decimal have the lemmas on what fgets, strstr and
--   atoi read; Hooks, Tracer, Agreement and Digests the theorems. Magisk models
--   magisk_detector.cpp, Digits, Fields and Lines say what its formats read, Mappings and Scans
--   what the scans find.
-- - SharedPtr.antt models memory/shared_ptr.h; Counts, Refinement and Run have the proofs, with
--   the counts of RefPtr.
-- - WeakPtr.antt models memory/weak_ptr.h, weak_ptr_internal.h and weak_ptr_internal.cc over
--   RefPtr. Meaning is what a program means by its weak pointers alone, Backed says which flags
--   are valid; Steps and Run have the proofs.
-- - Base32.antt models base32.h and base32.cc. Bits and Queue say that a converter is a queue of
--   bits, Encoder and Decoder what the loops write, Roundtrip that a text is decoded to what was
--   encoded.
-- - Time.antt models timer/time_delta.h, whose arithmetic timer/time_point.h shares. An integer
--   whose range is checked stands for an int64_t, and overflow is a fault. Conversions has the
--   proofs.
-- - Outcome.antt and Exec.antt have how a C++ function ends and the methods that change an
--   object; Prelude.antt the shared names; Examples.antt the tests.
--
-- How the parts interact: a queue entry holds a source, a source two heaps of tasks. A queue
-- that subsumes others offers their tasks with its own. The methods of the queues call the
-- owner's Wakeable; these calls are the log `wakes` of the state.
--
-- What is taken for granted. A function ends by returning or by a fault: an exception that
-- map::at throws, a failed FOREVER_CHECK or FOREVER_DCHECK (the build without NDEBUG, in which
-- both end the process), or undefined behaviour. The exception leaves what was written. A
-- closure is a number that stands for its code, or none. A TimePoint is its distance from the
-- least int64_t, since the queues only compare time points; the key of an observer likewise.
-- size_t has 64 bits. The counter of queue ids and the order counter wrap as in the source; the
-- counts of tasks do not, since they count objects in memory. std::map, std::set and
-- std::priority_queue are a function, an ascending list and a list in the order of leaving. The
-- loops of the queues run over a set and need no fuel. FlushTasks takes fuel, the turns of its
-- loop, and answers whether it came to its end; more turns than tasks are due are enough where
-- closures post nothing that is due. The grade that GetNextTaskToRun reads of a destroyed task
-- is indeterminate, and undefined behaviour where it is used.
--
-- The code that closures run is a parameter, a function on the loop, and so are the virtual
-- methods Run and Terminate.
--
-- In the concurrent loop what a thread does under the mutex is one step, and the steps of
-- threads interleave in any order; a worker whose wait finds its condition false falls asleep,
-- and only a notification or a spurious wake-up lets it test the condition again.
--
-- In base64.cc shifts and masks are divisions and remainders, and a `|` of bits that do not
-- overlap is a sum. A char is its unsigned byte.
--
-- In the checks of the environment a loop over fgets is a recursion on the list of its buffers,
-- which takes as many rounds as the text has bytes at most: each round reads one. sprintf and
-- strcat into a buffer that is too small are undefined behaviour. What the system answers does
-- not change, other than by PTRACE_TRACEME, after which the files are those of a traced process.
-- sscanf is a function on a list of conversions, and an int that it stores is its 32 bits.
--
-- The loop of Base32Encode has fuel for two rounds for each byte and one more: a round takes
-- five bits of the eight.
--
-- Not modelled: the log messages, the singleton, and the other parts of the repository, which
-- the manifest lists.
pub mod Prelude
pub mod Outcome
pub mod Exec
pub mod DelayedTask
pub mod TaskSource
pub mod TaskQueues
pub mod MessageLoopImpl
pub mod ConcurrentMessageLoop
pub mod Base64
pub mod AsciiTrie
pub mod WaitableEvent
pub mod HexCodec
pub mod RefCounted
pub mod RefPtr
pub mod CheckEnv
pub mod SharedPtr
pub mod Base32
pub mod Time
pub mod CountDownLatch
pub mod MessageLoop
pub mod TaskRunner
pub mod WeakPtr
pub mod Thread
pub mod ThreadHost
pub mod UniqueObject
pub mod Examples
