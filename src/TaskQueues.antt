-- ===== src/TaskQueues.antt =====
-- app/src/main/cpp/message_loop_task_queues.h and message_loop_task_queues.cc, a module per group
-- of methods: the entries, the const methods, and the methods that change the queues.
pub mod Entries
pub mod Reads
pub mod State
pub mod Merging
pub mod Consistent
pub mod Pending
pub mod Best
pub mod Peek
pub mod Wakes
pub mod Links
pub mod Sets
pub mod Merged
pub mod Unmerged
pub mod Disposed
pub mod DisposedTasks
pub mod Offered
pub mod Register
pub mod Next
pub mod MergeEffect
pub mod MergeOutcome
pub mod UnmergeOutcome
pub mod Roundtrip
pub mod Invariant
pub mod Methods
pub mod Sources
pub mod Merges
pub mod Run
pub mod Fifo
