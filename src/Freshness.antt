-- ===== src/Freshness.antt =====
-- internal/freshness: the adoption of new snapshots. Admission is the pool of slots that an
-- adoption needs, SuiteLock the locks of the suites, Retry the delays behind failures, Queues
-- the scheduler's queues of due suites, Due which suites those are, Run its loop, Inflight the waits for adoptions
-- in flight, and Parse the readers of the files that a snapshot names.
pub mod Admission
pub mod SuiteLock
pub mod Retry
pub mod Queues
pub mod Due
pub mod Run
pub mod Inflight
pub mod Parse
