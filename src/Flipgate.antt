-- ===== src/Flipgate.antt =====
-- internal/flipgate/gate.go: the flip barrier. The state is one record behind the gate's mutex, and
-- each function here is one critical section of the source, at the time `now` that it reads. A Go
-- pointer is an index into a heap of the state, so that an entry which is dropped and made again is
-- another entry. Times are nanoseconds of a monotonic clock, with 0 for Go's zero time.
pub mod State
pub mod Quiet
pub mod Holds
pub mod Serves
pub mod Flip
pub mod Decisions
pub mod Ends
pub mod Token
pub mod Asks
pub mod Runs
pub mod Times
pub mod Starts
mod Tests
