-- ===== src/Lib.antt =====
-- The verification library of apt-cacher-ultra, a caching proxy for apt repositories.
--
-- The program fetches repository files for apt clients, keeps them, and adopts a new snapshot of a
-- suite only when it is complete. These parts carry the rules that the others rely on:
--   * the flip barrier (internal/flipgate), which holds a suite's first requests for a moment while
--     its snapshot changes, so that a client's update does not straddle two snapshots;
--   * admission control (internal/freshness/admission.go), the slots that an adoption needs;
--   * the suites' locks (internal/freshness/suite_lock.go), which checks and deletions take;
--   * the delay behind failures (internal/freshness/retry.go);
--   * the scheduler's queues (internal/freshness/scheduler.go), which say whose check is next: every
--     tick queues the suites that are due, a check that finds no slot of admission leaves its suite
--     waiting, and a finished check comes back through finish;
--   * the adoptions in flight (internal/freshness/inflight.go), which strict requests wait for;
--   * the canonical form of a request (internal/proxy), by which it is looked up and fetched, and
--     the leaf certificates of intercepted hosts (internal/proxy/tlsmitm/leafcache.go);
--   * the readers of indexes (internal/freshness/release_parse.go, packages_parse.go,
--     sources_parse.go and pdiff_parse.go), whose hashes, sizes and names an adoption fetches and checks by;
--   * the semaphore of each upstream host (internal/hostsem), which fetches and checks share;
--   * the coalescing of requests (internal/handler/singleflight.go), one fetch for a key;
--   * the path grammar (internal/aptpath), which says what suite a request belongs to, what a body
--     looks like, and how a path is written in an upstream URL;
--   * the version order (internal/debversion), by which retention keeps the newest packages
--     (keepNewestNVersionSet in internal/cache/queries.go);
--   * the recent events and the log limiter (internal/observability).
--
-- The files:
--   * Base and Base/: shared names, Boolean tests on numbers, lists, byte strings, splitting a path
--     at its slashes, integers, and lists whose elements have places. A Go string is the list of its
--     bytes, a number each. Space has the white space of package strings (Fields and TrimSpace see
--     the encoded spaces of Unicode too) and EqualFold against an ASCII word, Scanner the lines of a
--     bufio.Scanner and ParseInt in base ten with the bounds of an int64.
--   * Debversion: internal/debversion/debversion.go. parse, compare_numeric_string, verrevcmp and
--     compare are the functions of the same names. An index that only moves forward is the suffix
--     behind it; the outer loop of verrevcmp runs on fuel, the lengths of both strings and one,
--     which is enough since a round that does not return leaves less of them (Debversion/Loop).
--     Key and Order hold the description that it is compared with: a version string is a list of
--     weights, ordered lexicographically. Compare holds the theorems.
--   * Aptpath/Suite, Sniff and Encode: internal/aptpath/suite.go, sniff.go and encode.go. Regular
--     expressions are spelt out as functions. SniffRelease's loop runs on fuel, the length of its
--     input and one, which is enough since each round drops a line (Aptpath/SniffLaws). Directory
--     and Canonical are about the suites, EncodeLaws and SniffLaws about the other two.
--   * Flipgate: internal/flipgate/gate.go. The gate's fields and everything that a pointer leads to
--     are one record (State), and each critical section of the source is a function on it, at the
--     time that it reads: Serves has the handler's side (AnchorStart, Done, Purge), Holds the hold
--     token (acquire, endHoldLocked, Close), Quiet the tests that a flip waits for, and Flip what a
--     pass of a wait loop decides. Decisions is about those decisions, Ends about the end of a hold,
--     Token, Asks and Runs about who has the token in whatever order the sections run, Times and Starts
--     about when a hold started, for sections at times that do not run backwards.
--   * Freshness/Admission: internal/freshness/admission.go. tryAcquire, freeFor, releaseHost and
--     release are the functions of the same names, and a lease is its place in a list. Slots is
--     about single calls, Books about the pool in whatever order they come.
--   * Freshness/SuiteLock: internal/freshness/suite_lock.go. lockSuite is the steps load, try_lock
--     and validate of a goroutine, unlockDropped the steps drop_entry and leave. Frame says what a
--     goroutine can count on at each place, Exclusion is about every interleaving of such steps.
--   * Freshness/Retry: internal/freshness/retry.go, the delay behind a streak of failures.
--   * Freshness/Queues: schedQueues. enqueue, pop, park, finish, done, prune, unhold and refreshSigned
--     are the functions of the same names; State has the data and Take has pop, whose loop is
--     recursion on the rounds that are left, as many as the ring has hosts. The checks in flight are
--     a list beside the queues. Tally, Hosts and Keys count items, hosts and keys; Kept has the books,
--     which Enqueues, Pops and Lands keep, and Runs draws the conclusions for any order of operations.
--     Turns, Ready and Rounds are about pop, Waiters and Order about the waiting lists, Prunes about
--     the turn.
--   * Freshness/Run: the loop of Run, on the queues and the pool of admission. dispatch is one pass of its
--     pop loop, dispatch_from so many of them, as many as workers are idle being enough, and on_tick,
--     on_freed and on_done are the cases of its select. A worker's check is the report that comes back, and the
--     pool's other calls come between the steps. Classes is about the items that pop returns, Counts
--     about what the loop counts, Offers about the slot that an offer finds, Fair about the turn of a host.
--   * Freshness/Due: suiteDue, boundDue, tick and the counts behind the gauges. Bound is about the
--     number of suites that a tick leaves, Stale about a suite that has gone stale.
--   * Freshness/Inflight: hostAdoptions. wait is a step up to its select, and the moves wake, time_out,
--     cancel and leave end the select and the call. Kept, Steps, Joins, Moves and Runs are laid out as
--     in Hostsem.
--   * Freshness/Parse: the four readers. Checks has the errors, which are values without their
--     texts, the tests of hashes and the two tests of paths; Release, Packages, Sources and Pdiff are
--     ParseRelease with parseAcquireByHash, parsePackages, ParseSources and ParsePdiffIndex, a loop
--     over the lines each. A line of a mebibyte or more fails, as it does in the source. A size that is read is
--     never negative and is a natural number. Members, Sound and Whole, Stanzas, Rows and Entries are about
--     what is returned, Malformed about what is refused, Inside about the paths that are let through.
--   * Hostsem: internal/hostsem/sem.go. Acquire is the step enter, under the lock, and then send or
--     cancel, whichever of the select's cases comes; release is the receive of the closure, and drop
--     is dropRef. Kept says how the slots and the calls belong together; Tokens, Drops, Enters and
--     Runs keep that in every interleaving, and Limit draws the conclusions.
--   * Singleflight: internal/handler/singleflight.go. Do is the step start, under the lock, and then
--     finish or crash and remove for a leader, and wake for a waiter; laid out as Hostsem is. Results is
--     about what calls return, Ends about the steps that they have left.
--   * Cache/Newest: keepNewestNVersionSet. Versions is the interface of an order of versions, which
--     Debian fills with the theorems of Debversion/Compare; Sorted, Cut and Loop are about any such
--     order, Classes is about the function.
--   * Proxy: internal/proxy. Uri is url.go, Mirror the routes of remap.go, Classify classify.go, Request
--     Parse and canonicalize of proxy.go, Setup New with its rules. What net/url, regexp and ToLower do
--     is functions that the caller gives, of which nothing is assumed. Splits, Matches, Artifacts, Sound and
--     Builtin are about them. LeafCache is the cache of certificates, a section under the mutex each.
--   * Observability/Ring and LogLimiter: internal/observability/ring.go and loglimit.go. Walk and
--     Records lead to Ring/Recent, which compares a ring with the list of all its events.
--
-- Not modelled: the wake-up channels of the gate and the goroutines that run its sections, so that
-- a theorem about a wait says what a pass decides and when the next one is due; the metrics; the
-- reader of a Release's dates; the goroutines, channels and timers of the scheduler's Run and the order
-- of its steps; the rest of internal/freshness and of the handler; the hooks of the leaf cache and its
-- own coalescing of calls; and the packages that are mostly I/O, SQL or calls of a library (the cache
-- database, fetching, CONNECT and TLS, certificates, the admin pages).
pub mod Aptpath
pub mod Base
pub mod Cache
pub mod Debversion
pub mod Flipgate
pub mod Freshness
pub mod Hostsem
pub mod Observability
pub mod Proxy
pub mod Singleflight
