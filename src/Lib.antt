-- ===== src/Lib.antt =====
-- A model of the concurrency examples of src/concurrencyexamples/: small services whose state many
-- threads or asyncio tasks share.
--
-- How concurrency is modelled. A body under `with self._lock:`, `with self._condition:` or
-- `async with self._lock:` is one atomic step, and so is code of an asyncio task between two awaits.
-- A method that holds its lock for its whole effect is a function from the state to its result and
-- the new state, and what many callers do is a list of calls in the order in which they take the
-- lock; theorems are about every such list. Where a method takes its lock twice with other code in
-- between (`CircuitBreaker.call`, `RequestTracker.track_request`), the two bodies are two steps of a
-- relation on a system of callers, and theorems are about every reachable system. So are the two
-- halves of `SupportQueue.submit`. The workers of the pipeline step between its queues, one queue
-- operation at a time, and so do the worker tasks of the job queue, the producers and consumers of
-- the bounded queue, the threads that lease connections and the import workers, whose process may be
-- killed at any moment. A run is a list of such steps; where a theorem says that some run ends, a
-- measure of what is left falls with each step. Threads around `threading.Semaphore`,
-- `BoundedSemaphore` and `asyncio.Semaphore` are clients of one model of a semaphore, which an
-- example fills in by what its callers do before, inside and after it.
--
-- Files and source (paths below src/concurrencyexamples/ of the repository).
-- - Prelude and Prelude/: shared names, tests, lists, runs of a step relation, and Python's int as the
--   integers.
-- - Python and Python/: exceptions as values, methods that may raise, dict as its items in insertion
--   order, set as a list with no repeats, the order of str, queues with a capacity and a shutdown, the
--   priority queue, the barrier, and semaphores with their clients. The standard
--   library's locks, condition variables, executors and futures are modelled by what the code
--   relies on.
-- - Inventory: inventoryreservation/inventory.py. Payment: paymentwebhook/processor.py.
--   Scores: leaderboard/scores.py. Breaker: circuitbreaker/breaker.py.
--   Booking: asyncseatbooking/booking.py. Approval: batchapproval/approval.py.
--   Review: asyncreviewbatch/review.py. Tracker: requesttracker/tracker.py.
--   Retry: retryexecutor/executor.py. Fraud: fraudscorebatch/scoring.py.
--   Pipeline: documentpipeline/pipeline.py. Status: asyncpaymentstatus/status.py.
--   Support: supportqueue/queue.py. Flags: featureflags/flags.py.
--   Imports: importjobevents/events.py. Jobs: asyncjobqueue/queue.py.
--   Downloads: downloadpool/pool.py. Limiter: ratelimiter/limiter.py.
--   Uploads: asyncbatchuploader/uploader.py. Connections: connectionpool/pool.py.
--   Bounded: boundedqueue/workqueue.py. Shipping: asyncshippingqueue/queue.py.
--   Rollback: deploymentrollback/rollback.py. Cleanup: scheduledcleanup/cleanup.py.
--   Gate: barrierdeployment/deployment.py. Checks: taskgroup/checks.py.
--   Startup: servicestartup/startup.py.
--   Contexts: threadlocalrequest/context.py in Threads, asynccontextrequest/context.py in Tasks.
-- Each has the state and operations in the file of its name under the names of the source, the
-- theorems in the files below it, and concrete runs in its file Tests.
--
-- Choices. An exception carries its message, and where an f-string shows a value by `!r` it carries
-- that value instead. Times are integers of the clock's resolution. A caller's operation may change
-- the breaker through other threads while it runs. A task that is retried is the outcome of each of
-- its calls. The futures of an executor complete in any order, each once. `str.isalpha` and
-- `str.upper` are a parameter. asyncio.wait_for with a timeout of 0 cancels a coroutine before it
-- starts. A document pipeline's stage is a function that returns or raises. A timeout of a blocking
-- call may expire whenever the call waits; a negative one is refused before any wait. Loops are structural recursions, but for the loop of
-- `drain` in Rollback, which has one round more than there are actions: each round takes one out, so
-- this is enough.
--
-- Not modelled: BaseException except in the breaker, cancellation of asyncio tasks except in Checks,
-- pickling, and thread scheduling inside the standard library.
pub mod Prelude
pub mod Python
pub mod Inventory
pub mod Breaker
pub mod Booking
pub mod Payment
pub mod Scores
pub mod Approval
pub mod Review
pub mod Tracker
pub mod Retry
pub mod Fraud
pub mod Pipeline
pub mod Status
pub mod Support
pub mod Flags
pub mod Imports
pub mod Jobs
pub mod Downloads
pub mod Limiter
pub mod Uploads
pub mod Connections
pub mod Bounded
pub mod Shipping
pub mod Rollback
pub mod Cleanup
pub mod Contexts
pub mod Gate
pub mod Checks
pub mod Startup
