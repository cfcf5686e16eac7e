-- ===== src/Lib.antt =====
-- distsync: distributed locks, semaphores, rate limiters and leader election over Redis, in Go.
--
-- The program. Every lock is a lease: a key, or members of a sorted set, that the server holds under a
-- random owner token until a timeout. The leases are in internal/lease (single.go, permit.go, rw.go),
-- each a Go object with a local deadline and a few Lua scripts (internal/lua) that the server runs as
-- one step. guard.go wraps a lease into a handle: background renewal, idempotent release, a context
-- that ends when ownership does. mutex.go, rwmutex.go, semaphore.go and leader.go are the public
-- types: they try to take a lease in a loop and return a handle on it. ratelimiter.go runs four more
-- scripts and has no lease.
--
-- Which file models what.
--   Common            shared names, Boolean tests, texts as lists of bytes, decimal numerals
--   Redis             the commands that the scripts and go-redis calls use, as the parameters
--                     `Strings` and `SortedSets` with the laws that the manual documents; Redis.Memory
--                     is an instance in memory, with its laws proved, on which theorems are run
--   Lease.Core        internal/lease/lease.go and errors.go: errors, requestExpiry, one request and
--                     what becomes of it
--   Lease.Interface   the interface Lease of internal/lease/lease.go
--   Lease.SingleOwner internal/lease/single.go; Scripts holds internal/lua/single_*.lua; System is
--                     many clients on one lock, whose scripts, replies, losses and clock ticks
--                     interleave as a step relation
--   Lease.PermitSet   internal/lease/permit.go; Scripts holds internal/lua/sem_*.lua
--   Redis.Counting    counters by INCRBY and DECRBY, as parameters with their laws
--   Redis.Waiting     sorted sets and hashes with a timeout, as parameters with their laws
--   Lease.ReadWrite   internal/lease/rw.go; Scripts holds internal/lua/rw_*.lua, with the purge loop on
--                     fuel, one round for each waiter and one more; Calls is what clients may ask of
--                     a lock, in any order, and Lives puts a holder's renewals among them
--   Handle            guard.go: the handle, for any lease of the interface; Heartbeat is the loop that
--                     renews or watches it, with renewer.go's
--   Renewer           internal/lease/renewer.go
--   Config            dist.go, options.go and internal/redis/key.go; HashTags is the slot of a key in
--                     a cluster, a parameter with the law of its specification
--   Redis.Hashes, Redis.Windows
--                     hashes and sorted sets with a timeout, as the rate limiter's scripts read them
--   RateLimit         ratelimiter.go with the algorithm FixedWindow, and ratelimit_fixed.lua
--   RateLimit.Bucket  ratelimit.lua and ratelimit_leaky.lua; Meter is what both promise
--   RateLimit.Sliding ratelimit_sliding.lua; Log is what it promises
--   RateLimit.Limiter ratelimiter.go with all four algorithms: the constructor, Allow, Acquire, Reset
--   Metrics           metrics/prometheus.go, the labels of its collectors
--   Locks.Loop        the acquisition loop that mutex.go, semaphore.go, rwmutex.go and leader.go repeat
--   Locks.Mutex       mutex.go
--   Locks.RwMutex     rwmutex.go; its two sides share one body for each of Lock, TryLock and Unlock
--   Locks.Semaphore   semaphore.go
--   Locks.Leader      leader.go
--   Locks.Once        once.go
--   Locks.Slots       the keys that the constructors of mutex.go, leader.go and rwmutex.go make
-- A function has the name of the Go function in snake_case, a script the name of its file; a method
-- takes its receiver first and returns it with what it changed.
--
-- How the program is modelled. Times and durations are natural numbers of nanoseconds, and the zero
-- time is 0. A method that makes requests takes a `Trip` for each: when it was sent, when the server
-- ran it, when the reply was read, and whether request or reply was lost; a lost one is a transport
-- error, and a lost reply leaves the script's effect. A Go error is the list of the sentinels that
-- errors.Is finds in it. Goroutines appear as events in any order (Handle.Lifecycle,
-- Renewer.Lifecycle), as steps of a system (Lease.SingleOwner.System), or as changes that others make
-- between two attempts (Locks). A loop without end in Go runs over a list of rounds and returns `none`
-- if they end first; it returns by the first round in which its context is over.
--
-- Assumptions. All clocks are one clock. In the system of clients, owner tokens are distinct (they are
-- 128 random bits), the lock's key and its counter are different names, the timeout is at least a
-- millisecond, and the counter is not reset. A reply to an acquisition may there be read by a client
-- whose earlier acquisition the server had granted without an answer: such a grant is marked as
-- recovered, and what is said of holders is said of those whose grant is not. The public types never
-- get one, since they do not call TryAcquire again on a lease after a transport error. Only the
-- scripts of a read-write lock and Dequeue change its keys. No integer of the program can wrap:
-- fencing tokens and times stay below 2^53, where Lua's numbers are exact.
--
-- The doubles of the rate limiter and of the retry delay are taken as exact numbers: its scripts divide
-- and add without rounding, in a unit of which every operand is a multiple. For the buckets the
-- clients' clocks are within half a second of the server's.
--
-- What is not modelled: Algorithm.String, Wait and PerMinute of ratelimiter.go, of which the last
-- divides a double; the field active of a Leader, which is an argument of IsLeader and FencingToken;
-- the calls of metrics and tracing, the adapter of telemetry/telemetry.go, the embedding of the
-- scripts and the examples, which no other behaviour depends on; and go-redis and the Prometheus
-- client, which are not in the repository.
--
pub mod Common
pub mod Config
pub mod Handle
pub mod Lease
pub mod Locks
pub mod Metrics
pub mod RateLimit
pub mod Redis
pub mod Renewer
