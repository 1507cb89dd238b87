-- ===== src/Lib.antt =====
-- emby-range-cache-proxy is a proxy in front of a media server. It answers byte ranges of large files
-- from a cache on disk: the head and the tail of a file in one block each, the bytes between in middle
-- blocks that workers prefetch. A SQLite database holds the sessions, the queue of prefetch tasks, the
-- rows of the middle blocks and what is known of the origins. This library models the Go program under
-- go/internal.
--
-- Files:
--   Ranges: ranges/ranges.go. ParseRangeHeader is parse_range_header, PlanPlaybackRange is
--     plan_playback_range, and each `fmt.Errorf` is a constructor of RangeError. Ranges/Bounds says
--     what every answer satisfies, Ranges/RoundTrip what the printed forms of a header mean.
--   Model, Config: the structs of model/model.go, and those of config/config.go that are read here.
--   State: state/state.go. The record Store has one list of rows for each table; an SQL statement is a
--     function on that list (Base/Tables). State/Tasks is the queue, with the order of a claim in
--     State/Tasks/Order, what ends a task in State/Tasks/Ends and what an earlier worker can do in
--     State/Tasks/Fencing; State/Sessions the sessions, State/Blocks the middle blocks, State/Publish
--     the transaction that publishes a block and ends its task, with its guard stated apart in
--     State/Publish/Held, State/Sources the origins' metadata and the settings.
--   Prefetch: prefetch/prefetch.go. Prefetch/Plan is PlanMiddleRanges, Prefetch/Gaps subtractRanges,
--     Prefetch/Enqueue EnqueueForSession, Prefetch/Worker runTask; the answers of the origin and the
--     cache key are parameters.
--   Disk: the files, as both caches use os and io. A disk also lists the files that os.Remove cannot
--     delete, under the mark `undeletable`: the program drops that error, and the file stays. Disk/Chunks
--     is the loop that streams a part of a file, Disk/Sidecar the file beside a block that names its range.
--   HeadTail: headtail/cache.go. StageBlock, Write, Commit and Abort are steps on a disk, and StoreBlock
--     composes them; a record of faults says which calls of the operating system fail. Both caches share
--     one disk: the name of a middle block holds slashes, and EvictIfNeeded's glob does not match it.
--   Middle: middle/middle.go, on a world of a Store and a disk. Middle/Reads is IterBlock with
--     coveringSpans and streamSpan, Middle/Reads/Rows the rows it reads, Middle/Evict the two evictions, Middle/Beside the
--     directory that both caches share.
--   Origin: origin/origin.go. A response of the origin is its status, the headers that are read and its
--     body; OpenRange is open_range, boundedReadCloser a constructor of Reader, Read is read. Origin/Bodies
--     says what an honest server answers, Origin/Ends when a copied body has ended too early.
--   Identity: cache/key.go and session/session.go, with SHA-256 as a parameter.
--   App: app/server.go. App/Request and App/Settings are the request and what is read of the
--     configuration; App/Access the keys and addresses of callers; App/Mode the cache mode, its
--     handler, directCacheAccess and the routes of ServeHTTP; App/Authorize authorizePlayback with its
--     cache; App/Lock cacheBuildLock, with its calls as the moves of any number of requests;
--     App/Forward copyForwardHeaders and copyResponseHeaders; App/Build buildHeadTailBlock, with its
--     retries, its response and its commit; App/Serve the headers, cacheBlockForRequest and
--     streamOriginRange, App/Serve/Cached serveCachedHeadTailIfAvailable, App/Serve/Ranged
--     serveAuthorizedRange in the order in which it tries the caches, App/Serve/Blocks its part with
--     the lock, the build and the origin, App/Serve/Handlers proxyHandler and the two direct handlers.
--   Base: texts, tests, lists and tables that the other files share.
--
-- How the parts meet: a task that ClaimPrefetchTasks hands out carries the number of its attempt, and
-- StorePrefetchBlockFromReader passes both to PublishMiddleBlockAndCompletePrefetchTask with a closure
-- that renames the files; the middle cache finds its blocks by the rows of State/Blocks and checks each
-- against the disk. A request is planned by Ranges and looked up in the head and tail cache by what the
-- database knows of its file; then, by what the origin says of it, in the middle cache and in the head
-- and tail cache, and built or streamed through Origin; each of these changes one Proxy, whose world
-- is the Store and the disk.
--
-- Choices: an int64 or a float64 that the program keeps at 0 or above is a natural number, sums stay
-- below 2^63, and a time is a whole number of seconds; a number that is read from a text is refused
-- above 2^63 - 1, as strconv does. A text is a list of bytes; TrimSpace removes ASCII white space. Calls
-- of the database succeed, and a transaction is one step; what several processes do is a sequence of
-- calls. What the origin answers, which calls fail, how much the client takes and what other requests do
-- while this one waits for the lock of a build are arguments; a lock that is free at once and one that
-- is awaited are the two cases of Locked. Sleeps and log lines are left out. A goroutine that streams
-- runs to its end before the next call. sort.Slice and ORDER BY leave rows that compare equal in the
-- order of the table.
--
-- Fuel: read_chunks takes the number of bytes that remain, since each round sends one at least;
-- plan_blocks the length of the window, since each round moves on by a byte at least; evict_rounds the
-- number of rows, since each round removes one. The theorems about these functions are stated at that
-- fuel, and show that the loop has then reached its end. copy_reader and copy_body take reader_reads,
-- one round more than the bytes that remain and the reads that the body cuts short; fetch takes four
-- rounds for each byte of the block and five more, since a fourth round in a row without a byte ends it.
--
-- Not modelled: the loader of the configuration, the parsing of requests and URLs, the resolution of
-- sources and the media server's authorization (their answers are arguments), the prewarming and the
-- background loops, the statistics and the log, RunOnce, the opening and migration of the database,
-- and the command line.
pub mod App
pub mod Base
pub mod Config
pub mod Disk
pub mod HeadTail
pub mod Identity
pub mod Middle
pub mod Model
pub mod Origin
pub mod Prefetch
pub mod Ranges
pub mod State
