-- ===== src/Lib.antt =====
-- opentrace: a model of the parts of opentrace that keep logs safe, with their laws.
--
-- The program receives log entries, buffers them (internal/ingest/queue.go), appends them to a
-- write-ahead log (internal/logstore/wal), seals each hour of it into chunks whose columns are
-- encoded (internal/logstore/encoding) and whose messages are indexed (internal/logstore/index),
-- checks that statements only read (internal/guardrail), and queries outside systems through connectors that a
-- circuit breaker guards (internal/connector/circuit_breaker.go). The files:
--
--   Base      what the others share: results, lists and bits over the native numbers, byte strings.
--   Encoding  internal/logstore/encoding. Word and Words: the little-endian words of encoding/binary.
--             Varint (varint.go), Framing (strlen.go), Zstd (zstd.go), Columns (the errors and the
--             runs of strings that the columns share), ZstdBlock (zstdblock.go), Delta (delta.go),
--             Dictionary (dictionary.go), Sparse, with Blobs and Bools (sparse.go).
--   Wal       internal/logstore/wal and the Entry of internal/logstore/chunk/schema.go. Entry: the
--             struct; Flags: its flag word; Field: one optional field; Group: each group of optional
--             fields; Level: the level byte; Record: AppendEntry, MarshalEntry and
--             UnmarshalEntryInto; Scanner: Scanner.Next, NextBatch and ReadEntriesFrom.
--   Engine    internal/logstore/engine. Id (id.go): the numbers of entries; Ring (ring.go): the ring
--             that tail readers start from, with its subscribers; ColumnCache (colcache.go); Query:
--             messageMatchesQuery of query.go, and its agreement with the index.
--   TextIndex internal/logstore/index. Tokenizer (tokenizer.go), Builder (builder.go), Reader
--             (reader.go), Cache (cache.go); Exact: the first three together, from messages to the
--             rows that a search finds.
--   Lru       the cache within a budget of bytes that engine/colcache.go and index/cache.go share.
--   Ingest    internal/ingest. Queue: NewQueue, Enqueue, Flush, Stop and what they call, each as a
--             whole; System: the loop and any callers of them, in steps that interleave.
--   Jobs      internal/jobs. Queue (queue.go): the statements as operations on the table of jobs;
--             Worker (worker.go, scheduler.go): the calls of the queue in any order.
--   Retry     internal/retry/retry.go: Do, over the function that it retries.
--   Guardrail internal/guardrail (sql_generic.go, sql_normalize.go). Text and Unicode: what it uses of Go's
--             strings and unicode packages; Normalize: normalizeSQL; Search: containsWord,
--             containsWordNotCall and hasFunctionCall; ReadOnly: ValidateReadOnlyGeneric,
--             HasLimitGeneric and what they call.
--   Watcher   internal/watcher. Store: what it takes from elsewhere; Metrics (watch_metrics.go);
--             CountQuery (watch_helpers.go); Condition (watch_conditions.go), with the meaning of a
--             tree in Truth; Evaluator (watch_evaluator.go), with Alerts and Streak on what it does;
--             KeyedMutex (watch_evaluator.go): its state, and the steps of goroutines that use it.
--   Circuit   internal/connector/circuit_breaker.go: State, Allow, RecordSuccess, RecordFailure, Reset.
--
-- Numbers are natural; an int64 or an int is its two's complement word, and sums wrap where the
-- code's do. A string or a []byte is the list of its bytes. A slice with an offset into it is the
-- list from the offset on. A (value, error) pair is a Result. The zstd library is a parameter (Zstd),
-- and IsLossless is what the code relies on; the LogStore behind the queue is a parameter too, of
-- which nothing is asked: what the queue answers for is the list of the entries in calls of
-- BatchInsert that returned no error, which recorded keeps at its side; so are the function that Do
-- retries and its wait, and for the watchers float64 (Floats), the clock and time.ParseDuration
-- (Clock), the JSON decoder and the methods of the log store (LogStore). Times there are
-- nanoseconds since the year 1, counts of logs do not overflow, and one evaluation reads the clock
-- once. The SQL statements of the job queue are read by the standard meaning of SQL, a table being a
-- map from keys to rows. A goroutine that panics in an evaluation is not followed further. Encoding/Zstd/Plain and the Tests modules have instances.
--
-- Fuel: the loop of Uvarint reads a list; PutUvarint writes into a room of ten bytes; doubling the
-- decoder's bucket takes eleven rounds; a scan has one more round than the file has bytes, and every
-- record takes a byte; a flush has as many rounds as entries, and every chunk has an entry; the loops over a statement,
-- a message or a posting list take a byte each round; the binary search halves its range; an
-- eviction takes an item out. In each
-- case the theorems below are about what the loop gives on that fuel.
--
-- Methods of the breaker run one after the other: they hold the lock throughout. Of the queue,
-- Ingest.Queue.System has the critical sections and the inserts as steps of goroutines. Timeouts,
-- pauses and log lines are not modelled. Not modelled either: the bit-packed columns, the chunk
-- files and the engine that ties them together, sampling and parsing of requests, the scheduler of
-- the watches and the timers of the jobs, all for the size of the development; and the servers, connectors
-- and stores around it, which mostly call the operating system, a database or the network.
pub mod Base
pub mod Encoding
pub mod Wal
pub mod Ingest
pub mod Circuit
pub mod Engine
pub mod Guardrail
pub mod Jobs
pub mod Lru
pub mod Retry
pub mod TextIndex
pub mod Watcher
