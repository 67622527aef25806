-- ===== src/Lib.antt =====
-- scylla-cluster-sync-cxx: the services that copy a Cassandra cluster to a ScyllaDB cluster while it
-- is in use. Three services share the kit under svckit/:
--
--   * dual-writer (services/dual-writer) takes writes, sends each to the source, then to the target,
--     and queues what the target refuses for a loop that retries it; a blacklist keeps tables on the
--     source alone. A CQL proxy in front of it intercepts writes and forwards every other frame.
--   * sstable-loader (services/sstable-loader) copies the tables in bulk: it cuts the token ring into
--     ranges and reads them in batches of threads, and drops and rebuilds secondary indexes.
--   * dual-reader (services/dual-reader) compares the clusters, keeps the discrepancies and
--     reconciles them.
--   * tui-dash (services/tui-dash) is a dashboard in the terminal that polls the loader's /status, or
--     shows a made-up migration.
-- Each service has an HTTP API (api.cpp), a configuration in YAML (config.cpp) and arguments
-- (main.cpp).
--
-- Files:
--   Prelude and its children: texts, lists, maps and sets as lists, wrapping counters, integers.
--   Svckit: svckit/src and svckit/include. Svckit/Database is ScyllaConnection: `construct`,
--     `connect`, `close`, `move`, `execute`, `ping`; the DataStax driver is a parameter.
--     Svckit/Config is config.cpp, with yaml-cpp as the parameter `Yaml`.
--   Wire: what the HTTP interfaces take from outside: IEEE numbers, the JSON library with its
--     documented behaviour (`IsLawful`), requests and responses.
--   Wildcard: the "*.table" entries of both blacklists.
--   Writer: Writer/Filter is filter.cpp, Writer/DualWriter the write path of writer.cpp, Writer/Retry
--     its retry_failed_writes_loop as a whole round, Writer/Service the same round in steps between
--     which clients and the reload thread act, Writer/WriteId generate_id, Writer/Cql the proxy of
--     cql_server.cpp: Frame (headers, strings),
--     Query (is_write_query, extract_table_target), Proxy (handle_connection).
--   Loader: Loader/Filter is filter.cpp, Loader/TokenRange token_range.cpp, Loader/Ranges,
--     Loader/Threads and Loader/Migration loader.cpp (rows and ranges; the threads of a batch; batches,
--     tables and control), Loader/IndexManager index_manager.cpp.
--   Reader: Reader/Filter is filter.cpp, Reader/Reconciliation reconciliation.cpp, Reader/DualReader
--     reader.cpp, Reader/Validator validator.cpp.
--   Api, Config and Args below Writer, Loader and Reader: api.cpp, config.cpp and parse_args of the
--     service's main.cpp.
--   Dashboard: Dashboard/State is state.cpp, Dashboard/ApiClient api.cpp, Dashboard/Mock mock.cpp,
--     Dashboard/Keys and Dashboard/Demo the parts of main.cpp: arguments, keys, texts, and the
--     threads that share the state.
-- Functions keep their names. A method takes the object's record and gives it back; a call that may
-- throw gives a Result; files named Tests hold concrete states and the theorems at them.
--
-- Bounds and fuel: counters wrap at 2^64, token arithmetic is cut to 64 bits, lengths in frames are
-- signed 32-bit values. The loop over the batches of a migration runs on fuel, one more than the
-- number of ranges, and the loop over the batches of indexes on as much as there are indexes: a
-- round of either takes at least one member off, where a batch may have one. The threads of a batch
-- of ranges run for as many statements as they may send.
--
-- Concurrency: a lock makes a method atomic. The threads of a batch interleave by whole
-- statements, and the loader and the index manager take the schedule as an argument. Calls that pause, resume or stop a
-- migration arrive as explicit sequences, and the threads of the dual writer and of the dashboard are
-- lists of steps in any order.
--
-- Not modelled: sockets (the HTTP servers, the accept loop) and the wiring of the main programs, the
-- layout of the dashboard, the text of the metrics (a parameter), doctore-dash, sleeping, and log
-- lines. Clocks and random numbers are arguments. In the loader, the reader and the writer fractions
-- stand for percentages and sample rates; where numbers are sent or shown, IEEE arithmetic is a
-- parameter. The result sets of queries are not read by the source, which has placeholders there.
pub mod Prelude
pub mod Svckit
pub mod Wildcard
pub mod Wire
pub mod Dashboard
pub mod Writer
pub mod Reader
pub mod Loader
