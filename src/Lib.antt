-- ===== src/Lib.antt =====
-- The computer service system: a web server for a workshop that keeps its devices, the types of its
-- services and the history of what was done, in a PostgreSQL database; with a logger that also sends
-- to Loki, and a metrics registry that Prometheus scrapes.
--
-- The parts, and how they work together. A request comes to a handler of src/webserver.cpp, which
-- calls the one `Database`, the one `Logger` and the one `MetricsRegistry`, and answers.
--
--   Metrics     src/metrics.h. Labels: the sorted labels and their text. Counter, Histogram: the two
--               kinds of metric, with their texts. Objects: their copy and move operations, on a
--               store of objects. Registry: the four containers, getCounter and getHistogram, which
--               answer a reference (the place of a metric); Start: initialize; Record:
--               recordHttpRequest and the other four; Format: the text of a scrape; Schedule: threads
--               that take and let go of the mutexes. History, Lookup, Counting, Threads, Durations,
--               Append, Invariant, Exposition: sequences of calls, and proofs. Document: the
--               text of a scrape as a list of lines.
--   Logger      src/logger.h. The settings and write; Report: the methods with a context, logRequest
--               and the like; Escape and Loki: sendToLoki and the conversions of levels. The outputs
--               of the logger are a list. Outputs, Filter, Lines, Mirror, Reopen, Reach,
--               Refused, Levels: proofs.
--   Database    src/database.h and src/database.cpp. Write: the nine methods that change a table, a
--               statement with its parameters and one body that all share; Rows and Read: the
--               methods that read. Atomic, Kept: what they do to the committed tables; Changes: an
--               abstract database of which they are a refinement; Class: the class as an
--               interface, with what its methods promise.
--   WebServer   src/webserver.cpp and src/main.cpp. Session: "/api/test-db", "/api/login" and
--               "/api/logout"; Devices, Service: the other routes of the API; Files: "/metrics", "/"
--               and the static files; Routes: setupRoutes and the handling of a request; Start: the
--               constructor and run; Main: main. Effects, Served, Requests, Counted, Logged: what a sequence
--               of requests does. Answers, Login, Blocked, Stored, Reads, Outage, Startup: proofs of
--               single handlers; Shapes: the shapes of their JSON; Confined: the files that a request
--               can reach.
--   Std, Json, Exec, Common   what the code uses of the C++ library (ordered and unordered maps,
--               streams, doubles), of nlohmann::json, and of exceptions; and shared helpers.
--               Json/Grammar: which texts are JSON, by RFC 8259.
--
-- Numbers. An `int` is a ℤ and a count is a ℕ; the counts that the code keeps in a uint64_t wrap
-- around modulo 2^64. A `double` is a parameter, `Std.Floating`: thousandths can be written in it, it
-- is ordered, is printed on one line, and adding one to a whole number below 2^53 is exact.
--
-- Parameters. The clocks, files and libcurl are a `Logger.Host`; libpqxx is a `Database.Pqxx`, and
-- what PostgreSQL promises of its transactions is a `Database.Atomic.Transactional`; JSON is a
-- `Json.Json`; the order in which an unordered map is walked is a `Std.HashMap.Walk`; the choice of a
-- rule for a request is a `WebServer.Routes.Crow`; what a moved-from string or container holds is a
-- `Metrics.Objects.Leftover`. Each is given concretely in a module Tests.
--
-- Fuel. The loop of sendToLoki that escapes a message grows the text that it runs over. It has one
-- round more than the message has characters, which is enough: each round finishes one of them.
--
-- Threads. On the registry, Registry/Threads takes each call as a whole, and Registry/Schedule takes
-- the mutexes one by one, as the code does; Objects/Locks takes the two mutexes of two objects that
-- are assigned to each other. The logger and the database are taken as called by one thread at a
-- time, each call a step of its own: the code holds the mutex of the logger in write and in most
-- settings, but not in sendToLoki, and has no mutex for the database. A handler is taken alone.
--
-- Not modelled: what Crow, libpqxx, nlohmann::json, libcurl and PostgreSQL do inside, what is printed
-- on std::cout and std::cerr by other parts than the logger, the pages and their scripts, and the
-- SQL scripts.
pub mod Common
pub mod Std
pub mod Metrics
pub mod Logger
pub mod Exec
pub mod Json
pub mod Database
pub mod WebServer
