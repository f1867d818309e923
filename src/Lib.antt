-- ===== src/Lib.antt =====
-- Verification of the core of miwidothttp, an HTTP server in Rust with a cluster mode.
--
-- Files of the repository are named from its root, and file names here from this folder. Each
-- component is a file with its state and operations, and child files named for what they prove.
--
-- - Tasks: a state that several tasks share, of which each step is one action of one task.
-- - CircuitBreaker (src/circuit_breaker.rs): the breaker's state and methods. `call` is `admit`,
--   the protected call, and `finish`; Steps has its single accesses as the actions of a
--   task, and Alone compares the two.
-- - RateLimit (src/security.rs): the sliding-window limiter, with the addresses as a type with
--   equality. Its specification keeps a log of all that was let through.
-- - Security (src/security.rs): the middlewares around the rest of the program, which is a
--   parameter, with the limiter's among them, and the address filter.
-- - Fastcgi (src/proxy/fastcgi.rs): the records sent to and read from PHP-FPM, the parameters, the
--   choice of the script (Script) and its output as a response (Http). The reading loop takes fuel;
--   each round reads a header, so one more than the stream's length is enough.
-- - Consensus (src/cluster/consensus.rs): a node's Raft state, its loop and its handlers; Steps
--   has what they do under one lock after another, as the actions of tasks, and Alone compares the
--   two.
-- - Health (src/cluster/health.rs) and Replication (src/cluster/replication.rs): the cluster's
--   tables of health checks and of replicated values.
-- - Session (src/session_manager.rs): sessions, the memory store, the contract of the
--   `SessionStore` trait as the record `IsSessionStore`, and the manager over any such store.
-- - ProcessManager (src/process_manager.rs): the table of child processes and its monitoring.
-- - Vhost (src/vhost.rs): the virtual hosts, their configuration in Vhost/Config, and the manager
--   that finds them; Pattern is the interface of the crate regex, a parameter of it.
-- - Distribution (src/cluster/distribution.rs): the nodes and replicas of keys over a ring that is a
--   parameter, what a failure moves, and in Distribution/Migration the rebalancing with its lock.
--   The search for replicas takes fuel, since the loop of the source has no bound.
-- - Rewrite (src/rewrite.rs): the rewrite engine in the style of nginx, its rules in Rewrite/Rule;
--   the crates regex and http and the file system are parameters.
-- - ApacheRewrite (src/rewrite_engine.rs): the other rewrite engine. `process_url` takes fuel, since
--   it calls itself on what it has rewritten without a bound; its theorems say when it ends.
-- - Cluster (src/cluster/mod.rs, src/cluster/grpc.rs): a node's manager, which holds the consensus,
--   health and distribution parts and composes their operations, and the handlers of its service;
--   Cluster/Node has the data, Cluster/Rpc the service. The ring's lookup is a parameter.
-- - Websocket (src/websocket.rs): the connections, rooms and messages; `handle_socket` is the life of
--   one socket, and Websocket/Invariant interleaves the steps of many.
-- - Supervisor (src/process.rs): the processes of the backends, the commands that start them, and the
--   monitoring rounds with the lock that they wait for.
-- - Proxy (src/proxy/mod.rs): the dispatch, limits and headers of the proxy in Proxy, the reader of
--   the PROXY protocol in Proxy/Protocol.
-- - ForwardProxy (src/proxy/forward.rs): the handlers of the forward proxy, as what they contact over
--   a network that is a parameter, and what they answer.
-- - Cache (src/cache.rs): the cache in memory over those in Redis and on disk, each an instance of the
--   record `Layer` with the laws `IsLayer`.
-- - Server (src/main.rs): the configuration in Server/Settings, the start and the handlers in Server,
--   and in Server/Routes the routes, which compose them with ProcessManager, StaticCache and Metrics.
-- - StaticCache (src/static_cache.rs), Metrics (src/metrics.rs), ErrorHandler (src/error.rs) and
--   SessionMiddleware (src/middleware/session.rs), each by the name of its operations.
-- - Logging (src/logging.rs): the log manager where one flush ends before the next begins; in
--   Logging/Interleaving its flushes are steps of several tasks.
-- - Prelude: what the others share; Prelude/Assoc is a `HashMap` as an association list,
--   Prelude/Text what is used of `str`, Prelude/Integers the signed integers.
--
-- An operation takes its object's state and returns the new one. A method that holds one lock
-- for its whole body is one transition; what may run between two transitions is said in each
-- file. Clocks, random numbers, spawned processes and the answers of peers are arguments.
-- Integers are natural numbers, with the wrap of their width written out where the source can
-- reach it. What the code itself logs or measures on the way is left out. Not modelled: network
-- and file I/O, the third-party protocols (HTTP/3, GraphQL, WASM, gossip, TLS), text rendering,
-- and the node-server and bun-server test backends.
pub mod Prelude
pub mod Tasks
pub mod CircuitBreaker
pub mod Consensus
pub mod RateLimit
pub mod Fastcgi
pub mod Session
pub mod ProcessManager
pub mod Health
pub mod Replication
pub mod Pattern
pub mod Vhost
pub mod Distribution
pub mod Rewrite
pub mod ApacheRewrite
pub mod Cluster
pub mod Websocket
pub mod Supervisor
pub mod Proxy
pub mod Cache
pub mod ForwardProxy
pub mod Security
pub mod StaticCache
pub mod Metrics
pub mod Server
pub mod ErrorHandler
pub mod Logging
pub mod SessionMiddleware
