-- ===== src/Lib.antt =====
-- kakao-relay: a relay between Kakao's chat bot and OpenClaw agents, in Go.
--
-- A Kakao user writes to a bot; the webhook (internal/handler/kakao.go) finds or makes the
-- conversation's row, handles chat commands, and puts other messages into the queue of the account
-- that the conversation is paired with (internal/service/message.go). The agent of the account reads
-- them as server-sent events (internal/handler/events.go, internal/sse/broker.go) and answers through
-- the callback URL of a message (internal/handler/openclaw.go, internal/service/kakao.go). An agent
-- gets its account by pairing: it creates a session, shows the session's code, and the user sends
-- the code as a chat command (internal/service/session.go). Requests pass the middlewares of
-- internal/middleware, and internal/jobs/cleanup.go sweeps what has expired.
--
-- How the code is modelled:
--   - a function that returns an error is an action of the monad M of World: it takes a World and
--     gives a result and the World after it. A World holds the tables, the clock, what has been
--     published and posted, and, as data, the environment: which database and Redis calls fail, what
--     the random sources return, how the remote server answers. A theorem for every World is a
--     theorem for every choice of failures;
--   - the clock stands still within a request;
--   - SQL statements are functions on lists of rows, with the constraints and the foreign keys'
--     actions of the schema (internal/database/schema.sql) written out;
--   - strings are lists of code points; times are counts of nanoseconds, and of seconds in Redis;
--   - url.Parse, SHA-256, HMAC, the case tables above ASCII and the time zone are the fields of the
--     record Runtime, an argument of what uses them; AES-GCM is the record Gcm, and what decoding a
--     body or splitting an address gives are fields of Settings;
--   - a request is served by a function on the state Server (the world, the sorted sets of Redis and
--     the subscribers); a middleware wraps a handler. The state that other requests leave between two
--     calls of a handler does not enter, but for the failures that it may cause;
--   - loops are structural recursion, over the rows, the queue, or a list of the signals that a
--     `select` waits for; only the digits of a number are computed on fuel, the number itself.
--
-- Files:
--   - Prelude: shared names, tests, lists, Go strings, tables, and their laws;
--   - Model: internal/model. World: the monad, and generate_token of internal/util/crypto.go.
--     Runtime: the other hashes of internal/util/crypto.go. Database: WithTx of
--     internal/database/db.go;
--   - Repository: internal/repository, one module per table. Repository.Query has the kinds of
--     statement, Repository.Query.Cases the two ways in which a call ends. Repository.Statements is
--     the interface of the writing statements: what keeps a predicate on the rows. WellFormed (the
--     constraints of internal/database/schema.sql) and Consistent (the statuses) implement it;
--   - Broker: Publish of internal/sse/broker.go. Broker.Subscribers: the clients of one server, a
--     state whose connections have a step relation in Subscribers.Connections;
--   - Service: internal/service. Session.Pairing, .Success, .Atomicity, .Polling, .Race and .Codes
--     prove facts about pairing, .Creation about new sessions, Conversation.Keys about keys,
--     Callback.Hosts about callback URLs. RateLimiter: the limiter for any key;
--   - Handler: internal/handler, with Command for parseCommand and Types for kakao_types.go.
--     Openclaw.Isolation, .Delivery and .Settlement prove facts about replies, Kakao.Relaying,
--     .Queueing, .Commands and .Orphans about the webhook, Events.Delivery and .Backlog about the
--     stream;
--   - Middleware: internal/middleware, with Window, the sliding window that both rate limiters are
--     compared with. RedisRateLimit.Refinement compares the script with a log of members, each once,
--     and .Window with the sliding window. IpRateLimit is the limit for an address;
--   - Server: cmd/server/main.go. Routes has the middlewares as functions on handlers, Serve the
--     routing table, Serve.Guards what it refuses, Startup the start and the end, Invariants what each
--     handler keeps, Reachable the states that requests and sweeps lead to, Relay a message and its
--     answer over three requests;
--   - Config: internal/config. Audit: internal/audit. Util: internal/util, with hex and base64;
--   - Errors: internal/errors and internal/httputil. Jobs: internal/jobs;
--   - Tests: worlds, requests and the theorems at them.
--
-- Not modelled: chi (its matching of paths, RealIP, Recoverer and Timeout), the request log and
-- the writing of log lines, the embedded page, connection handling of Postgres and Redis (Startup
-- has only how its calls end), goroutine scheduling inside the broker (an event reaches every
-- listener in one step), statements of other requests between two calls of one handler, and HTTP
-- itself: a redirect that http.Client would follow after the POST of a callback is no request of
-- the model. A COMMIT that reports an error is taken to have left no row; a COMMIT whose
-- acknowledgement was lost is not modelled. That a session's new account is a row is not checked
-- when the session is marked as paired, as the same transaction has just inserted it.
pub mod Server
pub mod Config
pub mod Audit
pub mod Util
pub mod Prelude
pub mod Model
pub mod World
pub mod Runtime
pub mod Repository
pub mod Database
pub mod Broker
pub mod Service
pub mod Errors
pub mod Handler
pub mod Middleware
pub mod Jobs
pub mod Tests
