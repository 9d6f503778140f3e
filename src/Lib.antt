-- ===== src/Lib.antt =====
-- PlatformService: accounts, sessions and tokens behind an HTTP server. A connection's bytes are
-- cut into requests by the parser (src/http/request.c), the router (src/http/router.c) finds the
-- route, and the handlers of src/api use the stores of src/store and the sessions of src/auth.
-- Jobs run on the thread pool (src/platform/threadpool.c), and texts grow in the byte buffer
-- (src/platform/buf.c).
--
-- The files, each for the part of the program that its opening comment names:
--
-- Common: Boolean tests and lists over the native numbers, for all parts.
--
-- Platform.Buf: src/platform/buf.c. `append` for ps_buf_append, and so on. `realloc` is an
-- argument that says which sizes it grants; sizes wrap at 2^64. The doubling of the capacity has
-- fuel 64, since 64 doublings reach any 64-bit size.
--
-- Platform.ThreadPool: src/platform/threadpool.c. Each critical section is a function of the
-- pool's state: `take_job` is a round of worker_main. Queue reads the ring as a list,
-- Interleaving orders the sections of any number of threads.
--
-- Crypto.Base64url: src/crypto/base64url.c, over the buffer.
--
-- Store.SessionStore: src/store/session_store.c and the two tables of
-- src/store/schema/001_init.sql as lists of rows. Whether SQLite runs a statement is an argument.
-- Sweeps has the DELETEs of src/platform/maintenance.c on these tables, with a test for the rows
-- that a batch takes; Steps orders committed statements of any number of connections.
--
-- Auth.Session: src/auth/session.c. A `Run` holds what the calls of one request give: random
-- bytes, SHA-256, failures of SQLite, and `meanwhile`, what other connections do between the
-- reads and the claim. Transaction has what ps_auth_handle_refresh of src/api/auth_api.c does
-- around a refresh: BEGIN, the row of the audit log, COMMIT or ROLLBACK.
--
-- Http.Router, Http.Request: src/http/router.c and request.c. A pointer and a length are the list
-- of the bytes that they show. The scan of a pattern has its length and one more as fuel, and
-- each round takes a byte of it at least. The loop over the headers has the length of their block
-- as fuel, and one more, and each round takes two bytes at least.
--
-- Api.Rbac, Api.Routes: src/api/rbac.c and routes.c, with the bearer token of src/api/auth_api.c.
-- A handler's call stands for its result; what ps_jwt_verify makes of a token is an argument.
-- Integers of 64 bits are the type of Common.Int.
--
-- Platform.RateLimit: src/platform/ratelimit.c. `allow_in` is the critical section of
-- ps_ratelimiter_allow_at on one shard. The arithmetic on double is a record of operations; what
-- is assumed of it is that a whole number above zero is not less than one. The probe has the
-- number of slots as fuel, as its loop has.
--
-- Auth.Validate: src/auth/validate.c. Http.Cors: src/http/cors.c; the fuel is one more than the
-- length of the list, and each round takes a byte at least.
--
-- Store.TokenStore: src/store/token_store.c and its table, in the manner of Store.SessionStore.
--
-- Json: src/json. Value for the values; Scanner, Strings and Parser for json_parse.c, where a
-- position is the list of the bytes that are left; Writer for json_write.c. Nesting counts down
-- from 32 as the source counts up; the loops over strings, arrays and objects have one more than
-- the bytes left as fuel, and each round takes a byte at least. Doubles are a type F with strtod,
-- isfinite and the text of %.17g; `IsLawful` is what the C library documents of them.
--
-- Auth.Claims, Auth.Jwt: src/auth/claims.c and jwt.c. Times are integers without bound, since C
-- leaves an overflow of exp + skew undefined. HMAC-SHA256 is an argument, with none where OpenSSL
-- fails.
--
-- Http.Response, Http.Conn: src/http/response.c and conn.c. The loop is a function from round to
-- round on the application's state, the count, the buffer, the outcomes that poll and SSL_read
-- still give, and what was sent; one more round than keepalive_max_requests is its fuel. The
-- dispatch callback and the answers of SSL_write are arguments. Behind a list of outcomes that
-- ends, poll times out.
--
-- Auth.Password: src/auth/password.c. A file is its bytes, a line the bytes up to a NUL, qsort an
-- insertion sort, and PBKDF2 and the salt are arguments.
--
-- Platform.Config: src/platform/config.c. The structure is a function from the keys of the table
-- to what the fields hold. The loop over a file's lines has the length of the file and one more
-- as fuel, and each line takes a byte at least.
--
-- Numbers: identifiers of users and times in the stores are natural numbers, as SQLite and the
-- clock give them; sizes wrap at 2^64 where the source computes with them.
--
-- Not modelled: texts of error messages, locking calls and memory that is freed; the handlers of
-- src/api but for the transaction of a refresh, the maintenance of the other tables and the
-- server, which the modelled parts meet as arguments only; and the wrappers of OpenSSL, sockets
-- and files, which are calls of libraries.
pub mod Common
pub mod Platform
pub mod Crypto
pub mod Store
pub mod Json
pub mod Auth
pub mod Http
pub mod Api
