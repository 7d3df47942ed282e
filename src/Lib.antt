-- ===== src/Lib.antt =====
-- A verification library for the entry task: a user service behind a TCP protocol, and a Kubernetes
-- operator that deploys it.
--
-- The program. Clients send framed JSON requests over TCP (internal/protocol). The service
-- (internal/service) logs users in with signed tokens that it also remembers in a session store,
-- shows and changes their profile, and keeps their pictures in files, behind a cache. Users are rows
-- of a MySQL table (internal/store/mysqlstore), sessions and cached pictures are keys of a Redis
-- server (internal/store/redisstore). The HTTP gateway (internal/httpapi) keeps the token in a cookie
-- and turns each route into a request over TCP. The operator (operator/internal/controller) keeps a
-- config map, a service and a number of pods for each custom resource; so does a second controller
-- (cloud_native_entry_task/controllers).
--
-- Files and code:
--   Prelude             the names that the other modules share: native numbers, lists, byte strings
--                       and signed integers
--   GoLib               what the code uses of Go's library: error values, calls that act on a world,
--                       base64, texts, the parsing of numbers
--   Protocol.Frame      internal/protocol/frame.go: `ReadFrame`, `WriteFrame`
--   Protocol.Messages   internal/protocol/protocol.go: the messages
--   Config              internal/config/config.go: `Load`, `Default`, `applyEnv`, `Validate`
--   Service.Token       internal/service/token.go: `NewTokenManager`, `Issue`, `Verify`, `sign`
--   Service.Password    internal/service/password.go: `HashPassword`, `VerifyPassword`
--   Service.Errors      internal/service/errors.go: `ErrorCode`
--   Service.Interfaces  internal/service/service.go: `UserStore`, `SessionStore`, `PictureCache`,
--                       `Service`, and the host's clock, random source and file system
--   Service.Account     internal/service/service.go: `Login`, `GetProfile`, `UpdateNickname`,
--                       `Logout`, `requireUser`, `toProtocolProfile`
--   Service.Picture     internal/service/service.go: `UploadProfilePicture`, `GetProfilePicture`,
--                       `extensionFor`
--   Service.Handle      internal/service/service.go: `Handle`, `decodeBody`, `marshal`
--   Service.TcpServer   internal/service/tcp_server.go: `ListenAndServe`, `handleConn`, `worker` and
--                       `writeResponse`, as a step relation; `Exchange` follows one
--                       connection through its steps
--   Store.Redis         internal/store/redisstore/session.go: sessions and cached pictures; `Resp` is
--                       the encoding of commands and the reading of replies, `Server` what is relied
--                       on in the configured Redis server, while it answers
--   Gateway.Client      internal/httpapi/tcp_client.go: `Call` and `call`; `Served` puts runs of the TCP
--                       server behind it
--   Gateway.Status      internal/httpapi/server.go: `statusFor`
--   Gateway.Responses   the same file: the token, the uploaded file, the responses
--   Gateway.Handlers    the same file: the handlers and the routes, over the requests and responses
--                       of Gateway.Http
--   Store.Mysql         internal/store/mysqlstore/store.go: the lookups and the updates, and `Open`;
--                       `Schema` is `Migrate`, `Seeding` is `InsertSeedUsers` and `CountUsers`
--   Service.New         internal/service/service.go: `New`
--   Seed                cmd/seed/main.go: `makeUsers` and the settings; `Steps` is `seed`, its sender
--                       and its workers, as a step relation
--   Tcpd                cmd/tcpd/main.go: the backend put together, up to the service
--   Operator.Types      operator/api/v1alpha1/dbcpentryservice_types.go, and the fields of the
--                       Kubernetes objects that are read or set
--   Operator.Client     the API server and the libraries that the reconciler calls, as parameters;
--                       `Logged` records the calls which change something
--   Operator.Resources  operator/internal/controller/dbcpentryservice_controller.go: the wanted
--                       config map, pod and spec hash
--   Operator.Pods       the same file: `reconcilePods`, a function for each of its loops
--   Operator.Reconcile  the same file: `Reconcile`, `cleanupOwnedResources`, `ensureConfigMap`,
--                       `ensureService`
--   Controller          cloud_native_entry_task/controllers/internal/controller, the second controller:
--                       Controller.Spec is spec.go, Resources, Ensure and Pods are resources.go, and
--                       Reconcile and Run are controller.go; Agreement compares its pods with the operator's
-- The children of a component hold its properties, under the name of what they are about; `Sample`,
-- `Runs` and `Tests` hold concrete instances and runs.
--
-- State. A method that returns `(A, error)` is a function from a world to a result and a world
-- (GoLib.Exec): what was done before an error stays done. The world itself is a parameter, as are the
-- stores, the clock, the file system, HMAC, PBKDF2, JSON and the API server; what is assumed of them
-- is a hypothesis of the theorem that needs it. A byte string is a list of numbers, those below 256
-- where that matters. Unsigned 32-bit lengths are cut off at 2 ^ 32 as in the code; a time is an
-- integer of nanoseconds, without the bounds of 64 bits.
--
-- The TCP server's goroutines are steps between states: a connection reads a request and puts it into
-- the bounded queue, a worker takes it, calls `Handle` (one step on the world), and puts the answer
-- into the channel of the request. A channel of a request is kept with its connection, which has one
-- request at a time. Deadlines only end connections. The seeding command is a step relation too: a
-- sender puts the starts of the batches into a bounded channel, workers take them, and making and
-- inserting a batch is one step.
--
-- Loops. Every loop of the code is recursion on a list or on a number that it counts down, so no fuel
-- is needed: `scale_down` counts the pods left, `scale_up` those that are missing. With a negative
-- number of replicas the code's loop runs into an index out of range, which is an error here.
--
-- Not modelled: what the database makes of a statement, the operator's watches and its periodic events,
-- the mains around what is listed above, generated deep copies, scripts and web pages. A number of
-- seconds is whole where the Redis store computes with a float; a batch's start is a natural number,
-- and its sum with the batch size has to fit in an `int`.
pub mod Prelude
pub mod GoLib
pub mod Config
pub mod Protocol
pub mod Service
pub mod Store
pub mod Gateway
pub mod Controller
pub mod Operator
pub mod Seed
pub mod Tcpd
