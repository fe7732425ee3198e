-- ===== src/Lib.antt =====
-- Verification of the two services of the marketplace, services/marketplace-api and
-- services/user-service.
--
-- marketplace-api keeps products, promo codes, orders with their items, and a log of the operations
-- of each user, in PostgreSQL. Its handlers call use cases, the use cases of orders run their SQL
-- statements in one transaction (`WithTx`), and the middleware asks user-service who sent a request.
-- user-service registers users, logs them in, and gives out access and refresh tokens.
--
-- Files, and the code that each is about:
--   Common: shared names, Boolean tests, list lemmas, integers with the wrap-around of Go's int
--     (Common/Int), tables with a key (Common/Table) or a UNIQUE text (Common/Unique), prefixes of a
--     text (Common/Text), lists that a comparison arranges (Common/Arranged), and float64 as an
--     interface (Common/Float).
--   Metrics: internal/metrics/metrics.go of both services, and what a request that was answered does
--     to the registry. Metrics/Counts: theorems on what the registry shows.
--   Marketplace/Domain: services/marketplace-api/internal/domain. Domain/Status: the status table.
--   Marketplace/Session: the database, what is outside of it, and the monad of a request.
--   Marketplace/Repository/Orders, Repository/Tx: internal/repository/order.go.
--   Marketplace/Orders/Usecase, Orders/Discount: internal/usecases/order.go.
--     Orders/Access, Orders/Liveness, Orders/Placing, Orders/Second and Orders/RateLimit: theorems on
--     their callers, on how Cancel and Create end, and on a second order of a user.
--   Marketplace/Supply: where a product's units are, in stock or held by open orders. Its modules
--     carry this through each statement (Tables, Effects, Rows), through reserveItems and the promo
--     code (Reserve, Promo), to the tables of a new, a canceled and an amended order (Place, Withdraw,
--     Amend), and through Create, Cancel and Update; Stocked: that no stock is below zero.
--   Marketplace/Usage: how often promo codes are used and how many active orders a user has. Its
--     modules carry this through each statement (Tables, Effects, Moves), through the promo code
--     (Promo), to the rows of orders (Counts), and through Create, and Cancel and Update (Change).
--   Marketplace/Products: internal/repository/product.go, internal/usecases/product.go and the
--     request body of UpdateProduct in internal/handlers/product.go. Marketplace/Listing: `List`.
--   Marketplace/Promos: internal/repository/promo.go and internal/usecases/promo.go.
--   Marketplace/Handlers: internal/handlers, with Handlers/Orders, Handlers/Products and
--     Handlers/Promos. Handlers/Statuses: theorems on the statuses of the order handlers.
--   Marketplace/System: the calls of the use cases that write, and what chains of them reach.
--   Marketplace/Overlap: calls of Create, Update and Cancel that overlap. Its modules: Create as two
--     parts (Phases), the supply (Stock), no overselling (Stocked), the promo codes (Promos), and two
--     orders of one user (Twice).
--   Marketplace/UserClient: internal/clients/userclient.go. Marketplace/Auth:
--     internal/middleware/auth.go. Marketplace/Router: the routes of cmd/main.go with their middleware
--     and handlers; Router/Entry: what stands before them. Marketplace/Logging: the body that
--     internal/middleware/logging.go logs; Logging/Entry: the line that it logs. Marketplace/Metrics:
--     internal/middleware/metrics.go, with theorems on what it shows of failures (Metrics/Failures).
--   UserService: services/user-service/internal/domain. UserService/Repository:
--     internal/repository/user.go. UserService/Auth: internal/usecases/auth.go.
--     UserService/Handlers: internal/handlers/auth.go. UserService/Router: the routes of cmd/main.go
--     and what chains of requests reach (Steps, Sound, Intact, Reachable, Accounts).
--     UserService/Middleware: internal/middleware/logging.go and metrics.go.
--   Marketplace/Config and UserService/Config: internal/config/config.go of each service.
--   Services: what the client of marketplace-api reads of an answer of user-service.
--   Tests: runs of the model and the theorems at concrete inputs.
--
-- How the code is modelled. A request is a function of an `Env`, all that the program does not
-- decide, and of a `Session`, the database and a number of calls made. The `Env` says which SQL
-- statements are refused, what ids and times they are given, and how a commit is answered. A
-- statement may be refused at any time, and where a statement writes outside of a transaction its
-- work may be kept while its reply is lost, so that the theorems that hold for every `Env` cover
-- lost connections and the checks of the schema (enum and varchar columns, the range of INTEGER and
-- DECIMAL) that are not written out. Primary and foreign keys and the UNIQUE columns are written
-- out where a statement can meet them. Rows of a SELECT without ORDER BY come in the table's order.
-- The loops over `rows.Next()` in `List` and `getItems` may end early without an error (`cut`), as
-- `rows.Err()` is not looked at; in `GetOrderItems`, within a transaction, such a fault also
-- refuses the statements behind it, and it is taken as a refusal of the SELECT. Outside of
-- Marketplace/Overlap one transaction runs after the other, and `SELECT ... FOR UPDATE` reads. In
-- Marketplace/Overlap the guards of `Create` and the rest of it are steps apart, between which
-- other calls may come; what follows the guards reads rows only under a lock, and is one step, as
-- `Update` and `Cancel` are, which lock their order first; the rate limit of `Update` is read
-- without a lock, and nothing that is shown there rests on it.
--
-- UUIDs are numbers and times are integers of nanoseconds. Go's int has 64 bits, and its wrap-around
-- is written out. float64 is the interface `Float64` with the operations that the code uses, among
-- them the rounding of DECIMAL(12,2); `IsIeee` has the two laws of comparison that the bounds on a
-- discount need. In user-service, bcrypt, SHA-256, the JWT package, the UUID package and fmt are the
-- parameter `Lib`. The loop of the client is recursion on the retries left, which are one in
-- `NewUserClient`. All other loops are over a list or over the fields of a JSON object.
--
-- A handler is a function of the claims of the caller and of the decoded request, and gives a status
-- and a body. How the database arranges rows by a comparison (ORDER BY) is a parameter, and so are
-- the text of an error (`describe`), `strings.ToLower`, `json.Unmarshal`, `os.Getenv`,
-- `strconv.Atoi` and `strconv.Itoa`. The vectors of the Prometheus client are the parameter
-- `Prometheus`, with the laws `IsPrometheus`: a call on one member of a vector moves its count by
-- one, and no other member's.
--
-- Not modelled: the package that is generated from api/openapi.yaml, which decodes a request,
-- validates it and encodes a response (`Validated` says what is used of it: max_uses of a promo
-- code has a minimum); headers of a response; the text of a log line and of /metrics;
-- database pools, and the start of the servers.
pub mod Common
pub mod Metrics
pub mod Marketplace
pub mod UserService
pub mod Services
pub mod Tests
