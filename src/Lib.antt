-- ===== src/Lib.antt =====
-- quorum-market: a shop of several services over a replicated key-value store.
--
-- The parts that are modelled, and how they work together:
-- - internal/kv is the store. A node keeps a map of versioned entries (entry.go, store.go: `Kv.Entry`,
--   `Kv.Store`); a coordinator writes to its own map, pushes the entry to its peers and reads by
--   asking them (service.go: `Kv.Service`, whose writes and reads call the store's methods); nodes
--   answer each other through replicator.go and server.go (`Kv.Cluster`). config.go is `Kv.Config`
--   and the simulated transactions of txn.go are `Kv.Txn`. The handlers of server.go around these are
--   `Kv.Server`, and client.go, by which the other services reach a cluster, is `Kv.Client`.
-- - internal/warehouse/inventory.go holds the stock: `Warehouse.Items` merges a request's lines,
--   `Warehouse.Stock` counts units under version checks, `Warehouse.Inventory` keeps reservations and
--   request receipts, which `Warehouse.Inventory.Settling` releases, ships and sweeps; shipper.go takes
--   ship messages from the queue to it (`Warehouse.Shipper`), and server.go requests (`Warehouse.Server`).
-- - internal/order/order.go records orders from placement and shipment events (`Order`) and lists them
--   (`Order.Listing`); `Order.Server` is server.go.
-- - internal/product has the catalogue (`Product`), which reads through internal/cache/cache.go (`Cache`);
--   `Cache.Readers` has the callers of one key as a step relation, over a database that holds what it
--   will at each moment.
-- - internal/cart sells: model.go and service.go are the carts (`Cart.Model`, `Cart.Service`),
--   idempotency.go makes checkouts safe to retry (`Cart.Idempotency`), and checkout.go takes an order
--   through the warehouse, the card authorizer and the database (`Cart.Checkout`). server.go decides
--   whose cart a request may reach (`Cart.Server`), and internal/cca decides on a charge (`Cca`).
-- - internal/events carries what happened (`Events`), and internal/notification turns it into the
--   messages of an inbox (`Notification`).
-- - internal/httpx has the errors that all services return, the retrying client of their calls and its
--   circuit breaker (`Httpx.Errors`, `Httpx.Client`, `Httpx.Breaker`), and the middleware around their
--   routes (`Httpx.Middleware`). internal/obs/health.go is their readiness (`Health`).
-- - internal/rmq is between the services and the broker: consumer.go (`Rmq.Consumer`), whose handler
--   can be the shipper or a subscriber of `Events`, publisher.go (`Rmq.Publisher`) and conn.go
--   (`Rmq.Connection`).
-- - internal/gateway/gateway.go is the front door (`Gateway`): it asks internal/auth/auth.go (`Auth`)
--   who calls and internal/ratelimit/ratelimit.go (`RateLimit`) whether the call may go on. What a
--   service is told of the caller behind the reverse proxy, which takes off the headers that the
--   client's Connection header names, is `Gateway.Proxy`.
-- - internal/identity/identity.go keeps accounts and sessions (`Identity`), and issues the tokens of
--   `Auth`, whose verifier can ask it for revoked sessions.
--
-- A struct is a record with the fields of the source; a method is a function of that name, in lower
-- case with underscores, that takes the state last and returns the new one beside its result. A Go
-- error is an `Error` with its HTTP status, without its text. A map is an association list, and where
-- the result of a method can depend on the order of `range` the walk is an argument. Strings are lists
-- of bytes. int and int64 are integers that wrap where the code adds to them; uint64 counters are
-- natural numbers modulo 2 ^ 64. Times are natural numbers of nanoseconds, read by the caller.
--
-- What the code does not decide is an argument: the time, fresh ids, the digest, the results of remote
-- calls in the order in which they arrive, the error of a cancelled context, and in `Warehouse.Stock`
-- what other goroutines do between the moments at which a request holds locks. Locks show as functions:
-- what runs under one lock is one function, and `Warehouse.Inventory.Conservation` interleaves these.
-- The fan-out loops recur on the list of results. The attempts of a reservation are a list of rounds,
-- of which `MaxCASAttempts` (1000) are used, and the retry loop of the client recurs on the number of
-- attempts left, which is all that the code makes; there is no other bound on a loop. The workers of a
-- queue, the goroutines of a publisher, the watcher of a connection, the requests in flight and the
-- callers of a cache are step relations (`Rmq.Consumer.Deliveries`, `Rmq.Publisher.Pool`,
-- `Rmq.Connection.Lifetime`, `Httpx.Middleware.Slots`, `Cache.Readers`). The attempts to dial are bounded
-- by the configuration, whose number the recursion counts down.
--
-- Redis, the account store, bcrypt, SHA-256, JSON and the JWT library are records of operations (`Auth`,
-- `Identity.Stores`, `Cache`, `Product`, `Events`, `Notification`), and what the code relies on of their documented behaviour is a record of laws,
-- which a theorem takes where it needs them; the modules called Toy are instances for the tests.
-- The rate limiter's script is a function on the sorted set that it works on. A call of a checkout to
-- another service is an effect that the model records, with the answer as an argument; one that returns
-- an error is recorded as failed, since it may have taken effect. The calls of the catalogue run one
-- after another.
--
-- Not modelled: metrics, logs, the text of JSON, HTTP routing and the goroutines of tickers, and the services that
-- the manifest of components lists as such.
pub mod Common
pub mod Httpx
pub mod Kv
pub mod Warehouse
pub mod Order
pub mod Rmq
pub mod RateLimit
pub mod Auth
pub mod Events
pub mod Notification
pub mod Cache
pub mod Gateway
pub mod Identity
pub mod Cart
pub mod Cca
pub mod Health
pub mod Product
