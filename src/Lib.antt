-- ===== src/Lib.antt =====
-- Verification library of RouterX, a gateway in Go that sends chat requests of tenants to language
-- model providers, limits and bills them.
--
-- The program's parts. A request of `POST /v1/chat/completions` passes the middleware, which finds
-- the tenant of its API key, and comes to `ChatCompletions`. That handler asks the limiter for
-- permission, checks the key's models and the balance, may answer from the prompt cache, and calls
-- the router. The router reads rules, catalog and providers from the store, selects and orders
-- candidates, and tries them until one answers, with a circuit breaker and a latency record for each
-- provider. The handler then logs and charges the request in the store.
--
-- Files and sources.
-- - Base, Base/*: Go's integers, floats as an interface, results, association lists, lists, tests.
-- - Models, Models/Content: backend/internal/models/models.go.
-- - Store/*: structs and methods of backend/internal/store/store.go. The database is a value with
--   one list for each table. A method is one statement of it, read off its SQL text, and a list of
--   outages says which of the statements to come fail for reasons outside their text. Stats and
--   Dashboard are its sums and series, with the database's rounding and percentiles as parameters.
--   Queries and Settled say which methods only read, and which leave tenants and transactions.
-- - Router/Circuit, Router/Latency: `CircuitState` and `LatencyTracker` of
--   backend/internal/router/router.go.
-- - Router/Types, Candidates, Sorting, Env, Attempt, Routing: `RouteWith`, `tryProvidersByType` and
--   `tryProvider` of the same file, over the record `Env` of what they call outside it. What other
--   requests do to the circuits and latencies while a provider is called is the field `others`.
--   Router/Reports reads both for the administrators.
-- - Gateway, Gateway/*: the three put together as main.go does. The database is the store's, the
--   client of each provider is the one of `NewProvider`, and the chat handler's services are
--   the limiter, the store and this router. Functions are the calls of the libraries.
-- - Router/Pricing: backend/internal/router/pricing.go.
-- - Limiter, Limiter/*: backend/internal/limiter/limiter.go, over a Redis server as a parameter.
-- - Providers/*: backend/internal/providers/provider.go. Wire is what the clients use of HTTP, the
--   clock and texts, and the client of a stream is a function on the state of the surroundings.
--   Types is `NewProvider` and the dummy answer, Openai, Anthropic and Gemini the four
--   implementations, and Chat is `Chat` of all of them, where `none` is a panic. The router is
--   modelled over any `Chat` that cannot panic.
--   Chat/Loops, Calls and Retries carry a property of the surroundings through all of them.
-- - Api/Http, Api/Options, Api/Billing, Api/Chat, Api/Chat/*: `ChatCompletions` of
--   backend/internal/api/handlers.go. Chat/Serving carries a property of the surroundings through
--   what follows the checks, and Chat/Admission through all of the handler.
-- - Api/Tenants, Api/Tenants/*: handlers of that file that change a tenant, and `WithAPIKey` of
--   backend/internal/middleware/auth.go.
-- - Api/Providers, Api/Providers/*, Api/Rules, Api/Rules/*: handlers of that file that change
--   providers, the catalog and routing rules. Routing rules and users are written under the foreign
--   keys and unique columns of the files in migrations/; of the other tables only the conflicts that
--   a statement names are in the model.
-- - Api/Embeddings, Api/Embeddings/*: `Embeddings` of that file.
-- - Api/Ledger, Api/Ledger/*: the handlers that change a balance, as the steps of a history.
-- - Api/Stats: the handlers of statistics, provider health and the dashboard.
-- - Api/Logs, Api/Logs/*, Store/Logs, Store/Logs/*: the request log in pages, by rows and as CSV.
-- - Api/Listings, Store/Listings: the handlers and methods that list the rows of a table.
-- - Webhooks, Webhooks/*: backend/internal/webhook/webhook.go and the handlers that change webhooks.
--   `Fire` starts a goroutine for each hook; the model is the list of their requests, in no order
--   that a theorem relies on.
-- - Auth, Auth/*: tokens and the other two functions of backend/internal/middleware/auth.go, and the
--   handlers that log a user in or register one, over the records `Jwt` and `Bcrypt`.
-- - Startup, Startup/*: backend/internal/config/config.go, and of backend/cmd/server/main.go the
--   migrations, the address of Redis, the search for files and the first rows of the tables.
--   Startup/Routes, Startup/Routes/*: the routes of main.go with the middleware of their groups.
-- - Tests/*: each theorem at concrete data.
--
-- Bounds. Every loop of the modelled code runs over a list and is recursion on that list: there is
-- no fuel. Times, durations and counts of samples are natural numbers; tokens and prices follow Go's
-- types, as integers and as the float interface. Counters stay far below the width of Go's `int`,
-- so that wrap-around is not written out.
--
-- The gateway. A call of the router is one step of it: other requests may change circuits and
-- latencies while a provider is called, and do not change the tables. A client that panics counts as an
-- attempt that failed, after which the router may go on; the code ends the request there, and so sends
-- no more than the model. The ledger is modelled over operations of which none interleaves with another,
-- which the code, that uses no transaction for them, does not enforce.
--
-- Not modelled. Metrics, traces, log lines, CORS and response headers; the connections and the server
-- loop of main.go; the web console, which keeps no state that the parts above read. The libraries of
-- Go, PostgreSQL and Redis are parameters, and what a theorem relies on is one of its hypotheses.
pub mod Base
pub mod Models
pub mod Store
pub mod Router
pub mod Limiter
pub mod Providers
pub mod Api
pub mod Webhooks
pub mod Gateway
pub mod Auth
pub mod Startup
pub mod Tests
