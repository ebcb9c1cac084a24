-- ===== src/Lib.antt =====
-- Verification of the finance service: a Go program that serves a finance API for many tenants. It
-- authenticates requests by OIDC tokens, takes a tenant for each request, reads and writes documents
-- in S3, and gives database sessions in the schema of a tenant.
--
-- Parts, and the files that model them:
--   * Auth: internal/auth. Claims has the JSON claims and their readers, Roles extractRoles and
--     dedupe, Authenticator NewAuthenticator and Authenticate, Middleware the middleware and
--     bearerToken. The decoded claims are the data types of Context/Claims.
--   * Context, Common: internal/common and the chain of context values. Common/Principal and
--     Common/Tenant are the files of the same names, Common/Convert and Common/Names are utils.go.
--   * Storage: internal/storage. Slug has the sanitisers and slugifyName, S3 the uploader, Noop the
--     disabled one, Contract what both of them promise as a DocumentUploader.
--   * Db: internal/db. Sessions is tenant_session.go, Provision is provision.go, Pool is pool.go.
--     Sessions/Park has calls of GetSession and ReleaseSession that run at the same time, and
--     Provision/Calls those of EnsureFinanceTenantProvisioning.
--   * Api: internal/api. Types, Errors, Responses, Strict, Wrapper and Routes are finance.gen.go:
--     its models, parameter errors, response objects with their Visit methods, strictHandler,
--     ServerInterfaceWrapper, and HandlerWithOptions. FinanceHandler is handler.go, TenantHandler is
--     tenant_handler.go. Writer is what they use of http.ResponseWriter. Service is the API as main
--     wires it, beside the operations that api/finance_openapi.yaml documents.
--   * Server: internal/server. TenantMiddleware, Router (BuildRouter) and Run (New, Start, Shutdown).
--   * Config, Logging, Tenants, Finance: internal/config, internal/logging, the tenant service and
--     repository, the finance service and repository.
--   * Dto: internal/dto. Each struct has a record and the list of its JSON fields; Wire is how they are
--     encoded, Members and RoundTrip how they are read back.
--   * Main: cmd/server. Main has the document store and the origins (Main/Documents what
--     the store promises), Main/Start the rest of main,
--     Main/Life the process that main starts: its listener, its requests, the signal and the end.
--   * Http is what the service uses of net/http, Slog of log/slog with the handler of
--     internal/logging/logger.go; Strings and Paths are what it uses of strings,
--     unicode, fmt and path; Prelude has the shared types and lemmas; Tests has the examples.
--
-- The middlewares meet in Router: the authentication puts the principal into the request's context,
-- the tenant middleware behind it adds the tenant, and the API reads both. Behind them the wrapper of
-- an operation sets the scopes, reads the parameters and runs the logging middleware, the strict
-- handler decodes the body, calls the operation and writes its response. Main/Start makes the parts
-- out of the configuration and puts the routers together.
--
-- How code is modelled. A handler maps a request to the lines it logs and the response it writes.
-- A Go pair of a value and an error is a Result whose error keeps the class that errors.Is sees.
-- A string is the list of its code points, so strings are valid UTF-8. The order in which Go
-- ranges over a map is a parameter. A provisioning call takes the package variables and gives
-- them back. Concurrent calls are a step relation: a call comes, one that waits takes the mutex,
-- the one that holds it goes on by one statement, or returns and gives it back. Acquiring,
-- executing and releasing are events in the order in which they happen. The events of the calls
-- of GetSession and ReleaseSession, in any interleaving, work on a park of connections, each with
-- its search path: the pool picks any idle connection or makes a new one, and keeps or closes one
-- that comes back; what a command does to the search path is a parameter. The life of the process
-- is a step relation, too: Shutdown of net/http closes the listener, and returns nil once no
-- request is at work, or an error when its time is up. Loops recurse on their list; digits of a
-- number are written with the number itself as fuel, and a number has no more digits than its
-- size. A writer keeps the first status, with the headers of that moment; writing to the client
-- does not fail. S3 is a client over a state, and uploads follow one another, each with its own
-- fresh UUID and date. A handler that the strict server calls returns a response object, nil, a
-- value of another type or an error. The process ends with an exit code and the pools that were
-- closed, by NewPool after a failed ping or by main's deferred calls; os.Exit runs none of these.
--
-- Parameters stand for code outside the repository: Go's Unicode tables beyond ASCII, the OIDC
-- verifier, UUID parsing and printing, the pgx pools and the answers of the queries, the AWS client,
-- the env package, encoding/json, the binders of the oapi-codegen runtime, and chi's router and
-- middlewares.
--
-- Not modelled: the validate tags of internal/dto, which no code reads, the JSON text of log lines,
-- which log/slog makes, and of structs, how the handlers of two requests interleave, SQL, scripts
-- and documents.
pub mod Prelude
pub mod Strings
pub mod Paths
pub mod Slog
pub mod Context
pub mod Http
pub mod Common
pub mod Auth
pub mod Storage
pub mod Db
pub mod Server
pub mod Config
pub mod Main
pub mod Logging
pub mod Tenants
pub mod Finance
pub mod Api
pub mod Dto
pub mod Tests
