-- ===== src/Lib.antt =====
-- The share service: public links to a learner's work, as internal/ of the repository builds them.
--
-- Parts, and the code that each is about (paths from the repository's root):
--   Domain   internal/domain: Domain.Error (errors.go and the sentinels of the other packages),
--            Domain.Link (link.go, submission.go), Domain.Viewer (viewer.go) and Domain.Code
--            (code.go). Go methods are functions: Accessible is `accessible`, CountsViewFrom is
--            `counts_view_from`, Key is `key`, NewCode is `new_code`.
--   Share    internal/usecase/share. Share.Ports has the interfaces of ports.go and the data of
--            dto.go, as records of operations over a state that the instance chooses. Share.Setup
--            has NewService and its defaults. Share.Service has Create, Resolve, getLink,
--            SetStatus, Delete, invalidate and Stats, as functions from the state of all ports
--            (`World`) to an outcome and the next state. Share.Contract has what the comments of
--            ports.go promise, as laws over an abstract view of a port: the rows of the links by
--            code, and what the cache knows of a code. Share.Coherence says when the cache is true
--            of the rows. Share.Races has requests for one code that interleave with its owner's
--            call, as a step relation: the accesses of getLink, the commit, and the two deletes of
--            the cache's Invalidate. Share.Rivals has calls of Create that interleave, one access
--            to the repository at a time. The other modules hold the theorems.
--   Memory   internal/adapter/memstore/memstore.go: the ports in memory, with their fault switches.
--            Memory.Repository.Laws and Memory.Cache.Laws make them instances of the laws of
--            Share.Contract.
--   Redis    internal/adapter/redisstore, over an abstract Redis and an abstract JSON codec, with
--            what both document as laws. Redis.LinkCache has link_cache.go, and
--            Redis.LinkCache.Laws makes it an instance of the laws of Share.Contract.
--            Redis.Snapshots has content_cache.go, a ContentReader behind a cache, and the Delete
--            of internal/usecase/submission. Redis.RateLimiter has rate_limiter.go.
--            Redis.ViewCounter has view_counter.go: Track is `enqueue`, record is `record_view`,
--            and flush goes over Redis and the store of the views. Redis.ViewCounter.Flushing has
--            what flush relies on, as laws (`FlowLaws`), among them that INCRBY does not fail. A
--            GETDEL that fails may have been executed, but where a theorem assumes `IsHeard`.
--            Redis.ViewCounter.Running has Run: the workers, the flusher, the requests that call
--            Track and the shutdown of cmd/api/main.go move in any order.
--   Postgres internal/adapter/pgstore: the ports over SQL statements, which are parameters, with
--            the errors that the methods map. Postgres.Rows has the table and the clauses of the
--            statements, Postgres.Laws what PostgreSQL documents of them, and Postgres.Keeping
--            makes the repository an instance of the laws of Share.Contract. Times are stored as
--            given, though PostgreSQL rounds them to microseconds.
--   Token    internal/adapter/token/jwt.go: Issue and Verify.
--   Http     internal/adapter/httpapi: Http.Errors (errors.go), Http.Auth (middleware/auth.go and
--            ratelimit.go), Http.Handlers (share_handler.go, dto.go) and Http.Pages (page.go and
--            the handlers of the page and of submissions), over requests as the handlers read them,
--            and Http.Router (router.go), with the routes and their middleware. A handler is a
--            function from a request and the state to a response and a state.
--   Config   internal/infrastructure/config/config.go: Load is `load`, over the environment.
--   Datastore
--            internal/infrastructure/datastore: retry of postgres.go is Datastore.retry, Migrate is
--            in Datastore.Migrations, over a connection that is a parameter, and ConnectPostgres and
--            ConnectRedis are in Datastore.Connecting.
--   Cmd      cmd/api/main.go: Cmd.Wiring has the production service and the parts of the router,
--            and Cmd.Run has run, with its deferred calls, and main's exit status. What handlers do
--            that outlive a Shutdown which has failed is not followed: the mark `requests` stays.
--   Outcome  the result of a Go function that may fail, with rules for postconditions.
--   Base     Boolean tests, lists, texts as lists of bytes, int64 values as patterns below 2 ^ 64
--            with their wrap-around, Go maps as association lists, and decimal texts.
--   Tests    a concrete service over the memory ports, and each theorem on concrete data.
--
-- How the code is read. An error is a value of `Error`, compared by identity as errors.Is does for
-- sentinels that are not wrapped; an error of another package is `foreign`. The laws let every call
-- of a port fail with such an error or `unavailable`, and a failed write of the cache may have been
-- done or not. A float32 is its bit pattern. A time is a number of nanoseconds. The clock and the
-- generator of codes are one part of the state, and the clock does not move within a request: each
-- request reads it once. A method that takes a mutex is one step. Requests run one after the other,
-- so singleflight runs its function (`RunsAlone`), except in Share.Races, where each access to a
-- store is a step, no entry expires, and one owner's call runs once, in Share.Rivals, and in
-- Redis.ViewCounter.Running, where a flush is one move.
--
-- Fuel. The draw of a code goes over the list of the reads that crypto/rand delivers, with a result
-- of its own where the list ends too early; eight bytes below 248 are enough. The loop of flush has
-- fuel for its rounds, and `unfinished` as its result where they are too few: it runs as long as
-- Redis gives full batches, and more rounds than a thousandth of the dirty links are enough where no
-- command fails. The retry loop of Create is a recursion on the attempts that are left.
-- Decimal texts have twenty digits of fuel, which is enough for every number below 2 ^ 64.
--
-- Not modelled: contexts and deadlines (a deadline that passes is an error of the port), logs and
-- metrics, what runs in PostgreSQL and Redis, the
-- HTML template, the access log, and the options of the connections and of the HTTP server.
-- os.Getenv, time.ParseDuration, crypto/sha256, package unicode beyond ASCII, x/sync/singleflight, Redis, the connection to
-- PostgreSQL, encoding/json, the JWT package, Gin's binding of a JSON body and its matching
-- of paths, net/http's server, signals and time.AddDate are
-- parameters.
pub mod Base
pub mod Cmd
pub mod Config
pub mod Datastore
pub mod Domain
pub mod Outcome
pub mod Share
pub mod Memory
pub mod Token
pub mod Postgres
pub mod Redis
pub mod Http
pub mod Tests
