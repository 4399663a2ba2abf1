-- ===== src/Lib.antt =====
-- A model of web-scraper's Go program and the theorems about it.
--
-- The program: an API process takes search requests for three marketplaces (internal/api), checks
-- each query against a policy (internal/policy), and puts a job into a Postgres table. Worker
-- processes (cmd/worker) claim jobs, ask a browser service for listings, and complete the job: the
-- listings go into a catalogue of products and a history of observed prices, in one transaction
-- (internal/store). Workers renew their claims, and a maintenance loop requeues jobs whose claim
-- has gone stale, so a job may be claimed again while its first worker is still at it. The store is
-- the one state that the processes share. Apart from these, a command exports the articles of a
-- WordPress site and their media to files (internal/ziz).
--
-- The files:
--   Base            numbers, lists, tables, strings as bytes, and the tests on them.
--   Go              what the program uses of the packages strings and strconv.
--   Model           internal/model/model.go.
--   Store/Db        internal/store/schema.sql: the tables as lists of rows; errors, transactions
--                   and the ways a round trip can end.
--   Store/Jobs      internal/store/store.go: CreateJob, GetJob, ClaimJob, RefreshJobClaim,
--                   FailJob, RequeueStaleJobs, each as a function from the tables to a result and
--                   the tables.
--   Store/Complete  CompleteJob, with every round trip of its transaction.
--   Store/Catalogue internal/store/store.go: the upsert of a product, the insertion of an
--                   observation, PruneHistory, History.
--   Store/Keys      internal/store/store.go and api_keys.go: API keys, and the table of workers.
--   Store/Lifecycle interleavings of the calls of all these methods.
--   Config          internal/config/config.go: Load.
--   Policy          internal/policy/search.go: FilterSearchQuery, over Policy/Unicode (the runes
--                   of a string, white space, format characters) and Policy/Regex (the matcher).
--   Worker          cmd/worker/main.go: workerLoop for one job, maintainJobClaim, retryDelay,
--                   maintenance.
--   Worker/Loop     cmd/worker/main.go: workerLoop, over a script of its turns.
--   Worker/Process  cmd/worker/main.go: main, with workerLoop, maintainJobClaim and maintenance as
--                   the steps of goroutines that run side by side.
--   Worker/Browser  internal/browser/client.go: Scrape.
--   Api/Limiter     internal/api/server.go: rateLimiter.
--   Api/Reply       internal/api/compact.go, and what the handlers write.
--   Api/Header      internal/api/server.go: bearer.
--   Api/Handlers    internal/api/server.go: withAPIKey, withAdmin, and the handlers job,
--                   revokeAPIKey, listAPIKeys, workers, ready.
--   Api/Await       internal/api/server.go: search from the creation of the job on, with its
--                   polling loop.
--   Api/Search      internal/api/server.go: search from its checks on, history, createAPIKey.
--   Api/Server      internal/api/server.go: New, the table of routes.
--   Ziz/Types       internal/ziz/types.go: posts, articles and the conversion.
--   Ziz/Client      internal/ziz/client.go: do with its retries, FetchPostsPage, NewClient.
--   Ziz/Parts       internal/ziz/export.go: the files of the export, writeArticlePart.
--   Ziz/Pool        internal/ziz/export.go: ExportArticles, as the steps of its producer and
--                   workers.
--   Ziz/Validate    internal/ziz/export.go: ReadArticles, ValidateArticles.
--   Ziz/Media       internal/ziz/media.go: downloadOneMedia, mediaExtension, mediaURLAllowed,
--                   loadMediaManifest.
--   Ziz/Download    internal/ziz/media.go: DownloadMedia, as the steps of its producer, its
--                   workers and the loop that writes the manifest.
--   Ziz/Migrate     cmd/ziz-migrate/main.go: main and writeJSON.
--   System          the API process and worker processes around the tables that they share, and
--                   the way of a search through all of them.
--   Examples        sample tables, and runs at which the hypotheses of the theorems hold.
--
-- A statement runs atomically, since Postgres locks the rows that it changes; the rows that another
-- transaction has locked, and that SKIP LOCKED passes over, are an argument. What the outside
-- decides is an argument too: the server's clock, fresh uuids, whether a round trip runs and
-- whether its reply arrives, the hash of an API key, the environment. Store/Db names the few
-- properties of Postgres that the theorems use, and Examples/Data gives a server that has them.
--
-- Times of the tables are microseconds, durations of Go are nanoseconds. An int64 product keeps its
-- wrap-around; other sums stay far below the limits. No function runs on fuel: the loops recur on
-- lists, on the number of attempts left, and, for a star in a pattern, on the length of the text
-- left, since a round of a star has to move on; only the digits of a number in a name are counted
-- with fuel, and the number itself is enough. The states of the worker process, of the export's pool
-- and of the crew that downloads media are related by a step of one goroutine, so a run is any
-- interleaving of steps.
--
-- Not modelled: JSON, headers of replies, logging and waiting; the connection to the database and
-- its migration (Open, Migrate); cmd/api/main.go, which starts the server; flag parsing; how
-- net/http finds the pattern for a request; and the browser worker, which is not written in Go. Of
-- a file that an export writes the model has the articles that it reads as; of a package that
-- parses or prints (html, net/url, time, mime, encoding/json) it has a function. A rating is
-- compared by its bits, as a query is by its runes. Of the rows that tie in an ORDER BY, Postgres
-- returns any: next_queued takes the first in the table, and the points of History that tie keep
-- the order of the table; the newest observation is left to the server. What becomes of the int
-- that History passes for a text is left to the driver (pgx v5 has no encoding for it: the query
-- fails). The producer of the media sends the URLs in the order of a list; Go ranges over a map.
pub mod Base
pub mod Go
pub mod Model
pub mod Store
pub mod Config
pub mod Policy
pub mod Worker
pub mod Api
pub mod Ziz
pub mod System
pub mod Examples
