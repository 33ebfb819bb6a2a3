-- ===== src/Lib.antt =====
-- A model of the server that shows V-ARCHIVE DJ CLASS badges beside Chzzk chat, and proofs about it.
--
-- A viewer links a V-ARCHIVE account (internal/link), which stores the account's classes in the
-- database (internal/store). A widget subscribes to a channel (internal/realtime), whose worker
-- reads chat from a session (internal/chzzk/eio3) and gives each message the badge of its sender
-- (internal/resolver), made from the stored classes (internal/djclass) and kept in a cache
-- (internal/ttlcache), which linking clears.
--
-- Base: lists, numbers, texts and maps that the parts share. A text is a list of code points.
-- Djclass: internal/djclass/djclass.go. A float64 counts units of 2^-1074; the regular expressions
--   are matchers by hand.
-- TtlCache: internal/ttlcache/ttlcache.go. `items` and `order` are two structures that share their
--   elements by identity; a panic is `none`; the clock is an argument.
-- Effects, Store, Env: errors, the rows and queries of internal/store/db/queries.sql.go without
--   the timestamps, and the state that the services share, with `WriteTx` of
--   internal/store/store.go. A list of Booleans says which calls of the database fail.
--   Store.Opening is `Open` of that file; Store.Consistent and Store.Lawful are the constraints of
--   internal/store/migrations that the statements keep.
-- Resolver: internal/resolver/resolver.go, in that state. Link: internal/link/link.go, with the
--   interface VArchive as a parameter; Link.Daily is `SyncAll` and Link.Cards is `Card`.
-- Varchive: the client of internal/varchive/varchive.go, which fills that interface, over the network.
-- Realtime.Batch, Realtime.Hub: internal/realtime/hub.go. A channel object is a cell of a heap. A
--   function that holds `Hub.mu` is one step, and so is a flush. The callback of a timer is a step
--   that may come at any time, since one that was stopped too late still runs.
-- Realtime.Badges: the flush with the resolver over the database, for which Realtime.Hub takes any
--   answers.
-- Chat, Tokens, Ingest: chat.go, tokens.go and ingest.go of internal/realtime. The loop of
--   `subscribe` has as much fuel as it has attempts, and never needs more.
-- Ingest.Sessions: `session`, over the inputs of its socket and of the goroutines beside it.
-- Eio3: internal/chzzk/eio3/eio3.go, over a sequence of frames, with encoding/json as a parameter;
--   Eio3.Dials is `Dial`, with net/url as a parameter.
-- Chzzk: internal/chzzk/client.go, over the network.
-- SessionStore: internal/store/sessions.go, over the table of Store.Sessions, with times in
--   milliseconds.
-- Web: internal/web. Web.Sites is what handlers share, Web.Accounts `withUser`, `requireLogin` and
--   the pages, Web.Login auth.go, Web.Links link.go, Web.Routes the routes that use a session,
--   Web.Streams the stream of widget.go, a list of its wake-ups over the hub, Web.Dev dev.go, and
--   Web.Front `Handler` with the headers and the access log.
--   The session manager, the client of Chzzk and net/url are parameters; a template is the data
--   that it is given.
-- Crypto: internal/crypto/crypto.go over a cipher and base64. Config: internal/config/config.go
--   over net/url. Ratelimit: internal/ratelimit/ratelimit.go. Schedule: `Until` of
--   internal/schedule/schedule.go, and Schedule.Daily its loop.
-- Snapshots: `Snapshot` of internal/store/snapshot.go and `backup` of cmd/server/main.go, over the
--   contents of the files, with SQLite as a parameter. Server: the rest of cmd/server/main.go, with
--   the steps of `serve` as a trace.
-- Tests: concrete runs.
--
-- Link.Races interleaves the queries of `Resolve` with commits and invalidations, Web.Streams a
-- stream and Ingest.Sessions a session with the steps of the hub; elsewhere an operation of a
-- service runs without another in between. Integers are unbounded, and where the source limits a
-- body to a number of bytes, elements of a text are counted. `Close` of the hub cancels the workers in the step that closes.
--
-- Not modelled: the texts of the templates of internal/web and of the logs, the SQL of the
-- migrations, and the values that cmd/server builds the parts with: calls of libraries, or settings
-- of them.
pub mod Base
pub mod Djclass
pub mod TtlCache
pub mod Schedule
pub mod Ratelimit
pub mod Effects
pub mod Store
pub mod Env
pub mod Resolver
pub mod Link
pub mod Varchive
pub mod Realtime
pub mod Eio3
pub mod Crypto
pub mod Tokens
pub mod Ingest
pub mod Chat
pub mod Config
pub mod Web
pub mod Chzzk
pub mod SessionStore
pub mod Snapshots
pub mod Server
pub mod Tests
