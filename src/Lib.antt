-- ===== src/Lib.antt =====
-- A verification library of the WhatsApp MCP server: a Go program that keeps one WhatsApp session, mirrors
-- what it receives into a local cache, and serves both to MCP clients.
--
-- The program's parts and the files that model them:
--   * internal/wa/events.go, client.go and dispatcher.go (Wa/Events, Wa/Client): the client's lifecycle
--     state, its subscribers' channels and the dispatcher. The dispatcher's goroutine reads raw events of
--     the WhatsApp library (`dispatch`), each changes the state (`handle`) and is fanned out to the
--     subscribers (`fanout`, split at the point where it releases the lock). Channels stand on a heap
--     that is indexed by subscriber; a send on a closed channel, a panic of Go, is `none`. `opened`,
--     `connect`, `disconnect` and `close_all_subs` are `Open` after its file and store set-up,
--     `Connect`, `Disconnect` and the end of `dispatch`.
--   * internal/wa/admin_ops.go and pair_observe.go (Wa/Pairing): the pairing flow (`flow` is the
--     goroutine of `StartPairing`), `start_pairing`, `pair_phone`, `unpair` and `pair_latest`.
--     Wa/Pairing/Waiting has `PairWaitNext` as a step relation of its waiter, its watchdog and the
--     producer.
--   * internal/cache/models.go, upsert.go and polls.go (Cache/Models, Cache/Store,
--     Cache/Contacts, Cache/Polls): the tables, as association lists under the keys of their primary keys (Cache/Table; the
--     options of polls are a plain list of rows), and the SQL
--     statements of each write as functions of them; Cache/Operations collects the writes in one type.
--   * internal/cache/handler.go (Cache/Envelope, Cache/Ingest): the ingestor. `handle_event` is
--     `HandleEvent` with the handler of every event, history syncs included; it writes the cache by the
--     functions of Cache/Store and Cache/Polls. The dispatcher calls it by its event hook.
--   * internal/tools/polls.go (Tools/Polls, Tools/Voting): the ballot of a new poll
--     (`normalisePollOptions`), the handler of `get_poll_results`, which reads the cache by Cache/Polls
--     and counts its votes, and the handler of `vote_poll`, which checks a vote against the cached
--     ballot, sends it and writes it to the cache.
--   * internal/audio/audio.go (Audio): the probe of Ogg/Opus streams, over an in-memory reader.
--   * internal/media/media.go, sweep.go, upload.go and http.go (Media): the store of media files. Digests,
--     Filenames, Mime and Disposition have the functions on names and headers; Directory the store's directory,
--     whose calls can fail as an argument says; Payloads and Store `putStream` with `Put` and
--     `PutReader`, `Lookup` and `Open` (`open_blob_of`); Sweep one pass of the sweeper over a listing; Opening the opening
--     of a store with the options of Config and the sweeper's loop; Http the
--     routes for upload and download, which meet in the directory. Sizes of files are natural numbers, as
--     no directory holds 2 ^ 63 bytes; the limit of an upload is written with its wrap.
--   * internal/cache/migrations.go (Cache/Migrations): loading, `migrate` and `migrate_down`, on what was run and
--     which versions are recorded, each in a transaction (`in_tx`) that keeps what a rollback goes back to.
--   * internal/cache/sync.go (Cache/Sync): the orchestrator of a synchronisation. `step` is a call of `Start`
--     or one critical section of the goroutine that `run` is; `run_groups`, `run_newsletters` and
--     `run_app_state` are its workers, of which the first two write chats by Cache/Store.
--   * internal/config/config.go (Config): `Load` and `Validate`.
--   * internal/mcp/mcp.go and server.go (Mcp): the registry, the gate before every tool
--     (`pairing_middleware`), bearer authentication, the health probe and the routes (`http_mux`).
-- Base holds what these share: tests, lists measured by native numbers, bytes, signed 64-bit
-- arithmetic, keys and sorting. The Examples modules hold concrete runs.
--
-- Conventions: a time is a natural number, 0 for Go's zero time: of seconds in the cache, of
-- milliseconds in Cache/Sync and Tools/Voting, and of nanoseconds in Media. A reaction and a vote have
-- milliseconds, of which their rows keep the seconds. `time.Now()` is an argument.
-- Text is a string and a byte a natural number. int64 and uint64 arithmetic is written with its wrap
-- where it can be reached. Nothing runs on fuel: every loop of the sources that are modelled is a
-- structural recursion.
--
-- Parameters: what the WhatsApp library, the operating system and Go's library answer (the outcomes of their
-- calls, the JID parser, the digest of a poll option, the decryption of a vote, the files that `Unpair`
-- removes, SHA-256, the JSON of a sidecar, the MIME database, the parsers of the configuration) is an
-- argument of the definitions that use it; a theorem that needs one of the answers has it as a
-- hypothesis. Failures of the database engine are left out of the cache's writes, which fail only by the
-- checks in the code or by finding no row; each call of a migration's transaction can fail as an argument says.
--
-- Not modelled: logging; the adapters to the MCP library, the transports and the other tools; the readers of the
-- cache; the transcoding by ffmpeg; the data directory's lock.
pub mod Base
pub mod Audio
pub mod Wa
pub mod Cache
pub mod Tools
pub mod Media
pub mod Config
pub mod Mcp
