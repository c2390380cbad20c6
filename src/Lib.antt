-- ===== src/Lib.antt =====
-- A verification library for factvault: a research database that keeps each fact with the excerpt
-- that supports it.
--
-- The program. Collectors find pages; the source pipeline stores them (`CollectOnce`), strips them
-- to text (`ArchiveOnce`) and checks their links again (`VerifyOnce`). The extraction worker
-- (`ExtractOnce`) runs extractors over the text of archived sources, checks that each excerpt
-- stands in the text at its offsets, and writes a statement with a link to the source. The
-- vocabulary resolver says under which property a fact is written. The corroboration worker counts
-- the independent sources of a statement and sets its confidence. The assembler expands a graph of
-- entities from some seeds and loads what is known of them into a bundle. All state is in Postgres;
-- here it is a record of tables, `Vault`, which the workers pass on. Beside that chain, the research
-- worker asks a language model for queries and collects what a search finds; the embedding worker
-- gives rows their vectors; the dossier worker stores the bundle of each entity; the retrieval
-- service answers with bundles; briefs are derived from bundles and stored; tokens say which tenant
-- a caller is; and all fetching goes through a client that blocks private addresses.
--
-- The files, with the code that they model:
--   Common     shared names, lists and integers over the native numbers, byte strings, results
--   Utf8       how Go reads a string as runes
--   Strings    the functions of Go's `strings` that the program calls
--   Excerpt    the offset checks of internal/workers/extract.go, internal/extractors/llm.go and
--              internal/extractors/deterministic/identifiers.go
--   Db         the rows of internal/db/models.go, and the vault
--   Extractors internal/extractors/base.go and internal/extractors/deterministic/: money.go,
--              dates.go; Extractors/Identifiers is identifiers.go, Extractors/Runner is runner.go,
--              Extractors/Gazetteer is gazetteer.go
--   Vocabulary internal/vocabulary/resolver.go
--   Rows       the SELECTs and INSERTs of internal/workers/extract.go
--   Extract    the worker itself: `insertFact`, `writeExtractedFacts`, `costGuardrail`,
--              `ExtractOnce`; Extract/Effect says what one fact does to the tables, Extract/Runs
--              carries an invariant through a run, Extract/Provenance and Extract/Links are two
--              invariants
--   Confidence internal/assembler/confidence.go
--   Corroborate internal/workers/corroborate.go; Corroborate/Worker is `CorroborateOnce`
--   Pipeline   internal/workers/source_pipeline.go; Pipeline/Html is `stripHTML`, Pipeline/Verify is
--              `VerifyOnce`
--   Assembler  internal/assembler/: Assembler/Graph is graph.go, Assembler/Tables and
--              Assembler/Bundle are bundle.go
--   Config     internal/config/resolver.go
--   Briefs     internal/briefs/briefs.go: `Generate`; Briefs/Store is the service
--   Research   internal/research/research.go: `GenerateQueries`; Research/Collector is
--              `SearchCollector`
--   Embed      internal/workers/embed.go, and `Embed` of internal/embed/client.go
--   Retrieval  internal/retrieval/service.go
--   Dossiers   internal/workers/dossier.go
--   Auth       internal/auth/jwt.go
--   Network    internal/netx/http.go
--   Llm        `Extract` of internal/extractors/llm.go; Llm/Provider is
--              internal/workers/llm_config.go
--   Feeds      internal/collectors/
--   Mcp        internal/mcp/server.go
--   Examples   tests at concrete inputs, and the theorems applied at them
--
-- The models. A Go string is the list of its bytes. A UUID is a number, and `uuids` counts those
-- drawn. Confidences are thousandths, as NUMERIC(4,3) columns hold them. A function that runs in a
-- transaction returns the vault, or the error that rolls it back; `extract_once` returns the vault
-- also beside an error, since it commits source by source. A table that a query reads in an order
-- stands in that order. Go's `sort` package is an interface, `SortPackage`, with what it documents,
-- `IsSort`; so is Postgres's ORDER BY where ties matter. The tables of briefs, vectors and dossiers
-- are records of their own, which the workers that keep them do not share. Where the embedding worker
-- holds no transaction, what others do to a table is a parameter. A slice out of range is an outcome
-- of its own, `panicked`. Every loop is structural recursion but two, which have fuel: `digits`, where
-- a number has at most as many digits as it counts, and the search of the gazetteer, whose fuel is
-- two more than the text has bytes and is enough because each round moves on by a phrase.
--
-- Parameters stand for what is not in the repository: the matches of regular expressions, SHA-256,
-- zlib, HTTP answers, Unicode's tables, the host of a URL, the casts of Postgres, the supply of
-- UUIDs, the parsers of `strconv`, `time` and `net/url`, the resolver, RSA, base64, JSON and
-- JSONB, the language model, the embedder and the vector store.
--
-- Not modelled: workers that run at the same time on one tenant, but for the embedding worker's call;
-- transactions that cannot begin or commit; writes of VerifyOnce that the database refuses, and ids of
-- tenants that are no UUID in CollectOnce, VerifyOnce and the service of briefs; the
-- metadata and the publication date of a source; the JSON of bundles; the MCP protocol; the HTTP
-- server and the command line, which decode requests and wire the workers; the SQLite store, the
-- doctor and the test database.
pub mod Common
pub mod Utf8
pub mod Strings
pub mod Excerpt
pub mod Db
pub mod Extractors
pub mod Vocabulary
pub mod Rows
pub mod Extract
pub mod Confidence
pub mod Corroborate
pub mod Pipeline
pub mod Assembler
pub mod Config
pub mod Briefs
pub mod Research
pub mod Embed
pub mod Retrieval
pub mod Dossiers
pub mod Auth
pub mod Network
pub mod Llm
pub mod Feeds
pub mod Mcp
pub mod Examples
