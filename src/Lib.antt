-- ===== src/Lib.antt =====
-- A model of the server package of pramen, with its properties.
--
-- The server decides what a caller may read and write (roles, policies and row predicates), stores
-- rows under a schema that is split into partitions, moves data between versions of the schema once
-- each, and delivers deferred tasks. A request resolves the caller's policies into grants, merges
-- them into a scope, compiles the scope's predicate into SQL, and decides in memory which columns
-- of a returned row are shown and whether a written row passes.
--
-- The parts, with the source that each models (under packages/server/src):
--
--   Base        Boolean tests, lists as JavaScript sets and dictionaries, and errors as values:
--               runtime/errors.ts.
--   Cell        cell values and rows (sdk/infer.ts), and their comparison in memory
--               (runtime/read-engine.ts). Numbers are integers.
--   Expr        predicates and `evalExpr` (runtime/read-engine.ts). Expr/Meaning says what a
--               predicate means on a row when the database answers its relation nodes;
--               Expr/Sql is `compileExpr`, `compileSelect` and `compileCount`.
--   Schema      the schema as data, its partitions, and `validateSchema` (sdk/schema.ts).
--   Where       rules with their markers (sdk/acl.ts), `resolveMarkers` (runtime/acl.ts) and
--               `compileWhere` (runtime/read-engine.ts).
--   Acl         policies (sdk/acl.ts) and runtime/acl.ts: Policies is `compileAcl`, `warmup` and
--               `matchedRules`; Scoped is `compileScopedWhere`, `grantOf` and `collectGrants`, and
--               Scoped/Hops the relation predicates, `resolveScope` and `resolveRelationScope`;
--               Merge is `mergeGrants`; Fields reads a scope: `effectiveFields`,
--               `anyGrantApplies`, `possibleFields`; Readable is `assertReadableWhereKeys`.
--   Migrations  the ledger of data migrations, its leases and `runDataMigrations`
--               (runtime/data-migrations.ts).
--   Outbox      deferred tasks: `enqueueTask` and `drainOutbox` (runtime/outbox.ts).
--   SchemaDiff  fingerprints and their diff (runtime/schema-diff.ts).
--   Db          the repository that handlers use, the class `Db` (runtime/db.ts) over a record `Engine`
--               of what a SQL engine does: Read is what its reads share, Queries `find`, `page`,
--               `count` and `aggregate`, Relations `loadRelation`, Cursor the keyset cursors; Values
--               is the checks of a write, Insert `insert`, Update `update` and `delete`, Preimage
--               the optimistic compare of `update`, Triggers and Echo what follows a write.
--               Constraints and foreign keys are the engine's: an INSERT, an UPDATE or a DELETE that
--               they refuse is an error, and what a DELETE does to rows that refer to the
--               deleted ones is its `removed`.
--   Dispatch    `dispatch` (runtime/dispatch.ts) and `authorizeHandler` (sdk/handlers.ts): the run of a
--               handler with a `Db` of its own, a mutation inside the driver's transaction.
--   Token       `signToken` and `verifyToken` over a record `Crypto` of WebCrypto, base64, the text
--               codecs and JSON, and `resolveSecret` (runtime/token.ts).
--   Witnesses   the theorems at concrete inputs; DbWitnesses has those on `Db`, with the test data of
--               DbSamples, DispatchWitnesses the one on `dispatch`, TokenWitnesses the one on tokens.
--
-- State is passed explicitly: a SQL table is the list of its rows, and a statement a function on
-- it. A `Run` passes the state of one `Db` along: its tables, the outbox, the tables that it touched.
-- What others write between the two statements of an attempt to update is an argument, a function of
-- the attempt's number. What a thrown error carries is a `Result`. The clock, the other runners of a migration and
-- the handlers of tasks are arguments. The JavaScript runtime (number parsing, case folding,
-- inherited properties) is the records `Host` and `Objects`.
--
-- Bounds: relation predicates nest at most five deep, as MAX_REL_DEPTH says, and the model counts
-- the hops that remain; the digits of a flag's number are written with the number itself as fuel,
-- which its digits never exceed. The loop that waits for a lease runs over the list of its rounds
-- and is `none` if they end while it waits.
-- An update is attempted three times, as UPDATE_ATTEMPTS says, by recursion on the attempts left.
--
-- Not modelled: the text of the aggregate and of the writing statements, the SQL engines, the drivers, the creation of the internal
-- tables, the network and platform glue, and the packages built on the server.
pub mod Acl
pub mod Base
pub mod Cell
pub mod Db
pub mod DbSamples
pub mod DbWitnesses
pub mod Dispatch
pub mod DispatchWitnesses
pub mod Expr
pub mod Migrations
pub mod Outbox
pub mod Schema
pub mod SchemaDiff
pub mod Token
pub mod TokenWitnesses
pub mod Where
pub mod Witnesses
