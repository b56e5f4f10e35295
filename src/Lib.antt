-- ===== src/Lib.antt =====
-- SLayer (slayer/), a semantic layer: queries over data models are compiled to SQL and run against
-- databases. Clients reach it over HTTP, MCP, Flight SQL and the wire protocol of Postgres. This
-- library models the parts that are logic of the program itself: the rules that keep a session to
-- its tenant's rows, the server side of the Postgres protocol, the cache of query results, the
-- graph of joins and its upkeep in the storage, the rules that all storages share, the migration of
-- stored models, the check for cycles of derived columns, and the encoding of dotted aliases.
--
-- Files and sources
--   Policy, Policy/: slayer/core/policy.py. The rules of a session policy and their validators:
--     `ColumnFilterRule`, `JoinFilterRule`, `DataFilterRule`, `make_join_rule`, `make_column_rule`,
--     `require_block_backstop`. Policy/Chain has the hops of a join rule and when they form a chain.
--   SessionPolicy, SessionPolicy/: slayer/sql/session_policy.py. `apply_session_policy` wraps each
--     physical table of a statement in a filtered subquery, from the rules of Policy. Rows gives the
--     subqueries the meaning they have in SQL, SemiJoin that of a chain of joins, Scoped and Isolation
--     relate what a statement reads of a table to the rules. Backstop is about the block rule that
--     stands behind join rules.
--   Wire, Wire/: slayer/pg_facade/protocol.py, and the reads of whole messages in connection.py.
--     Encode and Decode have `encode_*` and `decode_*`, Frames `_read_startup_frame` and
--     `_read_message`, Codes the format codes. Layout writes down the messages of a client as the
--     protocol lays them out; Numbers, RoundTrip, Bodies, Bind and DataRow read back what was written.
--   Login, Login/: slayer/pg_facade/auth.py, and `_handle_startup` and `_authenticate` of
--     connection.py, over the messages of Wire.
--   Session, Session/: slayer/pg_facade/connection.py after the login. `PgConnection` is the state;
--     Act sequences handlers, which change the state and may raise. Settings, Params, Refresh,
--     Statements, Handlers and Loop have the methods, from `_apply_set_setting` to `_main_loop`, each over the
--     ones it calls. Moves has the elementary changes of a session as a relation; SteadySettings,
--     Steady, Extended and Dispatch relate the handlers to it. Ready is about ReadyForQuery, Stream
--     about the stream of messages, Describe about that message,
--     Substitution about `$N`, Parse and Bind.
--   QueryCache, QueryCache/: slayer/engine/cache.py. `get`, `put`, `delete`, `clear`, `commit_replace`,
--     `_table_matches` and `applicable_keys`. An entry carries a number for its identity as an object;
--     the lock makes each operation one step. Engine and Refresh have `_execute_cached` and `refresh` of
--     slayer/engine/query_engine.py over them; Replace, Genuine and Served are about all of these.
--   JoinGraph, JoinGraph/: slayer/engine/join_graph.py. The file itself has `build_from_models` and
--     `reachable_from`, which Build, Loop, Reach and Correct are about. Paths has `shortest_path`, and
--     Layers, Layered, Distances, Order, Best, Extend and Shortest are about it; Roots has
--     `min_hops_root`, and Totals and MinHops are about it.
--   ColumnCycles, ColumnCycles/: slayer/engine/column_dependency.py, with `_is_trivial_base` of
--     column_expansion.py. The file itself has what a column depends on, from a reference in its SQL to
--     `_node_dependencies`; Search has `_dfs_visit`, `_prefetch_reachable_models` and
--     `validate_no_column_cycles`. Relation has chains and cycles; Visit, Finish and Fuel are about the
--     search, Roots about the columns it starts from, Prefetch, Joined and Collected about the models.
--   Migrations, Migrations/: slayer/storage/migrations.py over any registry, with what a second
--     `migrate` does in Once; Convert has the converters of a model from version 3 to 7 in
--     v4_migration.py to v7_migration.py, Legacy, Inside and Modern are about the step to version 5.
--   JoinSync, JoinSync/: slayer/storage/join_sync.py, over the wrapped storage as an interface, whose
--     laws are `IsLawful`. `save_model_impl`, which `wrapper_save` calls once the storage is reconciled,
--     `delete_model` and `ensure_reconciled` are made of
--     `mirror_inner_joins` and `remove_inner_joins_to`. Edits is about one model's joins, Effects follows
--     one key through the writes, Save and Delete are about the operations, Symmetry about pairs of
--     models, Reconcile about the first access. Memory is a storage in a list.
--   Storage, Storage/: slayer/storage/base.py. The file itself has the names of paths, identities, lists
--     and priorities: `validate_path_component`, `resolve_model_identity`, `list_models`. Rows has the
--     rows of memories and embeddings and what a deletion takes with it, `delete_model`,
--     `delete_datasource`, `delete_memory`, `save_memory`. Embeddings has the deletion of embeddings
--     of slayer/storage/sidecar_embedding_store.py, with the LIKE of SQLite that it uses. Paths,
--     Identity, Strip, Cascade and Names are about these.
--   Alias, Alias/: slayer/sql/dialects/_alias_mangle.py. `encode_alias` and `decode_alias`.
--   Prelude, Prelude/: what the parts share: lists under native numbers, texts, dictionaries, and
--     the results of code that may raise.
--
-- How it is modelled
--   A Python text is a list of code points, bytes are numbers below 256 by the encoders' `% 256`, a
--   Python integer is ℤ of Wire; 16 and 32 bit integers have the range that `struct` checks. Names
--   in the graph and the keys of dictionaries are texts, dictionaries are lists of pairs in insertion
--   order. An exception is a value of a result type. In Session what a handler did before it raised
--   stays done, and the replies are kept in the state in the order in which they are written.
--   The parts that connection.py calls are the fields of `Backend` in Session.antt: sqlglot, the
--   translator of slayer/facade, the engine, the storage, the clock and the encoding of single values.
--   The engine and the time between messages change a world that the session does not look into. A
--   clock counts in whole ticks and does not run backwards. A reply to be written is taken to fit
--   into its message; the bounds of `struct` on the messages themselves are in Wire.
--
-- Fuel
--   `main_loop` takes a message per round, and each has five bytes at least: the length of the stream
--   and one more round are enough. `handle_startup` takes eight bytes per
--   round, `read_params` two; `decode_startup` gives it the length of the body. `reachable_from` gives
--   its search the number of names in the sets of the graph and one more. `detect_cycle_dfs` goes at most
--   as deep as there are columns, since a stack holds a column once; `prefetch_reachable_models` takes
--   each stored model from its queue once. `shortest_path` has the fuel of `reachable_from`. The loop of
--   `migrate` goes by the number of versions that are left.
--
-- Not modelled
--   The compiler from queries to SQL (slayer/engine, slayer/sql/generator.py), the translator
--   (slayer/facade) and the syntax trees of sqlglot; servers, clients and storage backends, which are
--   input and output; the converters and the demo data. In the modelled files: `_infer_kind` of
--   policy.py, ClickHouse's settings in session_policy.py, the digest of the keys and the parsing of SQL
--   in cache.py, `split_messages` of protocol.py, which only tests call, and in connection.py the
--   building of the catalog, the index of column types, the upgrade to TLS and the release of scoped
--   resources. Of the migrations the steps from the versions 1 and 2, the layouts of files and tables,
--   and type_refinement.py.
pub mod Prelude
pub mod Alias
pub mod ColumnCycles
pub mod JoinGraph
pub mod JoinSync
pub mod Login
pub mod Migrations
pub mod Policy
pub mod QueryCache
pub mod Session
pub mod SessionPolicy
pub mod Storage
pub mod Wire
