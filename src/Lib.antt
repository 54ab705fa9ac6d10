-- ===== src/Lib.antt =====
-- ChiselStrike: a backend that stores TypeScript entities in a relational database, serves CRUD
-- routes over them and lets client code query them through chains of operators. The development
-- models the path of a CRUD request from its URL to nested SQL selects, the types behind it, and the
-- access policies that decide which requests and which rows are allowed.
--
-- The parts and how they interact:
-- * Prelude, BTree: shared types, lists, text as bytes, `Result`, association lists (HashMap) and
--   entries in key order (BTreeMap).
-- * PrefixMap (server/src/prefix_map.rs): the map that routes and policies are found in by the longest
--   path prefix. `longest_prefix`, `insert` and `is_path_prefix` have the names of the source.
-- * Types, Types/Builtin (server/src/types/mod.rs, builtin.rs): types, type ids, object types, fields
--   and the table of built-in types. `FieldType` is the enum `Type`.
-- * TypeSystem (server/src/types/type_system.rs): the types of one version. Lookups by name and by
--   id, and `generate_type_delta`, which decides how a stored type evolves. The functions
--   `new_fields_loop`, `step_field`, `update_field` and `removed_loop` are its loops and branches.
-- * Expr, Expr/Eval (server/src/datastore/expr.rs): query expressions, and what they mean on a row in
--   the three-valued logic of SQL; the row's values and comparisons are a parameter, `Row`.
-- * Json, Filter (server/src/datastore/filter.rs): JSON values, and `to_expr` on JSON filters; its
--   loops are functions of the accumulated expression.
-- * QueryPlan (server/src/datastore/query.rs): query operators, the conversion of operator chains,
--   and `make_raw_query`, which splits the operators at limits and nests a select for each stage.
--   The text of a select is the tree `Sql` of its clauses; the errors of `make_filter_string` and
--   `make_sort_string` are `check_filter` and `check_sort`.
-- * Crud, Crud/Query (server/src/datastore/crud.rs): the parameters of a URL to a query, cursors with
--   their filters and sorts, links to pages, and deletions. `get_filter`, `get_sort`,
--   `from_url_query`, `make_query_ops` and `delete_from_url_query` have the names of the source.
--   The routes' queries use TypeSystem for their property chains, Filter for the parameter `filter`
--   and QueryPlan for their operators.
--
-- * EntityValue, Policies (server/src/datastore/value.rs, policies.rs): the policies of a YAML file.
--   `user_allowed` and `secret_allowed` are the two functions `is_allowed`, `add_users` and
--   `add_header` the two functions `add`; the loops of `from_yaml` and `make_field_policies` have
--   functions of their own. The paths are found through PrefixMap.
-- * PolicyCompiler (chiselc/src/policies.rs, tools/analysis/region.rs): predicates and conditions with
--   `Cond::simplify`; PolicyCompiler/Mapping and Simplify: the terms of Boolean expressions;
--   PolicyCompiler/Vars: variables and `Predicate::parse_expr`; PolicyCompiler/Rules: the rules
--   inferred from the regions of a policy function, up to `FilterPolicy::from_arrow`.
-- * PolicyEngine (server/src/policy/interpreter.rs, engine.rs, type_policy.rs): the partial evaluation
--   of a compiled read policy for a request, and `eval_read_policy_expr`, which makes an expression of
--   Expr that the query engine adds to the filters.
-- * PolicyInstances (server/src/policy/mod.rs, instances.rs): what the policies of a type do to reads
--   and writes. A function that changes the instance and may fail is a `Run`; the steps of
--   `process_write` have functions of their own, `write_checked` down to `write_value`. The filter of
--   a read policy comes from PolicyEngine.
-- * PolicyModules (chiselc/src/policies.rs, server/src/policy/engine.rs): `Policies::parse` on a parsed
--   module, which compiles its filters with PolicyCompiler, and `register_policy`, which makes the
--   `TypePolicy` of PolicyInstances of the result.
--
-- * QueryCompiler (chiselc/src/rewrite.rs, query.rs, filtering.rs, symbols.rs, utils.rs and transforms/):
--   the syntax tree and the query expressions. Its children are Convert (transforms/utils.rs), Split
--   (transforms/filter/splitting.rs), Properties (query.rs, filtering.rs), Infer (transforms/filter.rs,
--   find.rs, utils.rs), Emit (transforms/filter/emit.rs) and Rewrite (rewrite.rs), with the function
--   names of the source; the branches of `extract_filter` are `extract_arg`, `extract_arrow`,
--   `split_body` and `make_filter`. The names in Properties become the indexes of Types, and the
--   objects that Emit makes are read as Expr.
-- * Apply (server/src/apply.rs): the messages of a request; Apply/Sort: `sort_custom_types`; Apply/Plan:
--   what `apply` decides before its first write, with TypeSystem for the deltas and Types for the new
--   types; Apply/Transaction: `ParsedPolicies::parse` and `apply`, up to its two commits. A `World` is the
--   committed metadata and tables with the type system that the caller passes.
--
-- Parameters: JSON, base64 and URL encoding and the parsing of floats are the record `Codec`; how a
-- database orders rows is the record `Database` with the laws `IsOrdering`. Floats are bit patterns.
-- YAML, regular expressions and HTTP methods are the record `Library`; the simplification of
-- quine-mc_cluskey is `Simplifier` with the law `IsSimplifier`; the operators of boa on JSON values are
-- `Boa`; how JavaScript computes the tests of a policy is `Semantics`, with the law `IsTruthful`;
-- how JavaScript runs the predicate of a filter is `Engine`, with the laws of its operators and of names
-- that do not change; the conversion of a position to a float is `f64_of`;
-- the metadata store and the query engine under `apply` are `Services`, the graph and permutation crates
-- are `Graphs` with the laws of a topological sort;
-- boa's calls of policy functions and the conversions of their values are `Runtime`.
--
-- Meanings: what the code is compared with is written apart from it, with tables of its own for operators
-- and literals, in Expr/Eval and Filter/Meaning (filters), Crud/Asked (the parameters of a deletion),
-- QueryPlan/Pipeline (plans), PolicyCompiler/Vars/Meaning and Rules/Run (policy functions) and
-- PolicyEngine/RowValue, Known and OnRow (read policies).
--
-- Fuel: `raw_query_loop` has one unit for each operator of the plan, since every round takes at least
-- one operator off. `lookup_builtin` has one unit for each byte of the name, since an array's element
-- name is shorter. `get_value` and `var_value` follow the objects of a variable, which have smaller ids
-- than the variable, so the number of variables, or the id, is enough. The
-- depth bound 100 of JSON filters is the program's own.
--
-- Not modelled: the text of columns and joins, login filters and the reading of rows (database I/O);
-- the syntax of policy modules and their control flow, the cache of policy instances; the metadata
-- store, secrets, HTTP and RPC; the command line, the TypeScript compiler and the client API. Beginning
-- a transaction does not fail in `apply`, and a transaction that is not committed leaves no writes; exceptions thrown by a predicate are left out of `Engine`.
pub mod Prelude
pub mod BTree
pub mod PrefixMap
pub mod Types
pub mod TypeSystem
pub mod Json
pub mod Expr
pub mod Filter
pub mod QueryPlan
pub mod Crud
pub mod EntityValue
pub mod Policies
pub mod PolicyCompiler
pub mod PolicyEngine
pub mod PolicyInstances
pub mod PolicyModules
pub mod QueryCompiler
pub mod Apply
