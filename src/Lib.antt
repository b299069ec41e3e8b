-- ===== src/Lib.antt =====
-- Parseable: a server that takes in log events over HTTP, flattens them, keeps them as parquet
-- files in an object store with a catalog of manifests, and answers SQL queries over them; users,
-- roles and sessions decide who may do what. This library models the logic of these parts that
-- does not consist of calls of other libraries.
--
-- How the parts interact: a request is authorised by `Users::authorize` (Rbac); the requests that
-- change users and roles store metadata and then change the maps in memory (Handlers), after the
-- names are validated (Validator). An ingested event is flattened (Json). Its file is described by
-- statistics in a manifest, and the manifest by its time bounds in the snapshot of the stream
-- (Catalog). A query is a list of filters: the times choose the manifests and, for data older than
-- the first manifest, the object prefixes (Query/Listing, Time), and the other filters rule out
-- files by their statistics (Query/Pruning); a count query divides its range into bins
-- (Query/Counts). Retention deletes the prefixes of old dates and their manifests (Retention). The
-- alert manager sends tasks to a runtime that evaluates alerts, and an evaluation changes the state
-- of its alert and calls targets, which requests configure (Alerts).
--
-- Files and code:
--   Prelude, Dict, Order   shared: tests on numbers, lists, maps as association lists, and the orders
--                          of `bool`, `i64` and `String`. A `HashMap` and a `BTreeMap` are a `Dict`.
--   Results, Decimal       shared: `Result` with `?` as `do`, and the parsing and printing of `u32`.
--   Rbac                   src/rbac: Action, Role (role.rs: the permissions of a role, `build`, the
--                          privileges), User (user.rs), Sessions (map.rs: `track_new`,
--                          `remove_session`, `remove_user`, `remove_expired_session`), State (map.rs
--                          and mod.rs: the four global maps as one state, `check_auth`,
--                          `aggregate_group_permissions`, `authorize`), Users (mod.rs: the operations
--                          on users, roles and passwords), Groups (user.rs: the methods of
--                          `UserGroup`). The modules below them are proofs.
--   Handlers               src/handlers/http/rbac.rs and role.rs: Users and Roles (the handlers over the
--                          stored metadata and the maps), Requests (a sequence of requests);
--                          Consistency, Accepted, Errors and Roles/Refresh are proofs.
--   Validator              src/validator.rs: `user_role_name`, `stream_name`.
--   Alerts                 src/alerts: Alerts (alert_enums.rs, alert_structs.rs, the loop of
--                          `alert_runtime` in src/sync.rs), Updates (mod.rs and alert_types.rs: the
--                          manager's operations and `ThresholdAlert::update_state`), Checks and
--                          Handlers (src/handlers/http/alerts.rs, `validate`, `update_alert_state`),
--                          Requests (a sequence of requests and evaluations), Targets (target.rs:
--                          `Target::call`, `spawn_timeout_task`), Conditions (alerts_utils.rs:
--                          `get_filter_string`), Evaluation (the loop of a task in src/sync.rs),
--                          Configs (`TargetConfigs` of target.rs, src/handlers/http/targets.rs and
--                          `AlertRequest::into`), Configs/System (the requests on alerts and on
--                          targets together). The others are proofs.
--   Retention              src/storage/retention.rs: the configuration and the deletion, with
--                          `remove_manifest_from_snapshot` of src/catalog/mod.rs.
--   Time                   src/utils/time.rs: `generate_prefixes` and its helpers,
--                          `granularity_range`, `Minute`.
--   Json                   src/utils/json/flatten.rs: `flatten_object`, `flatten_array_objects`
--                          (Json), `generic_flattening`, `convert_to_array`,
--                          `has_more_than_max_allowed_levels` (Json/Generic), the validations and
--                          `flatten` (Json/Validation); src/utils/json/mod.rs: `flatten_json_body`
--                          and `convert_array_to_object` (Json/Body).
--   Catalog                src/catalog: Snapshot (snapshot.rs, `manifests`), Manifest (manifest.rs,
--                          `apply_change`), Statistics (manifest.rs, `column_statistics`), Column
--                          (column.rs, `update`), Update (mod.rs, `update_snapshot` where the calls
--                          of the metastore succeed).
--   Query                  src/query/stream_schema_provider.rs: Listing (`is_overlapping_query`,
--                          `return_listing_time_filters`, `is_within_staging_window`), Pruning
--                          (`can_be_pruned`, `satisfy_constraints`, `cast_or_none`); src/query/mod.rs:
--                          Counts (`get_bounds`, `get_bin_density`).
--   The Tests modules and Catalog/Uploads hold runs on concrete inputs and each theorem applied to
--   one.
--
-- Conventions. A panic is `none` where the code can panic; an error is `none` or a value of an
-- error type, as the file says; the text of an error is kept without the values in it. Times are
-- natural numbers of nanoseconds; `u32` and `u64` wrap around where the code adds or subtracts. A
-- lock is held for one call each, so concurrent requests are a sequence of calls. Loops over ranges
-- recurse on the number of rounds that the range has, which is computed from it, so no bound is
-- chosen; `while column.len() < max_len` recurses on `max_len` rounds, enough since a column that
-- is extended never shrinks. The digits of n are taken in n + 1 rounds, enough since each divides
-- by ten.
--
-- Parameters: the check of a password hash (argon2), the time of a call, the parsing of a time
-- stamp and the printing of a date (chrono), the making of a date of its numbers, the parsing of a
-- duration (humantime), the letter case and classes of Unicode, the live metrics, what the storage
-- and the metastore answer, the parsing of the query of an alert, and `f64` and `f32` with an order
-- that need not compare a NaN.
--
-- Not modelled: ingestion and the staging files, the listings, the object stores and the metastore
-- themselves, DataFusion plans, Arrow and parquet files, the connectors, OpenTelemetry, the query of
-- an alert and its messages, the hot tier, migrations and the command line. They are I/O or calls of
-- libraries, or wait for a later extension: the format of events and their schemas, the hot tier's
-- sizes.
pub mod Alerts
pub mod Catalog
pub mod Decimal
pub mod Dict
pub mod Handlers
pub mod Json
pub mod Order
pub mod Prelude
pub mod Query
pub mod Rbac
pub mod Results
pub mod Retention
pub mod Time
pub mod Validator
