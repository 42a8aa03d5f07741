-- ===== src/Lib.antt =====
-- RAIJIN copies objects from S3, archived ones included, to OCI Object Storage. This library
-- models the control plane's own logic in app/main.py (the HTTP handlers and planners) and
-- app/real_worker.py (the workers Raikou, for restores and governance, and Raiju, for
-- transfers), which meet in one PostgreSQL database. The database is the record
-- Schema.Tables.Db, a list of rows for each table; a handler or a worker step is a function
-- from it to a reply and a database, and a step that raises before its commit leaves it as it
-- was. Handlers answer with Http.Reply, of which an error is the status 404, 409 or 422.
--
-- Schema (States, Rows, Tables) holds the enumerations, rows and tables of app/main.py; Base
-- the list and query helpers (select, update_where, find_by, order_by stand for the SQL
-- statements), Samples the rows for tests.
--
-- Tasks is the durable queue of tasks: Api the handlers claim_task, heartbeat_task,
-- succeed_task, fail_task and recover_expired_tasks of app/main.py, Worker the functions
-- claim_task, claim_discovery_job, succeed, retry and fail_permanently of app/real_worker.py.
-- Both claims skip rows that another transaction has locked; which rows are locked is an
-- argument.
--
-- Waves is the life of waves and sources: Cancel has cancel_active_wave_tasks, pause_wave and
-- resume_wave; Lifecycle has verify_wave, queue_planned_wave, queue_all_planned_waves,
-- reprocess_wave and delete_wave; Sources has delete_source, archive_source and the
-- deactivation of archived sources, all of app/main.py; Reapproval has
-- require_new_restore_approval and the functions around it of app/real_worker.py, which close
-- the gate that reprocess_wave then guards.
--
-- Lane is the continuous transfer lane: Priority is transfer_priority, Admission
-- enqueue_available_transfer_objects and Refresh refresh_transfer_queue_priorities of
-- app/main.py; Recover, Claim, Preempt and Dispatch are the functions of app/real_worker.py
-- that return abandoned leases, claim a batch, choose a handoff and keep one dispatcher for
-- each source. A claim first recovers and refreshes, then leases a prefix of at most 256
-- candidates.
--
-- Planner is the planning in app/main.py: Predict the forecasts, Dynamic the packing of
-- dynamic_wave_plan and next_dynamic_wave_plan, Schedule the times of restores and transfers,
-- NextWave the choice of the next wave by next_wave_objects, Assign the assignment of the next
-- slice to a wave, Pipeline the selection discovered_object_filters by prefix, where the
-- database's startswith is a parameter, and the state that refresh_dynamic_pipeline_run derives
-- for a run. Restore is the restore jobs of app/real_worker.py: Core the cadence of polls and
-- the attempts, Quote the encoding of keys in manifests, Report the completion reports and
-- restore_result_diagnostics of app/main.py, Submit submit_restore, against AWS and in a
-- simulation, what it raises and whose evidence a report line is, Heads the availability
-- requests and Poll poll_restore; Worker has classify_task_error and how run_once runs a
-- claimed task. Scope is the prefix scopes of sources, and Discovery is merge_discovery_rows,
-- both of app/main.py. Multipart is the arithmetic of parts in app/real_worker.py, and its Copy
-- the function transfer_object: the copy of one object as a run over the row's checkpoint and
-- the state of the two stores, which a later run takes up; every request may fail in any run,
-- after it was carried out or before. Simulator is the deterministic cloud that tests run
-- against: Payload is iter_deterministic_range of app/simulated_data.py, Catalog the sizes that
-- materialize of app/simulation_engine.py gives to objects, Pages the listings by pages,
-- Restores the restores of one object, Jobs the restore jobs, Clock the virtual clock
-- (virtual_now, and control_clock of app/simulator_store.py), Scenarios the states of scenarios
-- and executions in app/simulator_store.py, with the stores that its requests reach as an
-- indexed type.
--
-- Instants and durations are natural numbers of seconds, except where a module names another
-- unit; a rate is in kbit/s. Floating-point quotients are kept exact by a common unit
-- (Lane.Priority, Planner.Predict) or compared by cross multiplication (Lane.Preempt). Texts
-- that are only stored or compared are numbers; keys and prefixes are lists of code points.
-- Loops are structural over lists, except in Simulator.Pages and Planner.NextWave, where the
-- fuel is the pages that may be read, of which each has a row at least, and in
-- Simulator.Payload, where the fuel of the range is the bytes that remain, of which each turn
-- takes at least one, and that of its chunks the bytes that are pending. The pages of 256 and
-- 1000 rows are those of the source. Where a query has no order, the order of the table is
-- taken.
--
-- Not modelled: the services of AWS and OCI themselves (what they answer is an argument),
-- metadata and tags of objects, the thread pool around a batch, HTML and exports, prices, the
-- simulator's writes, faults, network profiles and HTTP service, migrations of the schema, and
-- the text of events and reasons.
pub mod Base
pub mod Http
pub mod Schema
pub mod Samples
pub mod Multipart
pub mod Tasks
pub mod Waves
pub mod Lane
pub mod Planner
pub mod Worker
pub mod Restore
pub mod Scope
pub mod Discovery
pub mod Simulator
