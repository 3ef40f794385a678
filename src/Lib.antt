-- ===== src/Lib.antt =====
-- A development beside the code of the energy monitoring platform (src/cms): the path of a live
-- measurement from Kafka to the ledger, the buckets that its series should have, the rows of the
-- equalized series, the trigger, the queue and the workers behind them, the reading of timestamps,
-- the check of a value, the promotion of a model and the review jobs.
--
-- Parts of the program, and the modules:
--   * src/cms/data/expected_bucket.py: Bucket. generate_expected_buckets, align_start_to_grain,
--     expected_points_for_bucket, infer_cadence_class and the checks keep their names. Bucket/Grid
--     has the lemmas on the loop, Bucket/Generate the theorems.
--   * src/cms/data/missing_bucket_materializer.py: Bucket/Missing, which takes the buckets of Bucket
--     and gives rows for those that are absent; Bucket/Missing/Gaps and Coverage have the theorems.
--   * src/cms/contracts/ingestion.py and validate_live_injector_source_authority of
--     src/cms/contracts/live_pipeline.py: Stream/Event; Stream/Wire has the event as it is sent.
--   * src/cms/data/stream_consumer.py: Stream/Decision, from the Kafka message to the decision.
--   * src/cms/data/postgres_event_writer.py and src/cms/data/kafka_adapter.py: Stream/Adapters, the
--     in-memory writer and producer as functions from a state to a result and a state.
--   * src/cms/data/stream_consumer_runner.py: Stream/Runner, over any writer and producer.
--   * src/cms/data/runtime_consumer_loop.py and src/cms/data/rebalance_idempotency_gate.py:
--     Stream/Loop, which runs the runner on each poll and counts.
--   * src/cms/data/value_quality.py: Quality.
--   * src/cms/data/live_equalization_processor.py: Equalize (the data and the rules of a bucket),
--     Equalize/Series (the rows of each series), Equalize/Aggregate (coarser grains, the whole run).
--   * src/cms/data/live_equalization_plan.py: Equalize/Plan, the counts that a run should give.
--     Equalize/Grains and Windows have the lemmas on the grid, Totals, Sums, Masks and Planned the
--     theorems.
--   * src/cms/contracts/live_pipeline.py: Live (names, events, buckets, source modes), Live/Trigger
--     (decide_trigger_actions and what it calls), Live/Coverage (expected points), Live/Gates.
--   * src/cms/data/live_workers.py: Live/Gates (evaluate_qa_eligibility, prepare_promotion) and
--     Live/Rollup (build_mean_rollup, build_peak_feature). Live/Decisions, Promotable, Rows and Peaks
--     have the theorems; floor_to_resolution meets the buckets of Equalize in Live/Decisions.
--   * src/cms/data/live_bucket_queue_runner.py: Queue (the claim and the completion), Queue/Command,
--     Queue/Stats and Queue/Outputs; Queue/Drain, Claims, Sums and Requests have the theorems. Each common
--     table expression of the worker's statement is one function.
--   * src/cms/data/canonical_promotion_runner.py: Canonical (the statement that promotes live rows to
--     the canonical tables) and Canonical/Command (the checks of a command, the write gate);
--     Canonical/Backed and Gate have the theorems.
--   * src/cms/data/timestamp_policy_registry.py: Timestamp/Registry, over the rows that the CSV reader
--     gives; Timestamp/Lookup has the theorem.
--   * src/cms/contracts/timestamp_policy.py and src/cms/data/timestamp_normalizer.py: Timestamp, with
--     the theorems in Timestamp/Origin.
--   * src/cms/modeling/pmax/promotion.py: Promotion (promote_candidate) and Promotion/Rollback
--     (rollback_deployment), over the five directories that they move; Promotion/Atomic.
--   * src/cms/workflow/langgraph/postgres_jobs.py and worker.py: Jobs, the table of jobs as a list of
--     rows, each SQL statement as a function of it; Jobs/Budget bounds the claims, Jobs/States has
--     the invariant, which Jobs/Steps, Jobs/Claims and Jobs/Reach carry through the operations;
--     Jobs/Flags follows the approval flag.
--   * src/cms/workflow/review_jobs.py: Jobs/Memory, the in-memory store. Jobs/Board is the abstract
--     view of a store, a phase for each id; Jobs/Refinement and Jobs/Durable relate the stores to it.
-- Prelude has the shared names, Boolean tests and the type of calls that may raise. The modules
-- called Tests run the definitions on small inputs.
--
-- State and errors: an object or a table that the code mutates is an argument and a result; an
-- exception is the constructor `raises` of Result with its class. Exceptions of adapters, of file
-- operations and of reviews are inputs, so a theorem about all of them holds whatever fails.
--
-- Numbers and loops: counters, instants (microseconds) and intervals are natural numbers, since the
-- code rejects or never makes negative ones where they matter. The expected buckets check the sums
-- of instants against the end of the year 9999; other instants are not bounded. `bucket_loop` has one unit of fuel
-- more than the steps that fit between the first bucket and the end, and `targets` as much fuel as
-- the window has microseconds; a step is at least one microsecond, so both end by their test. The
-- consumer loop runs over the list of its polls, so no fuel is needed.
--
-- Parameters: Python's text, number and digest functions (PyLib, Text), floats (Floats and
-- WorkerFloats), zones and ISO texts (TimeLib), str.strip().lower() (`fold`), the writer and the
-- producer of the runner, the review of a job and what fails round it (Surroundings), and what each
-- file operation of a promotion does (Faults).
--
-- Not modelled: the database and Kafka clients, the web service and its pages, the agents and the
-- retrieval, the ontology, training and inference, the schedules and the scripts. They are I/O, or
-- calls of libraries. Of the queue's statement the statistics of the values, the row of a peak
-- feature and the JSON are left out, and of the canonical promotion the columns that are copied, the
-- times and the four counts.
pub mod Prelude
pub mod Bucket
pub mod Stream
pub mod Quality
pub mod Promotion
pub mod Jobs
pub mod Equalize
pub mod Live
pub mod Queue
pub mod Timestamp
pub mod Canonical
