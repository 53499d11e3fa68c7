-- ===== src/Lib.antt =====
-- koalisi's coalitions of agents: the topology layer, hyperedges over vertices, every change
-- of which is an event in a log that can be asked about any moment of the past; the service
-- that takes joins and leaves as commands, asks a policy and reports decisions; the policy
-- that decides by magnitudes, with its cache, and its correction by the demand of a workflow;
-- what agents learn from outcomes; the buffer of the remote gateway; the supervision of tasks;
-- the persistence layer, which stores events and decisions in hash-chained logs on disk and
-- replays them; the integer partitions of the partition search, and the distribution of work
-- over agents; and the random permutations of the battery harness.
--
-- The program's parts, from the bottom up (in src/topology/ unless a path says otherwise):
-- - timestamp.rs: logical timestamps, ranges of them, and an atomic 64-bit clock:
--   Topology/Timestamp (`Clock.tick`, `advance_to`, `TimeRange.contains`, `overlaps`), proofs in
--   Timestamp/Ranges and Timestamp/Ticks.
-- - events.rs: the events and their counts: Topology/Events, Events/Totals.
-- - event_log.rs: the log, with indices by time, vertex, hyperedge and snapshot:
--   Topology/EventLog. `append`, and each query, is one function on the record `EventLog`; the
--   maps are association lists (Common/SortedMap for BTreeMap, Common/HashMap for HashMap, whose
--   order nothing uses). The invariant of each index has a file of its own (Indexed, Timeline,
--   Snapshots, Counts), and Valid joins them; Positions and Chronology are the lists of positions
--   and of times that they share.
-- - queries.rs: what existed, and with which weight, at a moment: Topology/Queries, one function
--   per query over one `scan_until` with the early exit of the loops. Queries/World is the
--   reference: the state that is left when the events of the log are replayed in order. TimeTravel
--   has the agreement of the two, Clears the events for which they differ, Lifespans the creation
--   times.
-- - errors.rs: Topology/Errors. A computation ends with a value, an error or a panic (`Outcome`).
-- - temporal.rs: the event-sourced hypergraph: Topology/Temporal, with the mutations in
--   Temporal/Mutations. A mutation is a `Job` (Topology/Jobs) on the graph, then a clock tick, the
--   event, the tap and the append, as in `mutate` of the source. Temporal/Runs has sequences of
--   mutations; Recording, Poisoning, Snapshots and Clones are about them.
-- - coalitions.rs: the coalition manager: Topology/Coalitions, with `agent_coalition_history` in
--   Coalitions/History. Episodes and Intervals are about the history, Membership and Gated about
--   joins and leaves; Seeding gives the feedback store what the history counts.
-- - src/subsystems/remote.rs, the buffer of the remote gateway: Remote/Buffer (`EventBuffer`,
--   `push_record`, `respond`, and the client's check of an answer, `accept`); Buffer/Stamps has
--   the lists with ascending sequence numbers, Buffer/Window what a buffer holds and a poll
--   returns.
-- - src/subsystems/coalition_actor.rs: Subsystems/Service (`service_loop` over what each round's
--   `select!` sees, `serve`, `refuse_queued`, the taps), with Service/Answers and Service/Reports;
--   the decision tee is in Subsystems/Fanout. The outcome forwarder of src/subsystems/outcome.rs:
--   Subsystems/Outcome (`on_outcome`, `deliver_each`, `forward_outcomes`), with Outcome/Learning.
-- - src/decision/mod.rs: the threshold policy, Decision/Threshold.
-- - src/decision/magnitude_policy.rs: Decision/Magnitude (`relevant_masks`, `coupling`,
--   `build_evaluator`), Magnitude/Cache (`cached_base`, `cached_base_and_with`),
--   Magnitude/Typed (roles), Magnitude/Policy (`should_join`, `should_leave`), Magnitude/Value
--   (`magnitude_value`). Coherence and Queries are about what the cache holds; Contract and
--   Fresh compare it with an evaluation from scratch.
-- - src/process: Process (the steps of signature.rs), Process/Demand (demand.rs: `demand`),
--   Process/Cost (cost.rs: `from_pool`, `price`) with Cost/Scarcity, and Process/Residual
--   (residual.rs: `residual_join`, `residual_leave`), a policy around the magnitude policy, with
--   Residual/Correction and Residual/Covering.
-- - src/core/drain.rs: Core/Drain (`next`), with Drain/Bounds.
-- - src/core/supervision.rs, the restarts of a supervised task: Supervision (`supervise`, from
--   what the supervisor sees of each instance), with the budget in Supervision/Budget.
-- - src/persistence, from the bottom up. envelope.rs, errors.rs: Persistence/Envelope and Errors.
--   wire.rs: Persistence/Wire (`from_event`, `try_into_event`), with Wire/RoundTrip. chain.rs:
--   Persistence/Chain (`encode_frame`, `decode_frame`, `check_back_link`), with Chain/Frames.
--   store.rs: Persistence/Framing has the bytes of a segment file and the loop that finds its
--   frames; Persistence/Store has the state of one stream and its operations (`append`,
--   `read_from`, `verify`), Store/Scan the opening of a stream (`scan_stream`). Store/Contents is
--   the abstract view, the list of records that a stream holds (`Holds`), over Store/Layout, which
--   says where their frames stand; Growth is what an append adds to that, Rotation, Writing and
--   Appending are about `append`, Reading and Verifying about the reads, Reopening and Recovery
--   about opening a store again, also after a failure, Links and Tampering about files that
--   someone else has changed. tee.rs, decision.rs and writer.rs: Persistence/Forwarding, with what
--   the writer delivers in Forwarding/Delivery. replay.rs: Persistence/Replay, with Replay/Batches
--   and Replay/Parity.
-- - src/algorithms/aipa.rs, the integer partitions: Algorithms/Partitions
--   (`generate_integer_partitions`, `partition_count`, `verify_partition`), with
--   Partitions/Enumeration and Partitions/Counting. Partitions/Bounds has the bounds of
--   partitions and the choice among them.
-- - src/algorithms, the rest: dcvc.rs: Algorithms/Workload (`distribute_workload`,
--   `verify_distribution`), with Workload/Cover and Workload/Assignment; value_calculation.rs:
--   Algorithms/Values; feedback.rs: Algorithms/Feedback (`record_outcome`).
-- - src/ingest/monitor.rs: Ingest/Monitor (`ingest`, `monitor_loop`), with Monitor/History. What a
--   sample is stands in the record `Sampling`.
-- - src/harness/rng.rs: Harness/Rng (`next_u64`, `below`, `permutation`), with Rng/Draws.
--
-- How they interact: the service owns a manager, one command at a time, and a panic of a
-- command's work ends it; its decisions go to the taps, and over the tee to the gateway and the
-- writer. The outcome forwarder feeds the feedback stores among its sinks; clones of a store
-- share their data. The gateway stamps the decisions that the policy-gated operations end in,
-- which reach it through the coalition service. The manager calls the hypergraph; the
-- hypergraph changes the graph, ticks the clock and appends to the log; the queries and the
-- history only read the log. A mutation holds one lock from the graph change to the append, so
-- that a run of concurrent callers is a sequence of whole mutations. Two values made by `clone`
-- share the graph and the log, but not the clock; `see` is what one of them sees of a change by
-- the other. The forwarders turn the events of the tap and the decisions into records, the
-- writer appends each to its stream, and the replay makes an event log of the stored topology
-- stream again.
--
-- Parameters: the graph library (`catgraph_applied::Hypergraph`) and the sender of the event
-- tap are a record of operations, Topology/Hypergraph, of which nothing is assumed; a decision
-- policy (src/decision/mod.rs) is a record `Policy` with the type of its scores, whose answer
-- may be a panic; `meanwhile k` is what other callers do after the k-th step of a gated
-- operation; the interference with `advance_to` is the list of the numbers that other threads
-- add to the clock between two rounds of its loop. The CBOR encoder (ciborium) and SHA-256
-- (sha2) are the records `Format` and `PayloadFormat`; where a theorem needs that what was
-- written can be read back, `IsReadable` and `IsPayload` say so, and nothing is ever assumed of
-- the digest. The conversions of weights are a `Projection`, with `IsFaithful`. What the file
-- system refuses is a `Fault` of each append: the sync of a closed segment, the opening of a
-- file, or a write, of which any number of bytes may have reached the file.
--
-- Floats are the record Common/Floats, of which nothing is assumed but what a theorem names
-- (`Separates`, `IsRounded`, `IsRising`). The magnitude engine (catgraph_magnitude) is the
-- record `Engine`; where the cached and the fresh decision are compared, `IsIncremental` says
-- what its documentation promises. The taps of the service are the record `Surroundings`, with
-- whatever their `try_send` answers.
--
-- Bounds: timestamps are natural numbers below 2^64, the clock wraps at 2^64, and the theorems
-- about sequences of mutations, and of events in the gateway's buffer, say how much room the
-- counter needs. Sequence numbers and file offsets are 64 bits wide in the source; a file cannot
-- hold so much, and they are plain numbers. A frame is shorter than 2^32 bytes, as `append`
-- checks. The width of `usize` is the parameter `usize_max`; the sums and counts of partitions
-- wrap around there, as in a release build. Three recursions run on fuel:
-- `scan_frames` on the number of bytes of the file, of which each turn consumes some,
-- `replay_batches` on one turn more than there are records, and `generate_partitions_recursive` on
-- the number, of which each call takes some; the theorems about them are about these amounts.
--
-- Not modelled: the task that runs a mutation (a runtime that shuts down, a future that is
-- dropped), the executor and log output; `Timestamp::now` and text for display; the topology's
-- analytics; the search of population.rs; the build of the magnitude policy with the feature
-- `magnitude-fast`, and the policies over an inference engine; the diagrams of src/process and
-- their rewriting, which are the category library catgraph; the sources of ingest, the rest of
-- harness, of subsystems and of core, and the examples. Of the persistence layer: cancelled
-- tasks and full channels, reads that the file system refuses, the failures of the truncation and
-- the sync when a stream is opened, and foreign files in its directories. The counters of the
-- feedback store are 64 bits wide in the source and plain numbers here, and what other threads do
-- with a store while the outcome forwarder runs is left out.
pub mod Common
pub mod Core
pub mod Topology
pub mod Remote
pub mod Supervision
pub mod Subsystems
pub mod Persistence
pub mod Algorithms
pub mod Decision
pub mod Process
pub mod Ingest
pub mod Harness
pub mod Tests
