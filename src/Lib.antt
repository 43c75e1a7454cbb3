-- ===== src/Lib.antt =====
-- Keck measures the power of a Kubernetes cluster and shares it out to processes, pods and
-- namespaces. This library models the Rust crates and proves what makes them correct.
--
-- Parts. An agent runs on every node. Its hardware collector (keck-agent/src/hardware/collector.rs)
-- polls the power sources in tiers, turns counters into energy and compares the sum of the components
-- with the platform's reading. The attribution engine (keck-agent/src/attribution/) shares the energy
-- out by what the kernel's probes (keck-ebpf) saw. The local store (keck-agent/src/store/mod.rs) keeps
-- snapshots and the queue of summaries to send. The controller checks the agents' reports
-- (keck-controller/src/api/mod.rs), takes them into one state, answers queries over it
-- (aggregator/mod.rs), classifies pods (application.rs) and advises the scheduler (scheduler/mod.rs).
-- The fleet service takes the reports of all clusters into a registry (keck-fleet/src/registry/mod.rs)
-- evaluates policies over it (policy/mod.rs) and makes daily reports (reporting/mod.rs).
--
-- Files.
--   Base       helpers: lists, maps, grouping loops, sorting, 64-bit words, f64 as a parameter
--   Agent/Attribution/Types    attribution/types.rs
--   Agent/Attribution/Energy   the energy input and the conversion to power of attribution/engine.rs
--   Agent/Attribution/Model    attribution/model.rs
--   Agent/Attribution/Observation, Split, Engine    attribution/engine.rs with the keys of
--                              keck-common/src/lib.rs: the sharing by what was observed, the split of
--                              a socket to its cores, and the interval; a panic is `none`
--   Agent/Attribution/Tuner    attribution/tuner.rs
--   Agent/Collector            hardware/collector.rs and the reading types of hardware/mod.rs: the
--                              arithmetic in Collector, the state in State, `energy_input` in Energy
--   Agent/Store                store/mod.rs
--   Agent/Pods                 main.rs: the reports of the pods from the kernel's times
--   Agent/Procfs, Processes    main.rs: the files of /proc, and the reports of the pods from them
--   Agent/Weighted             main.rs: the reports of the pods by the work of each core
--   Agent/Selection            main.rs: the choice among the power sources and the node's report
--   Agent/Gpu                  main.rs: the GPU power of the pods, and all reports of a round
--   Agent/Ebpf                 ebpf/mod.rs: the draining of the kernel's maps
--   Kernel                     keck-ebpf/src/main.rs and keck-common/src/lib.rs: the handlers; Maps is
--                              the interface of the BPF runtime's maps, Time the runs of handlers and
--                              drains
--   Controller/Api             api/mod.rs: the endpoint for reports
--   Controller/Classification  application.rs
--   Controller/Aggregator      aggregator/mod.rs: the data in Types, what writes the state in Ingest,
--                              the sums in Views, `group_power` in Grouping
--   Controller/Scheduler       scheduler/mod.rs
--   Controller/Carbon          carbon/mod.rs
--   Controller/Kepler          kepler_scraper.rs: the parsers; in Scrape the reports of a page
--   Fleet/Registry             keck-fleet/src/registry/mod.rs
--   Fleet/Policy               keck-fleet/src/policy/mod.rs
--   Fleet/Reporting            keck-fleet/src/reporting/mod.rs
--   Tests                      runs of the theorems at concrete inputs
--
-- How the code is modelled. A struct is a record and an enum a data type; a method on `&mut self` is a
-- function from the state to the state. A u64 is a number, and what can overflow wraps modulo 2^64 as
-- in a release build; an i64 is its bit pattern. A HashMap is an association list, in whatever
-- order the table has. An f64 is a parameter, a type with the operations of Float64.
-- An Instant or SystemTime is a number of nanoseconds. Each reading of a clock is an argument, as the
-- two of a heartbeat, before and after its reads; but where the code asks for each element of a list
-- how long ago it came (`elapsed` in the summaries of nodes, the fleet's eviction and its policies),
-- one reading stands for those of the whole pass, and in `evaluate` for those of all policies. What a
-- power source answers is an argument, by the name of the source; `none` is an error. Loops are
-- recursion on their list; only the loop over a line's labels takes fuel, one more than the
-- labels have characters, and each round uses some. Locks, logging and messages are left out; a message
-- that a result carries is kept as the values that it prints.
--
-- Not modelled: the loading of the kernel's programs and what happens if a handler runs while the agent
-- drains; discovery and reading of the power sources (rapl.rs, hwmon.rs, gpu.rs, platform.rs); of the
-- agent's main loop all but the reports of the pods; the calls for
-- Kubernetes metadata; the other HTTP handlers and the Prometheus text; and the rest of the
-- fleet service; the operator and the user interface, which are not Rust. Of the aggregator's
-- getters available_methods, which sorts strings, is left out.
pub mod Base
pub mod Agent
pub mod Kernel
pub mod Controller
pub mod Fleet
pub mod Tests
