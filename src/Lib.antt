-- ===== src/Lib.antt =====
-- OpenLEO: verification of the discrete core of the simulator for LEO satellite links.
--
-- The program takes a scenario, computes when a satellite is visible from a station (events),
-- which MODCOD each pass uses over time (adaptation, acm), which routes a network of satellites
-- and stations offers between two stations (routing), and sums the results per pair (integrate,
-- statistics). A sweep expands one scenario into many (sweep). A packet replay gives the trace of
-- one link to an external backend and checks the packets it reports (replay). The tables of a run
-- are written and read in a binary format (results). The local app runs such computations as jobs
-- on one worker thread (jobs).
--
-- Files and the code they model:
--   Prelude       helpers that the other files share: Boolean tests on the natural numbers,
--                 lists, counts, and integers in native form (Prelude/Int).
--   Jobs          src/openleo/app/jobs.py: JobQueue. The job objects live on a heap, `_jobs` is an
--                 association list of their addresses, `_pending` a list of addresses with `none`
--                 for the stop mark. A method is a function on this state; the worker is
--                 `work`, cut into the sections between two takings of the lock, so that every
--                 interleaving of calls and worker is a list of actions (`Jobs.run`). The hash of
--                 a payload (`job_id`) is an argument, and what `run_fn` returns or raises is part
--                 of the action. The threads, and `join`, are not modelled.
--   Measure       src/openleo/engine/integrate.py: measure and integrate_piecewise.
--   Acm           src/openleo/physics/adaptation.py: the MODCOD table and select_modcod (Acm), and
--                 src/openleo/engine/acm.py: _Rule, _merged and _schedule (Acm/Schedule), the
--                 walk of acm_segments and acm_on_grid (Acm/Grid). The level table is what
--                 np.unique gives, an argument with named hypotheses. The search of acm_segments
--                 for the crossings is floating-point root finding and is not modelled.
--   Statistics    src/openleo/engine/statistics.py: the checked intervals of a pair, the best link of a
--                 station over time and the metrics of a pair and of a station. A ratio is a
--                 numerator and a denominator.
--   Timegrid      src/openleo/engine/timegrid.py: build_grid and refine in whole microseconds; the
--                 leap-second table is an argument.
--   Passes        src/openleo/engine/events.py: the pass record and passes_on_grid, on natural
--                 numbers of ticks above -90 degrees. The solver of find_passes is not modelled.
--   Routing       src/openleo/engine/routing.py: shortest_path (Routing), widest_path
--                 (Routing/Widest), the links and the graph of an instant (Routing/Build),
--                 route_breakpoints (Routing/Breakpoints), and evaluate_routes (Routing/Evaluate),
--                 which takes the inter-satellite links at each breakpoint as an argument.
--                 route_metrics is in Routing/Metrics. Routing/Walks says what a route is, and
--                 Routing/Order which of two routes comes first; Routing/Adjacency is about the graph
--                 of an instant, Routing/PairEnds about the instants that the pairs give and
--                 Routing/Steady about the links between two breakpoints.
--   Hold          the loop that ends best_link_segments (src/openleo/engine/statistics.py) and
--                 evaluate_routes (src/openleo/engine/routing.py): a value held from each cut to
--                 the next one, equal neighbours merged.
--   Json          the values of Python's json module that sweep.py works on, with the operations of dict
--                 and list, and `_numbers_equal` (Json/Equal). A float is m / 2^k.
--   Patch         src/openleo/sweep.py: the pointers (Patch/Pointer) and apply_patch; `_field` of
--                 src/openleo/_validation.py.
--   Sweep         src/openleo/sweep.py: parse_sweep (Sweep/Checks, Sweep/Data, Sweep/Blocks and
--                 Sweep/Spec), the run ids (Sweep/Ids) and expand_sweep (Sweep/Runs,
--                 Sweep/Expand). The scenario parser, json.dumps and the datetime arithmetic are arguments.
--   Replay        src/openleo/replay/packet_replay.py: _validate_prepared, the trace and its outages
--                 (Replay), prepare_packet_replay with the breakpoints of a link (Replay/Prepare), the
--                 packet records (Replay/Packets), their checks (Replay/Causal) and _accounting
--                 (Replay/Accounting). A tick is 1 / per_us of a microsecond and a rate a number of
--                 1 / unit bit/s, so that the rounding to whole nanoseconds and bit/s is exact. The
--                 link at an instant, which the engine evaluates, is an argument, and the rows that
--                 csv.reader yields are the input of the parser.
--   Olc           src/openleo/results/model.py: Column and Table, and src/openleo/results/olc.py: the
--                 binary format of a table (Olc) and encode_table and decode_table (Olc/Codec). A
--                 number is its bits. UTF-8, SHA-256, json.dumps and json.loads are a record of
--                 functions. A surrogate in a name, which UTF-8 refuses, is outside the model of the
--                 header.
--   Manifest      src/openleo/results/manifest.py: a directory is a list of paths with what lies there.
--                 The order of the problems that an error names is not modelled.
--   A file named Tests in a folder holds runs at concrete inputs.
--
-- Choices. A time is a natural number of ticks after the start of the window, and a delay, a rate and
-- a capacity are natural numbers, so sums are exact where the source rounds. A level is an integer
-- number of micro-dB. A ValueError is `none`, or a constructor of the result type. The
-- checks that a float is finite and not negative are the range of these types. `float()` of a number
-- of a sweep file leaves it as it is, and a text of one has no surrogates, which `quote` refuses. The
-- offsets of a refined grid are not reduced to 64 bits, and the interval of the packets of a replay is
-- an exact ceiling where the source divides floats. With no route model the states of the ground links
-- are not looked at, where the source looks at them and may refuse one. The loops with a heap
-- run on fuel: for shortest_path it is one more than `work_bound` of the largest degree and the
-- number of nodes, an upper bound of the entries pushed from the source along simple paths, each
-- of which is popped once; without fuel the result is `out_of_fuel`. For
-- widest_path it is the number of nodes times the number of edges, plus 2: the capacity of a node
-- only grows, through the capacities of the edges. For _layout it is 20 rounds for each column
-- and two more, if the offsets have at most 20 digits.
--
-- Not modelled: the geometry, the propagation physics and integrate_smooth, which are floating-
-- point analysis; files, HTTP, figures and the command line; the scenario documents and the
-- directories of results; the run of a sweep, which calls the engine; the network replay, and the
-- run of a replay backend.
pub mod Prelude
pub mod Json
pub mod Patch
pub mod Sweep
pub mod Jobs
pub mod Hold
pub mod Statistics
pub mod Measure
pub mod Timegrid
pub mod Passes
pub mod Olc
pub mod Manifest
pub mod Replay
pub mod Routing
pub mod Acm
