-- ===== src/Lib.antt =====
-- Matrix Factory's physical engine: the Python process that simulates a fuel cell factory and serves
-- it to the agents over gRPC.
--
-- The parts. physical_engine/daemon_launcher.py starts one daemon process for each run of a Monte Carlo
-- batch, pins each to processor cores and restarts the ones that die. A daemon is
-- physical_engine/sim_bridge_server.py, whose servicer steps a test bench (AdvanceTime), runs the
-- end-of-line test of a stack (RunBatchTest) and simulates the four stations that make it
-- (SimulateStationProcess). The physics behind the calls stands in physical_engine/factory_simulation,
-- the compiled kernels in physical_engine/optimization/_numba_ops_core_python.py. Around the engine,
-- experiments/run_prosa_vs_adacor.py launches the batches of an experiment's two arms, and
-- scripts/generate_factory_jcm.py writes the agents' files of a batch, renamed for each run.
--
-- The files, with the code that each models.
--   Prelude        what the files share: lists and tests on native numbers, integers, exceptions
--   Float          Python's float as a type with its operations, NumPy's functions that the code calls,
--                  and what is assumed of both; Float/Fixed is a type that has all these laws
--   Jcm            scripts/generate_factory_jcm.py: rewrite_content, validate_asl and the loop over the
--                  runs; Names is about the new names, Rewrite about the rewritten files
--   Experiment     experiments/run_prosa_vs_adacor.py: main; Batches is about its launches
--   Daemon         daemon_launcher.py: compute_daemon_core_sets and the loop of main
--   Tanks          _numba_ops_core_python.py: find_available_tank to calculate_storage_mpc_factor,
--                  distribute_mass_and_energy, apply_heat_loss_batch; Filled is about what overflows
--   Grid           the same file: bilinear interpolation, interpolation weights, the cubic spline and
--                  calculate_h2_production_dynamic; Cells is the cell that is read, Weights the weights in it, Mixture
--                  get_mixture_enthalpy_fast
--   Lut            optimization/lut_manager.py: Generate and Cache are the tables and their stacked file,
--                  Startup is initialize, Lookup the lookups, Density lookup_pressure_from_density,
--                  Water the saturation curve, Pem the voltage table, Species get_species_map with
--                  remap_canonical_to_lut; Reload, RoundTrip, Outcome, Restart, Shapes, Answers and Memo
--                  prove what holds of them
--   Kernels        _numba_ops_core_python.py: Flash has saturation and the flashes, Exchanger the heat
--                  exchangers with their Effectiveness, Electrolyser calculate_pem_voltage_jit and
--                  solve_pem_j_jit, Mixtures the sums over species, Compression solve_temperature_from_enthalpy_jit and
--                  calculate_compression_realgas_jit, Boiler the boiler's flash and batches, with
--                  Saturated and its Rows on what they return, Stages the compression of mixtures up to a
--                  temperature limit, with Limits on the pressure found, Cooler the dry cooler and the
--                  cyclone, Interchanger solve_interchanger_flash_jit,
--                  with Reads and Range on its reads and its outlet; Compression/Solved is about the
--                  temperature found
--   Soec           the same file: simulate_soec_step_jit; Arrays is the virtual map, Modules what
--                  the dispatch makes of a module, Dispatch what a step leaves
--   Deoxo          the same file: Pfr is solve_deoxo_pfr_step, with Bed on its history, Multizone is
--                  solve_deoxo_multizone_jit, with Fractions on its conversions and Zones on
--                  what it writes
--   Membrane       factory_simulation/membrane_hydration.py
--   Pemfc          factory_simulation/pemfc_model.py: Newton is newton_raphson_solver, Sweep the two
--                  polarization sweeps
--   Air            factory_simulation/cathode_air_bop.py, compressor.py and microstructure.py
--   Thermal        factory_simulation/stack_thermal_model.py
--   Tank           factory_simulation/h2_tank.py; Discharge is about the rounded discharge
--   Stations       factory_simulation/station1_mea_preparation.py to station4_stack_clamping.py
--   Server         sim_bridge_server.py and proto_index.py: Clock is AdvanceTime, Batch RunBatchTest,
--                  Process SimulateStationProcess, Interleaving the two first side by side, Seed
--                  derive_seed
--   Examples       the theorems at concrete inputs
--
-- How the code is read. A function of the source has the name it has there, in lower case. An object
-- is a record, a method a function from the record to the record, a function that may raise a function
-- into Result. A read outside an array, which compiled code does not check, is none. Floats and NumPy
-- are parameters: IsOrdered assumes the order of IEEE 754 with NaN apart from it, IsNumpy what NumPy's
-- manual says of clip and searchsorted, IsRounded that rounding keeps signs and order, IsMidpoint that a
-- midpoint lies between its ends, IsSubtraction what rounded subtraction does to finite
-- values. IsExact, that sums are exact, is not so of floats, and no result below takes it: the theorems in
-- Tanks/Balance, Tanks/Energy and Tank/Balance that do are on real arithmetic. Division is a total operation
-- on floats, except where a theorem says that code returns and a divisor may be zero: there the
-- ZeroDivisionError that Python and compiled code raise is none, or an error (the launcher, the
-- inversion of the density table, the boiler's gas, the interchanger's pressure, the rating of the
-- solid-oxide modules, the zones of the deoxidiser). Elsewhere, as in the derivative of the fuel cell's
-- solver, a zero divisor is not modelled. Arrays are broadcast as NumPy does it where tables are
-- stacked. A file is absent, unreadable or its contents; a dictionary is an
-- association list.
--
-- Bounds. The bisection of the density table takes its count of rounds, 30 in the source, as an argument,
-- and so do the solvers that have max_iter. The bed of the deoxidiser takes its count
-- of steps, 10000 in the source, as an argument too. The Newton loop runs at most 50 times and
-- the cure integration 100 times, as in the source;
-- all other loops run over a list or down from a count that the caller gives. The digits of a run id
-- take the id and one as fuel, which is more than there are digits. No other fuel is added.
--
-- Left out. The loop of batch_polarization_sweep, which Numba runs in parallel, runs in index order
-- here; Sweep/Race has the accesses to its flag rows in any order. In Server/Calls no two tests
-- of a servicer overlap, and a test beside steps is one that runs to its end; Server/Interleaving has whole
-- steps between the writes of a test, but not a write without the lock in the middle of a step. Tank and Server
-- take the fluid tables as parameters, as CoolProp is everywhere. A start of the table manager sees the
-- cache directory twice, before the lock and under it; a directory that changes while a file is being
-- read is not modelled. Of the kernels only warmup_jit_kernels, which calls the others once, is
-- not modelled; nor are the logs, TLS and the gRPC server itself, the generated stubs, the
-- agents, the metrics of the experiment, the JCM blocks of the generator and the other scripts.
pub mod Prelude
pub mod Float
pub mod Daemon
pub mod Tanks
pub mod Grid
pub mod Lut
pub mod Kernels
pub mod Soec
pub mod Deoxo
pub mod Jcm
pub mod Experiment
pub mod Membrane
pub mod Pemfc
pub mod Air
pub mod Thermal
pub mod Tank
pub mod Stations
pub mod Server
pub mod Examples
