-- ===== src/Server/Calls.antt =====
-- The calls of a servicer. A test may run alone, or beside steps of the bench: it takes no lock, and the
-- steps fall between its writes. A test beside steps is one that runs to its end; no two tests overlap.
use matrix_factory.Prelude.{ℕ, ◌≡◌, List, some, length, get_elem?}
use matrix_factory.Float.{Float, Numpy}
use matrix_factory.Pemfc.Sweep.{Trace}
use matrix_factory.Server.{Servicer, sim_bridge_servicer, stack_current_a_cm2, vector_length}
use matrix_factory.Server.Clock.{advance_time}
use matrix_factory.Server.Batch.{BatchTestRequest, FluidProperties, run_batch_test}
use matrix_factory.Server.Interleaving.{test_writes, Interleaved}

module _ {F : Type 0} ⦃fl : Float F⦄ (np : Numpy F) (fluids : FluidProperties F) where
  open fl use {lit}

  -- The states that a new servicer reaches by calls, whether they succeed or fail.
  pub data Reached : Servicer F → Type 0 where
    built :
        (num_cells : ℕ) (r_internal t_initial : F)
        → Reached (sim_bridge_servicer num_cells r_internal t_initial)
    advanced :
        (dt current_time : F) {s : Servicer F}
        → Reached s
        → Reached (advance_time np dt current_time s).0
    tested :
        (request : BatchTestRequest F) {s : Servicer F}
        → Reached s
        → Reached (run_batch_test np fluids request s).0
    overlapped :
        (js : List F) (trace : Trace F) (core skin : F) {s s' : Servicer F}
        → Reached s
        → Interleaved np fluids (test_writes np fluids js trace core skin) s s'
        → Reached s'

  -- Nine entries, and no current.
  abbrev IsResting : Servicer F → Type 0
  IsResting s =
      (length s.state ≡ vector_length) × (get_elem? s.state stack_current_a_cm2 ≡ some (lit 0 0))
