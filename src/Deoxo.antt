-- ===== src/Deoxo.antt =====
-- The deoxidiser of physical_engine/optimization/_numba_ops_core_python.py: the common parts of
-- `solve_deoxo_pfr_step` (Pfr) and `solve_deoxo_multizone_jit` (Multizone). The arrays of history are one
-- list of points, whose length is the count of entries written.
pub mod Pfr
pub mod Bed
pub mod Multizone
pub mod Fractions
pub mod Zones
use matrix_factory.Prelude.{
  ℕ, zero, suc, ◌+◌, ◌*◌, Bool, ◌&&◌, List, [], ◌∷◌, ◌++◌, Option, none, some, length, ltb,
  if◌then◌else◌,
}
use matrix_factory.Float.{Float, Numpy, ◌⊕◌, ◌⊖◌, ◌⊗◌, ◌⊘◌}
use matrix_factory.Grid.{◌>>=◌}

-- An entry of the three arrays of history.
pub record BedPoint (F : Type 0) : Type 0 where
  pub length_m : F
  pub temperature : F
  pub conversion : F

-- The scalar inputs that both solvers have.
pub record Reactor (F : Type 0) : Type 0 where
  pub p_in_pa : F
  pub molar_flow_total : F
  pub ea : F
  pub r_gas : F
  pub delta_h : F
  pub t_jacket : F
  pub area : F
  pub cp_mix : F

-- What both return.
pub record Run (F : Type 0) : Type 0 where
  pub x_total : F
  pub t_out : F
  pub t_peak : F
  pub profile : List (BedPoint F)

module _ {F : Type 0} ⦃fl : Float F⦄ (np : Numpy F) (b : Reactor F) where
  open fl use {lit, lt, le, neg, abs, min, max}
  open b use {p_in_pa, molar_flow_total, ea, r_gas, delta_h, t_jacket, area, cp_mix}

  -- The temperature's change by cooling alone.
  abbrev pub cooling : F → F → F
  cooling u_a t = area ⊘ (molar_flow_total ⊗ cp_mix) ⊗ (neg u_a ⊗ (t ⊖ t_jacket))

  -- The changes of conversion and temperature along the bed, for the inlet's fraction of oxygen and
  -- its flow.
  abbrev pub get_grads : F → F → F → F → F → F → F × F
  get_grads k0 u_a y_o2 f_o2 x t =
      if le (lit 1 0) x
      then (lit 0 0, cooling u_a t)
      else (let k_eff = k0 ⊗ np.exp (neg ea ⊘ (r_gas ⊗ t)) in
          let y_loc = max (lit 0 0) (y_o2 ⊗ (lit 1 0 ⊖ x)) in
          let rate = k_eff ⊗ (p_in_pa ⊗ y_loc ⊘ (r_gas ⊗ t)) in
          (
            area ⊘ f_o2 ⊗ rate,
            area ⊘ (molar_flow_total ⊗ cp_mix) ⊗ (neg delta_h ⊗ rate ⊖ u_a ⊗ (t ⊖ t_jacket)),
          ))

  -- `v + (dL / 6.0) * (k1 + 2*k2 + 2*k3 + k4)`
  abbrev pub combined : F → F → F → F → F → F → F
  combined dl v k1 k2 k3 k4 = v ⊕ dl ⊘ lit 6 0 ⊗ (k1 ⊕ lit 2 0 ⊗ k2 ⊕ lit 2 0 ⊗ k3 ⊕ k4)

  -- `X_next` and `T_next`
  abbrev pub rk4 : (F → F → F × F) → F → F → F → F × F
  rk4 grads dl x t =
      let (x1, t1) = grads x t in
      let (x2, t2) = grads (x ⊕ lit 5 1 ⊗ dl ⊗ x1) (t ⊕ lit 5 1 ⊗ dl ⊗ t1) in
      let (x3, t3) = grads (x ⊕ lit 5 1 ⊗ dl ⊗ x2) (t ⊕ lit 5 1 ⊗ dl ⊗ t2) in
      let (x4, t4) = grads (x ⊕ dl ⊗ x3) (t ⊕ dl ⊗ t3) in
      (combined dl x x1 x2 x3 x4, combined dl t t1 t2 t3 t4)
