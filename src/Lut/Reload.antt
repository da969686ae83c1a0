-- ===== src/Lut/Reload.antt =====
-- The stacked file: what is stacked and written is what is read again.
use matrix_factory.Prelude.{
  ℕ, zero, suc, ◌+◌, ◌<◌, ◌≡◌, ◌∙◌, refl, sym, ap, subst, false, some, List, [], ◌∷◌, length,
  get_elem?, get_elem?-some, All, Pairwise, Result, ok, err, Error, find, insert, same,
  find-insert_self, find-insert_other, arith,
}
use matrix_factory.Lut.{
  FluidName, FluidName-HasCode, Property, Property-HasCode, density, enthalpy, entropy,
  heat_capacity, compressibility, h_from_ps, Table, Tables, LutManager, Stacked,
}
use matrix_factory.Lut.Cache.{slices_at, rebuild_luts}

-- No fluid stands twice.
abbrev pub Distinct : List FluidName → Type 0
Distinct = Pairwise (λ a b. same a b ≡ false)

module _ {F : Type 0} where
  abbrev pub stacked_of : Stacked F → Property → List (Table F)
  stacked_of arrays density = arrays.stacked_d
  stacked_of arrays enthalpy = arrays.stacked_h
  stacked_of arrays entropy = arrays.stacked_s
  stacked_of arrays heat_capacity = arrays.stacked_c
  stacked_of arrays compressibility = arrays.stacked_z
  stacked_of arrays h_from_ps = arrays.stacked_h_from_ps

  abbrev pub columns_of : LutManager F → Property → ℕ
  columns_of m h_from_ps = length m.entropy_grid
  columns_of m density = length m.temperature_grid
  columns_of m enthalpy = length m.temperature_grid
  columns_of m entropy = length m.temperature_grid
  columns_of m heat_capacity = length m.temperature_grid
  columns_of m compressibility = length m.temperature_grid

  -- Each array holds a table for `i`.
  abbrev pub Reaches : Stacked F → ℕ → Type 0
  Reaches arrays i = (key : Property) → i < length (stacked_of arrays key)

  slices_at_lem :
      (arrays : Stacked F) (i : ℕ)
      → Reaches arrays i
      → (tables : Tables F) × (slices_at arrays i ≡ ok tables)
        × ((key : Property) → find key tables ≡ get_elem? (stacked_of arrays key) i)
  unfolding slices_at
  slices_at_lem arrays i reach =
      let (h, a) = get_elem?-some arrays.stacked_h i (reach enthalpy) in
      let (s, b) = get_elem?-some arrays.stacked_s i (reach entropy) in
      let (c, c') = get_elem?-some arrays.stacked_c i (reach heat_capacity) in
      let (d, d') = get_elem?-some arrays.stacked_d i (reach density) in
      let (z, z') = get_elem?-some arrays.stacked_z i (reach compressibility) in
      let (p, p') = get_elem?-some arrays.stacked_h_from_ps i (reach h_from_ps) in
      (
        (enthalpy, h)
            ∷ (entropy, s)
            ∷ (heat_capacity, c)
            ∷ (density, d)
            ∷ (compressibility, z)
            ∷ (h_from_ps, p)
            ∷ [],
        rw (a, b, c', d', z', p') refl,
        each a b c' d' z' p',
      )
    where
      each :
          {h s c d z p : Table F}
          → get_elem? arrays.stacked_h i ≡ some h
          → get_elem? arrays.stacked_s i ≡ some s
          → get_elem? arrays.stacked_c i ≡ some c
          → get_elem? arrays.stacked_d i ≡ some d
          → get_elem? arrays.stacked_z i ≡ some z
          → get_elem? arrays.stacked_h_from_ps i ≡ some p
          → (key : Property)
          → find key (
              (enthalpy, h)
              ∷ (entropy, s)
              ∷ (heat_capacity, c)
              ∷ (density, d)
              ∷ (compressibility, z)
              ∷ (h_from_ps, p)
              ∷ [])
            ≡ get_elem? (stacked_of arrays key) i
      each a b c d z p density = sym d
      each a b c d z p enthalpy = sym a
      each a b c d z p entropy = sym b
      each a b c d z p heat_capacity = sym c
      each a b c d z p compressibility = sym z
      each a b c d z p h_from_ps = sym p

  pub rebuild_luts-ok_slice :
      (arrays : Stacked F) (i : ℕ) (fluid : FluidName) (rest : List FluidName)
      (luts : List (FluidName × Tables F)) {tables : Tables F}
      → slices_at arrays i ≡ ok tables
      → rebuild_luts arrays i (fluid ∷ rest) luts
        ≡ rebuild_luts arrays (suc i) rest (insert fluid tables luts)
  unfolding rebuild_luts
  rebuild_luts-ok_slice arrays i fluid rest luts e = rw (e, rebuild_luts) refl

  pub rebuild_luts-err_slice :
      (arrays : Stacked F) (i : ℕ) (fluid : FluidName) (rest : List FluidName)
      (luts : List (FluidName × Tables F)) {e : Error}
      → slices_at arrays i ≡ err e
      → rebuild_luts arrays i (fluid ∷ rest) luts ≡ (luts, err e)
  unfolding rebuild_luts
  rebuild_luts-err_slice arrays i fluid rest luts e = rw (e, rebuild_luts) refl

  -- The loop ends well where the arrays have a table for every fluid.
  pub rebuild_luts-ok :
      (arrays : Stacked F) (i : ℕ) (fluids : List FluidName) (luts : List (FluidName × Tables F))
      → ((k : ℕ) → k < i + length fluids → Reaches arrays k)
      → (luts' : List (FluidName × Tables F)) × (rebuild_luts arrays i fluids luts ≡ (luts', ok tt))
  unfolding rebuild_luts
  rebuild_luts-ok arrays i [] luts reach = (luts, refl)
  rebuild_luts-ok arrays i (fluid ∷ rest) luts reach =
      let (tables, e, _) = slices_at_lem arrays i (reach i (omega arith)) in
      let (luts', q) =
        rebuild_luts-ok arrays (suc i) rest (insert fluid tables luts)
          (λ k h. reach k (omega (arith, h))) in
      (luts', rebuild_luts-ok_slice arrays i fluid rest luts e ∙ q)

  -- It leaves the tables of a fluid that it does not come to.
  rebuild_luts-other :
      (arrays : Stacked F) (i : ℕ) (fluids : List FluidName) (luts : List (FluidName × Tables F))
      (fluid : FluidName)
      → All (λ b. same fluid b ≡ false) fluids
      → find fluid (rebuild_luts arrays i fluids luts).0 ≡ find fluid luts
  unfolding rebuild_luts
  rebuild_luts-other arrays i [] luts fluid apart = refl
  rebuild_luts-other arrays i (next ∷ rest) luts fluid (a, apart) =
      by_slice (slices_at arrays i) refl (λ tables.
        rebuild_luts-other arrays (suc i) rest (insert next tables luts) fluid apart
        ∙ find-insert_other next fluid tables luts (ground arith))
    where
      by_slice :
          (r : Result (Tables F))
          → slices_at arrays i ≡ r
          → ((tables : Tables F)
              → find fluid (rebuild_luts arrays (suc i) rest (insert next tables luts)).0
                ≡ find fluid luts)
          → find fluid (rebuild_luts arrays i (next ∷ rest) luts).0 ≡ find fluid luts
      by_slice (err e) q later =
          ap (λ r. find fluid r.0) (rebuild_luts-err_slice arrays i next rest luts q)
      by_slice (ok tables) q later =
          ap (λ r. find fluid r.0) (rebuild_luts-ok_slice arrays i next rest luts q) ∙ later tables

  at_index :
      (arrays : Stacked F) (key : Property) (i j : ℕ)
      → i ≡ j
      → get_elem? (stacked_of arrays key) i ≡ get_elem? (stacked_of arrays key) j
  at_index arrays key i j e = ap (λ n. get_elem? (stacked_of arrays key) n) e

  -- It gives each fluid the slices at its place.
  pub rebuild_luts-find :
      (arrays : Stacked F) (i : ℕ) (fluids : List FluidName) (luts : List (FluidName × Tables F))
      (j : ℕ) {fluid : FluidName}
      → ((k : ℕ) → k < i + length fluids → Reaches arrays k)
      → Distinct fluids
      → get_elem? fluids j ≡ some fluid
      → (tables : Tables F) × (find fluid (rebuild_luts arrays i fluids luts).0 ≡ some tables)
        × ((key : Property) → find key tables ≡ get_elem? (stacked_of arrays key) (i + j))
  unfolding rebuild_luts
  rebuild_luts-find arrays i [] luts j reach apart h = cc
  rebuild_luts-find arrays i (next ∷ rest) luts zero {fluid} reach (a, apart) h =
      let (tables, e, each) = slices_at_lem arrays i (reach i (omega arith)) in
      let q : next ≡ fluid = cc in
      (
        tables,
        subst (λ f. find f (rebuild_luts arrays i (next ∷ rest) luts).0 ≡ some tables) q
            (ap (λ r. find next r.0) (rebuild_luts-ok_slice arrays i next rest luts e)
              ∙ rebuild_luts-other arrays (suc i) rest (insert next tables luts) next a
              ∙ find-insert_self next tables luts),
        λ key. each key ∙ at_index arrays key i (i + zero) (omega arith),
      )
  rebuild_luts-find arrays i (next ∷ rest) luts (suc j) {fluid} reach (a, apart) h =
      let (tables, e, _) = slices_at_lem arrays i (reach i (omega arith)) in
      let (found, q, each) =
        rebuild_luts-find arrays (suc i) rest (insert next tables luts) j
          (λ k h. reach k (omega (arith, h))) apart h in
      (
        found,
        ap (λ r. find fluid r.0) (rebuild_luts-ok_slice arrays i next rest luts e) ∙ q,
        λ key. each key ∙ at_index arrays key (suc i + j) (i + suc j) (omega arith),
      )
