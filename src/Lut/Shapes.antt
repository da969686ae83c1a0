-- ===== src/Lut/Shapes.antt =====
-- The generated tables: their shape and their entries.
use matrix_factory.Prelude.{
  ℕ, zero, ◌≡◌, ◌≢◌, ◌∙◌, sym, subst, inl, inr, false, some, List, [], ◌∷◌, length, get_elem?, suc,
  refl, ap, arith, All, length-replicate, Result, ok, >>=-eq-ok, ok-injective, Bool-cases, find,
  insert, same, same-eq, find-insert_self, find-insert_other,
}
use mathlib.Core.Option.{some-injective}
use matrix_factory.Float.{Float}
use matrix_factory.Lut.{
  FluidName, Property, Property-HasCode, h_from_ps, Table, Tables, LutManager, CoolProp, LutNumpy,
}
use matrix_factory.Lut.Cache.{zeros}
use matrix_factory.Lut.Generate.{
  table_entry, write_row, write_rows, generate_table, generate_properties, generate_lut,
}

module _ {F : Type 0} ⦃fl : Float F⦄ (nl : LutNumpy F) where
  -- An entry of a row at the place of `y`.
  abbrev pub HasEntry : (F → Result F) → List F → ℕ → F → Type 0
  HasEntry f row j y = (v : F) × (get_elem? row j ≡ some v) × (table_entry nl (f y) ≡ ok v)

  write_row-HasEntry :
      (f : F → Result F) (ys cells out : List F)
      → write_row nl f ys cells ≡ ok out
      → (length out ≡ length cells)
        × ((j : ℕ) (y : F) → get_elem? ys j ≡ some y → HasEntry f out j y)
  unfolding write_row
  write_row-HasEntry f [] cells out h = (ap (λ r. length r) (sym (ok-injective h)), λ j y e. cc)
  write_row-HasEntry f (y ∷ ys) [] out h =
      let (v, e, q) = >>=-eq-ok (table_entry nl (f y)) _ h in cc
  write_row-HasEntry f (y ∷ ys) (c ∷ cells) out h =
      let (v, e, q) = >>=-eq-ok (table_entry nl (f y)) _ h in
      let (rest, e', q') = >>=-eq-ok (write_row nl f ys cells) _ q in
      let (same, has) = write_row-HasEntry f ys cells rest e' in
      let shape : (length (v ∷ rest) ≡ suc (length cells))
          × ((j : ℕ) (z : F) → get_elem? (y ∷ ys) j ≡ some z → HasEntry f (v ∷ rest) j z) =
        (ap suc same, each v rest e has) in
      subst
        (λ o.
          (length o ≡ suc (length cells))
          × ((j : ℕ) (z : F) → get_elem? (y ∷ ys) j ≡ some z → HasEntry f o j z))
        (ok-injective q') shape
    where
      each :
          (v : F) (rest : List F)
          → table_entry nl (f y) ≡ ok v
          → ((j : ℕ) (z : F) → get_elem? ys j ≡ some z → HasEntry f rest j z)
          → (j : ℕ) (z : F) → get_elem? (y ∷ ys) j ≡ some z
          → HasEntry f (v ∷ rest) j z
      each v rest e has zero z p =
          (v, refl, ap (λ u. table_entry nl (f u)) (sym (some-injective _ _ p)) ∙ e)
      each v rest e has (suc j) z p = has j z p

  -- The entry of a table at the place of `x` and `y`.
  abbrev pub HasPoint : (F → F → Result F) → List F → Table F → ℕ → F → Type 0
  HasPoint f ys table i x =
      (row : List F) × (get_elem? table i ≡ some row)
      × ((j : ℕ) (y : F) → get_elem? ys j ≡ some y → HasEntry (f x) row j y)

  -- What the loops make of a table: its shape is kept, and each point of the grids has its entry.
  write_rows-HasPoint :
      (f : F → F → Result F) (columns : ℕ) (ys xs : List F) (table out : Table F)
      → All (λ row. length row ≡ columns) table
      → ys ≢ []
      → write_rows nl f ys xs table ≡ ok out
      → (length out ≡ length table)
        × All (λ row. length row ≡ columns) out
        × ((i : ℕ) (x : F) → get_elem? xs i ≡ some x → HasPoint f ys out i x)
  unfolding write_rows
  write_rows-HasPoint f columns ys [] table out a some_point h =
      subst
        (λ o.
          (length o ≡ length table)
          × All (λ row. length row ≡ columns) o
          × ((i : ℕ) (x : F) → get_elem? [] i ≡ some x → HasPoint f ys o i x))
        (ok-injective h) (refl, a, λ i x e. cc)
  write_rows-HasPoint f columns [] (x ∷ xs) [] out a some_point h = absurd (some_point refl)
  write_rows-HasPoint f columns (y ∷ ys) (x ∷ xs) [] out a some_point h =
      let (row, e, q) = >>=-eq-ok (write_row nl (f x) (y ∷ ys) []) _ h in
      let (same, has) = write_row-HasEntry (f x) (y ∷ ys) [] row e in
      let (v, at, _) = has 0 y refl in absurd (nothing row same v at)
    where
      nothing : (row : List F) → length row ≡ 0 → (v : F) → get_elem? row 0 ≡ some v → ⊥
      nothing [] e v at = cc
      nothing (c ∷ cs) e v at = absurd (omega (arith, e))
  write_rows-HasPoint f columns ys (x ∷ xs) (row ∷ table) out (n, a) some_point h =
      let (written, e, q) = >>=-eq-ok (write_row nl (f x) ys row) _ h in
      let (rest, e', q') = >>=-eq-ok (write_rows nl f ys xs table) _ q in
      let (same, has) = write_row-HasEntry (f x) ys row written e in
      let (long, all, later) = write_rows-HasPoint f columns ys xs table rest a some_point e' in
      subst
        (λ o.
          (length o ≡ suc (length table))
          × All (λ row. length row ≡ columns) o
          × ((i : ℕ) (z : F) → get_elem? (x ∷ xs) i ≡ some z → HasPoint f ys o i z))
        (ok-injective q') (ap suc long, (same ∙ n, all), each written rest has later)
    where
      each :
          (written : List F) (rest : Table F)
          → ((j : ℕ) (y : F) → get_elem? ys j ≡ some y → HasEntry (f x) written j y)
          → ((i : ℕ) (z : F) → get_elem? xs i ≡ some z → HasPoint f ys rest i z)
          → (i : ℕ) (z : F) → get_elem? (x ∷ xs) i ≡ some z
          → HasPoint f ys (written ∷ rest) i z
      each written rest has later zero z p =
          subst (λ u. HasPoint f ys (written ∷ rest) 0 u) (some-injective _ _ p)
            (written, refl, has)
      each written rest has later (suc i) z p = later i z p

  zeros-columns :
      (rows columns : ℕ) → All (λ row. length row ≡ columns) (zeros {F = F} rows columns)
  zeros-columns zero columns = tt
  zeros-columns (suc rows) columns = (length-replicate columns _, zeros-columns rows columns)

  -- A table of the configured shape, with the entry of each point of the grids at its place.
  pub record IsGenerated (cp : CoolProp F) (m : LutManager F) (fluid : FluidName)
      (property : Property) (table : Table F) : Type 0 where
    pub rows : length table ≡ m.config.pressure_points
    pub columns : All (λ row. length row ≡ m.config.temperature_points) table
    pub entries :
        (i : ℕ) (p : F)
        → get_elem? m.pressure_grid i ≡ some p
        → HasPoint (λ p t. cp.props_si property p t fluid) m.temperature_grid table i p

  generate_table-IsGenerated :
      (cp : CoolProp F) (m : LutManager F) (fluid : FluidName) (property : Property)
      (table : Table F)
      → m.temperature_grid ≢ []
      → generate_table nl
          (λ p t. cp.props_si property p t fluid)
          m.config.pressure_points
          m.config.temperature_points
          m.pressure_grid
          m.temperature_grid
        ≡ ok table
      → IsGenerated cp m fluid property table
  unfolding generate_table
  generate_table-IsGenerated cp m fluid property table some_point h =
      let (long, all, has) =
        write_rows-HasPoint (λ p t. cp.props_si property p t fluid) m.config.temperature_points
          m.temperature_grid m.pressure_grid
          (zeros m.config.pressure_points m.config.temperature_points) table
          (zeros-columns m.config.pressure_points m.config.temperature_points) some_point h in
      record {
        rows = long ∙ length-replicate m.config.pressure_points _;
        columns = all;
        entries = has;
      }

  abbrev pub HasGenerated : CoolProp F → LutManager F → FluidName → Tables F → Property → Type 0
  HasGenerated cp m fluid lut property =
      (table : Table F) × (find property lut ≡ some table) × IsGenerated cp m fluid property table

  insert-Generated :
      (cp : CoolProp F) (m : LutManager F) (fluid : FluidName) (lut : Tables F) (prop : Property)
      (table : Table F)
      → IsGenerated cp m fluid prop table
      → ((property : Property)
          → HasGenerated cp m fluid lut property
          → HasGenerated cp m fluid (insert prop table lut) property)
        × HasGenerated cp m fluid (insert prop table lut) prop
  insert-Generated cp m fluid lut prop table shape = (
    λ property had. elim (Bool-cases (same prop property)) [
      | inl y ↦
          subst (λ p. HasGenerated cp m fluid (insert prop table lut) p) (same-eq prop property y)
            (table, find-insert_self prop table lut, shape)
      | inr n ↦ (had.0, find-insert_other prop property table lut n ∙ had.1, had.2)
    ],
    (table, find-insert_self prop table lut, shape),
  )

  generate_properties-HasGenerated :
      (cp : CoolProp F) (m : LutManager F) (fluid : FluidName) (props : List Property)
      (lut : Tables F) {lut' : Tables F}
      → m.temperature_grid ≢ []
      → generate_properties nl cp m fluid props lut ≡ ok lut'
      → ((property : Property)
          → HasGenerated cp m fluid lut property
          → HasGenerated cp m fluid lut' property)
        × ((j : ℕ) (property : Property)
            → get_elem? props j ≡ some property
            → HasGenerated cp m fluid lut' property)
  generate_properties-HasGenerated cp m fluid [] lut some_point h = (
    λ property had. subst (λ l. HasGenerated cp m fluid l property) (ok-injective h) had,
    λ j property e. cc,
  )
  generate_properties-HasGenerated cp m fluid (prop ∷ rest) lut {lut'} some_point h =
      let (table, e, later) =
        >>=-eq-ok
          (generate_table nl (λ p t. cp.props_si prop p t fluid) m.config.pressure_points
            m.config.temperature_points m.pressure_grid m.temperature_grid)
          _ h in
      let shape = generate_table-IsGenerated cp m fluid prop table some_point e in
      let (keeps, has) = insert-Generated cp m fluid lut prop table shape in
      let (keeps', has') =
        generate_properties-HasGenerated cp m fluid rest (insert prop table lut) some_point later in
      (
        λ property had. keeps' property (keeps property had),
        λ j property. each table keeps' has has' j property,
      )
    where
      each :
          (table : Table F)
          → ((property : Property)
              → HasGenerated cp m fluid (insert prop table lut) property
              → HasGenerated cp m fluid lut' property)
          → HasGenerated cp m fluid (insert prop table lut) prop
          → ((j : ℕ) (property : Property)
              → get_elem? rest j ≡ some property
              → HasGenerated cp m fluid lut' property)
          → (j : ℕ) (property : Property) → get_elem? (prop ∷ rest) j ≡ some property
          → HasGenerated cp m fluid lut' property
      each table keeps' has has' zero property e =
          subst (λ p. HasGenerated cp m fluid lut' p) (some-injective _ _ e) (keeps' prop has)
      each table keeps' has has' (suc j) property e = has' j property e

  -- Where the temperature grid is not empty, generation that ends well has for every configured
  -- property a table of the configured numbers of pressures and temperatures, and at the place of each
  -- pressure and temperature of the grids the value that CoolProp gave, or NaN where it has no such
  -- state.
  pub generate_lut-IsGenerated :
      (cp : CoolProp F) (m : LutManager F) (fluid : FluidName) (lut : Tables F) (j : ℕ)
      (property : Property)
      → m.temperature_grid ≢ []
      → generate_lut nl (some cp) m fluid ≡ ok lut
      → get_elem? m.config.properties j ≡ some property
      → property ≢ h_from_ps
      → HasGenerated cp m fluid lut property
  unfolding generate_lut
  generate_lut-IsGenerated cp m fluid lut j property some_point h place other =
      let (tables, e, later) =
        >>=-eq-ok (generate_properties nl cp m fluid m.config.properties []) _ h in
      let (isentropic, _, q) =
        >>=-eq-ok
          (generate_table nl (λ p s. cp.props_si_ps p s fluid) m.config.pressure_points
            m.config.entropy_points m.pressure_grid m.entropy_grid)
          _ later in
      let (_, has) =
        generate_properties-HasGenerated cp m fluid m.config.properties [] some_point e in
      let (table, found, shape) = has j property place in
      (
        table,
        subst (λ l. find property l ≡ some table) (ok-injective q)
            (find-insert_other h_from_ps property isentropic tables apart ∙ found),
        shape,
      )
    where
      apart : same h_from_ps property ≡ false
      apart = elim (Bool-cases (same h_from_ps property)) [
        | inl y ↦ absurd (other (sym (same-eq h_from_ps property y)))
        | inr n ↦ n
      ]
