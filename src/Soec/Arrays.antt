-- ===== src/Soec/Arrays.antt =====
-- Reading the arrays of the plant through the virtual map, and writing them back.
use matrix_factory.Prelude.{
  ℕ, zero, suc, ◌<◌, ◌≡◌, ◌≢◌, refl, ap, ◌∙◌, List, [], ◌∷◌, map, some, length, get_elem?,
  get_elem?-some, set, length-set, get_elem?-set_other, All, arith, Option-cases, sym, inl, inr,
}
use matrix_factory.Soec.{Module, gather, scatter}

-- Every index that the map names lies in the plant.
abbrev pub IsMap : ℕ → List ℕ → Type 0
IsMap n is = All (λ i. i < n) is

-- No entry of the map is `j`.
abbrev pub IsIdle : List ℕ → ℕ → Type 0
IsIdle is j = All (λ i. i ≢ j) is

module _ {ℓ} {A : Type ℓ} where
  pub gather-some :
      (xs : List A) (is : List ℕ)
      → IsMap (length xs) is
      → (ys : List A) × (gather xs is ≡ some ys) × (length ys ≡ length is)
  gather-some xs [] h = ([], refl, refl)
  gather-some xs (i ∷ is) (h, hs) =
      let (x, e) = get_elem?-some xs i h in
      let (ys, e', n) = gather-some xs is hs in (x ∷ ys, rw (e, e') refl, ap suc n)

  pub length-scatter :
      (xs : List A) (is : List ℕ) (ys : List A) → length (scatter xs is ys) ≡ length xs
  length-scatter xs [] ys = refl
  length-scatter xs (i ∷ is) [] = refl
  length-scatter xs (i ∷ is) (y ∷ ys) = length-scatter (set xs i y) is ys ∙ length-set xs i y

  pub scatter-idle :
      (xs : List A) (is : List ℕ) (ys : List A) (j : ℕ)
      → IsIdle is j
      → get_elem? (scatter xs is ys) j ≡ get_elem? xs j
  scatter-idle xs [] ys j h = refl
  scatter-idle xs (i ∷ is) [] j h = refl
  scatter-idle xs (i ∷ is) (y ∷ ys) j (h, hs) =
      scatter-idle (set xs i y) is ys j hs ∙ get_elem?-set_other xs i j y h

module _ {ℓ κ} {A : Type ℓ} (P : A → Type κ) where
  -- The entry at `i` is there and has the property.
  abbrev pub Holds : List A → ℕ → Type (ℓ ⊔ κ)
  Holds xs i = (a : A) × (get_elem? xs i ≡ some a) × P a

  set-Holds : (xs : List A) (i j : ℕ) (y : A) → P y → Holds xs j → Holds (set xs i y) j
  set-Holds [] i j y p h = h
  set-Holds (x ∷ xs) zero zero y p h = (y, refl, p)
  set-Holds (x ∷ xs) zero (suc j) y p h = h
  set-Holds (x ∷ xs) (suc i) zero y p h = h
  set-Holds (x ∷ xs) (suc i) (suc j) y p h = set-Holds xs i j y p h

  set_self-Holds : (xs : List A) (i : ℕ) (y : A) → P y → i < length xs → Holds (set xs i y) i
  set_self-Holds [] i y p h = absurd (omega arith)
  set_self-Holds (x ∷ xs) zero y p h = (y, refl, p)
  set_self-Holds (x ∷ xs) (suc i) y p h = set_self-Holds xs i y p (omega arith)

  scatter-keeps :
      (xs : List A) (is : List ℕ) (ys : List A) (j : ℕ)
      → All P ys
      → Holds xs j
      → Holds (scatter xs is ys) j
  scatter-keeps xs [] ys j all h = h
  scatter-keeps xs (i ∷ is) [] j all h = h
  scatter-keeps xs (i ∷ is) (y ∷ ys) j (p, all) h =
      scatter-keeps (set xs i y) is ys j all (set-Holds xs i j y p h)

  pub scatter-All :
      (xs : List A) (is : List ℕ) (ys : List A)
      → IsMap (length xs) is
      → length ys ≡ length is
      → All P ys
      → All (λ i. Holds (scatter xs is ys) i) is
  scatter-All xs [] ys m n all = tt
  scatter-All xs (i ∷ is) [] m n all = absurd (omega arith)
  scatter-All xs (i ∷ is) (y ∷ ys) (h, m) n (p, all) = (
    scatter-keeps (set xs i y) is ys i all (set_self-Holds xs i y p h),
    scatter-All (set xs i y) is ys (rw (length-set xs i y) m) (omega arith) all,
  )

  pub map-All : {B : Type ℓ} (f : B → A) → ((b : B) → P (f b)) → (bs : List B) → All P (map f bs)
  map-All f h [] = tt
  map-All f h (b ∷ bs) = (h b, map-All f h bs)

module _ {F : Type 0} where
  -- The entries of `ps` at the indices are the powers of the modules.
  unfoldable pub SamePowers : List F → List ℕ → List (Module F) → Type 0
  SamePowers ps [] ys = Unit
  SamePowers ps (i ∷ is) [] = Unit
  SamePowers ps (i ∷ is) (y ∷ ys) = (get_elem? ps i ≡ some y.power) × SamePowers ps is ys

  set-powers :
      (xs : List (Module F)) (i : ℕ) (y : Module F)
      → get_elem? (map (λ m. m.power) xs) i ≡ some y.power
      → map (λ m. m.power) (set xs i y) ≡ map (λ m. m.power) xs
  set-powers [] i y h = refl
  set-powers (x ∷ xs) zero y h = cc
  set-powers (x ∷ xs) (suc i) y h = ap (λ ps. x.power ∷ ps) (set-powers xs i y h)

  pub scatter-powers :
      (xs : List (Module F)) (is : List ℕ) (ys : List (Module F))
      → SamePowers (map (λ m. m.power) xs) is ys
      → map (λ m. m.power) (scatter xs is ys) ≡ map (λ m. m.power) xs
  unfolding SamePowers
  scatter-powers xs [] ys h = refl
  scatter-powers xs (i ∷ is) [] h = refl
  scatter-powers xs (i ∷ is) (y ∷ ys) (h, hs) =
      let e = set-powers xs i y h in scatter-powers (set xs i y) is ys (rw e hs) ∙ e

  get_elem?-map_power :
      (xs : List (Module F)) (i : ℕ) (x : Module F)
      → get_elem? xs i ≡ some x
      → get_elem? (map (λ m. m.power) xs) i ≡ some x.power
  get_elem?-map_power [] i x e = cc
  get_elem?-map_power (y ∷ ys) zero x e = let h : y ≡ x = cc in rw h refl
  get_elem?-map_power (y ∷ ys) (suc i) x e = get_elem?-map_power ys i x e

  -- What a function that keeps the powers makes of the modules read has their powers.
  pub gather-SamePowers :
      (f : Module F → Module F)
      → ((m : Module F) → (f m).power ≡ m.power)
      → (xs : List (Module F)) (is : List ℕ) (ms : List (Module F)) → gather xs is ≡ some ms
      → SamePowers (map (λ m. m.power) xs) is (map f ms)
  unfolding SamePowers
  gather-SamePowers f keeps xs [] ms e = tt
  gather-SamePowers f keeps xs (i ∷ is) ms e = elim (Option-cases (get_elem? xs i)) [
    | inl n ↦ absurd (cc (rw n at e))
    | inr (x, a) ↦ elim (Option-cases (gather xs is)) [
      | inl n ↦ absurd (cc (rw (a, n) at e))
      | inr (ys, b) ↦
          let h : ms ≡ x ∷ ys = cc (rw (a, b) at e) in
          rw h (
            get_elem?-map_power xs i x a ∙ ap some (sym (keeps x)),
            gather-SamePowers f keeps xs is ys b,
          )
    ]
  ]

  pub map-SamePowers :
      (f : Module F → Module F)
      → ((m : Module F) → (f m).power ≡ m.power)
      → (ps : List F) (is : List ℕ) (ys : List (Module F)) → SamePowers ps is ys
      → SamePowers ps is (map f ys)
  unfolding SamePowers
  map-SamePowers f keeps ps [] ys h = tt
  map-SamePowers f keeps ps (i ∷ is) [] h = tt
  map-SamePowers f keeps ps (i ∷ is) (y ∷ ys) (h, hs) =
      (h ∙ ap some (sym (keeps y)), map-SamePowers f keeps ps is ys hs)
