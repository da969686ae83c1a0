-- ===== src/Prelude/Exceptions.antt =====
-- Python's exceptions as values: a function that may raise returns a `Result`.
use Prim.Native.Nat.{ℕ, zero, suc}
use mathlib.Core.Path.{◌≡◌, refl, sym, ap, subst}
use mathlib.Core.Bool.{Bool, true, false}
use mathlib.Core.Option.{Option, none, some, some-injective}
use mathlib.Core.List.{List, [], ◌∷◌}
use matrix_factory.Prelude.Lists.{length, get_elem?, All}

-- The exception classes that the engine raises or lets pass. `invalid_argument` is the status with
-- which gRPC aborts a call.
pub data Error : Type 0 where
  value_error type_error runtime_error index_error : Error
  zero_division key_error attribute_error : Error
  initialization_error invalid_argument : Error

pub data Result {ℓ} (A : Type ℓ) : Type ℓ where
  ok : A → Result A
  err : Error → Result A

-- Sequencing: a statement that raised hides the ones after it.
module _ {ℓ κ} {A : Type ℓ} {B : Type κ} where
  infixl 5 ◌>>=◌
  abbrev pub ◌>>=◌ : Result A → (A → Result B) → Result B
  err raised >>= next = err raised
  ok value >>= next = next value

-- `if not test: raise raised`
abbrev pub guard : (test : Bool) (raised : Error) → Result (Unit {0})
guard test raised = elim test [ false ↦ err raised | true ↦ ok tt ]

infixl 5 ◌>>◌
abbrev pub ◌>>◌ {κ} : {B : Type κ} (first : Result (Unit {0})) (rest : Result B) → Result B
err raised >> rest = err raised
ok done >> rest = rest

abbrev pub or_raise {ℓ} : {A : Type ℓ} → Option A → Error → Result A
or_raise none e = err e
or_raise (some a) e = ok a

-- A loop that appends what its body returns for each element.
abbrev pub traverse {ℓ κ} : {A : Type ℓ} {B : Type κ} → (A → Result B) → List A → Result (List B)
traverse f [] = ok []
traverse f (x ∷ xs) = f x >>= λ y. traverse f xs >>= λ ys. ok (y ∷ ys)

-- If a sequence returned, so did its first statement, and the rest from its value on.
pub >>=-eq-ok {ℓ κ} :
    {X : Type ℓ} {Y : Type κ} (ran : Result X) (next : X → Result Y) {result : Y}
    → (ran >>= next) ≡ ok result
    → (value : X) × (ran ≡ ok value) × (next value ≡ ok result)
>>=-eq-ok (err raised) next returned = cc
>>=-eq-ok (ok value) next returned = (value, refl, returned)

pub ok-injective {ℓ} : {A : Type ℓ} {a b : A} → ok a ≡ ok b → a ≡ b
ok-injective h = cc

-- A validation that let the rest return has passed.
pub guard-eq-ok {ℓ} :
    {B : Type ℓ} (test : Bool) (e : Error) (m : Result B) {b : B}
    → (guard test e >> m) ≡ ok b
    → (test ≡ true) × (m ≡ ok b)
guard-eq-ok true e m h = (refl, h)
guard-eq-ok false e m h = cc

-- A loop that returned has an element for each of its list, which its body returned.
module _ {ℓ κ} {A : Type ℓ} {B : Type κ} (f : A → Result B) where
  traverse-ok-cons :
      (x : A) (xs : List A) {zs : List B}
      → traverse f (x ∷ xs) ≡ ok zs
      → (y : B) × (ys : List B) × (f x ≡ ok y) × (traverse f xs ≡ ok ys) × (zs ≡ y ∷ ys)
  traverse-ok-cons x xs h =
      let (y, e, h') = >>=-eq-ok (f x) _ h in
      let (ys, e', q) = >>=-eq-ok (traverse f xs) _ h' in (y, ys, e, e', sym (ok-injective q))

  pub length-traverse : (xs : List A) (ys : List B) → traverse f xs ≡ ok ys → length ys ≡ length xs
  length-traverse [] ys h = ap length (sym (ok-injective h))
  length-traverse (x ∷ xs) ys h =
      let (z, zs, e, e', q) = traverse-ok-cons x xs h in rw q (ap suc (length-traverse xs zs e'))

  pub get_elem?-traverse :
      (xs : List A) (ys : List B) (i : ℕ) {x : A}
      → traverse f xs ≡ ok ys
      → get_elem? xs i ≡ some x
      → (y : B) × (get_elem? ys i ≡ some y) × (f x ≡ ok y)
  get_elem?-traverse [] ys i h k = cc
  get_elem?-traverse (x ∷ xs) ys zero h k =
      let (z, zs, e, e', q) = traverse-ok-cons x xs h in
      (z, rw q refl, subst (λ w. f w ≡ ok z) (some-injective _ _ k) e)
  get_elem?-traverse (x ∷ xs) ys (suc i) h k =
      let (z, zs, e, e', q) = traverse-ok-cons x xs h in rw q (get_elem?-traverse xs zs i e' k)

  -- What the body's results all have, the elements of the loop's have.
  pub All-traverse {μ} :
      (P : B → Type μ) (xs : List A) (ys : List B)
      → ((x : A) (y : B) → f x ≡ ok y → P y)
      → traverse f xs ≡ ok ys
      → All P ys
  All-traverse P [] ys each h = subst (λ l. All P l) (ok-injective h) tt
  All-traverse P (x ∷ xs) ys each h =
      let (z, zs, e, e', q) = traverse-ok-cons x xs h in
      subst (λ l. All P l) (sym q) (each x z e, All-traverse P xs zs each e')
