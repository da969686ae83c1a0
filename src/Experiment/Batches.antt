-- ===== src/Experiment/Batches.antt =====
-- The launches that main makes and the template that it leaves.
use matrix_factory.Prelude.{
  ℕ, zero, suc, ◌+◌, ◌-◌, ◌*◌, ◌/◌, ◌≤◌, ◌<◌, ◌≡◌, refl, ap, sym, ◌∙◌, inl, inr, Bool, true, false,
  List, [], ◌∷◌, ◌++◌, none, some, ltb, ltb→lt, ltb-eq-false, Result, ok, err, append_nil,
  append_assoc, Bool-cases, arith, ◌⊎◌,
}
use matrix_factory.Experiment.{
  Launch, World, Tools, batch_starts, min_nat, batches, Run, ◌>>=◌, ◌>>◌, on_files, run_launch,
  proceed, run_launches, run_metrics, run_arm, run_analysis, run_experiment, main,
}

-- `start`, `start + 1`, … , `n` numbers
unfoldable pub ids : ℕ → ℕ → List ℕ
ids start zero = []
ids start (suc n) = start ∷ ids (start + 1) n

-- The runs that launches make.
unfoldable pub covered : List Launch → List ℕ
unfolding ids
covered [] = []
covered (l ∷ ls) = ids l.run_start_id l.run_count ++ covered ls

ids-append : (start a b : ℕ) → ids start a ++ ids (start + a) b ≡ ids start (a + b)
unfolding ids
ids-append start zero b =
    let e : start + 0 ≡ start = omega arith in let z : 0 + b ≡ b = omega arith in rw (e, z) refl
ids-append start (suc a) b =
    let e : start + suc a ≡ start + 1 + a = omega arith in
    let z : suc a + b ≡ suc (a + b) = omega arith in
    rw (e, z) (ap (λ r. start ∷ r) (ids-append (start + 1) a b))

none_left : (n start : ℕ) → n ≤ start → n - start ≡ 0
none_left n start h = omega arith

covered-batches :
    (adacor : Bool) (n k start : ℕ)
    → n ≤ start + 5 * k
    → start + 5 * k < n + 5
    → covered (batches adacor n (batch_starts start k)) ≡ ids start (n - start)
unfolding covered ids
covered-batches adacor n zero start h l = let e : n - start ≡ 0 = omega arith in rw e refl
covered-batches adacor n (suc k) start h l = elim (Bool-cases (ltb (n - start) 5)) [
  | inl small ↦
      let s : n - start < 5 = ltb→lt _ _ small in
      let m : min_nat 5 (n - start) ≡ n - start = rw small refl in
      let later = covered-batches adacor n k (start + 5) (omega arith) (omega arith) in
      let gone : n - (start + 5) ≡ 0 = omega arith in
      let rest : covered (batches adacor n (batch_starts (start + 5) k)) ≡ [] =
        later ∙ ap (ids (start + 5)) gone in
      ap (λ r. ids start (min_nat 5 (n - start)) ++ r) rest ∙ append_nil _ ∙ ap (ids start) m
  | inr large ↦
      let s : 5 ≤ n - start = ltb-eq-false _ _ large in
      let m : min_nat 5 (n - start) ≡ 5 = rw large refl in
      let rest = covered-batches adacor n k (start + 5) (omega arith) (omega arith) in
      let e : 5 + (n - (start + 5)) ≡ n - start = omega arith in
      rw m
        (ap (λ r. ids start 5 ++ r) rest ∙ ids-append start 5 (n - (start + 5)) ∙ ap (ids start) e)
]

-- The launches of the batches of one arm.
unfoldable pub arm : Bool → ℕ → List Launch
arm adacor n = batches adacor n (batch_starts 0 ((n + 4) / 5))

-- The batches of an arm are the runs below n, each once and in order.
pub covered-arm : (adacor : Bool) (n : ℕ) → covered (arm adacor n) ≡ ids 0 n
unfolding arm
covered-arm adacor n =
    let e : n - 0 ≡ n = omega arith in
    covered-batches adacor n ((n + 4) / 5) 0 (omega arith) (omega arith) ∙ ap (ids 0) e

unfoldable pub is_ok {ℓ} : {A : Type ℓ} → Result A → Bool
is_ok (ok a) = true
is_ok (err e) = false

module _ {T D R : Type 0} (tools : Tools T D R) where
  -- The launches of `plan`, from the first on: all of them unless the computation failed.
  unfoldable pub MakesFrom :
      {A : Type 0} → List Launch → List Launch → Result A × World T D R → Type 0
  MakesFrom plan before (r, w) =
      (made : List Launch) × (rest : List Launch) × (w.launches ≡ before ++ made)
      × (made ++ rest ≡ plan)
      × (is_ok r ≡ false ⊎ rest ≡ [])

  Makes : {A : Type 0} → List Launch → Run tools A → Type 0
  unfolding MakesFrom
  Makes plan m = (w : World T D R) → MakesFrom plan w.launches (m w)

  proceed-Makes :
      {A B : Type 0} (p q before : List Launch) (f : A → Run tools B) (r : Result A × World T D R)
      → MakesFrom p before r
      → ((a : A) → Makes q (f a))
      → MakesFrom (p ++ q) before (proceed tools f r)
  unfolding Makes MakesFrom is_ok
  proceed-Makes p q before f (err e, w) (made, rest, l, h, done) k =
      (made, rest ++ q, l, sym (append_assoc made rest q) ∙ ap (λ x. x ++ q) h, inl refl)
  proceed-Makes p q before f (ok a, w) (made, rest, l, h, inl failed) k = absurd (cc)
  proceed-Makes p q before f (ok a, w) (made, rest, l, h, inr none_rests) k =
      let (later, left, l', h', done) = k a w in
      let all : made ≡ p = sym (append_nil made) ∙ ap (λ x. made ++ x) (sym none_rests) ∙ h in
      (
        made ++ later,
        left,
        l' ∙ ap (λ x. x ++ later) l ∙ append_assoc before made later,
        append_assoc made later left ∙ ap (λ x. made ++ x) h' ∙ ap (λ x. x ++ q) all,
        done,
      )

  by_plan :
      {A : Type 0} (p q before : List Launch) (r : Result A × World T D R)
      → p ≡ q
      → MakesFrom p before r
      → MakesFrom q before r
  unfolding MakesFrom
  by_plan p q before (r, w) e (made, rest, l, h, done) = (made, rest, l, h ∙ e, done)

  launch-Makes : (l : Launch) → Makes (l ∷ []) (run_launch tools l)
  unfolding Makes MakesFrom
  launch-Makes l w = (l ∷ [], [], refl, refl, inr refl)

  no_launch-Makes :
      {A : Type 0} (m : Run tools A)
      → ((w : World T D R) → (m w).1.launches ≡ w.launches)
      → Makes [] m
  unfolding Makes MakesFrom
  no_launch-Makes m h w = ([], [], h w ∙ sym (append_nil _), refl, inr refl)

  run_launches-Makes : (ls : List Launch) → Makes ls (run_launches tools ls)
  unfolding run_launches Makes MakesFrom
  run_launches-Makes [] w = ([], [], sym (append_nil _), refl, inr refl)
  run_launches-Makes (l ∷ ls) w =
      proceed-Makes (l ∷ []) ls w.launches _ (run_launch tools l w) (launch-Makes l w)
        (λ a. run_launches-Makes ls)

  metrics-Makes : (adacor : Bool) → Makes [] (run_metrics tools adacor)
  metrics-Makes adacor = no_launch-Makes (run_metrics tools adacor) (λ w. refl)

  run_arm-Makes : (adacor : Bool) (n : ℕ) → Makes (arm adacor n) (run_arm tools adacor n)
  unfolding run_arm arm Makes
  run_arm-Makes adacor n w =
      let cleared = record w { files = record w.files { database = none } } in
      by_plan (arm adacor n ++ []) (arm adacor n) w.launches (run_arm tools adacor n w)
        (append_nil (arm adacor n))
        (proceed-Makes (arm adacor n) [] w.launches (λ a. run_metrics tools adacor)
          (run_launches tools (arm adacor n) cleared) (run_launches-Makes (arm adacor n) cleared)
          (λ a. metrics-Makes adacor))

  save : List R → Run tools (Unit {0})
  save rows =
      ◌>>◌ tools (on_files tools (λ f. record f { results = some rows })) (run_analysis tools)

  save-Makes : (rows : List R) → Makes [] (save rows)
  unfolding save
  save-Makes rows = no_launch-Makes (save rows) (λ w. refl)

  run_experiment-Makes :
      (original : T) (n : ℕ) → Makes (arm false n ++ arm true n) (run_experiment tools original n)
  unfolding run_experiment Makes save
  run_experiment-Makes original n w =
      let spiked = record w {
        files = record w.files { template = some (tools.price_series_set original) };
      } in
      by_plan (arm false n ++ (arm true n ++ [])) (arm false n ++ arm true n) w.launches
        (run_experiment tools original n w) (ap (λ x. arm false n ++ x) (append_nil (arm true n)))
        (proceed-Makes (arm false n) (arm true n ++ []) w.launches
          (λ prosa. ◌>>=◌ tools (run_arm tools true n) (λ adacor. save (prosa ++ adacor)))
          (run_arm tools false n spiked) (run_arm-Makes false n spiked)
          (λ prosa w1.
            proceed-Makes (arm true n) [] w1.launches (λ adacor. save (prosa ++ adacor))
              (run_arm tools true n w1) (run_arm-Makes true n w1)
              (λ adacor. save-Makes (prosa ++ adacor))))

  -- On a template, the experiment leaves the template as it was, and makes, after the launches made
  -- before, the planned ones in order and from the first on: all of them, or it raises. The plan of each
  -- arm makes each run from 0 below the count once.
  pub main-IsExperiment :
      (n : ℕ) (w : World T D R) (original : T)
      → w.files.template ≡ some original
      → ((main tools n w).1.files.template ≡ some original)
        × MakesFrom (arm false n ++ arm true n) w.launches (main tools n w)
        × (covered (arm false n) ≡ ids 0 n)
        × (covered (arm true n) ≡ ids 0 n)
  unfolding main MakesFrom Makes
  main-IsExperiment n w original h =
      rw h (refl, run_experiment-Makes original n w, covered-arm false n, covered-arm true n)
