-- ===== src/Jcm/Rewrite.antt =====
-- What the rewriting makes of the files of a run.
use matrix_factory.Prelude.{
  ℕ, zero, suc, ◌≡◌, refl, ap, sym, ◌∙◌, inl, inr, true, false, List, [], ◌∷◌, map, none, some,
  if◌then◌else◌, Bool-cases,
}
use matrix_factory.Jcm.{
  Word, Segment, word, gap, same_word, canonical_tokens, renamed, rewrite_token, rewrite_tokens,
  rewrite_content, occurs, first_bare, validate_asl, rewrite_files, rewrite_runs,
}
use matrix_factory.Jcm.Names.{same_word_self, same_word-eq, is_token, renamed-fresh}

-- All tokens of a list renamed at once.
abbrev rename_tokens : List Word → ℕ → Segment → Segment
rename_tokens tokens run_id (word w) = if is_token tokens w then word (renamed w run_id) else word w
rename_tokens tokens run_id (gap g) = gap g

-- The canonical tokens renamed at once.
unfoldable pub isolated : ℕ → Segment → Segment
isolated run_id s = rename_tokens canonical_tokens run_id s

map-map-segments :
    (f g : Segment → Segment) (s : List Segment) → map f (map g s) ≡ map (λ x. f (g x)) s
map-map-segments f g [] = refl
map-map-segments f g (x ∷ s) = ap (λ r. f (g x) ∷ r) (map-map-segments f g s)

map-eq :
    (f g : Segment → Segment) → ((x : Segment) → f x ≡ g x) → (s : List Segment) → map f s ≡ map g s
map-eq f g h [] = refl
map-eq f g h (x ∷ s) = let a = h x in let b = map-eq f g h s in cc

map_id : (f : Segment → Segment) → ((x : Segment) → f x ≡ x) → (s : List Segment) → map f s ≡ s
map_id f h [] = refl
map_id f h (x ∷ s) = let a = h x in let b = map_id f h s in cc

is_token_later :
    (t : Word) (ts : List Word) (w : Word) → is_token ts w ≡ true → is_token (t ∷ ts) w ≡ true
is_token_later t ts w k = elim (Bool-cases (same_word w t)) [ inl y ↦ rw y refl | inr n ↦ rw n k ]

module _ (run_id : ℕ) where
  -- No token's name is a token of the list.
  Fresh : List Word → Type 0
  Fresh tokens =
      (t u : Word)
      → is_token tokens t ≡ true
      → is_token tokens u ≡ true
      → same_word (renamed t run_id) u ≡ false

  Fresh-tail : (t : Word) (ts : List Word) → Fresh (t ∷ ts) → Fresh ts
  unfolding Fresh
  Fresh-tail t ts h v u k l = h v u (is_token_later t ts v k) (is_token_later t ts u l)

  name_is_no_token :
      (t : Word) (ts : List Word)
      → ((u : Word) → is_token ts u ≡ true → same_word (renamed t run_id) u ≡ false)
      → is_token ts (renamed t run_id) ≡ false
  name_is_no_token t [] h = refl
  name_is_no_token t (u ∷ ts) h =
      let first : same_word (renamed t run_id) u ≡ false = h u (rw (same_word_self u) refl) in
      rw first (name_is_no_token t ts (λ v k. h v (is_token_later u ts v k)))

  -- One token renamed, and then the others at once, is all of them renamed at once.
  rename_step :
      (t : Word) (ts : List Word)
      → Fresh (t ∷ ts)
      → (s : Segment)
      → rename_tokens ts run_id (rewrite_token run_id t s) ≡ rename_tokens (t ∷ ts) run_id s
  unfolding Fresh
  rename_step t ts h (gap g) = refl
  rename_step t ts h (word w) = elim (Bool-cases (same_word w t)) [
    | inl y ↦
        let own : is_token (t ∷ ts) t ≡ true = rw (same_word_self t) refl in
        let fresh = name_is_no_token t ts (λ u k. h t u own (is_token_later t ts u k)) in
        rw (y, fresh) (ap (λ v. word (renamed v run_id)) (sym (same_word-eq w t y)))
    | inr n ↦ rw n refl
  ]

  rewrite_tokens-eq :
      (ts : List Word) (content : List Segment)
      → Fresh ts
      → rewrite_tokens ts content run_id ≡ map (rename_tokens ts run_id) content
  unfolding rewrite_tokens
  rewrite_tokens-eq [] content h = sym (map_id (rename_tokens [] run_id) unchanged content)
    where
      unchanged : (x : Segment) → rename_tokens [] run_id x ≡ x
      unchanged (word w) = refl
      unchanged (gap g) = refl
  rewrite_tokens-eq (t ∷ ts) content h =
      rewrite_tokens-eq ts (map (rewrite_token run_id t) content) (Fresh-tail t ts h)
      ∙ map-map-segments (rename_tokens ts run_id) (rewrite_token run_id t) content
      ∙ map-eq _ _ (rename_step t ts h) content

  canonical_tokens-Fresh : Fresh canonical_tokens
  unfolding Fresh
  canonical_tokens-Fresh t u k l = renamed-fresh run_id t u k l

  -- Renaming token after token is renaming every canonical token at once.
  pub rewrite_content-eq :
      (content : List Segment) → rewrite_content content run_id ≡ map (isolated run_id) content
  unfolding rewrite_content isolated
  rewrite_content-eq content = rewrite_tokens-eq canonical_tokens content canonical_tokens-Fresh

  not_bare :
      (t w : Word)
      → is_token canonical_tokens t ≡ true
      → is_token canonical_tokens w ≡ false
      → same_word w t ≡ false
  not_bare t w k n = elim (Bool-cases (same_word w t)) [
    | inl y ↦
        let e : w ≡ t = same_word-eq w t y in
        let same : is_token canonical_tokens w ≡ is_token canonical_tokens t =
          ap (λ v. is_token canonical_tokens v) e in
        cc
    | inr m ↦ m
  ]

  occurs-isolated :
      (t : Word) (content : List Segment)
      → is_token canonical_tokens t ≡ true
      → occurs t (map (isolated run_id) content) ≡ false
  unfolding isolated
  occurs-isolated t [] k = refl
  occurs-isolated t (gap g ∷ content) k = occurs-isolated t content k
  occurs-isolated t (word w ∷ content) k = elim (Bool-cases (is_token canonical_tokens w)) [
    | inl y ↦ rw (y, renamed-fresh run_id w t y k) (occurs-isolated t content k)
    | inr n ↦ rw (n, not_bare t w k n) (occurs-isolated t content k)
  ]

  first_bare-isolated :
      (ts : List Word) (content : List Segment)
      → ((t : Word) → is_token ts t ≡ true → is_token canonical_tokens t ≡ true)
      → first_bare ts (map (isolated run_id) content) ≡ none
  first_bare-isolated [] content h = refl
  first_bare-isolated (t ∷ ts) content h =
      rw (occurs-isolated t content (h t (rw (same_word_self t) refl)))
        (first_bare-isolated ts content (λ u k. h u (is_token_later t ts u k)))

  -- The validation finds no bare token in a rewritten text.
  pub validate_asl-rewrite_content :
      (content : List Segment) → validate_asl (rewrite_content content run_id) ≡ none
  unfolding validate_asl
  validate_asl-rewrite_content content =
      rw (rewrite_content-eq content) (first_bare-isolated canonical_tokens content (λ t k. k))

  unfoldable pub isolated_file : Word × List Segment → Word × List Segment
  isolated_file (name, content) = (name, map (isolated run_id) content)

  rewrite_files-eq :
      (files : List (Word × List Segment))
      → rewrite_files files run_id ≡ some (map isolated_file files)
  unfolding rewrite_files isolated_file
  rewrite_files-eq [] = refl
  rewrite_files-eq ((name, content) ∷ files) =
      rw (validate_asl-rewrite_content content, rewrite_files-eq files, rewrite_content-eq content)
        refl

-- The files of the runs from `i` on, each with every canonical token renamed for its run at once.
unfoldable pub isolated_runs :
    List (Word × List Segment) → ℕ → ℕ → List (ℕ × List (Word × List Segment))
unfolding isolated_file
isolated_runs files i zero = []
isolated_runs files i (suc n) = (i, map (isolated_file i) files) ∷ isolated_runs files (suc i) n

-- For any files, first run and count of runs, the check of the rewritten files for bare tokens never
-- exits, and each run gets every file with all canonical tokens, and no other word, renamed for that
-- run.
pub rewrite_runs-eq-isolated_runs :
    (files : List (Word × List Segment)) (run_start_id run_count : ℕ)
    → rewrite_runs files run_start_id run_count ≡ some (isolated_runs files run_start_id run_count)
unfolding rewrite_runs isolated_runs
rewrite_runs-eq-isolated_runs files i zero = refl
rewrite_runs-eq-isolated_runs files i (suc n) =
    rw (rewrite_files-eq i files, rewrite_runs-eq-isolated_runs files (suc i) n) refl
