-- ===== src/Jcm.antt =====
-- scripts/generate_factory_jcm.py: the isolation of the runs by renaming. A text is a list of words,
-- the longest stretches of word characters, and of the gaps between them, so that `\btoken\b` matches
-- the words that are the token. Characters are code points. The validation of the send targets in the
-- generated files, validate_structural, at which main may exit later, is not modelled.
pub mod Names
pub mod Rewrite
use Prim.Native.Char.{code}
use Prim.Native.String.{String}
use matrix_factory.Grid.{◌>>=◌}
use matrix_factory.Prelude.{
  ℕ, zero, suc, ◌+◌, ◌/◌, ◌%◌, Bool, true, false, ◌&&◌, ◌||◌, List, [], ◌∷◌, ◌++◌, map, Option,
  none, some, ltb, ◌==◌, if◌then◌else◌,
}

abbrev pub Word : Type 0
Word = List ℕ

pub data Segment : Type 0 where
  word : Word → Segment
  gap : List ℕ → Segment

abbrev pub codes : String → Word
codes String.[] = []
codes (String.◌∷◌ c s) = code c ∷ codes s

abbrev pub same_word : Word → Word → Bool
same_word [] [] = true
same_word [] (b ∷ bs) = false
same_word (a ∷ as') [] = false
same_word (a ∷ as') (b ∷ bs) = a == b && same_word as' bs

unfoldable pub canonical_tokens : List Word
canonical_tokens =
    codes "supervisor"
    ∷ codes "order_1"
    ∷ codes "order_2"
    ∷ codes "order_3"
    ∷ codes "order_4"
    ∷ codes "order_5"
    ∷ codes "station_1"
    ∷ codes "station_2"
    ∷ codes "station_3"
    ∷ codes "station_4"
    ∷ codes "station_5"
    ∷ codes "amr_1"
    ∷ codes "amr_2"
    ∷ codes "factory_ws"
    ∷ codes "factory_prosa_org"
    ∷ codes "factory_adacor_org"
    ∷ codes "adaptive_factory"
    ∷ []

-- `str(n)`; the first argument bounds the count of digits.
unfoldable pub digits : ℕ → ℕ → Word
digits zero n = []
digits (suc f) n =
    let rest = digits f (n / 10) ++ ((48 + n % 10) ∷ []) in if ltb n 10 then (48 + n) ∷ [] else rest

unfoldable pub decimal : ℕ → Word
unfolding digits
decimal n = digits (n + 1) n

-- `f"{token}_{run_id}"`
unfoldable pub renamed : Word → ℕ → Word
unfolding decimal
renamed token run_id = token ++ (b'_' ∷ decimal run_id)

-- `re.sub(rf'\b{token}\b', f"{token}_{run_id}", content)`
abbrev pub rewrite_token : ℕ → Word → Segment → Segment
rewrite_token run_id token (word w) =
    if same_word w token then word (renamed token run_id) else word w
rewrite_token run_id token (gap g) = gap g

unfoldable pub rewrite_tokens : List Word → List Segment → ℕ → List Segment
rewrite_tokens [] content run_id = content
rewrite_tokens (token ∷ tokens) content run_id =
    rewrite_tokens tokens (map (rewrite_token run_id token) content) run_id

unfoldable pub rewrite_content : List Segment → ℕ → List Segment
unfolding rewrite_tokens canonical_tokens
rewrite_content content run_id = rewrite_tokens canonical_tokens content run_id

-- `re.search(rf'\b{token}\b', content)`
abbrev pub occurs : Word → List Segment → Bool
occurs token [] = false
occurs token (word w ∷ rest) = same_word w token || occurs token rest
occurs token (gap g ∷ rest) = occurs token rest

abbrev pub first_bare : List Word → List Segment → Option Word
first_bare [] content = none
first_bare (token ∷ tokens) content =
    if occurs token content then some token else first_bare tokens content

-- The bare token with which the script exits, if there is one.
unfoldable pub validate_asl : List Segment → Option Word
unfolding canonical_tokens
validate_asl content = first_bare canonical_tokens content

-- `sys.exit` at a bare token.
abbrev pub unless_bare {ℓ} : {A : Type ℓ} → Option Word → A → Option A
unless_bare none a = some a
unless_bare (some token) a = none

-- The files of one run, by name; `none` if the script exits.
unfoldable pub rewrite_files : List (Word × List Segment) → ℕ → Option (List (Word × List Segment))
unfolding rewrite_content validate_asl
rewrite_files [] run_id = some []
rewrite_files ((name, content) ∷ files) run_id = do
  let rewritten = rewrite_content content run_id
  accepted ← unless_bare (validate_asl rewritten) rewritten
  rest ← rewrite_files files run_id
  some ((name, accepted) ∷ rest)

-- The runs from `run_start_id` on. Run ids are not negative.
unfoldable pub rewrite_runs :
    List (Word × List Segment) → ℕ → ℕ → Option (List (ℕ × List (Word × List Segment)))
unfolding rewrite_files
rewrite_runs files run_start_id zero = some []
rewrite_runs files run_start_id (suc run_count) = do
  run ← rewrite_files files run_start_id
  runs ← rewrite_runs files (suc run_start_id) run_count
  some ((run_start_id, run) ∷ runs)
