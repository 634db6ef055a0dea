-- ===== src/Tools/Profile.antt =====
-- scripts/profile_cuda.py: the checks of the tables that the profilers export. `csv.reader` is a
-- parameter: the rows are given.
use tinyllama_inference_engi.Prelude.{
  ℕ, suc, ◌≤◌, ◌≡◌, refl, inl, inr, Bool, true, false, ◌||◌, not, Option, none, some, List, [], ◌∷◌,
  map, arith, ltb, ◌==◌, if◌then◌else◌, Bool-cases, ltb→lt, length, get_elem?, any, All, Text,
  codes, same,
}
use tinyllama_inference_engi.Prelude.Strings.{strip, ends_with}
use tinyllama_inference_engi.Result.{
  Result, ok, err, runtime_error, ◌>>=◌, ◌>>◌, raise_if, >>=-eq-ok, raise_if-eq-ok, not-false,
}

-- A file: its size, if it is one
unfoldable pub require_nonempty_artifact : Option ℕ → Result (Unit {0})
require_nonempty_artifact none = err (runtime_error "tool did not produce a non-empty report")
require_nonempty_artifact (some size) =
    raise_if (not (ltb 0 size)) (runtime_error "tool did not produce a non-empty report")

abbrev pub accepted_name_columns : List Text
accepted_name_columns = codes "Kernel Name" ∷ codes "Name" ∷ codes "Range" ∷ []

-- `matching_indices[0]`, counted from `i`
unfoldable pub name_column : ℕ → List Text → Option ℕ
name_column i [] = none
name_column i (cell ∷ rest) =
    let more = name_column (suc i) rest in
    if any (same cell) accepted_name_columns then some i else more

-- The name in a row of data, if it has one
unfoldable pub name_in : Option ℕ → List Text → Option Text
name_in none row = none
name_in (some i) row = elim (get_elem? row i) [
  | none ↦ none
  | some cell ↦ if length cell == 0 then none else some cell
]

abbrev pub keep_name : Option Text → List Text → List Text
keep_name none names = names
keep_name (some name) names = name ∷ names

abbrev pub after_header : Option ℕ → List Text → List Text → List Text
after_header none here header = here
after_header (some i) here header = header

-- The loop over the rows, with `name_index`
unfoldable pub collect_names : Option ℕ → List (List Text) → List Text
unfolding name_column name_in strip
collect_names name_index [] = []
collect_names name_index (row ∷ rest) =
    let stripped = map strip row in
    let column = name_column 0 stripped in
    let headed = collect_names column rest in
    let data_row = keep_name (name_in name_index stripped) (collect_names name_index rest) in
    after_header column data_row headed

unfoldable pub parse_named_csv_rows : (Text → List (List Text)) → Text → List Text
unfolding collect_names
parse_named_csv_rows reader content = collect_names none (reader content)

-- `name == required or name.endswith(f":{required}")`
unfoldable pub names_range : Text → Text → Bool
unfolding ends_with
names_range required name = same name required || ends_with (58 ∷ required) name

unfoldable pub missing_ranges : List Text → List Text → List Text
unfolding names_range
missing_ranges [] names = []
missing_ranges (required ∷ rest) names =
    let more = missing_ranges rest names in
    if any (names_range required) names then more else required ∷ more

unfoldable pub require_profile_rows :
    (Text → List (List Text)) → Option ℕ → Result Text → List Text → Result (Unit {0})
unfolding require_nonempty_artifact parse_named_csv_rows missing_ranges
require_profile_rows reader size reading required_names = do
  require_nonempty_artifact size
  content ← reading
  let names = parse_named_csv_rows reader content
  raise_if (length names == 0) (runtime_error "tool reported 0 data rows")
  raise_if (not (length (missing_ranges required_names names) == 0))
      (runtime_error "tool is missing required ranges")

missing_ranges-none :
    (required names : List Text)
    → (length (missing_ranges required names) == 0) ≡ true
    → All (λ r. any (names_range r) names ≡ true) required
unfolding missing_ranges
missing_ranges-none [] names h = tt
missing_ranges-none (r ∷ rest) names h = elim (Bool-cases (any (names_range r) names)) [
  | inl e ↦ (e, missing_ranges-none rest names (rw e at h))
  | inr e ↦ absurd (cc (bad (rw e at h)))
]
  where
    bad : (suc (length (missing_ranges rest names)) == 0) ≡ true → false ≡ true
    bad h = ground arith

nonempty : (o : Option ℕ) → require_nonempty_artifact o ≡ ok tt → (n : ℕ) × (o ≡ some n) × (1 ≤ n)
unfolding require_nonempty_artifact
nonempty none h = cc
nonempty (some n) h = (n, refl, omega (arith, ltb→lt 0 n (not-false _ (raise_if-eq-ok _ _ h))))

some_name : (names : List Text) → (length names == 0) ≡ false → 1 ≤ length names
some_name names h = ground arith

-- A profile table that is accepted is a file that is not empty, names at least one row, and names
-- every required range.
pub require_profile_rows_lem :
    (reader : Text → List (List Text)) (size : Option ℕ) (reading : Result Text)
    (required : List Text)
    → require_profile_rows reader size reading required ≡ ok tt
    → (n : ℕ) × (size ≡ some n)
      × (1 ≤ n)
      × (content : Text) × (reading ≡ ok content)
      × (1 ≤ length (parse_named_csv_rows reader content))
      × All (λ r. any (names_range r) (parse_named_csv_rows reader content) ≡ true) required
unfolding require_profile_rows
require_profile_rows_lem reader size reading required h =
    let (u, filled, h1) = >>=-eq-ok (require_nonempty_artifact size) _ h in
    let (content, read, h2) = >>=-eq-ok reading _ h1 in
    let names : List Text = parse_named_csv_rows reader content in
    let (u1, named, h3) =
      >>=-eq-ok (raise_if (length names == 0) (runtime_error "tool reported 0 data rows")) _ h2 in
    let (n, e, positive) = nonempty size filled in
    (
      n,
      e,
      positive,
      content,
      read,
      some_name names (raise_if-eq-ok _ _ named),
      missing_ranges-none required names (not-false _ (raise_if-eq-ok _ _ h3)),
    )
