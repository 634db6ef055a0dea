-- ===== src/Engines/Rows.antt =====
-- `validate_rows` and `main` of scripts/compare_engines.py, from the reports to the document of the
-- comparison.
use tinyllama_inference_engi.Prelude.{
  Bool, true, false, ◌&&◌, ◌||◌, not, Option, List, [], ◌∷◌, ◌==◌, if◌then◌else◌, length, all, any,
  Text, codes, same,
}
use tinyllama_inference_engi.Prelude.Int.{pos}
use tinyllama_inference_engi.Prelude.Sort.{sort_texts}
use tinyllama_inference_engi.Result.{Result, ok, value_error, type_error, ◌>>=◌, ◌>>◌, raise_if}
use tinyllama_inference_engi.Json.Floats.{Floats}
use tinyllama_inference_engi.Json.{
  Value, Items, Fields, null, boolean, int, float, str, arr, obj, nil, cons, fields, get, get_or,
  is_list, items, hashable, is_text, index,
}
use tinyllama_inference_engi.Json.Equal.{eq_value, to_float}
use tinyllama_inference_engi.Benchmark.{is_sha256}
use tinyllama_inference_engi.Engines.{differs, prompt_seed, external_row}
use tinyllama_inference_engi.Engines.Tlie.{text_of, tlie_rows}

-- `REQUIRED_ENGINES`
abbrev pub required_engines : List Text
required_engines =
    codes "pytorch_fp16" ∷ codes "llama_cpp" ∷ codes "tlie_fp16" ∷ codes "tlie_int8" ∷ []

-- `sorted(a) == sorted(b)` of texts
abbrev pub same_texts : List Text → List Text → Bool
same_texts [] [] = true
same_texts [] (t ∷ ts) = false
same_texts (s ∷ ss) [] = false
same_texts (s ∷ ss) (t ∷ ts) = same s t && same_texts ss ts

abbrev pub positive_numbers : List Text
positive_numbers =
    codes "ttft_ms_median"
    ∷ codes "tpot_ms_median"
    ∷ codes "output_tokens_per_second_median"
    ∷ codes "peak_device_bytes"
    ∷ []

abbrev pub is_state : {F : Type 0} → Value F → Bool
is_state v = is_text (codes "Active") v || is_text (codes "Not Active") v

-- `isinstance(v, str) and re.fullmatch(r"[0-9a-f]{64}", v)`
abbrev pub is_sha : {F : Type 0} → Value F → Bool
is_sha (str t) = is_sha256 t
is_sha _ = false

abbrev pub row_items : {F : Type 0} → List (Fields F) → Items F
row_items [] = nil
row_items (row ∷ rest) = cons (obj row) (row_items rest)

module _ (fl : Floats) where
  open fl use {F, is_finite, fle, literal}

  -- The set of the digests has one item: the first one, if the others equal it.
  unfoldable pub only_source : List (Fields F) → Value F
  only_source [] = null
  only_source (row ∷ rest) =
      if all
        (λ r.
          eq_value fl (get (codes "source_tree_sha256") row) (get (codes "source_tree_sha256") r))
        rest
      then get (codes "source_tree_sha256") row
      else null

  -- The loop over the four numbers of a row
  unfoldable pub check_numbers : List Text → Fields F → Result (Unit {0})
  check_numbers [] row = ok tt
  check_numbers (key ∷ keys) row = do
    v ← to_float fl (get_or (float (literal 0 1)) key row)
    raise_if (not (is_finite v) || fle v (literal 0 1)) (value_error "engine has invalid number")
    check_numbers keys row

  unfoldable pub check_states : Value F → Result (Unit {0})
  check_states states = do
    raise_if (not (is_list states) || length (items states) == 0)
        (value_error "engine has invalid thermal metadata")
    raise_if (not (all hashable (items states))) (type_error "unhashable type")
    raise_if (not (all is_state (items states))) (value_error "engine has invalid thermal metadata")

  unfoldable pub validate_row : Fields F → Result (Unit {0})
  unfolding check_numbers check_states
  validate_row row = do
    raise_if (differs fl (codes "status") (str (codes "available")) row)
        (value_error "engine is not available")
    raise_if
        (differs fl (codes "context") (int (pos 128)) row
          || (differs fl (codes "output_tokens") (int (pos 32)) row
              || (differs fl (codes "warmup") (int (pos 3)) row
                  || differs fl (codes "samples") (int (pos 10)) row)))
        (value_error "engine used a non-comparable workload")
    raise_if
        (differs fl (codes "sampling") (str (codes "greedy")) row
          || differs fl (codes "seed") (int (pos 0)) row)
        (value_error "engine used non-comparable sampling")
    check_states (get (codes "software_thermal_slowdown_states") row)
    check_numbers positive_numbers row

  unfoldable pub validate_each : List (Fields F) → Result (Unit {0})
  unfolding validate_row
  validate_each [] = ok tt
  validate_each (row ∷ rest) = do validate_row row; validate_each rest

  -- `rows[0]` against `rows[1:]`
  unfoldable pub check_tokens : List (Fields F) → Result (Unit {0})
  check_tokens [] = ok tt
  check_tokens (row ∷ rest) = do
    let reference_tokens = get (codes "generated_tokens") row
    raise_if (not (is_list reference_tokens) || not (length (items reference_tokens) == 32))
        (value_error "PyTorch reference did not provide exactly 32 generated tokens")
    raise_if (any (λ r. not (eq_value fl (get (codes "generated_tokens") r) reference_tokens)) rest)
        (value_error "cross-engine greedy tokens differ for the fixed workload")

  module _ (show : Value F → Text) where
    abbrev pub engines_of : List (Fields F) → List Text
    engines_of [] = []
    engines_of (row ∷ rest) = text_of show (get (codes "engine") row) ∷ engines_of rest

    unfoldable pub validate_rows : List (Fields F) → Result (Unit {0})
    unfolding only_source validate_each check_tokens is_sha256 sort_texts
    validate_rows rows = do
      raise_if (not (same_texts (sort_texts (engines_of rows)) (sort_texts required_engines)))
          (value_error "comparison engines are incomplete")
      raise_if (not (all (λ r. hashable (get (codes "source_tree_sha256") r)) rows))
          (type_error "unhashable type")
      raise_if (not (is_sha (only_source rows)))
          (value_error "cross-engine report contains mixed source snapshots")
      validate_each rows
      check_tokens rows

    -- `rows[0]["source_tree_sha256"]`
    abbrev pub first_source : List (Fields F) → Result (Value F)
    first_source [] = ok null
    first_source (row ∷ rest) = index row (codes "source_tree_sha256")

    unfoldable pub compare_engines :
        Result (Value F)
        → Result (Value F)
        → Result (Value F)
        → Option (Value F)
        → Value F
        → Result (Fields F)
    unfolding external_row tlie_rows validate_rows
    compare_engines pytorch llama tlie int8 batch = do
      pytorch_row ← external_row fl pytorch (codes "pytorch_fp16")
      llama_row ← external_row fl llama (codes "llama_cpp")
      report ← tlie
      own_rows ← tlie_rows fl show report int8 batch
      let rows = pytorch_row ∷ llama_row ∷ own_rows
      validate_rows rows
      source ← first_source rows
      ok (
          fields (
            (codes "schema_version", int (pos 1))
            ∷ (
              codes "workload",
              obj (
                  fields (
                    (codes "prompt_seed", str prompt_seed)
                    ∷ (codes "context", int (pos 128))
                    ∷ (codes "output_tokens", int (pos 32))
                    ∷ (codes "sampling", str (codes "greedy"))
                    ∷ (codes "seed", int (pos 0))
                    ∷ [])),
            )
            ∷ (codes "engines", arr (row_items rows))
            ∷ (codes "source_tree_sha256", source)
            ∷ (codes "complete", boolean true)
            ∷ []))
