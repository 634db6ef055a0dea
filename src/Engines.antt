-- ===== src/Engines.antt =====
-- `external_row` of scripts/compare_engines.py: the row of an engine other than this one, from its
-- report.
pub mod Tlie
pub mod Rows
pub mod Comparable
use tinyllama_inference_engi.Prelude.{
  Bool, ◌&&◌, ◌||◌, not, List, [], ◌∷◌, if◌then◌else◌, Text, codes, same,
}
use tinyllama_inference_engi.Prelude.Int.{ℤ, pos}
use tinyllama_inference_engi.Result.{Result, Error, ok, err, value_error, ◌>>=◌, ◌>>◌, raise_if}
use tinyllama_inference_engi.Json.Floats.{Floats}
use tinyllama_inference_engi.Json.{
  Value, Fields, null, boolean, str, obj, end, field, get, is_dict, is_true, as_dict, as_str,
  set_field, mentions,
}
use tinyllama_inference_engi.Json.Equal.{eq_value, fields_of}
use tinyllama_inference_engi.Benchmark.{is_digest}

abbrev pub prompt_seed : Text
prompt_seed = codes "The capital of France is"

abbrev pub llama_cpp_commit : Text
llama_cpp_commit = codes "571d0d540df04f25298d0e159e520d9fc62ed121"

abbrev pub source_model_sha256 : Text
source_model_sha256 = codes "6e6001da2106d4757498752a021df6c2bdc332c650aae4bae6b0c004dcf14933"

-- `FIELDS`
abbrev pub row_fields : List Text
row_fields =
    codes "engine"
    ∷ codes "source_tree_sha256"
    ∷ codes "status"
    ∷ codes "dtype"
    ∷ codes "context"
    ∷ codes "output_tokens"
    ∷ codes "warmup"
    ∷ codes "samples"
    ∷ codes "sampling"
    ∷ codes "seed"
    ∷ codes "ttft_ms_median"
    ∷ codes "tpot_ms_median"
    ∷ codes "output_tokens_per_second_median"
    ∷ codes "peak_device_bytes"
    ∷ codes "batch_4_total_tokens_per_second"
    ∷ codes "generated_tokens"
    ∷ codes "software_thermal_slowdown_states"
    ∷ codes "thermal_clean"
    ∷ codes "note"
    ∷ []

module _ {F : Type 0} where
  -- `{field: document.get(field) for field in FIELDS}`
  unfoldable pub row_of : List Text → Fields F → Fields F
  row_of [] document = end
  row_of (key ∷ keys) document = field key (get key document) (row_of keys document)

  -- `source.get(key) if isinstance(source, dict) else {}`
  abbrev pub side : Text → Value F → Value F
  side key (obj source) = get key source
  side key _ = obj end

module _ (fl : Floats) where
  open fl use {F}

  -- `document.get(key) != value`
  abbrev pub differs : Text → Value F → Fields F → Bool
  differs key v document = not (eq_value fl (get key document) v)

  -- The digest of the tree of a report whose source did not change
  unfoldable pub verified_tree : Fields F → Result Text
  verified_tree document = do
    let source = get (codes "source") document
    let before = side (codes "before") source
    let after = side (codes "after") source
    b ← as_dict before
    let tree_sha256 = get (codes "tree_sha256") b
    raise_if (not (eq_value fl before after) || not (is_digest tree_sha256))
        (value_error "report has no unchanged verified source snapshot")
    as_str tree_sha256

  -- The conditions on the report of llama.cpp
  unfoldable pub check_llama : Fields F → Result (Unit {0})
  check_llama document = do
    raise_if (not (is_true (get (codes "tokens_match_reference") document)))
        (value_error "llama.cpp report did not match the PyTorch token reference")
    raise_if (differs (codes "llama_cpp_commit") (str llama_cpp_commit) document)
        (value_error "llama.cpp report used an unpinned source commit")
    raise_if (not (is_digest (get (codes "model_gguf_sha256") document)))
        (value_error "llama.cpp report has no pinned GGUF checksum")

  unfoldable pub external_row : Result (Value F) → Text → Result (Fields F)
  unfolding verified_tree check_llama row_of fields_of
  external_row reading engine = do
    loaded ← reading
    document ← as_dict loaded
    raise_if
        (differs (codes "engine") (str engine) document
          || differs (codes "status") (str (codes "available")) document)
        (value_error "report is missing a successful real-engine result")
    tree_sha256 ← verified_tree document
    raise_if (differs (codes "prompt_seed") (str prompt_seed) document)
        (value_error "report used a non-comparable prompt seed")
    raise_if (differs (codes "model_source_sha256") (str source_model_sha256) document)
        (value_error "report used an unpinned source model")
    let monitor = get (codes "gpu_monitor") document
    raise_if (not (is_dict monitor)) (value_error "report has no in-workload GPU monitor")
    let states = get (codes "software_thermal_slowdown_states") (fields_of monitor)
    raise_if
        (same engine (codes "pytorch_fp16")
          && not (is_true (get (codes "tokens_deterministic") document)))
        (value_error "PyTorch report did not prove deterministic tokens")
    if same engine (codes "llama_cpp") then check_llama document else ok tt
    active ← mentions (codes "Active") states
    ok (
        set_field (codes "thermal_clean") (boolean (not active)) (
          set_field (codes "software_thermal_slowdown_states") states (
            set_field (codes "source_tree_sha256") (str tree_sha256) (row_of row_fields document))))
