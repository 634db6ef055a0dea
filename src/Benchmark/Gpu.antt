-- ===== src/Benchmark/Gpu.antt =====
-- `parse_json_output`, `gpu_snapshot` and `summarize_gpu_monitor` of scripts/benchmark.py. The
-- finished process, the parser of JSON and the times are arguments.
use tinyllama_inference_engi.Prelude.{
  Bool, ◌&&◌, ◌||◌, not, Option, none, some, List, [], ◌∷◌, map, ◌==◌, if◌then◌else◌, length, all,
  any, Text, codes, same,
}
use tinyllama_inference_engi.Prelude.Strings.{strip, splitlines, split}
use tinyllama_inference_engi.Prelude.Sort.{sort_texts}
use tinyllama_inference_engi.Prelude.Int.{pos, eqb_ℤ}
use tinyllama_inference_engi.Result.{
  Result, ok, err, value_error, runtime_error, key_error, ◌>>=◌, ◌>>◌, raise_if, or_raise,
}
use tinyllama_inference_engi.Json.Floats.{Floats}
use tinyllama_inference_engi.Json.{Value, Items, Fields, int, float, str, arr, nil, cons, fields}
use tinyllama_inference_engi.Snapshot.Document.{Completed}

-- `[line for line in text.splitlines() if line.strip()]`
unfoldable pub filled_lines : List Text → List Text
unfolding strip
filled_lines [] = []
filled_lines (line ∷ rest) =
    let more = filled_lines rest in if length (strip line) == 0 then more else line ∷ more

unfoldable pub last_line : List Text → Option Text
last_line [] = none
last_line (line ∷ []) = some line
last_line (line ∷ next ∷ rest) = last_line (next ∷ rest)

unfoldable pub parse_json_output :
    {F : Type 0} → (Text → Result (Value F)) → Completed → Result (Value F)
unfolding filled_lines last_line splitlines
parse_json_output loads completed = do
  raise_if (not (eqb_ℤ completed.returncode (pos 0))) (runtime_error "command failed")
  line ←
      or_raise (last_line (filled_lines (splitlines completed.stdout)))
        (runtime_error "command returned no JSON")
  loads line

-- `fields` of `gpu_snapshot`
abbrev pub queried : List Text
queried =
    codes "name"
    ∷ codes "memory.total"
    ∷ codes "memory.used"
    ∷ codes "driver_version"
    ∷ codes "pstate"
    ∷ codes "power.limit"
    ∷ codes "temperature.gpu"
    ∷ codes "clocks.sm"
    ∷ codes "clocks.mem"
    ∷ codes "clocks_event_reasons.sw_thermal_slowdown"
    ∷ codes "utilization.gpu"
    ∷ []

-- `dict(zip(keys, values))`: the keys are distinct.
unfoldable pub zip_dict : List Text → List Text → List (Text × Text)
zip_dict [] values = []
zip_dict (key ∷ keys) [] = []
zip_dict (key ∷ keys) (v ∷ values) = (key, v) ∷ zip_dict keys values

unfoldable pub only_row : List Text → Result Text
only_row [] = err (runtime_error "M2 requires exactly one GPU")
only_row (row ∷ []) = ok row
only_row (row ∷ next ∷ rest) = err (runtime_error "M2 requires exactly one GPU")

unfoldable pub gpu_snapshot : Completed → Result (List (Text × Text))
unfolding filled_lines splitlines split strip zip_dict only_row
gpu_snapshot completed = do
  raise_if (not (eqb_ℤ completed.returncode (pos 0)))
      (runtime_error "nvidia-smi metadata query failed")
  row ← only_row (filled_lines (splitlines completed.stdout))
  let values = map strip (split 44 row)
  raise_if (not (length values == length queried))
      (runtime_error "nvidia-smi returned an unexpected metadata shape")
  ok (zip_dict queried values)

-- What `capture_gpu_snapshot` returns
pub record Observation : Type 0 where
  pub phase : Text
  pub timestamp_utc : Text
  pub metrics : List (Text × Text)

unfoldable pub capture_gpu_snapshot : Text → Text → Completed → Result Observation
unfolding gpu_snapshot
capture_gpu_snapshot phase timestamp completed = do
  metrics ← gpu_snapshot completed
  ok (record { phase = phase; timestamp_utc = timestamp; metrics = metrics })

-- `metrics[key]`
unfoldable pub metric : Text → List (Text × Text) → Result Text
metric key [] = err (key_error "")
metric key ((k, v) ∷ rest) = let more = metric key rest in if same k key then ok v else more

-- The metric `key` of each observation
unfoldable pub metric_texts : Text → List Observation → Result (List Text)
unfolding metric
metric_texts key [] = ok []
metric_texts key (o ∷ rest) = do
  text ← metric key o.metrics
  more ← metric_texts key rest
  ok (text ∷ more)

-- `set(texts)`: the first of each
unfoldable pub distinct : List Text → List Text
distinct [] = []
distinct (t ∷ rest) = let more = distinct rest in if any (same t) rest then more else t ∷ more

abbrev pub text_items : {F : Type 0} → List Text → Items F
text_items [] = nil
text_items (t ∷ rest) = cons (str t) (text_items rest)

unfoldable pub first_time : List Observation → Text
first_time [] = []
first_time (o ∷ rest) = o.timestamp_utc

unfoldable pub last_time : List Observation → Text
last_time [] = []
last_time (o ∷ []) = o.timestamp_utc
last_time (o ∷ p ∷ rest) = last_time (p ∷ rest)

module _ (fl : Floats) where
  open fl use {F, is_finite, flt, fle, of_text, literal}

  -- `min(values)` and `max(values)` of a first value and the others
  unfoldable pub least : F → List F → F
  least a [] = a
  least a (b ∷ rest) = least (if flt b a then b else a) rest

  unfoldable pub greatest : F → List F → F
  greatest a [] = a
  greatest a (b ∷ rest) = greatest (if flt a b then b else a) rest

  -- `min(values)` and `max(values)`, which raise on nothing
  abbrev pub extremes : List F → Result (F × F)
  extremes [] = err (value_error "min() arg is an empty sequence")
  extremes (a ∷ rest) = ok (least a rest, greatest a rest)

  unfoldable pub floats_of : List Text → Result (List F)
  floats_of [] = ok []
  floats_of (t ∷ rest) = do v ← of_text t; more ← floats_of rest; ok (v ∷ more)

  -- `values(field)`
  unfoldable pub metric_values : List Observation → Text → Result (List F)
  unfolding metric_texts floats_of
  metric_values observations key = do
    texts ← metric_texts key observations
    result ← floats_of texts
    raise_if (not (all (λ v. is_finite v && fle (literal 0 1) v) result))
        (value_error "GPU monitor field is invalid")
    ok result

  abbrev pub is_slowdown : Text → Bool
  is_slowdown t = same t (codes "Active") || same t (codes "Not Active")

  unfoldable pub summarize_gpu_monitor : Text → List Observation → Result (Fields F)
  unfolding metric_values metric_texts least greatest distinct sort_texts first_time last_time
  summarize_gpu_monitor phase observations = do
    raise_if (length observations == 0) (value_error "GPU monitor captured 0 samples")
    temperatures ← metric_values observations (codes "temperature.gpu")
    sm_clocks ← metric_values observations (codes "clocks.sm")
    memory_clocks ← metric_values observations (codes "clocks.mem")
    memory_used ← metric_values observations (codes "memory.used")
    utilization ← metric_values observations (codes "utilization.gpu")
    pstate_texts ← metric_texts (codes "pstate") observations
    slowdown_texts ← metric_texts (codes "clocks_event_reasons.sw_thermal_slowdown") observations
    let pstates = sort_texts (distinct pstate_texts)
    let thermal_slowdown_states = sort_texts (distinct slowdown_texts)
    raise_if (not (all is_slowdown thermal_slowdown_states))
        (value_error "GPU thermal slowdown state is invalid")
    (coolest, hottest) ← extremes temperatures
    (slowest, fastest) ← extremes sm_clocks
    (memory_slowest, memory_fastest) ← extremes memory_clocks
    (least_used, most_used) ← extremes memory_used
    (least_busy, busiest) ← extremes utilization
    ok (
        fields (
          (codes "phase", str phase)
          ∷ (codes "poll_interval_seconds", float (literal 10 1))
          ∷ (codes "sample_count", int (pos (length observations)))
          ∷ (codes "first_timestamp_utc", str (first_time observations))
          ∷ (codes "last_timestamp_utc", str (last_time observations))
          ∷ (codes "temperature_gpu_c_min", float coolest)
          ∷ (codes "temperature_gpu_c_max", float hottest)
          ∷ (codes "clocks_sm_mhz_min", float slowest)
          ∷ (codes "clocks_sm_mhz_max", float fastest)
          ∷ (codes "clocks_memory_mhz_min", float memory_slowest)
          ∷ (codes "clocks_memory_mhz_max", float memory_fastest)
          ∷ (codes "memory_used_mib_max", float most_used)
          ∷ (codes "utilization_gpu_percent_max", float busiest)
          ∷ (codes "pstates", arr (text_items pstates))
          ∷ (codes "software_thermal_slowdown_states", arr (text_items thermal_slowdown_states))
          ∷ []))
