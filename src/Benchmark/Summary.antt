-- ===== src/Benchmark/Summary.antt =====
-- `percentile` and `summarize` of scripts/benchmark.py, and the rank of a percentile. `sorted` is
-- the stable sort by `<`; it is applied to finite values only.
use tinyllama_inference_engi.Prelude.{
  ℕ, ◌+◌, ◌≡◌, Bool, true, false, ◌&&◌, not, List, [], ◌∷◌, ◌++◌, ◌==◌, if◌then◌else◌, length,
  get_elem?, all, All, Text, codes,
}
use tinyllama_inference_engi.Prelude.Int.{pos, negsuc, ◌+ℤ◌, pos_part}
use tinyllama_inference_engi.Result.{
  Result, ok, value_error, index_error, ◌>>=◌, ◌>>◌, raise_if, or_raise,
}
use tinyllama_inference_engi.Json.Floats.{Floats}
use tinyllama_inference_engi.Json.{
  Value, Fields, int, float, fields, index, as_list, subscript, set_field,
}
use tinyllama_inference_engi.Json.Equal.{to_float}

-- `fields` of `summarize`
abbrev pub measured_fields : List Text
measured_fields =
    codes "prefill_compute_ms"
    ∷ codes "prefill_transfer_ms"
    ∷ codes "prefill_wall_ms"
    ∷ codes "first_sampling_ms"
    ∷ codes "ttft_ms"
    ∷ codes "decode_compute_ms"
    ∷ codes "decode_transfer_ms"
    ∷ codes "decode_wall_ms"
    ∷ codes "sampling_ms"
    ∷ codes "tpot_ms"
    ∷ codes "decode_compute_tokens_per_second"
    ∷ codes "decode_tokens_per_second"
    ∷ []

module _ (fl : Floats) where
  open fl use {F, is_finite, flt, fle, literal, mul, ceil, median}

  unfoldable pub insert_float : F → List F → List F
  insert_float a [] = a ∷ []
  insert_float a (b ∷ rest) =
      let later = insert_float a rest in if flt b a then b ∷ later else a ∷ b ∷ rest

  unfoldable pub sort_floats : List F → List F
  unfolding insert_float
  sort_floats [] = []
  sort_floats (a ∷ rest) = insert_float a (sort_floats rest)

  -- `max(0, math.ceil(fraction * n) - 1)`
  unfoldable pub rank : F → ℕ → Result ℕ
  rank fraction n = do up ← ceil (mul fraction (literal n 0)); ok (pos_part (up +ℤ negsuc 0))

  unfoldable pub percentile : List F → F → Result F
  unfolding sort_floats rank
  percentile values fraction = do
    let ordered = sort_floats values
    i ← rank fraction (length ordered)
    or_raise (get_elem? ordered i) (index_error "list index out of range")

  -- `[float(sample[field]) for sample in samples]`
  unfoldable pub measured : Text → List (Value F) → Result (List F)
  measured key [] = ok []
  measured key (sample ∷ rest) = do
    found ← subscript sample key
    v ← to_float fl found
    more ← measured key rest
    ok (v ∷ more)

  -- The loop over the fields
  unfoldable pub summarize_fields : List Text → List (Value F) → Fields F → Result (Fields F)
  unfolding measured percentile
  summarize_fields [] samples summary = ok summary
  summarize_fields (key ∷ keys) samples summary = do
    values ← measured key samples
    raise_if (not (all (λ v. is_finite v && fle (literal 0 1) v) values))
        (value_error "benchmark field contains NaN, Inf, or negative values")
    middle ← median values
    p95 ← percentile values (literal 95 2)
    summarize_fields keys samples (
        set_field (key ++ codes "_p95") (float p95)
          (set_field (key ++ codes "_median") (float middle) summary))

  unfoldable pub summarize : Fields F → Result (Fields F)
  unfolding summarize_fields
  summarize context_result = do
    samples ← index context_result (codes "samples") >>= as_list
    raise_if (length samples == 0) (value_error "benchmark returned 0 samples")
    context ← index context_result (codes "context")
    batch ← index context_result (codes "batch")
    model_device_bytes ← index context_result (codes "model_device_bytes")
    engine_peak_device_bytes ← index context_result (codes "engine_peak_device_bytes")
    extrapolated ← index context_result (codes "rope_extrapolated_beyond_trained_context")
    summarize_fields measured_fields samples (
        fields (
          (codes "context", context)
          ∷ (codes "batch", batch)
          ∷ (codes "sample_count", int (pos (length samples)))
          ∷ (codes "model_device_bytes", model_device_bytes)
          ∷ (codes "engine_peak_device_bytes", engine_peak_device_bytes)
          ∷ (codes "rope_extrapolated_beyond_trained_context", extrapolated)
          ∷ []))

  -- How many of the values pass a test
  abbrev pub count_if : (F → Bool) → List F → ℕ
  count_if p [] = 0
  count_if p (a ∷ rest) = (if p a then 1 else 0) + count_if p rest

  abbrev pub Finite : F → Type 0
  Finite a = is_finite a ≡ true

  -- `<` on the finite floats is a strict weak order, as IEEE 754 has it; nothing is said of NaN.
  pub record WeakOrder : Type 0 where
    pub irreflexive : (a : F) → Finite a → flt a a ≡ false
    pub not_below :
        (a b c : F)
        → Finite a
        → Finite b
        → Finite c
        → flt b a ≡ false
        → flt c b ≡ false
        → flt c a ≡ false
    pub asymmetric : (a b : F) → Finite a → Finite b → flt a b ≡ true → flt b a ≡ false

  abbrev IsSorted : List F → Type 0
  IsSorted [] = Unit {0}
  IsSorted (a ∷ rest) = All (λ b. flt b a ≡ false) rest × IsSorted rest
