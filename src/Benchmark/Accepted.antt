-- ===== src/Benchmark/Accepted.antt =====
-- What is true of a result that the validators of scripts/benchmark.py accept.
use tinyllama_inference_engi.Prelude.{
  ◌≡◌, refl, sym, inl, inr, true, ◌||◌, not, List, [], ◌∷◌, ltb, Bool-cases, length, all, All, Text,
  codes, or_false, &&_true,
}
use tinyllama_inference_engi.Prelude.Int.{ℤ, pos, ltb_ℤ, leb_ℤ, eqb_ℤ, eqb_ℤ_sound}
use tinyllama_inference_engi.Result.{
  Result, Error, ok, value_error, >>=-eq-ok, raise_if, raise_if-passed, raise_if-eq-ok, not-false,
  ok-injective,
}
use tinyllama_inference_engi.Json.{Value, Fields, int, str, get, has, index, is_list, get_or, items}
use tinyllama_inference_engi.Json.Floats.{Floats}
use tinyllama_inference_engi.Json.Equal.{eq_value, to_int}
use tinyllama_inference_engi.Benchmark.{
  identity_fields, is_token, expect_fields, expected_context, validate_context_result,
  same_identity, same_identities, validate_consistent_runtime,
}

pub index-get :
    {F : Type 0} (key : Text) (d : Fields F) (v : Value F) → index d key ≡ ok v → v ≡ get key d
index-get key d v h = elim (Bool-cases (has key d)) [
  | inl there ↦ sym (ok-injective (rw there at h))
  | inr gone ↦ cc (rw gone at h)
]

module _ (fl : Floats) where
  open fl use {F, is_finite, fle, flt, literal}

  -- Every key of the list has its value in the result.
  abbrev pub HasFields : List (Text × Value F) → Fields F → Type 0
  HasFields expected result = All (λ e. eq_value fl (get e.0 result) e.1 ≡ true) expected

  pub expect_fields-HasFields :
      (e : Error) (expected : List (Text × Value F)) (result : Fields F)
      → expect_fields fl e expected result ≡ ok tt
      → HasFields expected result
  unfolding expect_fields
  expect_fields-HasFields e [] result h = tt
  expect_fields-HasFields e ((key, v) ∷ rest) result h =
      let (same_value, more) = raise_if-passed _ e (expect_fields fl e rest result) h in
      (not-false _ same_value, expect_fields-HasFields e rest result more)

  -- The number of bytes that a result claims for `key`
  abbrev pub Claims : Fields F → Text → ℤ → Type 0
  Claims result key n = to_int fl (get_or (int (pos 0)) key result) ≡ ok n

  -- A result whose memory accounting is consistent
  pub record Accounted (result : Fields F) : Type 0 where
    pub model : ℤ
    pub peak : ℤ
    pub vram : ℤ
    pub model_claimed : Claims result (codes "model_device_bytes") model
    pub peak_claimed : Claims result (codes "engine_peak_device_bytes") peak
    pub vram_claimed : Claims result (codes "vram_bytes") vram
    pub model_positive : ltb_ℤ (pos 0) model ≡ true
    pub model_in_peak : leb_ℤ model peak ≡ true
    pub peak_in_vram : leb_ℤ peak vram ≡ true

  -- The two results agree on every field of the identity of the runtime.
  abbrev pub SameIdentity : Fields F → Fields F → Type 0
  SameIdentity baseline result =
      All (λ key. eq_value fl (get key result) (get key baseline) ≡ true) identity_fields

  same_identity_lem :
      (keys : List Text) (baseline result : Fields F)
      → same_identity fl keys baseline result ≡ ok tt
      → All (λ key. eq_value fl (get key result) (get key baseline) ≡ true) keys
  unfolding same_identity
  same_identity_lem [] baseline result h = tt
  same_identity_lem (key ∷ rest) baseline result h =
      let (same_value, more) = raise_if-passed _ _ (same_identity fl rest baseline result) h in
      (not-false _ same_value, same_identity_lem rest baseline result more)

  same_identities-SameIdentity :
      (baseline : Fields F) (rest : List (Fields F))
      → same_identities fl baseline rest ≡ ok tt
      → All (SameIdentity baseline) rest
  unfolding same_identities
  same_identities-SameIdentity baseline [] h = tt
  same_identities-SameIdentity baseline (result ∷ rest) h =
      let (u, h1, h2) = >>=-eq-ok (same_identity fl identity_fields baseline result) _ h in
      (
        same_identity_lem identity_fields baseline result h1,
        same_identities-SameIdentity baseline rest h2,
      )

  pub validate_consistent_runtime-SameIdentity :
      (results : List (Fields F))
      → validate_consistent_runtime fl results ≡ ok tt
      → (baseline : Fields F) × (rest : List (Fields F)) × (results ≡ baseline ∷ rest)
        × All (SameIdentity baseline) rest
  unfolding validate_consistent_runtime
  validate_consistent_runtime-SameIdentity [] h = cc
  validate_consistent_runtime-SameIdentity (baseline ∷ rest) h =
      (baseline, rest, refl, same_identities-SameIdentity baseline rest h)

  pub validate_context_result-Accounted :
      (result : Fields F) (context output_tokens warmup samples : ℤ) (gpu source fp16 : Text)
      → validate_context_result fl result context output_tokens warmup samples gpu source fp16
        ≡ ok tt
      → HasFields (expected_context fl context output_tokens warmup samples gpu) result
        × HasFields
            ((codes "model_source_sha256", str source) ∷ (codes "model_fp16_sha256", str fp16) ∷ [])
            result
        × (pos (length (items (get (codes "samples") result))) ≡ samples)
        × Accounted result
  unfolding validate_context_result
  validate_context_result-Accounted result context output_tokens warmup samples gpu source fp16 h =
      let observations : Value F = get (codes "samples") result in
      let seeds : Value F = get (codes "prompt_seed_token_ids") result in
      let claim : Text → Result ℤ = λ key. to_int fl (get_or (int (pos 0)) key result) in
      let (u, fields, h1) =
        >>=-eq-ok
          (expect_fields fl (value_error "context field mismatch")
            (expected_context fl context output_tokens warmup samples gpu) result)
          _ h in
      let (u1, counted, h2) =
        >>=-eq-ok
          (raise_if
            (not (is_list observations) || not (eqb_ℤ (pos (length (items observations))) samples))
            (value_error "context returned an unexpected number of samples"))
          _ h1 in
      let (u2, tokens, h3) =
        >>=-eq-ok
          (raise_if
            (not (is_list seeds)
              || (ltb (length (items seeds)) 2 || not (all is_token (items seeds))))
            (value_error "context has invalid prompt seed token IDs"))
          _ h2 in
      let (u3, checksums, h4) =
        >>=-eq-ok
          (expect_fields fl (value_error "context checksum mismatch")
            ((codes "model_source_sha256", str source) ∷ (codes "model_fp16_sha256", str fp16) ∷ [])
            result)
          _ h3 in
      let (u4, capability, h5) =
        >>=-eq-ok
          (raise_if
            (not (eq_value fl (get (codes "compute_capability") result) (str (codes "8.6"))))
            (value_error "context did not run on the required SM 86 GPU"))
          _ h4 in
      let (runtime, hr, h6) = >>=-eq-ok (claim (codes "cuda_runtime_version")) _ h5 in
      let (u5, recorded, h7) =
        >>=-eq-ok
          (raise_if (leb_ℤ runtime (pos 0)) (value_error "context has no CUDA runtime version")) _
          h6 in
      let (vram, hv, h8) = >>=-eq-ok (claim (codes "vram_bytes")) _ h7 in
      let (model, hm, h9) = >>=-eq-ok (claim (codes "model_device_bytes")) _ h8 in
      let (peak, hp, h10) = >>=-eq-ok (claim (codes "engine_peak_device_bytes")) _ h9 in
      let (listed, count) = or_false _ _ (raise_if-eq-ok _ _ counted) in
      let (sized, ordered) = &&_true _ _ (not-false _ (raise_if-eq-ok _ _ h10)) in
      let (inside, below) = &&_true _ _ ordered in
      (
        expect_fields-HasFields (value_error "context field mismatch")
            (expected_context fl context output_tokens warmup samples gpu) result fields,
        expect_fields-HasFields (value_error "context checksum mismatch")
            ((codes "model_source_sha256", str source) ∷ (codes "model_fp16_sha256", str fp16) ∷ [])
            result checksums,
        eqb_ℤ_sound _ _ (not-false _ count),
        record {
          model = model;
          peak = peak;
          vram = vram;
          model_claimed = hm;
          peak_claimed = hp;
          vram_claimed = hv;
          model_positive = sized;
          model_in_peak = inside;
          peak_in_vram = below;
        },
      )
