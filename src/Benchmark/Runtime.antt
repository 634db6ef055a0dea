-- ===== src/Benchmark/Runtime.antt =====
-- Exactly which results `validate_consistent_runtime` of scripts/benchmark.py accepts, with every
-- field written out.
use tinyllama_inference_engi.Prelude.{
  ◌≡◌, refl, ap, ◌∙◌, ◌↔◌, true, List, [], ◌∷◌, All, Text, codes,
}
use tinyllama_inference_engi.Result.{ok}
use tinyllama_inference_engi.Json.{Fields, get}
use tinyllama_inference_engi.Json.Floats.{Floats}
use tinyllama_inference_engi.Json.Equal.{eq_value}
use tinyllama_inference_engi.Benchmark.{
  identity_fields, same_identity, same_identities, validate_consistent_runtime,
}
use tinyllama_inference_engi.Benchmark.Accepted.{
  SameIdentity, validate_consistent_runtime-SameIdentity,
}

module _ (fl : Floats) where
  open fl use {F}

  -- The thirteen fields in which the results of one runtime agree
  abbrev pub runtime_fields : List Text
  runtime_fields =
      codes "gpu"
      ∷ codes "dtype"
      ∷ codes "sampling"
      ∷ codes "batch"
      ∷ codes "vram_bytes"
      ∷ codes "compute_capability"
      ∷ codes "driver_version"
      ∷ codes "cuda_runtime_version"
      ∷ codes "model_source_sha256"
      ∷ codes "model_fp16_sha256"
      ∷ codes "prompt_seed_text"
      ∷ codes "prompt_seed_token_ids"
      ∷ codes "context_construction"
      ∷ []

  abbrev pub SameRuntime : Fields F → Fields F → Type 0
  SameRuntime baseline result =
      All (λ key. eq_value fl (get key result) (get key baseline) ≡ true) runtime_fields

  -- The two lists name the same fields.
  SameIdentity-SameRuntime :
      (baseline result : Fields F) → SameIdentity fl baseline result → SameRuntime baseline result
  SameIdentity-SameRuntime baseline result
        (
          gpu,
          (
            vram,
            (
              sm,
              (
                driver,
                (
                  cuda,
                  (source, (fp16, (dtype, (seed, (tokens, (built, (sampling, (batch, u)))))))),
                ),
              ),
            ),
          ),
        ) =
      (
        gpu,
        (
          dtype,
          (
            sampling,
            (
              batch,
              (vram, (sm, (driver, (cuda, (source, (fp16, (seed, (tokens, (built, tt))))))))),
            ),
          ),
        ),
      )

  SameRuntime-SameIdentity :
      (baseline result : Fields F) → SameRuntime baseline result → SameIdentity fl baseline result
  SameRuntime-SameIdentity baseline result
        (
          gpu,
          (
            dtype,
            (
              sampling,
              (
                batch,
                (vram, (sm, (driver, (cuda, (source, (fp16, (seed, (tokens, (built, u))))))))),
              ),
            ),
          ),
        ) =
      (
        gpu,
        (
          vram,
          (
            sm,
            (
              driver,
              (cuda, (source, (fp16, (dtype, (seed, (tokens, (built, (sampling, (batch, tt))))))))),
            ),
          ),
        ),
      )

  All-map :
      (P Q : Fields F → Type 0) (l : List (Fields F))
      → ((r : Fields F) → P r → Q r)
      → All P l
      → All Q l
  All-map P Q [] f h = tt
  All-map P Q (r ∷ rest) f h = (f r h.0, All-map P Q rest f h.1)

  same_identity_complete :
      (keys : List Text) (baseline result : Fields F)
      → All (λ key. eq_value fl (get key result) (get key baseline) ≡ true) keys
      → same_identity fl keys baseline result ≡ ok tt
  unfolding same_identity
  same_identity_complete [] baseline result h = refl
  same_identity_complete (key ∷ rest) baseline result h =
      rw h.0 (same_identity_complete rest baseline result h.1)

  same_identities_complete :
      (baseline : Fields F) (rest : List (Fields F))
      → All (SameIdentity fl baseline) rest
      → same_identities fl baseline rest ≡ ok tt
  unfolding same_identities
  same_identities_complete baseline [] h = refl
  same_identities_complete baseline (result ∷ rest) h =
      rw (same_identity_complete identity_fields baseline result h.0)
        (same_identities_complete baseline rest h.1)

  -- There is a first result, and every later one is from its runtime.
  pub record OneRuntime (results : List (Fields F)) : Type 0 where
    pub baseline : Fields F
    pub rest : List (Fields F)
    pub parts : results ≡ baseline ∷ rest
    pub same_runtime : All (SameRuntime baseline) rest

  OneRuntime-accepted :
      (results : List (Fields F))
      → OneRuntime results
      → validate_consistent_runtime fl results ≡ ok tt
  unfolding validate_consistent_runtime
  OneRuntime-accepted results o =
      ap (validate_consistent_runtime fl) (OneRuntime.parts o)
      ∙ same_identities_complete (OneRuntime.baseline o) (OneRuntime.rest o) (
          All-map (SameRuntime (OneRuntime.baseline o)) (SameIdentity fl (OneRuntime.baseline o))
            (OneRuntime.rest o) (SameRuntime-SameIdentity (OneRuntime.baseline o))
            (OneRuntime.same_runtime o))

  -- The runtimes are found consistent exactly if there is a first result and every later one has its
  -- values in the thirteen fields of a runtime.
  pub validate_consistent_runtime-↔-OneRuntime :
      (results : List (Fields F))
      → (validate_consistent_runtime fl results ≡ ok tt) ↔ OneRuntime results
  validate_consistent_runtime-↔-OneRuntime results = (
    λ h.
        let (baseline, rest, parts, agree) =
          validate_consistent_runtime-SameIdentity fl results h in
        record {
          baseline = baseline;
          rest = rest;
          parts = parts;
          same_runtime =
              All-map (SameIdentity fl baseline) (SameRuntime baseline) rest
                (SameIdentity-SameRuntime baseline) agree;
        },
    OneRuntime-accepted results,
  )
