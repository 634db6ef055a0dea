-- ===== src/Convert/Int8.antt =====
-- `quantized_tensors` and `main` of scripts/convert_model_int8.py. The arithmetic of
-- `quantize_per_output_channel` is numpy's and a parameter; its guard is here.
use tinyllama_inference_engi.Prelude.{
  ℕ, ◌+◌, Bool, ◌&&◌, ◌||◌, not, Option, none, some, List, [], ◌∷◌, ◌++◌, ◌==◌, if◌then◌else◌,
  length, any, Bytes, Text, codes, same,
}
use tinyllama_inference_engi.Result.{Result, ok, err, value_error}
use tinyllama_inference_engi.Exec.{Exec, pure, raise, lift, gets, modify, raise_when, ◌>>=◌, ◌>>◌}
use tinyllama_inference_engi.Files.{Files, put, unlink}
use tinyllama_inference_engi.Format.Numpy.{Numpy, Hash, float16}
use tinyllama_inference_engi.Format.Writer.{Tensors, done, yields, raises, write_mixed_tensor_file}
use tinyllama_inference_engi.Assets.Digest.{sha256_file}
use tinyllama_inference_engi.Assets.Verify.{FileRecord, verify_file}
use tinyllama_inference_engi.Convert.{
  Torch, expected_count, sidecar_path, open_sorted, check_pinned, file_size,
}

-- FP16_MATRIX_TENSORS
abbrev pub fp16_matrix_tensors : List Text
fp16_matrix_tensors = codes "model.embed_tokens.weight" ∷ codes "lm_head.weight" ∷ []

pub record Int8Sidecar : Type 0 where
  pub source_model_sha256 : Text
  pub file_sha256 : Text
  pub file_size : ℕ
  pub model_tensor_count : ℕ
  pub record_count : ℕ
  pub quantized_tensor_count : ℕ

module _ (np : Numpy) where
  open np use {Array, shape, asarray, ascontiguous}

  -- The quantized matrix and the scales of its rows: numpy's arithmetic.
  module _ (channels : Array → Array × Array) where
    unfoldable pub quantize_per_output_channel : Array → Result (Array × Array)
    quantize_per_output_channel values =
        if not (length (shape values) == 2) || any (λ d. d == 0) (shape values)
        then err (value_error "INT8 weight-only quantization requires a non-empty rank-2 tensor")
        else ok (channels values)

    -- `tensor.ndim == 2 and name not in FP16_MATRIX_TENSORS`
    unfoldable pub is_quantized : Text × Array → Bool
    is_quantized (name, tensor) =
        length (shape tensor) == 2 && not (any (same name) fp16_matrix_tensors)

    -- What the generator yields for one tensor, before what follows.
    unfoldable pub yield_pair : Text → Result (Array × Array) → Tensors Array → Tensors Array
    yield_pair name (err e) rest = raises e
    yield_pair name (ok (quantized, scales)) rest =
        yields name quantized (yields (name ++ codes ".scale") scales rest)

    unfoldable pub quantized_tensors : (Array → Array) → List (Text × Array) → Tensors Array
    unfolding quantize_per_output_channel is_quantized yield_pair
    quantized_tensors to_float [] = done
    quantized_tensors to_float ((name, source) ∷ more) =
        let tensor = to_float source in
        let rest = quantized_tensors to_float more in
        if is_quantized (name, tensor)
        then yield_pair name (quantize_per_output_channel tensor) rest
        else if length (shape tensor) == 1 || length (shape tensor) == 2
        then yields name (asarray float16 tensor) rest
        else raises (value_error "unsupported TinyLlama tensor rank")

    -- `sum(source.get_tensor(name).ndim == 2 and name not in FP16_MATRIX_TENSORS for name in names)`
    unfoldable pub rank_two_count : List (Text × Array) → ℕ
    unfolding is_quantized
    rank_two_count [] = 0
    rank_two_count (t ∷ rest) = (if is_quantized t then 1 else 0) + rank_two_count rest

    module _ (hash : Hash) (torch : Torch np) (dump : Int8Sidecar → Bytes) where
      -- The record of the manifest may be missing.
      unfoldable pub check_manifest :
          Text → Bool → Option FileRecord → Text → ℕ → Exec Files (Unit {0})
      unfolding check_pinned
      check_manifest output bootstrap none sha size = if bootstrap then pure tt else (do
        modify (unlink output)
        raise (value_error "manifest is missing int8_converted_format; bootstrap explicitly first"))
      check_manifest output bootstrap (some pinned) sha size =
          if bootstrap
          then pure tt
          else check_pinned np hash torch output pinned sha size
              (value_error "INT8 TLIEWGT does not match the pinned deterministic size/SHA-256")

      -- `main`
      unfoldable pub convert_model_int8 :
          Bool → Text → Text → FileRecord → Option FileRecord → Exec Files (Unit {0})
      unfolding open_sorted quantized_tensors rank_two_count check_manifest file_size
      convert_model_int8 bootstrap source_path output source pinned = do
        before ← gets (λ fs. fs)
        lift (verify_file hash before source_path source)
        named ← lift (open_sorted np hash torch before source_path)
        raise_when (not (length named == expected_count)) (value_error "expected 201 tensors")
        let record_count = length named + rank_two_count named
        write_mixed_tensor_file np hash output source.sha256
            (quantized_tensors torch.to_float named) record_count
        after ← gets (λ fs. fs)
        sha ← lift (sha256_file hash after output)
        size ← lift (file_size np hash torch after output)
        check_manifest output bootstrap pinned sha size
        modify (λ fs. put fs (sidecar_path output) (
            dump (record {
              source_model_sha256 = source.sha256;
              file_sha256 = sha;
              file_size = size;
              model_tensor_count = length named;
              record_count = record_count;
              quantized_tensor_count = rank_two_count named;
            })))
