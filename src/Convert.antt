-- ===== src/Convert.antt =====
-- scripts/convert_model.py, scripts/convert_model_fp16.py and scripts/convert_model_int8.py, after
-- their arguments are parsed. Reading a safetensors file and the tensor conversions of torch are
-- parameters: neither library is under the repository.
pub mod Int8
pub mod Pinned
use tinyllama_inference_engi.Prelude.{
  ℕ, ◌+◌, String, ◌≡◌, ◌||◌, not, List, [], ◌∷◌, ◌++◌, ◌==◌, if◌then◌else◌, length, Bytes, Text,
  codes, same,
}
use tinyllama_inference_engi.Prelude.Sort.{sort_by_key}
use tinyllama_inference_engi.Result.{
  Result, Error, ok, err, value_error, file_not_found, or_raise, and_then,
}
use tinyllama_inference_engi.Exec.{Exec, pure, raise, lift, gets, modify, raise_when, ◌>>=◌, ◌>>◌}
use tinyllama_inference_engi.Files.{Files, put, unlink}
use tinyllama_inference_engi.Format.Numpy.{Numpy, Hash}
use tinyllama_inference_engi.Format.Writer.{
  Tensors, done, yields, Storage, store_float32, store_float16, write_tensor_file,
}
use tinyllama_inference_engi.Assets.Digest.{sha256_file}
use tinyllama_inference_engi.Assets.Verify.{FileRecord, verify_file}

-- What the scripts use of safetensors and torch. `keys` come with their tensors, in any order.
pub record Torch (np : Numpy) : Type 0 where
  -- `safe_open(path)`: the tensors of a file, from its bytes
  pub safe_open : Bytes → Result (List (Text × np.Array))
  -- `tensor.float().contiguous().numpy()` and `tensor.half().contiguous().numpy()`
  pub to_float : np.Array → np.Array
  pub to_half : np.Array → np.Array
  pub shape-to_float : (a : np.Array) → np.shape (to_float a) ≡ np.shape a

-- What the sidecar document says, but for its constant fields.
pub record Sidecar : Type 0 where
  pub dtype : String
  pub source_model_sha256 : Text
  pub file_sha256 : Text
  pub file_size : ℕ
  pub tensor_count : ℕ

-- 22 * 9 + 3
abbrev pub expected_count : ℕ
expected_count = 201

-- `output.with_suffix(output.suffix + ".json")`
abbrev pub sidecar_path : Text → Text
sidecar_path output = output ++ codes ".json"

module _ (np : Numpy) (hash : Hash) (torch : Torch np) where
  open np use {Array}
  open torch use {safe_open, to_float, to_half}

  -- `with safe_open(source_path, ...) as source: names = sorted(source.keys())`
  unfoldable pub open_sorted : Files → Text → Result (List (Text × Array))
  open_sorted fs path =
      and_then (or_raise (fs path) (file_not_found ""))
        λ contents. and_then (safe_open contents) λ tensors. ok (sort_by_key tensors)

  -- `tensors_from_safetensors`: the conversion is `float` in the one script and `half` in the other.
  unfoldable pub tensors_from_safetensors : (Array → Array) → List (Text × Array) → Tensors Array
  tensors_from_safetensors convert [] = done
  tensors_from_safetensors convert ((name, tensor) ∷ rest) =
      yields name (convert tensor) (tensors_from_safetensors convert rest)

  -- The check against the pinned size and SHA-256: the output is removed if it differs.
  unfoldable pub check_pinned : Text → FileRecord → Text → ℕ → Error → Exec Files (Unit {0})
  check_pinned output pinned file_sha256 file_size mismatch =
      if not (same file_sha256 pinned.sha256) || not (file_size == pinned.size)
      then (do modify (unlink output); raise mismatch)
      else pure tt

  -- `output.stat().st_size`
  unfoldable pub file_size : Files → Text → Result ℕ
  file_size fs path = and_then (or_raise (fs path) (file_not_found "")) λ c. ok (length c)

  module _ (dump : Sidecar → Bytes) where
    -- The two scripts differ in the dtype, the conversion and the record of the manifest.
    unfoldable pub convert :
        Storage
        → (Array → Array)
        → String
        → Text
        → Text
        → FileRecord
        → FileRecord
        → Exec Files (Unit {0})
    unfolding open_sorted tensors_from_safetensors check_pinned file_size
    convert storage conversion dtype source_path output source pinned = do
      before ← gets (λ fs. fs)
      lift (verify_file hash before source_path source)
      named ← lift (open_sorted before source_path)
      raise_when (not (length named == expected_count)) (value_error "expected 201 tensors")
      write_tensor_file np hash output source.sha256 (tensors_from_safetensors conversion named)
          (length named) storage
      after ← gets (λ fs. fs)
      sha ← lift (sha256_file hash after output)
      size ← lift (file_size after output)
      check_pinned output pinned sha size
          (value_error "converted TLIEWGT does not match the pinned deterministic size and SHA-256")
      modify (λ fs. put fs (sidecar_path output) (
          dump (record {
            dtype = dtype;
            source_model_sha256 = source.sha256;
            file_sha256 = sha;
            file_size = size;
            tensor_count = length named;
          })))

    -- `main` of convert_model.py
    unfoldable pub convert_model : Text → Text → FileRecord → FileRecord → Exec Files (Unit {0})
    unfolding convert
    convert_model = convert store_float32 to_float "float32"

    -- `main` of convert_model_fp16.py
    unfoldable pub convert_model_fp16 :
        Text → Text → FileRecord → FileRecord → Exec Files (Unit {0})
    unfolding convert
    convert_model_fp16 = convert store_float16 to_half "float16"
