-- ===== src/Format/Writer.antt =====
-- `_padding`, `write_tensor_file` and `write_mixed_tensor_file` of scripts/tlie_format.py.
pub mod Refines
pub mod Coded
pub mod Outcome
pub mod Aligned
use tinyllama_inference_engi.Prelude.{
  ℕ, ◌+◌, ◌-◌, ◌%◌, Bool, ◌||◌, not, Option, none, some, List, ◌++◌, ltb, leb, ◌==◌, length,
  replicate, any, Bytes, Text,
}
use tinyllama_inference_engi.Result.{Result, Error, ok, err, value_error}
use tinyllama_inference_engi.Exec.{
  Exec, pure, raise, lift, modify, raise_when, on_error, ◌>>=◌, ◌>>◌,
}
use tinyllama_inference_engi.Files.{Files, with_open, unlink, replace, partial_path}
use tinyllama_inference_engi.Format.Hex.{from_hex}
use tinyllama_inference_engi.Format.Utf8.{encode}
use tinyllama_inference_engi.Format.Pack.{alignment, pack_uints, pack_header, pack_fields}
use tinyllama_inference_engi.Format.Numpy.{Numpy, Hash, Dtype, float32, float16, int8, other_dtype}

-- DTYPE_FLOAT32, DTYPE_FLOAT16, DTYPE_INT8
pub dtype_code : Dtype → Option ℕ
dtype_code float32 = some 1
dtype_code float16 = some 2
dtype_code int8 = some 3
dtype_code other_dtype = none

unfoldable pub padding : ℕ → ℕ
padding offset = (alignment - offset % alignment) % alignment

-- `not encoded_name or len(encoded_name) > 4096`
unfoldable pub invalid_name : Bytes → Bool
invalid_name encoded = length encoded == 0 || ltb 4096 (length encoded)

-- `not array.shape or any(dimension <= 0 for dimension in array.shape)`
unfoldable pub empty_shape : List ℕ → Bool
empty_shape dims = length dims == 0 || any (λ d. leb d 0) dims

-- What the iterable `tensors` yields: it may also raise, as the generators of the callers do.
pub data Tensors (A : Type 0) : Type 0 where
  done : Tensors A
  yields : Text → A → Tensors A → Tensors A
  raises : Error → Tensors A

pub data Storage : Type 0 where
  store_float32 store_float16 : Storage

module _ (np : Numpy) where
  open np use {Array, dtype, asarray, ascontiguous}

  -- The dtype code and the array of a record: of `write_tensor_file`, then of
  -- `write_mixed_tensor_file`.
  unfoldable pub fixed_dtype : Storage → Array → Result (ℕ × Array)
  fixed_dtype store_float32 tensor = ok (1, asarray float32 tensor)
  fixed_dtype store_float16 tensor = ok (2, asarray float16 tensor)

  unfoldable pub mixed_dtype : Array → Result (ℕ × Array)
  unfolding dtype_code
  mixed_dtype tensor =
      let array = ascontiguous tensor in
      elim (dtype_code (dtype array)) [
        | none ↦ err (value_error "unsupported mixed tensor dtype")
        | some code ↦ ok (code, array)
      ]

module _ (np : Numpy) (hash : Hash) where
  open np use {Array, shape, buffer}
  open hash use {sha256}

  -- The body of the loop over the tensors; the state is what `output` holds.
  unfoldable pub write_tensor : (Array → Result (ℕ × Array)) → Text → Array → Exec Bytes (Unit {0})
  write_tensor stored name tensor = do
    encoded ← lift (encode name)
    raise_when (invalid_name encoded) (value_error "invalid tensor name")
    (code, array) ← lift (stored tensor)
    raise_when (empty_shape (shape array)) (value_error "tensor must have a non-empty shape")
    let payload = buffer array
    fields ←
        lift (
          pack_fields (length encoded) code (length (shape array)) (length payload)
            (sha256 payload))
    modify (λ out. out ++ fields)
    dims ← lift (pack_uints 8 (shape array))
    modify (λ out. out ++ dims)
    modify (λ out. out ++ encoded)
    modify (λ out. out ++ replicate (padding (length out)) 0)
    modify (λ out. out ++ payload)

  unfoldable pub write_tensors : (Array → Result (ℕ × Array)) → Tensors Array → ℕ → Exec Bytes ℕ
  write_tensors stored done written = pure written
  write_tensors stored (raises e) written = raise e
  write_tensors stored (yields name tensor rest) written = do
    write_tensor stored name tensor
    write_tensors stored rest (written + 1)

  unfoldable pub write_body :
      (Array → Result (ℕ × Array)) → Bytes → Tensors Array → ℕ → Exec Bytes (Unit {0})
  write_body stored digest tensors tensor_count = do
    header ← lift (pack_header tensor_count digest)
    modify (λ out. out ++ header)
    written ← write_tensors stored tensors 0
    raise_when (not (written == tensor_count)) (value_error "tensor count mismatch")

  unfoldable pub write_file :
      (Array → Result (ℕ × Array)) → Text → Text → Tensors Array → ℕ → Exec Files (Unit {0})
  write_file stored path source_sha256 tensors tensor_count = do
    digest ← lift (from_hex source_sha256)
    raise_when (not (length digest == 32))
        (value_error "source_sha256 must contain exactly 32 bytes")
    let temporary = partial_path path
    modify (unlink temporary)
    on_error
        (with_open temporary (write_body stored digest tensors tensor_count)
          >> modify (replace temporary path))
        (unlink temporary)

  unfoldable pub write_tensor_file :
      Text → Text → Tensors Array → ℕ → Storage → Exec Files (Unit {0})
  unfolding write_file fixed_dtype
  write_tensor_file path source_sha256 tensors tensor_count storage =
      write_file (fixed_dtype np storage) path source_sha256 tensors tensor_count

  unfoldable pub write_mixed_tensor_file : Text → Text → Tensors Array → ℕ → Exec Files (Unit {0})
  unfolding write_file mixed_dtype
  write_mixed_tensor_file path source_sha256 tensors tensor_count =
      write_file (mixed_dtype np) path source_sha256 tensors tensor_count
