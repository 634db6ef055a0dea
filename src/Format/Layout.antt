-- ===== src/Format/Layout.antt =====
-- The TLIEWGT container as a format: what a file with given tensors holds, byte for byte, and which
-- tensors it can hold. docs/adr/0001-m1-reference-and-weight-format.md gives the layout.
use tinyllama_inference_engi.Prelude.{
  ℕ, ◌+◌, ◌^◌, Bool, ◌&&◌, not, List, [], ◌∷◌, ◌++◌, ltb, leb, ◌==◌, length, replicate, all, Bytes,
  Text,
}
use tinyllama_inference_engi.Result.{
  Result, ok, err, value_error, struct_error, ◌>>=◌, ◌>>◌, raise_if,
}
use tinyllama_inference_engi.Format.Utf8.{encode}
use tinyllama_inference_engi.Format.Pack.{le_bytes, magic}
use tinyllama_inference_engi.Format.Numpy.{Numpy, Hash}
use tinyllama_inference_engi.Format.Writer.{
  padding, invalid_name, empty_shape, Tensors, done, yields, raises,
}

-- One tensor of a file; `encoded` is its name in UTF-8.
pub record Entry : Type 0 where
  pub name : Text
  pub encoded : Bytes
  pub code : ℕ
  pub dims : List ℕ
  pub payload : Bytes

abbrev pub dims_bytes : List ℕ → Bytes
dims_bytes [] = []
dims_bytes (d ∷ ds) = le_bytes 8 d ++ dims_bytes ds

-- Whether the fixed-width fields have room.
abbrev pub fits : ℕ → ℕ → List ℕ → ℕ → Bool
fits name_length code dims byte_count =
    ltb name_length (256 ^ 2)
    && (ltb code 256
        && (ltb (length dims) 256 && (ltb byte_count (256 ^ 8) && all (λ d. ltb d (256 ^ 8)) dims)))

module _ (hash : Hash) where
  open hash use {sha256}

  unfoldable pub head_bytes : Entry → Bytes
  head_bytes e =
      le_bytes 2 (length e.encoded)
      ++ (le_bytes 1 e.code
          ++ (le_bytes 1 (length e.dims) ++ (le_bytes 8 (length e.payload) ++ sha256 e.payload)))

  -- An entry that begins at offset `at`: its payload begins at a multiple of 64.
  unfoldable pub entry_bytes : ℕ → Entry → Bytes
  entry_bytes at e =
      let meta = head_bytes e ++ (dims_bytes e.dims ++ e.encoded) in
      meta ++ (replicate (padding (at + length meta)) 0 ++ e.payload)

  unfoldable pub entries_bytes : ℕ → List Entry → Bytes
  entries_bytes at [] = []
  entries_bytes at (e ∷ es) = let b = entry_bytes at e in b ++ entries_bytes (at + length b) es

  unfoldable pub file_bytes : Bytes → List Entry → Bytes
  file_bytes digest es =
      (magic ++ (le_bytes 4 1 ++ (le_bytes 4 (length es) ++ digest))) ++ entries_bytes 48 es

module _ (np : Numpy) where
  open np use {Array, shape, buffer}

  -- The entry of one tensor, or why it has none.
  unfoldable pub entry_of : (Array → Result (ℕ × Array)) → Text → Array → Result Entry
  entry_of stored name tensor = do
    encoded ← encode name
    raise_if (invalid_name encoded) (value_error "invalid tensor name")
    (code, array) ← stored tensor
    raise_if (empty_shape (shape array)) (value_error "tensor must have a non-empty shape")
    raise_if (not (fits (length encoded) code (shape array) (length (buffer array))))
        (struct_error "out of range")
    ok (record {
      name = name;
      encoded = encoded;
      code = code;
      dims = shape array;
      payload = buffer array;
    })

  unfoldable pub entries_of : (Array → Result (ℕ × Array)) → Tensors Array → Result (List Entry)
  entries_of stored done = ok []
  entries_of stored (raises e) = err e
  entries_of stored (yields name tensor rest) = do
    e ← entry_of stored name tensor
    es ← entries_of stored rest
    ok (e ∷ es)

  -- The content of the file for these tensors, or the first exception.
  unfoldable pub content_of :
      Hash → (Array → Result (ℕ × Array)) → Bytes → Tensors Array → ℕ → Result Bytes
  content_of hash stored digest tensors tensor_count = do
    raise_if (leb (256 ^ 4) tensor_count) (struct_error "out of range")
    es ← entries_of stored tensors
    raise_if (not (length es == tensor_count)) (value_error "tensor count mismatch")
    ok (file_bytes hash digest es)
