-- ===== src/Format/Reader.antt =====
-- `read_golden_logits` of scripts/compare_logits.py: a second reader of the container, in Python,
-- that keeps the tensor named "logits".
pub mod RoundTrip
pub mod Whole
pub mod Fields
use tinyllama_inference_engi.Prelude.{
  ℕ, zero, suc, ◌+◌, ◌-◌, ◌*◌, ◌%◌, ◌||◌, not, Option, none, some, List, [], ◌∷◌, ltb, leb, ◌==◌,
  if◌then◌else◌, length, take, drop, Bytes, Text, codes, same,
}
use tinyllama_inference_engi.Result.{
  Result, Error, ok, err, value_error, ◌>>=◌, ◌>>◌, raise_if, or_raise, file_not_found,
}
use tinyllama_inference_engi.Files.{Files}
use tinyllama_inference_engi.Format.Hex.{to_hex}
use tinyllama_inference_engi.Format.Utf8.{decode}
use tinyllama_inference_engi.Format.Pack.{le_value, magic, version}
use tinyllama_inference_engi.Format.Numpy.{Hash, prod}
use tinyllama_inference_engi.Assets.Digest.{sha256_file}

-- `contents[offset : offset + n]`, and the bytes that `struct.unpack_from` reads there
unfoldable pub field : Bytes → ℕ → ℕ → Bytes
field contents offset n = take n (drop offset contents)

-- `struct.unpack_from(f"<{rank}Q", contents, offset)`
unfoldable pub unpack_dims : ℕ → Bytes → ℕ → List ℕ
unpack_dims zero contents offset = []
unpack_dims (suc rank) contents offset =
    le_value (field contents offset 8) ∷ unpack_dims rank contents (offset + 8)

-- The keys of the metadata document that are read.
pub record Metadata : Type 0 where
  pub trace_path : Text
  pub trace_sha256 : Text
  pub source_model_sha256 : Text

-- `if name == "logits": logits = ...`
abbrev pub keep : Text → Bytes → Option Bytes → Option Bytes
keep name payload logits = if same name (codes "logits") then some payload else logits

-- `offset != len(contents) or logits is None`
unfoldable pub only_logits : Bytes → ℕ → Option Bytes → Result Bytes
only_logits contents offset none =
    err (value_error "golden trace has trailing bytes or no logits tensor")
only_logits contents offset (some logits) = do
  raise_if (not (offset == length contents))
      (value_error "golden trace has trailing bytes or no logits tensor")
  ok logits

module _ (hash : Hash) where
  open hash use {sha256}

  -- The name and payload of the tensor at `offset`, and the offset behind it.
  unfoldable pub read_tensor : Bytes → ℕ → Result (Text × Bytes × ℕ)
  read_tensor contents offset = do
    raise_if (ltb (length contents) (offset + 44))
        (value_error "golden trace tensor header is truncated")
    let name_length = le_value (field contents offset 2)
    let dtype = le_value (field contents (offset + 2) 1)
    let rank = le_value (field contents (offset + 3) 1)
    let byte_count = le_value (field contents (offset + 4) 8)
    let checksum = field contents (offset + 12) 32
    let offset = offset + 44
    raise_if
        (not (dtype == 1)
          || (leb rank 0 || ltb (length contents) (offset + rank * 8 + name_length)))
        (value_error "golden trace tensor metadata is invalid")
    let shape = unpack_dims rank contents offset
    let offset = offset + rank * 8
    name ← decode (field contents offset name_length)
    let offset = offset + name_length
    let offset = offset + (64 - offset % 64) % 64
    let payload = field contents offset byte_count
    raise_if (not (length payload == byte_count) || not (same (sha256 payload) checksum))
        (value_error "golden trace tensor checksum failed")
    raise_if (not (prod shape * 4 == byte_count))
        (value_error "golden trace tensor shape is invalid")
    ok (name, payload, offset + byte_count)

  unfoldable pub read_tensors : ℕ → Bytes → ℕ → Option Bytes → Result (ℕ × Option Bytes)
  read_tensors zero contents offset logits = ok (offset, logits)
  read_tensors (suc count) contents offset logits = do
    (name, payload, next) ← read_tensor contents offset
    read_tensors count contents next (keep name payload logits)

  -- After the file checksum: the header, then the tensors.
  unfoldable pub read_contents : Text → Bytes → Result Bytes
  unfolding read_tensors only_logits
  read_contents source_model_sha256 contents = do
    raise_if (ltb (length contents) 48) (value_error "golden trace header is truncated")
    let count = le_value (field contents 12 4)
    raise_if
        (not (same (field contents 0 8) magic)
          || (not (le_value (field contents 8 4) == version) || leb count 0))
        (value_error "golden trace header is invalid")
    raise_if (not (same (to_hex (field contents 16 32)) source_model_sha256))
        (value_error "golden trace source checksum is invalid")
    (offset, logits) ← read_tensors count contents 48 none
    only_logits contents offset logits

  unfoldable pub read_golden_logits : Files → Metadata → Result Bytes
  unfolding read_contents
  read_golden_logits fs metadata = do
    trace_sha256 ← sha256_file hash fs metadata.trace_path
    raise_if (not (same trace_sha256 metadata.trace_sha256))
        (value_error "golden trace does not match its externally pinned SHA-256")
    contents ← or_raise (fs metadata.trace_path) (file_not_found "")
    read_contents metadata.source_model_sha256 contents
