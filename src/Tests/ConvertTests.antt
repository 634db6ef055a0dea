-- ===== src/Tests/ConvertTests.antt =====
-- Runs of the three converters.
use tinyllama_inference_engi.Prelude.{
  ℕ, zero, suc, ◌+◌, ◌≡◌, refl, false, List, [], ◌∷◌, arith, length, replicate, Bytes, Text, codes,
}
use tinyllama_inference_engi.Prelude.Sort.{sort_by_key, insert_by_key}
use tinyllama_inference_engi.Result.{Result, ok, err}
use tinyllama_inference_engi.Files.{Files, put, with_open, exists, moved, replace, unlink}
use tinyllama_inference_engi.Format.Hex.{to_hex, from_hex}
use tinyllama_inference_engi.Format.Numpy.{Hash, itemsize, float16, float32}
use tinyllama_inference_engi.Format.Layout.{Entry, entries_of}
use tinyllama_inference_engi.Format.Utf8.{encode}
use tinyllama_inference_engi.Format.Pack.{
  le_bytes, pack_header, pack_uint, pack_uints, pack_bytes, pack_fields,
}
use tinyllama_inference_engi.Assets.Digest.{sha256_file, sha256_file_by, read_chunks}
use tinyllama_inference_engi.Format.Writer.{
  mixed_dtype, fixed_dtype, padding, write_tensor_file, write_file, write_body, write_tensors,
  write_tensor, invalid_name, empty_shape,
}
use tinyllama_inference_engi.Samples.{Sample, sample_numpy, no_files, replicate-IsByte}
use tinyllama_inference_engi.Assets.Verify.{FileRecord, verify_file, IsPinned}
use tinyllama_inference_engi.Convert.{
  Torch, Sidecar, convert_model, convert, check_pinned, file_size, open_sorted,
  tensors_from_safetensors,
}
use tinyllama_inference_engi.Convert.Int8.{quantized_tensors, rank_two_count}
use tinyllama_inference_engi.Convert.Pinned.{converter, converters-IsPinned}

-- A norm, a projection and the embedding.
abbrev named : List (Text × Sample)
named =
    (codes "model.norm.weight", (2 ∷ [], float32))
    ∷ (codes "mlp.weight", (2 ∷ 3 ∷ [], float32))
    ∷ (codes "model.embed_tokens.weight", (2 ∷ 2 ∷ [], float32))
    ∷ []

-- A file of `n` small tensors
abbrev many : ℕ → List (Text × Sample)
many zero = []
many (suc n) = (codes "w", (1 ∷ [], float32)) ∷ many n

abbrev sample_torch : Torch sample_numpy
sample_torch = record {
  safe_open = λ b. ok named;
  to_float = λ a. (a.0, float32);
  to_half = λ a. (a.0, float16);
  shape-to_float = λ a. refl;
}

abbrev channels : Sample → Sample × Sample
channels a = (a, (2 ∷ [], float32))

abbrev or_nothing : Result (List Entry) → List Entry
or_nothing (ok es) = es
or_nothing (err e) = []

abbrev entries : List Entry
entries = or_nothing (
    entries_of sample_numpy (mixed_dtype sample_numpy)
      (quantized_tensors sample_numpy channels sample_torch.to_float named))

four_records : length named + rank_two_count sample_numpy channels named ≡ 4
unfolding rank_two_count
four_records = refl

abbrev zero_hash : Hash
zero_hash = record {
  sha256 = λ b. replicate 32 0;
  Hasher = Unit {0};
  new = tt;
  update = λ h b. tt;
  digest = λ h. replicate 32 0;
  length-sha256 = λ b. refl;
  sha256-IsByte = λ b. replicate-IsByte 32 0 (omega arith);
  digest-new = refl;
  digest-update = λ b. refl;
  update-update = λ a b c. refl;
}

abbrev large_torch : Torch sample_numpy
large_torch = record {
  safe_open = λ b. ok (many 201);
  to_float = λ a. (a.0, float32);
  to_half = λ a. (a.0, float16);
  shape-to_float = λ a. refl;
}

abbrev model_path : Text
model_path = codes "m/model.safetensors"

abbrev output_path : Text
output_path = codes "m/model-fp32.tliewgt"

abbrev source_record : FileRecord
source_record = record { sha256 = to_hex (replicate 32 0); size = 2 }

-- 64 bytes for each tensor, a first block, and the last payload
abbrev pinned_record : FileRecord
pinned_record = record { sha256 = to_hex (replicate 32 0); size = 12932 }

abbrev with_model : Files
with_model = put no_files model_path (1 ∷ 2 ∷ [])

abbrev dump : Sidecar → Bytes
dump s = s.file_size ∷ []

convert_ok :
    (converter sample_numpy zero_hash large_torch dump false model_path output_path source_record
      pinned_record with_model).0
    ≡ ok tt
unfolding put convert_model convert verify_file sha256_file to_hex sort_by_key insert_by_key
    write_tensor_file write_file from_hex with_open write_body pack_header pack_uint pack_uints
    pack_bytes pack_fields write_tensors write_tensor encode invalid_name empty_shape read_chunks
    sha256_file_by check_pinned file_size open_sorted tensors_from_safetensors exists moved replace
    unlink fixed_dtype padding itemsize le_bytes
convert_ok = refl

converters-IsPinned_example :
    IsPinned zero_hash
      (converter sample_numpy zero_hash large_torch dump false model_path output_path source_record
        pinned_record with_model).1
      output_path
      pinned_record
converters-IsPinned_example =
    converters-IsPinned sample_numpy zero_hash large_torch dump false model_path output_path
      source_record pinned_record with_model convert_ok
