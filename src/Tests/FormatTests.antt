-- ===== src/Tests/FormatTests.antt =====
-- Runs of the writers and of the readers of the container.
use tinyllama_inference_engi.Prelude.{◌⊎◌, All, ◌≡◌, refl, none, [], ◌∷◌, arith, Text, codes}
use tinyllama_inference_engi.Result.{Result, Error, ok, err, value_error, unicode_error}
use tinyllama_inference_engi.Files.{Files, with_open, partial_path, replace, put, put_self, unlink}
use tinyllama_inference_engi.Samples.{
  Sample, sample_numpy, sample_hash, no_files, sample_sha, sample_sha256,
}
use tinyllama_inference_engi.Assets.Digest.{sha256_file, sha256_file_by, sha256_file_by-eq}
use tinyllama_inference_engi.Format.Hex.{from_hex, to_hex}
use tinyllama_inference_engi.Format.Utf8.{encode, decode}
use tinyllama_inference_engi.Format.Pack.{
  pack_uint, pack_uints, pack_bytes, pack_header, pack_fields,
}
use tinyllama_inference_engi.Format.Numpy.{float32, float16, int8, other_dtype, itemsize}
use tinyllama_inference_engi.Format.Writer.{
  Tensors, done, yields, raises, store_float32, store_float16, write_tensor, write_tensors,
  write_body, write_file, write_tensor_file, write_mixed_tensor_file, fixed_dtype, mixed_dtype,
  padding, invalid_name, empty_shape,
}
use tinyllama_inference_engi.Format.Layout.{entries_of, entry_of, content_of}
use tinyllama_inference_engi.Format.Writer.Outcome.{
  outcome, IsAtomic, write_tensor_file-outcome, write_mixed_tensor_file-outcome, writers-IsAtomic,
}
use tinyllama_inference_engi.Format.Writer.Coded.{coded_array, IsCoded, arrays_of}
use tinyllama_inference_engi.Format.Writer.Aligned.{
  AlignedFile, payloads_of, converted, writers-AlignedFile,
}
use tinyllama_inference_engi.Format.Reader.{read_golden_logits}
use tinyllama_inference_engi.Format.Reader.Whole.{golden}
use tinyllama_inference_engi.Format.RoundTrip.{logits_of, write-read}

abbrev trace_path : Text
trace_path = codes "t.tliewgt"

abbrev sample_trace : Tensors Sample
sample_trace =
    yields (codes "embedding") (2 ∷ 2 ∷ [], float16)
      (yields (codes "logits") (3 ∷ [], float32) done)

abbrev written : Result (Unit {0}) × Files
written =
    write_tensor_file sample_numpy sample_hash trace_path sample_sha sample_trace 2 store_float32
      no_files

written_ok : written.0 ≡ ok tt
unfolding write_tensor_file write_file write_body write_tensors write_tensor pack_uint pack_uints
    pack_bytes pack_header pack_fields from_hex encode sample_sha256 padding invalid_name
    empty_shape with_open replace put unlink itemsize fixed_dtype
written_ok = refl

write-read_example :
    (trace : Text) × (sha256_file sample_hash written.1 trace_path ≡ ok trace)
    × (read_golden_logits sample_hash written.1 (record {
      trace_path = trace_path;
      trace_sha256 = trace;
      source_model_sha256 = sample_sha;
    })
        ≡ golden (logits_of sample_numpy sample_trace none))
write-read_example =
    write-read sample_numpy sample_hash trace_path sample_sha sample_trace 2 no_files (ground arith)
      (omega arith) written_ok

-- A generator that raises behind a good tensor, as `quantized_tensors` may.
abbrev broken : Tensors Sample
broken =
    yields (codes "a") (2 ∷ [], int8) (raises (value_error "unsupported TinyLlama tensor rank"))

write_tensor_file-outcome_example :
    write_tensor_file sample_numpy sample_hash trace_path sample_sha broken 2 store_float16 no_files
    ≡ outcome no_files trace_path (from_hex sample_sha) (λ digest.
      content_of sample_numpy sample_hash (fixed_dtype sample_numpy store_float16) digest broken 2)
write_tensor_file-outcome_example =
    write_tensor_file-outcome sample_numpy sample_hash trace_path sample_sha broken 2 store_float16
      no_files

write_mixed_tensor_file-outcome_example :
    (write_mixed_tensor_file sample_numpy sample_hash trace_path sample_sha sample_trace 3 no_files
      ≡ outcome no_files trace_path (from_hex sample_sha) (λ digest.
        content_of sample_numpy sample_hash (coded_array sample_numpy) digest sample_trace 3))
    × (All (IsCoded sample_numpy) (arrays_of sample_numpy sample_trace)
        ⊎ ((x : Error) × ((write_mixed_tensor_file sample_numpy sample_hash trace_path sample_sha
                sample_trace 3 no_files).0
              ≡ err x)))
write_mixed_tensor_file-outcome_example =
    write_mixed_tensor_file-outcome sample_numpy sample_hash trace_path sample_sha sample_trace 3
      no_files

writers-IsAtomic_example :
    IsAtomic trace_path sample_sha no_files (
      write_tensor_file sample_numpy sample_hash trace_path sample_sha broken 2 store_float32
        no_files)
    × IsAtomic trace_path sample_sha no_files
        (write_mixed_tensor_file sample_numpy sample_hash trace_path sample_sha broken 2 no_files)
writers-IsAtomic_example =
    writers-IsAtomic sample_numpy sample_hash trace_path sample_sha broken 2 store_float32 no_files

mixed_ok :
    (write_mixed_tensor_file sample_numpy sample_hash trace_path sample_sha sample_trace 2
      no_files).0
    ≡ ok tt
unfolding write_mixed_tensor_file write_file write_body write_tensors write_tensor pack_uint
    pack_uints pack_bytes pack_header pack_fields from_hex encode sample_sha256 padding invalid_name
    empty_shape with_open replace put unlink itemsize mixed_dtype
mixed_ok = refl

writers-AlignedFile_example :
    AlignedFile
      (payloads_of sample_numpy sample_hash
        (converted sample_numpy sample_hash store_float32)
        sample_trace)
      (write_tensor_file sample_numpy sample_hash trace_path sample_sha sample_trace 2 store_float32
        no_files).1
      trace_path
    × AlignedFile
        (payloads_of sample_numpy sample_hash sample_numpy.ascontiguous sample_trace)
        (write_mixed_tensor_file sample_numpy sample_hash trace_path sample_sha sample_trace 2
          no_files).1
        trace_path
writers-AlignedFile_example =
    writers-AlignedFile sample_numpy sample_hash trace_path sample_sha sample_trace sample_trace 2 2
      store_float32 no_files written_ok mixed_ok

-- A mixed file refuses a dtype that it has no code for, and the temporary is gone.
mixed_refuses :
    write_mixed_tensor_file sample_numpy sample_hash trace_path sample_sha
      (yields (codes "a") (2 ∷ [], other_dtype) done)
      1
      no_files
    ≡ (
      err (value_error "unsupported mixed tensor dtype"),
      unlink (partial_path trace_path) no_files,
    )
unfolding from_hex content_of entries_of entry_of encode invalid_name
mixed_refuses =
    (write_mixed_tensor_file-outcome sample_numpy sample_hash trace_path sample_sha
      (yields (codes "a") (2 ∷ [], other_dtype) done) 1 no_files).0

sha256_file_by-eq_example :
    sha256_file_by sample_hash 3 (put no_files trace_path (1 ∷ 2 ∷ 3 ∷ 4 ∷ [])) trace_path
    ≡ ok (to_hex (sample_sha256 (1 ∷ 2 ∷ 3 ∷ 4 ∷ [])))
sha256_file_by-eq_example =
    sha256_file_by-eq sample_hash 3 (put no_files trace_path (1 ∷ 2 ∷ 3 ∷ 4 ∷ [])) trace_path
      (1 ∷ 2 ∷ 3 ∷ 4 ∷ []) (omega arith) (put_self no_files trace_path (1 ∷ 2 ∷ 3 ∷ 4 ∷ []))

utf8_bytes :
    encode (codes "é€😀") ≡ ok (0xc3 ∷ 0xa9 ∷ 0xe2 ∷ 0x82 ∷ 0xac ∷ 0xf0 ∷ 0x9f ∷ 0x98 ∷ 0x80 ∷ [])
unfolding encode
utf8_bytes = refl

utf8_overlong : decode (0xe0 ∷ 0x80 ∷ 0x80 ∷ []) ≡ err (unicode_error "utf-8")
unfolding decode
utf8_overlong = refl
