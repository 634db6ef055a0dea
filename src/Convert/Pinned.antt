-- ===== src/Convert/Pinned.antt =====
-- What a converter leaves when it returns, and the number of records of the INT8 file.
use tinyllama_inference_engi.Prelude.{
  ℕ, String, ◌≡◌, ◌∙◌, inl, inr, Bool, true, false, List, ◌==◌, if◌then◌else◌, Bool-cases,
  Option-cases, ==_iff, length, Bytes, Text, codes, same, same_sound,
}
use tinyllama_inference_engi.Result.{Result, Error, ok, value_error, Result-cases}
use tinyllama_inference_engi.Exec.{Exec, lift, gets, modify, ◌>>=◌, ◌>>◌}
use tinyllama_inference_engi.Files.{longer-ne, Files, put, put_ne}
use tinyllama_inference_engi.Format.Hex.{to_hex}
use tinyllama_inference_engi.Format.Numpy.{Numpy, Hash}
use tinyllama_inference_engi.Format.Writer.{Tensors, mixed_dtype, Storage, write_tensor_file}
use tinyllama_inference_engi.Format.Layout.{Entry, entries_of}
use tinyllama_inference_engi.Assets.Digest.{sha256_file, sha256_file-eq}
use tinyllama_inference_engi.Assets.Verify.{FileRecord, verify_file, IsPinned}
use tinyllama_inference_engi.Convert.{
  Torch, Sidecar, expected_count, sidecar_path, open_sorted, check_pinned, file_size, convert,
  convert_model, convert_model_fp16, tensors_from_safetensors,
}

sidecar_path-ne : (p : Text) → same (sidecar_path p) p ≡ false
sidecar_path-ne p = longer-ne p (codes "json") 46

module _ (np : Numpy) (hash : Hash) (torch : Torch np) where
  open np use {Array, shape}

  -- After the write: digest, size, check and sidecar of the file at `output`.
  module _ (fs : Files) (output : Text) (pinned : FileRecord) (mismatch : Error)
      (document : Text → ℕ → Bytes) where
    finish : Exec Files (Unit {0})
    finish = do
      after ← gets (λ fs. fs)
      sha ← lift (sha256_file hash after output)
      size ← lift (file_size np hash torch after output)
      check_pinned np hash torch output pinned sha size mismatch
      modify (λ fs. put fs (sidecar_path output) (document sha size))

    finish-IsPinned : (finish fs).0 ≡ ok tt → IsPinned hash (finish fs).1 output pinned
    unfolding finish check_pinned file_size sha256_file
    finish-IsPinned h = elim (Option-cases (fs output)) [
      | inl gone ↦ cc (rw gone at h)
      | inr (c, there) ↦
          let sum = sha256_file-eq hash fs output c there in
          elim (Bool-cases (same (to_hex (hash.sha256 c)) pinned.sha256)) [
            | inr bad ↦ cc (rw (sum, there, bad) at h)
            | inl equal ↦ elim (Bool-cases (length c == pinned.size)) [
              | inr bad ↦ cc (rw (sum, there, equal, bad) at h)
              | inl good ↦
                  rw (sum, there, equal, good)
                    (record {
                      contents = c;
                      found =
                          put_ne fs (sidecar_path output) output
                            (document (to_hex (hash.sha256 c)) (length c)) (sidecar_path-ne output)
                          ∙ there;
                      sized = (==_iff _ _).0 good;
                      digested = same_sound _ _ equal;
                    })
            ]
          ]
    ]

  module _ (dump : Sidecar → Bytes) where
    convert-IsPinned :
        (storage : Storage) (conversion : Array → Array) (dtype : String)
        (source_path output : Text) (source pinned : FileRecord) (fs : Files)
        → (convert np hash torch dump storage conversion dtype source_path output source pinned
            fs).0
          ≡ ok tt
        → IsPinned hash
            (convert np hash torch dump storage conversion dtype source_path output source pinned
              fs).1
            output
            pinned
    unfolding convert finish
    convert-IsPinned storage conversion dtype source_path output source pinned fs h =
        elim (Result-cases (verify_file hash fs source_path source)) [
          | inr (x, v) ↦ cc (rw v at h)
          | inl (_, v) ↦ elim (Result-cases (open_sorted np hash torch fs source_path)) [
            | inr (x, o) ↦ cc (rw (v, o) at h)
            | inl (named, o) ↦ elim (Bool-cases (length named == expected_count)) [
              | inr bad ↦ cc (rw (v, o, bad) at h)
              | inl good ↦
                  let w : Result (Unit {0}) × Files =
                    write_tensor_file np hash output source.sha256
                      (tensors_from_safetensors np hash torch conversion named) (length named)
                      storage fs in
                  let document : Text → ℕ → Bytes = λ sha size. dump (record {
                    dtype = dtype;
                    source_model_sha256 = source.sha256;
                    file_sha256 = sha;
                    file_size = size;
                    tensor_count = length named;
                  }) in
                  elim (Result-cases w.0) [
                    | inr (x, k) ↦ cc (rw (v, o, good, k) at h)
                    | inl (_, k) ↦
                        rw (v, o, good, k)
                          (finish-IsPinned w.1 output pinned
                            (value_error
                              "converted TLIEWGT does not match the pinned deterministic size and SHA-256")
                            document (rw (v, o, good, k) at h))
                  ]
            ]
          ]
        ]

    -- `main` of convert_model_fp16.py or of convert_model.py
    abbrev pub converter : Bool → Text → Text → FileRecord → FileRecord → Exec Files (Unit {0})
    converter half source_path output source pinned =
        if half
        then convert_model_fp16 np hash torch dump source_path output source pinned
        else convert_model np hash torch dump source_path output source pinned

    -- If either float converter returns, its output has the size and the SHA-256 that the manifest
    -- pins for it.
    pub converters-IsPinned :
        (half : Bool) (source_path output : Text) (source pinned : FileRecord) (fs : Files)
        → (converter half source_path output source pinned fs).0 ≡ ok tt
        → IsPinned hash (converter half source_path output source pinned fs).1 output pinned
    unfolding convert_model convert_model_fp16
    converters-IsPinned true source_path output source pinned fs h =
        convert-IsPinned _ _ _ source_path output source pinned fs h
    converters-IsPinned false source_path output source pinned fs h =
        convert-IsPinned _ _ _ source_path output source pinned fs h

module _ (np : Numpy) (torch : Torch np) (channels : np.Array → np.Array × np.Array) where
  open np use {Array, shape}

  abbrev Counts : Tensors Array → ℕ → Type 0
  Counts ts n = (es : List Entry) → entries_of np (mixed_dtype np) ts ≡ ok es → length es ≡ n
