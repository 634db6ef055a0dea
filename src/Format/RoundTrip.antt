-- ===== src/Format/RoundTrip.antt =====
-- `write_tensor_file` of scripts/tlie_format.py followed by `read_golden_logits` of
-- scripts/compare_logits.py, as scripts/export_golden.py and scripts/compare_logits.py run them.
use tinyllama_inference_engi.Prelude.{
  ℕ, ◌*◌, ◌^◌, ◌<◌, ◌≡◌, refl, sym, ap, ◌∙◌, inl, inr, true, false, Option, none, some, List, [],
  ◌∷◌, arith, ltb, leb, ◌==◌, Bool-cases, length, all, All, Bytes, Text, same_refl,
}
use tinyllama_inference_engi.Result.{Result, ok, err, >>=-eq-ok}
use tinyllama_inference_engi.Files.{Files, put, unlink, partial_path, put_self}
use tinyllama_inference_engi.Assets.Digest.{sha256_file, sha256_file-eq}
use tinyllama_inference_engi.Format.Hex.{from_hex, to_hex, IsHexText, to_hex-from_hex}
use tinyllama_inference_engi.Format.Utf8.{encode, decode, decode-encode}
use tinyllama_inference_engi.Format.Numpy.{Numpy, Hash, float32, itemsize, prod}
use tinyllama_inference_engi.Format.Writer.{
  Tensors, done, yields, raises, invalid_name, empty_shape, fixed_dtype, write_file,
  write_tensor_file, store_float32,
}
use tinyllama_inference_engi.Format.Writer.Refines.{committed, write_file-eq}
use tinyllama_inference_engi.Format.Layout.{
  Entry, fits, file_bytes, entry_of, entries_of, content_of,
}
use tinyllama_inference_engi.Format.Reader.{keep, read_contents, read_golden_logits}
use tinyllama_inference_engi.Format.Reader.RoundTrip.{IsGolden}
use tinyllama_inference_engi.Format.Reader.Whole.{last_logits, golden, read_contents-file}

all-All : (ds : List ℕ) → all (λ d. ltb d (256 ^ 8)) ds ≡ true → All (λ d. d < 256 ^ 8) ds
all-All [] h = tt
all-All (d ∷ ds) h = ground (arith, all-All ds)

module _ (np : Numpy) where
  open np use {Array, shape, buffer, asarray, shape-asarray, length-buffer-asarray}

  -- The payload of the last tensor that the iterable yields under the name "logits".
  pub logits_of : Tensors Array → Option Bytes → Option Bytes
  logits_of done logits = logits
  logits_of (raises e) logits = logits
  logits_of (yields name tensor rest) logits =
      logits_of rest (keep name (buffer (asarray float32 tensor)) logits)

  record Golden (name : Text) (tensor : Array) (e : Entry) : Type 0 where
    is_golden : IsGolden e
    named : e.name ≡ name
    holds : e.payload ≡ buffer (asarray float32 tensor)

  module _ (name : Text) (tensor : Array) where
    abbrev stored : Array
    stored = asarray float32 tensor

    abbrev entry : Bytes → Entry
    entry encoded = record {
      name = name;
      encoded = encoded;
      code = 1;
      dims = shape stored;
      payload = buffer stored;
    }

    roomy-IsGolden :
        (encoded : Bytes)
        → decode encoded ≡ ok name
        → empty_shape (shape stored) ≡ false
        → fits (length encoded) 1 (shape stored) (length (buffer stored)) ≡ true
        → length (buffer stored) ≡ prod (shape stored) * 4
        → IsGolden (entry encoded)
    unfolding empty_shape
    roomy-IsGolden encoded readable full room size = record {
      readable = readable;
      is_float32 = refl;
      short_name = ground arith;
      some_dims = ground arith;
      few_dims = ground arith;
      small_dims = all-All (shape stored) (ground arith);
      small_payload = ground arith;
      sized = sym size;
    }

    entry_of-Golden :
        (e : Entry)
        → entry_of np (fixed_dtype np store_float32) name tensor ≡ ok e
        → Golden name tensor e
    unfolding entry_of fixed_dtype itemsize
    entry_of-Golden e h =
        let (encoded, he, h') = >>=-eq-ok (encode name) _ h in
        let a : Array = asarray float32 tensor in
        let same_shape : shape a ≡ shape tensor = shape-asarray float32 tensor in
        let size : length (buffer a) ≡ prod (shape a) * 4 =
          length-buffer-asarray float32 tensor
          ∙ ap (λ (ds : List ℕ). prod ds * 4) (sym same_shape) in
        elim (Bool-cases (invalid_name encoded)) [
          | inl bad ↦ cc (rw bad at h')
          | inr good ↦ elim (Bool-cases (empty_shape (shape a))) [
            | inl bad ↦ cc (rw (good, bad) at h')
            | inr full ↦ elim (Bool-cases (fits (length encoded) 1 (shape a) (length (buffer a)))) [
              | inr bad ↦ cc (rw (good, full, bad) at h')
              | inl room ↦
                  let eq : entry encoded ≡ e = ground (arith, rw (good, full, room) at h') in
                  rw (← eq) (record {
                    is_golden =
                        roomy-IsGolden encoded (decode-encode name encoded he) full room size;
                    named = refl;
                    holds = refl;
                  })
            ]
          ]
        ]

  entries_of-Golden :
      (ts : Tensors Array) (es : List Entry) (logits : Option Bytes)
      → entries_of np (fixed_dtype np store_float32) ts ≡ ok es
      → All IsGolden es × (last_logits es logits ≡ logits_of ts logits)
  unfolding entries_of last_logits logits_of
  entries_of-Golden done [] logits h = (tt, refl)
  entries_of-Golden done (e ∷ es) logits h = cc
  entries_of-Golden (raises x) es logits h = cc
  entries_of-Golden (yields name tensor rest) es logits h =
      let (e, he, h') = >>=-eq-ok (entry_of np (fixed_dtype np store_float32) name tensor) _ h in
      let (es', hes, h'') = >>=-eq-ok (entries_of np (fixed_dtype np store_float32) rest) _ h' in
      let eq : e ∷ es' ≡ es = ground arith in
      let g = entry_of-Golden name tensor e he in
      let kept : keep e.name e.payload logits ≡ keep name (buffer (asarray float32 tensor)) logits =
        rw (g.named, g.holds) refl in
      let (all_golden, last) = entries_of-Golden rest es' (keep e.name e.payload logits) hes in
      rw (← eq) ((g.is_golden, all_golden), rw (← kept) last)

module _ (np : Numpy) (hash : Hash) where
  open np use {Array}
  open hash use {sha256}

  content_of-read :
      (digest : Bytes) (sha : Text) (ts : Tensors Array) (count : ℕ) (c : Bytes)
      → length digest ≡ 32
      → to_hex digest ≡ sha
      → 0 < count
      → content_of np hash (fixed_dtype np store_float32) digest ts count ≡ ok c
      → read_contents hash sha c ≡ golden (logits_of np ts none)
  unfolding content_of
  content_of-read digest sha ts count c d32 shown few h = elim (Bool-cases (leb (256 ^ 4) count)) [
    | inl big ↦ cc (rw big at h)
    | inr small ↦
        let (es, he, h') =
          >>=-eq-ok (entries_of np (fixed_dtype np store_float32) ts) _ (rw small at h) in
        let counted : length es ≡ count = ground arith in
        let eq : file_bytes hash digest es ≡ c = ground arith in
        let (all_golden, last) = entries_of-Golden np ts es none he in
        rw (← eq, ← last)
          (read_contents-file hash digest es d32 sha shown all_golden (omega arith) (ground arith))
  ]

  written :
      (path : Text) (fs : Files) (r : Result Bytes)
      → (committed fs path r).0 ≡ ok tt
      → (c : Bytes) × (r ≡ ok c)
  written path fs (ok c) h = (c, refl)
  written path fs (err x) h = cc

  -- the writer, when it has the digest of a lower-case text
  module _ (path sha : Text) (ts : Tensors Array) (count : ℕ) (fs : Files) where
    abbrev run : Result (Unit {0}) × Files
    run = write_tensor_file np hash path sha ts count store_float32 fs

    digest_length : (digest : Bytes) → from_hex sha ≡ ok digest → run.0 ≡ ok tt → length digest ≡ 32
    unfolding write_tensor_file write_file
    digest_length digest e h = elim (Bool-cases (length digest == 32)) [
      | inl good ↦ ground arith
      | inr bad ↦ cc (rw (e, bad) at h)
    ]

    -- Whatever `write_tensor_file` writes as float32 for at least one tensor, under a `source_sha256`
    -- of lower-case digits, `read_golden_logits` accepts, with names that repeat too: with the digest of the file that was
    -- written, it returns the payload of the last tensor named "logits", and it raises only if
    -- there is none.
    pub write-read :
        IsHexText sha
        → 0 < count
        → run.0 ≡ ok tt
        → (trace : Text) × (sha256_file hash run.1 path ≡ ok trace)
          × (read_golden_logits hash run.1
                (record { trace_path = path; trace_sha256 = trace; source_model_sha256 = sha })
              ≡ golden (logits_of np ts none))
    unfolding write_tensor_file read_golden_logits
    write-read lower few h =
        let (digest, e, shown, bytes) = to_hex-from_hex sha lower in
        let d32 : length digest ≡ 32 = digest_length digest e h in
        let eq : run
            ≡ committed fs path
                (content_of np hash (fixed_dtype np store_float32) digest ts count) =
          write_file-eq np hash (fixed_dtype np store_float32) path sha ts count digest e d32 fs in
        let (c, hc) =
          written path fs (content_of np hash (fixed_dtype np store_float32) digest ts count)
            (ap (λ r. r.0) (sym eq) ∙ h) in
        let final : run.1 ≡ put (unlink (partial_path path) fs) path c =
          ap (λ r. r.1) eq ∙ ap (λ r. (committed fs path r).1) hc in
        let there : put (unlink (partial_path path) fs) path c path ≡ some c = put_self _ path c in
        let trace : Text = to_hex (sha256 c) in
        let sum = sha256_file-eq hash (put (unlink (partial_path path) fs) path c) path c there in
        (
          trace,
          rw final sum,
          rw (final, sum, same_refl trace, there)
              (content_of-read digest sha ts count c d32 shown few hc),
        )
