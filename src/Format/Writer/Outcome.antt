-- ===== src/Format/Writer/Outcome.antt =====
-- `write_tensor_file` and `write_mixed_tensor_file` as wholes: what they leave in the file system.
use tinyllama_inference_engi.Prelude.{
  fun_ext, ◌⊎◌, some, All, ap, ℕ, ◌≡◌, ◌≢◌, refl, sym, ◌∙◌, inl, inr, false, none, arith, ◌==◌,
  if◌then◌else◌, Bool-cases, ==_iff, length, Bytes, Text, same, same_comm,
}
use tinyllama_inference_engi.Result.{
  Result, Error, ok, err, value_error, Result-cases, ok-injective,
}
use tinyllama_inference_engi.Files.{
  Files, partial_path, put_self, put_ne, unlink_ne, unlink_self, partial_path-ne,
}
use tinyllama_inference_engi.Format.Hex.{from_hex}
use tinyllama_inference_engi.Format.Numpy.{Numpy, Hash}
use tinyllama_inference_engi.Format.Layout.{content_of}
use tinyllama_inference_engi.Format.Writer.{
  Tensors, Storage, fixed_dtype, mixed_dtype, write_file, write_tensor_file,
  write_mixed_tensor_file,
}
use tinyllama_inference_engi.Format.Writer.Coded.{
  arrays_of, coded_array, IsCoded, mixed_dtype-coded, content_of-IsCoded,
}
use tinyllama_inference_engi.Format.Writer.Refines.{committed, write_file-eq}

-- The end of a run, from the digest that `source_sha256` stands for and the content that the
-- tensors make under a digest.
abbrev pub outcome :
    Files → Text → Result Bytes → (Bytes → Result Bytes) → Result (Unit {0}) × Files
outcome fs path (err x) content = (err x, fs)
outcome fs path (ok digest) content =
    if length digest == 32
    then committed fs path (content digest)
    else (err (value_error "source_sha256 must contain exactly 32 bytes"), fs)

-- A `source_sha256` that stands for 32 bytes
abbrev pub IsDigest : Text → Type 0
IsDigest sha = (digest : Bytes) × (from_hex sha ≡ ok digest) × (length digest ≡ 32)

-- What a write of `path` does to the other files, to `path` when it raises, and to the temporary
-- whether it returns or raises. Without a digest it raises before it touches a file.
pub record IsAtomic (path sha : Text) (fs : Files) (r : Result (Unit {0}) × Files) : Type 0 where
  pub others : (q : Text) → same path q ≡ false → same (partial_path path) q ≡ false → r.1 q ≡ fs q
  pub unchanged : (x : Error) → r.0 ≡ err x → r.1 path ≡ fs path
  pub cleaned : IsDigest sha → r.1 (partial_path path) ≡ none
  pub refused : ¬ IsDigest sha → (r.0 ≢ ok tt) × (r.1 ≡ fs)

wrong_length :
    (digest d : Bytes) → (length digest == 32) ≡ false → ok digest ≡ ok d → length d ≡ 32 → ⊥
wrong_length digest d bad e h = let eq : digest ≡ d = ok-injective e in ground (arith, eq, h, bad)

module _ (np : Numpy) (hash : Hash) where
  open np use {Array, shape, dtype, buffer, ascontiguous}

  write_file-outcome :
      (stored : Array → Result (ℕ × Array)) (path sha : Text) (ts : Tensors Array) (count : ℕ)
      (fs : Files)
      → write_file np hash stored path sha ts count fs
        ≡ outcome fs path (from_hex sha) (λ digest. content_of np hash stored digest ts count)
  unfolding write_file
  write_file-outcome stored path sha ts count fs = elim (Result-cases (from_hex sha)) [
    | inr (x, e) ↦ rw e refl
    | inl (digest, e) ↦ elim (Bool-cases (length digest == 32)) [
      | inr bad ↦ rw (e, bad) refl
      | inl good ↦
          let d32 : length digest ≡ 32 = (==_iff _ _).0 good in
          let run = write_file-eq np hash stored path sha ts count digest e d32 fs in
          rw (run, e, good) refl
    ]
  ]

  -- On every input `write_tensor_file` does what the layout of its tensors says: with a
  -- `source_sha256` that is not 32 hexadecimal bytes it raises and touches nothing; otherwise it
  -- removes the temporary file, and either `path` holds exactly the header and all the tensors, or
  -- the first exception is raised and `path` is as before.
  pub write_tensor_file-outcome :
      (path sha : Text) (ts : Tensors Array) (count : ℕ) (storage : Storage) (fs : Files)
      → write_tensor_file np hash path sha ts count storage fs
        ≡ outcome fs path
            (from_hex sha)
            (λ digest. content_of np hash (fixed_dtype np storage) digest ts count)
  unfolding write_tensor_file
  write_tensor_file-outcome path sha ts count storage =
      write_file-outcome (fixed_dtype np storage) path sha ts count

  -- A run that returns has written its content.
  pub outcome_written :
      (path : Text) (fs : Files) (d : Result Bytes) (content : Bytes → Result Bytes)
      → (outcome fs path d content).0 ≡ ok tt
      → (digest : Bytes) × (c : Bytes) × (length digest ≡ 32)
        × (content digest ≡ ok c)
        × ((outcome fs path d content).1 path ≡ some c)
  outcome_written path fs (err x) content h = cc
  outcome_written path fs (ok digest) content h = elim (Bool-cases (length digest == 32)) [
    | inr bad ↦ absurd (cc (rw bad at h))
    | inl good ↦ elim (Result-cases (content digest)) [
      | inr (x, e) ↦ absurd (cc (rw (good, e) at h))
      | inl (c, e) ↦ (digest, c, (==_iff _ _).0 good, e, rw (good, e) (put_self _ path c))
    ]
  ]

  -- The same of `write_mixed_tensor_file`, whose records have the codes 1, 2 and 3 for float32,
  -- float16 and int8, and which refuses any other dtype: either every array has one of the three,
  -- or the run raises.
  pub write_mixed_tensor_file-outcome :
      (path sha : Text) (ts : Tensors Array) (count : ℕ) (fs : Files)
      → (write_mixed_tensor_file np hash path sha ts count fs
          ≡ outcome fs path
              (from_hex sha)
              (λ digest. content_of np hash (coded_array np) digest ts count))
        × (All (IsCoded np) (arrays_of np ts)
            ⊎ ((x : Error) × ((write_mixed_tensor_file np hash path sha ts count fs).0 ≡ err x)))
  unfolding write_mixed_tensor_file
  write_mixed_tensor_file-outcome path sha ts count fs =
      let same_records : mixed_dtype np ≡ coded_array np = fun_ext (mixed_dtype-coded np) in
      let run : write_mixed_tensor_file np hash path sha ts count fs
          ≡ outcome fs path (from_hex sha)
              (λ digest. content_of np hash (coded_array np) digest ts count) =
        write_file-outcome (mixed_dtype np) path sha ts count fs
        ∙ ap
            (λ stored.
              outcome fs path (from_hex sha) (λ digest. content_of np hash stored digest ts count))
            same_records in
      (
        run,
        elim (Result-cases ((write_mixed_tensor_file np hash path sha ts count fs).0)) [
          | inr (x, e) ↦ inr (x, e)
          | inl (u, e) ↦
              let (digest, c, d32, hc, there) =
                outcome_written path fs (from_hex sha)
                  (λ digest. content_of np hash (coded_array np) digest ts count)
                  (ap (λ r. r.0) (sym run) ∙ e) in
              inl (content_of-IsCoded np hash digest ts count c hc)
        ],
      )

  committed-IsAtomic :
      (path sha : Text) (fs : Files) (r : Result Bytes)
      → IsDigest sha
      → IsAtomic path sha fs (committed fs path r)
  committed-IsAtomic path sha fs (ok c) valid = record {
    others = λ q a b. put_ne _ path q c a ∙ unlink_ne (partial_path path) fs q b;
    unchanged = λ x h. cc;
    cleaned = λ d.
        put_ne _ path (partial_path path) c
          (same_comm path (partial_path path) ∙ partial_path-ne path)
        ∙ unlink_self (partial_path path) fs;
    refused = λ bad. absurd (bad valid);
  }
  committed-IsAtomic path sha fs (err x) valid = record {
    others = λ q a b. unlink_ne (partial_path path) fs q b;
    unchanged = λ y h. unlink_ne (partial_path path) fs path (partial_path-ne path);
    cleaned = λ d. unlink_self (partial_path path) fs;
    refused = λ bad. absurd (bad valid);
  }

  untouched-IsAtomic :
      (path sha : Text) (fs : Files) (x : Error) → ¬ IsDigest sha → IsAtomic path sha fs (err x, fs)
  untouched-IsAtomic path sha fs x bad = record {
    others = λ q a b. refl;
    unchanged = λ y h. refl;
    cleaned = λ d. absurd (bad d);
    refused = λ d. (λ e. cc, refl);
  }

  outcome-IsAtomic :
      (path sha : Text) (fs : Files) (content : Bytes → Result Bytes)
      → IsAtomic path sha fs (outcome fs path (from_hex sha) content)
  outcome-IsAtomic path sha fs content = elim (Result-cases (from_hex sha)) [
    | inr (x, e) ↦ rw e (untouched-IsAtomic path sha fs x (λ d. let n = d.1 in cc))
    | inl (digest, e) ↦ elim (Bool-cases (length digest == 32)) [
      | inl good ↦
          rw (e, good)
            (committed-IsAtomic path sha fs (content digest) (digest, e, (==_iff _ _).0 good))
      | inr bad ↦
          rw (e, bad)
            (untouched-IsAtomic path sha fs _
              (λ d. let (k, e1, n) = d in wrong_length digest k bad (sym e ∙ e1) n))
    ]
  ]

  -- Either writer, with any tensors: no path but `path` and its temporary changes, and if it
  -- raises, `path` is as before too. If `source_sha256` stands for 32 bytes, the temporary is gone
  -- whether the writer returns or raises; if not, it raises and changes nothing.
  pub writers-IsAtomic :
      (path sha : Text) (ts : Tensors Array) (count : ℕ) (storage : Storage) (fs : Files)
      → IsAtomic path sha fs (write_tensor_file np hash path sha ts count storage fs)
        × IsAtomic path sha fs (write_mixed_tensor_file np hash path sha ts count fs)
  writers-IsAtomic path sha ts count storage fs = (
    rw write_tensor_file-outcome (outcome-IsAtomic path sha fs _),
    rw (write_mixed_tensor_file-outcome path sha ts count fs).0 (outcome-IsAtomic path sha fs _),
  )
