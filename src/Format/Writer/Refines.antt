-- ===== src/Format/Writer/Refines.antt =====
-- The writers of scripts/tlie_format.py against the layout: every branch of a run.
use tinyllama_inference_engi.Prelude.{
  ℕ, suc, ◌+◌, ◌^◌, ◌≡◌, refl, ◌∙◌, inl, inr, ◌&&◌, not, List, [], ◌∷◌, ◌++◌, append-nil,
  append_assoc, arith, ltb, leb, ◌==◌, if◌then◌else◌, Bool-cases, length, replicate, all,
  length-append, take-append, Bytes, Text,
}
use tinyllama_inference_engi.Result.{
  Result, Error, ok, err, value_error, struct_error, Result-cases,
}
use tinyllama_inference_engi.Result
use tinyllama_inference_engi.Exec.{raise_when}
use tinyllama_inference_engi.Files.{
  Files, put, unlink, with_open, partial_path, partial_path-ne, replace-put, unlink-put,
  unlink-unlink,
}
use tinyllama_inference_engi.Format.Hex.{from_hex}
use tinyllama_inference_engi.Format.Utf8.{encode}
use tinyllama_inference_engi.Format.Pack.{
  le_bytes, magic, pack_uint, pack_uints, pack_bytes, pack_header, pack_fields, length-le_bytes,
}
use tinyllama_inference_engi.Format.Numpy.{Numpy, Hash}
use tinyllama_inference_engi.Format.Layout.{
  Entry, dims_bytes, head_bytes, entry_bytes, entries_bytes, file_bytes, entry_of, entries_of,
  content_of,
}
use tinyllama_inference_engi.Format.Writer.{
  Tensors, done, yields, raises, padding, invalid_name, empty_shape, write_tensor, write_tensors,
  write_body, write_file,
}

pack_bytes-eq : (k : ℕ) (b : Bytes) → k ≡ length b → pack_bytes k b ≡ b
unfolding pack_bytes
pack_bytes-eq k b e = take-append b (replicate k 0) k e

pack_uints-eq :
    (ns : List ℕ)
    → pack_uints 8 ns ≡ (
        if all (λ d. ltb d (256 ^ 8)) ns
        then ok (dims_bytes ns)
        else err (struct_error "out of range"))
unfolding pack_uints pack_uint
pack_uints-eq [] = refl
pack_uints-eq (n ∷ ns) = ground (arith, pack_uints-eq ns)

-- What a run of the body on `out` has appended, by the entry that the tensor has.
abbrev Appends : Hash → Result Entry → Bytes → Result (Unit {0}) × Bytes → Type 0
Appends hash (ok e) out r = r ≡ (ok tt, out ++ entry_bytes hash (length out) e)
Appends hash (err x) out r = r.0 ≡ err x

-- What the writers leave: the whole file at `path`, or nothing new; never the temporary.
abbrev pub committed : Files → Text → Result Bytes → Result (Unit {0}) × Files
committed fs path (ok c) = (ok tt, put (unlink (partial_path path) fs) path c)
committed fs path (err x) = (err x, unlink (partial_path path) fs)

module _ (np : Numpy) (hash : Hash) where
  open np use {Array, shape, buffer}
  open hash use {sha256, length-sha256}

  pack_fields-eq :
      (e : Entry)
      → pack_fields (length e.encoded) e.code (length e.dims) (length e.payload) (sha256 e.payload)
        ≡ (if ltb (length e.encoded) (256 ^ 2)
              && (ltb e.code 256 && (ltb (length e.dims) 256 && ltb (length e.payload) (256 ^ 8)))
            then ok (head_bytes hash e)
            else err (struct_error "out of range"))
  unfolding pack_fields pack_uint head_bytes
  pack_fields-eq e = ground (arith, pack_bytes-eq 32 (sha256 e.payload), length-sha256 e.payload)

  entry_layout :
      (e : Entry) (out : Bytes)
      → (((out ++ head_bytes hash e) ++ dims_bytes e.dims) ++ e.encoded)
          ++ replicate
              (padding (length (((out ++ head_bytes hash e) ++ dims_bytes e.dims) ++ e.encoded)))
              0
          ++ e.payload
        ≡ out ++ entry_bytes hash (length out) e
  unfolding entry_bytes
  entry_layout e out =
      let meta : Bytes = head_bytes hash e ++ (dims_bytes e.dims ++ e.encoded) in
      let front : ((out ++ head_bytes hash e) ++ dims_bytes e.dims) ++ e.encoded ≡ out ++ meta =
        simp append_assoc in
      rw (front, length-append {0} out meta) (simp append_assoc)

  write_tensor-Appends :
      (stored : Array → Result (ℕ × Array)) (name : Text) (tensor : Array) (out : Bytes)
      → Appends hash
          (entry_of np stored name tensor)
          out
          (write_tensor np hash stored name tensor out)
  unfolding entry_of write_tensor
  write_tensor-Appends stored name tensor out = elim (Result-cases (encode name)) [
    | inr (x, e) ↦ rw e refl
    | inl (encoded, e) ↦ elim (Bool-cases (invalid_name encoded)) [
      | inl bad ↦ rw (e, bad) refl
      | inr good ↦ elim (Result-cases (stored tensor)) [
        | inr (x, s) ↦ rw (e, good, s) refl
        | inl ((code, array), s) ↦ elim (Bool-cases (empty_shape (shape array))) [
          | inl bad ↦ rw (e, good, s, bad) refl
          | inr full ↦
              let entry : Entry = record {
                name = name;
                encoded = encoded;
                code = code;
                dims = shape array;
                payload = buffer array;
              } in
              rw (e, good, s, full)
                (ground (
                  arith,
                  pack_fields-eq entry,
                  pack_uints-eq (shape array),
                  entry_layout entry out,
                ))
        ]
      ]
    ]
  ]

  abbrev AllAppend : Result (List Entry) → ℕ → Bytes → Result ℕ × Bytes → Type 0
  AllAppend (ok es) n out r = r ≡ (ok (n + length es), out ++ entries_bytes hash (length out) es)
  AllAppend (err x) n out r = r.0 ≡ err x

  more :
      (entry : Entry) (entries : List Entry) (n : ℕ) (out : Bytes)
      → let out' = out ++ entry_bytes hash (length out) entry in
        ◌≡◌ {A = Result ℕ × Bytes}
          (ok (n + 1 + length entries), out' ++ entries_bytes hash (length out') entries)
          (ok (n + suc (length entries)), out ++ entries_bytes hash (length out) (entry ∷ entries))
  unfolding entries_bytes
  more entry entries n out =
      let b : Bytes = entry_bytes hash (length out) entry in
      let e : n + 1 + length entries ≡ n + suc (length entries) = omega arith in
      rw (length-append {0} out b, append_assoc, e) refl

  write_tensors-AllAppend :
      (stored : Array → Result (ℕ × Array)) (ts : Tensors Array) (n : ℕ) (out : Bytes)
      → AllAppend (entries_of np stored ts) n out (write_tensors np hash stored ts n out)
  unfolding entries_of write_tensors entries_bytes
  write_tensors-AllAppend stored done n out =
      let e : out ++ [] ≡ out = append-nil out in rw e (ground arith)
  write_tensors-AllAppend stored (raises x) n out = refl
  write_tensors-AllAppend stored (yields name tensor rest) n out =
      elim (Result-cases (entry_of np stored name tensor)) [
        | inr (x, e) ↦
            let first : (write_tensor np hash stored name tensor out).0 ≡ err x =
              (rw e at (write_tensor-Appends stored name tensor out)) in
            rw (e, first) refl
        | inl (entry, e) ↦
            let out' : Bytes = out ++ entry_bytes hash (length out) entry in
            let first : write_tensor np hash stored name tensor out ≡ (ok tt, out') =
              (rw e at (write_tensor-Appends stored name tensor out)) in
            elim (Result-cases (entries_of np stored rest)) [
              | inr (x, es) ↦
                  let later : (write_tensors np hash stored rest (n + 1) out').0 ≡ err x =
                    (rw es at (write_tensors-AllAppend stored rest (n + 1) out')) in
                  rw (e, first, es) later
              | inl (entries, es) ↦
                  let later : write_tensors np hash stored rest (n + 1) out' ≡ (
                    ok (n + 1 + length entries),
                    out' ++ entries_bytes hash (length out') entries,
                  ) =
                    (rw es at (write_tensors-AllAppend stored rest (n + 1) out')) in
                  rw (e, first, es) (later ∙ more entry entries n out)
            ]
      ]

  pack_header-eq :
      (count : ℕ) (digest : Bytes)
      → length digest ≡ 32
      → pack_header count digest ≡ (
          if leb (256 ^ 4) count
          then err (struct_error "out of range")
          else ok (magic ++ (le_bytes 4 1 ++ (le_bytes 4 count ++ digest))))
  unfolding pack_header pack_uint
  pack_header-eq count digest h = ground (arith, pack_bytes-eq 32 digest, pack_bytes-eq 8 magic)

  pub length-header :
      (count : ℕ) (digest : Bytes)
      → length digest ≡ 32
      → length (magic ++ (le_bytes 4 1 ++ (le_bytes 4 count ++ digest))) ≡ 48
  length-header count digest h =
      rw
        (
          length-append {0} (le_bytes 4 1) (le_bytes 4 count ++ digest),
          length-append {0} (le_bytes 4 count) digest,
          length-le_bytes,
          length-le_bytes,
          h,
        )
        refl

  abbrev Holds : Result Bytes → Result (Unit {0}) × Bytes → Type 0
  Holds (ok c) r = r ≡ (ok tt, c)
  Holds (err x) r = r.0 ≡ err x

  counted :
      (es : List Entry) (count : ℕ) (digest : Bytes)
      → Holds
          (Result.◌>>=◌
            (Result.raise_if (not (length es == count)) (value_error "tensor count mismatch"))
            (λ _. ok (file_bytes hash digest es)))
          (raise_when
            (not (length es == count))
            (value_error "tensor count mismatch")
            ((magic ++ (le_bytes 4 1 ++ (le_bytes 4 count ++ digest))) ++ entries_bytes hash 48 es))
  unfolding file_bytes
  counted es count digest = ground arith

  write_body-Holds :
      (stored : Array → Result (ℕ × Array)) (digest : Bytes) (ts : Tensors Array) (count : ℕ)
      → length digest ≡ 32
      → Holds
          (content_of np hash stored digest ts count)
          (write_body np hash stored digest ts count [])
  unfolding content_of write_body file_bytes
  write_body-Holds stored digest ts count h = elim (Bool-cases (leb (256 ^ 4) count)) [
    | inl big ↦
        let header : pack_header count digest ≡ err (struct_error "out of range") =
          ground (arith, pack_header-eq count digest h) in
        rw (header, big) refl
    | inr small ↦
        let out : Bytes = magic ++ (le_bytes 4 1 ++ (le_bytes 4 count ++ digest)) in
        let header : pack_header count digest ≡ ok out =
          ground (arith, pack_header-eq count digest h) in
        elim (Result-cases (entries_of np stored ts)) [
          | inr (x, e) ↦
              let body : (write_tensors np hash stored ts 0 out).0 ≡ err x =
                (rw e at (write_tensors-AllAppend stored ts 0 out)) in
              rw (header, small, e, body) refl
          | inl (es, e) ↦
              let body : write_tensors np hash stored ts 0 out
                  ≡ (ok (0 + length es), out ++ entries_bytes hash (length out) es) =
                (rw e at (write_tensors-AllAppend stored ts 0 out)) in
              let at : length out ≡ 48 = length-header count digest h in
              let plus : 0 + length es ≡ length es = omega arith in
              rw (header, small, e, body, at, plus) (counted es count digest)
        ]
  ]

  -- A run of the writer, branch by branch. When `source_sha256` is no text of 32 hexadecimal bytes,
  -- nothing is touched. Otherwise the temporary is gone at the end, and either the file at `path`
  -- holds exactly the layout of all the tensors, or the first exception is raised and no other
  -- path has changed.
  pub write_file-eq :
      (stored : Array → Result (ℕ × Array)) (path sha : Text) (ts : Tensors Array) (count : ℕ)
      → (digest : Bytes) → from_hex sha ≡ ok digest
      → length digest ≡ 32
      → (fs : Files)
      → write_file np hash stored path sha ts count fs
        ≡ committed fs path (content_of np hash stored digest ts count)
  unfolding write_file with_open
  write_file-eq stored path sha ts count digest e h fs =
      let body = write_body-Holds stored digest ts count h in
      elim (Result-cases (content_of np hash stored digest ts count)) [
        | inl (c, k) ↦
            let body' : write_body np hash stored digest ts count [] ≡ (ok tt, c) =
              (rw k at body) in
            rw (e, h, body', k, replace-put (partial_path path) path fs c (partial_path-ne path))
              refl
        | inr (x, k) ↦
            let body' : (write_body np hash stored digest ts count []).0 ≡ err x = (rw k at body) in
            rw (e, h, body', k, unlink-put, unlink-unlink) refl
      ]
