-- ===== src/Format/Writer/Coded.antt =====
-- The records of `write_mixed_tensor_file` of scripts/tlie_format.py: their dtype codes, written out.
use tinyllama_inference_engi.Prelude.{
  some, List, [], ◌∷◌, All, leb, not, ap, ◌^◌, ℕ, ◌≡◌, ◌≢◌, refl, sym, none, length, Bytes, Text,
}
use tinyllama_inference_engi.Result.{
  Result, ok, err, value_error, struct_error, raise_if, >>=-eq-ok, ok-injective,
}
use tinyllama_inference_engi.Format.Numpy.{Numpy, Hash, Dtype, float32, float16, int8, other_dtype}
use tinyllama_inference_engi.Format.Utf8.{encode}
use tinyllama_inference_engi.Format.Layout.{Entry, fits, entry_of, entries_of, content_of}
use tinyllama_inference_engi.Format.Writer.{
  Tensors, done, yields, raises, dtype_code, invalid_name, empty_shape, mixed_dtype,
}

module _ (np : Numpy) where
  open np use {Array, shape, dtype, buffer, ascontiguous}

  -- The arrays that the iterable yields, in their order
  abbrev pub arrays_of : Tensors Array → List Array
  arrays_of done = []
  arrays_of (raises e) = []
  arrays_of (yields name tensor rest) = tensor ∷ arrays_of rest

  pub entry_of_stored :
      (stored : Array → Result (ℕ × Array)) (name : Text) (tensor : Array) (e : Entry)
      → entry_of np stored name tensor ≡ ok e
      → (code : ℕ) × (array : Array) × (stored tensor ≡ ok (code, array))
        × (e.payload ≡ buffer array)
  unfolding entry_of
  entry_of_stored stored name tensor e h =
      let (encoded, he, h1) = >>=-eq-ok (encode name) _ h in
      let (u, valid, h2) =
        >>=-eq-ok (raise_if (invalid_name encoded) (value_error "invalid tensor name")) _ h1 in
      let (pair, hs, h3) = >>=-eq-ok (stored tensor) _ h2 in
      let (u1, full, h4) =
        >>=-eq-ok
          (raise_if (empty_shape (shape pair.1)) (value_error "tensor must have a non-empty shape"))
          _ h3 in
      let (u2, room, h5) =
        >>=-eq-ok
          (raise_if (not (fits (length encoded) pair.0 (shape pair.1) (length (buffer pair.1))))
            (struct_error "out of range"))
          _ h4 in
      (pair.0, pair.1, hs, ap (λ r. r.payload) (sym (ok-injective h5)))

  -- What is true of every array that can be stored, of a list of tensors that has entries
  All-stored :
      (stored : Array → Result (ℕ × Array)) (P : Array → Type 0)
      → ((t : Array) (code : ℕ) (array : Array) → stored t ≡ ok (code, array) → P t)
      → (ts : Tensors Array) (es : List Entry) → entries_of np stored ts ≡ ok es
      → All P (arrays_of ts)
  unfolding entries_of
  All-stored stored P p done es h = tt
  All-stored stored P p (raises e) es h = cc
  All-stored stored P p (yields name tensor rest) es h =
      let (e, he, h1) = >>=-eq-ok (entry_of np stored name tensor) _ h in
      let (more, hes, h2) = >>=-eq-ok (entries_of np stored rest) _ h1 in
      let (code, array, hs, eq) = entry_of_stored stored name tensor e he in
      (p tensor code array hs, All-stored stored P p rest more hes)

  -- The dtype codes of scripts/tlie_format.py: docs/adr/0001 names 1, and docs/adr/0003 names 3
  abbrev pub coded : Dtype → Array → Result (ℕ × Array)
  coded float32 array = ok (1, array)
  coded float16 array = ok (2, array)
  coded int8 array = ok (3, array)
  coded other_dtype array = err (value_error "unsupported mixed tensor dtype")

  -- A record of a mixed file: the array in C order, with the code of its dtype
  abbrev pub coded_array : Array → Result (ℕ × Array)
  coded_array tensor = coded (dtype (ascontiguous tensor)) (ascontiguous tensor)

  coded_lem :
      (d : Dtype) (array : Array)
      → (elim (dtype_code d) [
        | none ↦ err (value_error "unsupported mixed tensor dtype")
        | some code ↦ ok (code, array)
      ])
        ≡ coded d array
  unfolding dtype_code
  coded_lem float32 array = refl
  coded_lem float16 array = refl
  coded_lem int8 array = refl
  coded_lem other_dtype array = refl

  pub mixed_dtype-coded : (tensor : Array) → mixed_dtype np tensor ≡ coded_array tensor
  unfolding mixed_dtype
  mixed_dtype-coded tensor = coded_lem (dtype (ascontiguous tensor)) (ascontiguous tensor)

  -- A dtype that a mixed file can hold
  abbrev pub IsCoded : Array → Type 0
  IsCoded tensor = dtype (ascontiguous tensor) ≢ other_dtype

  coded_array-IsCoded :
      (tensor : Array) (code : ℕ) (array : Array)
      → coded_array tensor ≡ ok (code, array)
      → IsCoded tensor
  coded_array-IsCoded tensor code array h e = cc (rw e at h)

  coded-eq :
      (d : Dtype) (from array : Array) (code : ℕ) → coded d from ≡ ok (code, array) → array ≡ from
  coded-eq float32 from array code h = cc
  coded-eq float16 from array code h = cc
  coded-eq int8 from array code h = cc
  coded-eq other_dtype from array code h = cc

  pub coded_array-eq :
      (tensor : Array) (code : ℕ) (array : Array)
      → coded_array tensor ≡ ok (code, array)
      → array ≡ ascontiguous tensor
  coded_array-eq tensor code array h =
      coded-eq (dtype (ascontiguous tensor)) (ascontiguous tensor) array code h

  pub content_of-IsCoded :
      (hash : Hash) (digest : Bytes) (ts : Tensors Array) (count : ℕ) (c : Bytes)
      → content_of np hash coded_array digest ts count ≡ ok c
      → All IsCoded (arrays_of ts)
  unfolding content_of
  content_of-IsCoded hash digest ts count c h =
      let (u, small, h1) =
        >>=-eq-ok (raise_if (leb (256 ^ 4) count) (struct_error "out of range")) _ h in
      let (es, he, h2) = >>=-eq-ok (entries_of np coded_array ts) _ h1 in
      All-stored coded_array IsCoded coded_array-IsCoded ts es he
