-- ===== src/Format/Writer/Aligned.antt =====
-- Where the payloads stand in a file that `write_tensor_file` or `write_mixed_tensor_file` of
-- scripts/tlie_format.py has written.
use tinyllama_inference_engi.Prelude.{
  ℕ, ◌+◌, ◌%◌, ◌^◌, ◌≡◌, refl, sym, ap, ◌∙◌, some, not, List, [], ◌∷◌, ◌++◌, append_assoc, arith,
  ◌==◌, leb, length, replicate, length-append, length-replicate, Bytes, Text,
}
use mathlib.Core.Path.{subst}
use tinyllama_inference_engi.Result.{
  Result, ok, value_error, struct_error, raise_if, >>=-eq-ok, ok-injective,
}
use tinyllama_inference_engi.Files.{Files}
use tinyllama_inference_engi.Format.Hex.{from_hex}
use tinyllama_inference_engi.Format.Pack.{le_bytes, magic}
use tinyllama_inference_engi.Format.Numpy.{Numpy, Hash, float32, float16}
use tinyllama_inference_engi.Format.Layout.{
  Entry, head_bytes, dims_bytes, entry_bytes, entries_bytes, file_bytes, entry_of, entries_of,
  content_of,
}
use tinyllama_inference_engi.Format.Writer.{
  Tensors, done, yields, raises, Storage, store_float32, store_float16, padding, fixed_dtype,
  write_tensor_file, write_mixed_tensor_file,
}
use tinyllama_inference_engi.Format.Writer.Refines.{length-header}
use tinyllama_inference_engi.Format.Writer.Coded.{entry_of_stored, coded_array, coded_array-eq}
use tinyllama_inference_engi.Format.Writer.Outcome.{
  outcome, outcome_written, write_tensor_file-outcome, write_mixed_tensor_file-outcome,
}

-- The content, which begins at an offset, is these payloads in their order, each behind bytes of its
-- own and at a multiple of 64.
abbrev pub Aligned : ℕ → List Bytes → Bytes → Type 0
Aligned at [] content = content ≡ []
Aligned at (payload ∷ rest) content =
    (front : Bytes) × (remainder : Bytes) × (content ≡ front ++ (payload ++ remainder))
    × ((at + length front) % 64 ≡ 0)
    × Aligned (at + length (front ++ payload)) rest remainder

-- The file at a path: a header of 48 bytes, and the payloads.
pub record AlignedFile (payloads : List Bytes) (fs : Files) (path : Text) : Type 0 where
  pub header : Bytes
  pub body : Bytes
  pub content : fs path ≡ some (header ++ body)
  pub header_size : length header ≡ 48
  pub aligned : Aligned 48 payloads body

module _ (hash : Hash) where
  entry_bytes-Aligned :
      (at : ℕ) (e : Entry) (rest : Bytes) (payloads : List Bytes)
      → Aligned (at + length (entry_bytes hash at e)) payloads rest
      → Aligned at (e.payload ∷ payloads) (entry_bytes hash at e ++ rest)
  unfolding entry_bytes padding
  entry_bytes-Aligned at e rest payloads more =
      let meta : Bytes = head_bytes hash e ++ (dims_bytes e.dims ++ e.encoded) in
      let filler : Bytes = replicate (padding (at + length meta)) 0 in
      let whole : entry_bytes hash at e ≡ (meta ++ filler) ++ e.payload =
        sym (append_assoc meta filler e.payload) in
      (
        meta ++ filler,
        rest,
        ap (λ b. b ++ rest) whole ∙ append_assoc (meta ++ filler) e.payload rest,
        omega (
          arith,
          length-append {0} meta filler,
          length-replicate {A = ℕ} (padding (at + length meta)) 0,
        ),
        subst (λ b. Aligned (at + length b) payloads rest) whole more,
      )

  payloads_in : List Entry → List Bytes
  payloads_in [] = []
  payloads_in (e ∷ es) = e.payload ∷ payloads_in es

  entries_bytes-Aligned :
      (at : ℕ) (es : List Entry) → Aligned at (payloads_in es) (entries_bytes hash at es)
  unfolding entries_bytes payloads_in
  entries_bytes-Aligned at [] = refl
  entries_bytes-Aligned at (e ∷ es) =
      entry_bytes-Aligned at e (entries_bytes hash (at + length (entry_bytes hash at e)) es)
        (payloads_in es) (entries_bytes-Aligned (at + length (entry_bytes hash at e)) es)

module _ (np : Numpy) (hash : Hash) where
  open np use {Array, asarray, ascontiguous, buffer}

  -- The bytes of the arrays that the iterable yields, after a conversion
  abbrev pub payloads_of : (Array → Array) → Tensors Array → List Bytes
  payloads_of convert done = []
  payloads_of convert (raises e) = []
  payloads_of convert (yields name tensor rest) = buffer (convert tensor) ∷ payloads_of convert rest

  abbrev pub converted : Storage → Array → Array
  converted store_float32 tensor = asarray float32 tensor
  converted store_float16 tensor = asarray float16 tensor

  -- A record holds its tensor after the conversion.
  abbrev Converts : (Array → Result (ℕ × Array)) → (Array → Array) → Type 0
  Converts stored convert =
      (t : Array) (code : ℕ) (array : Array) → stored t ≡ ok (code, array) → array ≡ convert t

  entries_of-payloads :
      (stored : Array → Result (ℕ × Array)) (convert : Array → Array)
      → Converts stored convert
      → (ts : Tensors Array) (es : List Entry) → entries_of np stored ts ≡ ok es
      → payloads_in hash es ≡ payloads_of convert ts
  unfolding entries_of payloads_in
  entries_of-payloads stored convert v done es h = ap (payloads_in hash) (sym (ok-injective h))
  entries_of-payloads stored convert v (raises e) es h = cc
  entries_of-payloads stored convert v (yields name tensor rest) es h =
      let (e, he, h1) = >>=-eq-ok (entry_of np stored name tensor) _ h in
      let (more, hes, h2) = >>=-eq-ok (entries_of np stored rest) _ h1 in
      let (code, array, hs, eq) = entry_of_stored np stored name tensor e he in
      let here : e.payload ≡ buffer (convert tensor) = eq ∙ ap buffer (v tensor code array hs) in
      let others = entries_of-payloads stored convert v rest more hes in
      ap (payloads_in hash) (sym (ok-injective h2))
      ∙ ap (λ p. p ∷ payloads_in hash more) here
      ∙ ap (λ ps. buffer (convert tensor) ∷ ps) others

  content_of-Aligned :
      (stored : Array → Result (ℕ × Array)) (convert : Array → Array)
      → Converts stored convert
      → (digest : Bytes) (ts : Tensors Array) (count : ℕ) (c : Bytes) → length digest ≡ 32
      → content_of np hash stored digest ts count ≡ ok c
      → (header : Bytes) × (body : Bytes) × (c ≡ header ++ body)
        × (length header ≡ 48)
        × Aligned 48 (payloads_of convert ts) body
  unfolding content_of file_bytes
  content_of-Aligned stored convert v digest ts count c d32 h =
      let (u, small, h1) =
        >>=-eq-ok (raise_if (leb (256 ^ 4) count) (struct_error "out of range")) _ h in
      let (es, he, h2) = >>=-eq-ok (entries_of np stored ts) _ h1 in
      let (u1, counted, h3) =
        >>=-eq-ok (raise_if (not (length es == count)) (value_error "tensor count mismatch")) _
          h2 in
      (
        magic ++ (le_bytes 4 1 ++ (le_bytes 4 (length es) ++ digest)),
        entries_bytes hash 48 es,
        sym (ok-injective h3),
        length-header np hash (length es) digest d32,
        subst (λ ps. Aligned 48 ps (entries_bytes hash 48 es))
            (entries_of-payloads stored convert v ts es he) (entries_bytes-Aligned hash 48 es),
      )

  fixed_dtype-Converts : (storage : Storage) → Converts (fixed_dtype np storage) (converted storage)
  unfolding fixed_dtype
  fixed_dtype-Converts store_float32 t code array h = cc
  fixed_dtype-Converts store_float16 t code array h = cc

  outcome-AlignedFile :
      (stored : Array → Result (ℕ × Array)) (convert : Array → Array)
      → Converts stored convert
      → (path sha : Text) (ts : Tensors Array) (count : ℕ) (fs : Files)
      → (outcome fs path (from_hex sha) (λ digest. content_of np hash stored digest ts count)).0
        ≡ ok tt
      → AlignedFile
          (payloads_of convert ts)
          (outcome fs path (from_hex sha) (λ digest. content_of np hash stored digest ts count)).1
          path
  outcome-AlignedFile stored convert v path sha ts count fs h =
      let (digest, c, d32, hc, there) =
        outcome_written np hash path fs (from_hex sha)
          (λ digest. content_of np hash stored digest ts count) h in
      let (header, body, parts, sized, aligned) =
        content_of-Aligned stored convert v digest ts count c d32 hc in
      record {
        header = header;
        body = body;
        content = there ∙ ap some parts;
        header_size = sized;
        aligned = aligned;
      }

  -- If either writer returns, the file is a header of 48 bytes and the payloads of all the tensors in
  -- their order, each at a multiple of 64 from the start of the file: the bytes of the array after
  -- the conversion to the stored dtype, or after the one to C order.
  pub writers-AlignedFile :
      (path sha : Text) (ts us : Tensors Array) (count other : ℕ) (storage : Storage) (fs : Files)
      → (write_tensor_file np hash path sha ts count storage fs).0 ≡ ok tt
      → (write_mixed_tensor_file np hash path sha us other fs).0 ≡ ok tt
      → AlignedFile
          (payloads_of (converted storage) ts)
          (write_tensor_file np hash path sha ts count storage fs).1
          path
        × AlignedFile
            (payloads_of ascontiguous us)
            (write_mixed_tensor_file np hash path sha us other fs).1
            path
  writers-AlignedFile path sha ts us count other storage fs h k =
      let fixed = write_tensor_file-outcome np hash path sha ts count storage fs in
      let mixed = (write_mixed_tensor_file-outcome np hash path sha us other fs).0 in
      (
        rw fixed (
            outcome-AlignedFile (fixed_dtype np storage) (converted storage)
              (fixed_dtype-Converts storage) path sha ts count fs (rw fixed at h)),
        rw mixed (
            outcome-AlignedFile (coded_array np) ascontiguous (coded_array-eq np) path sha us other
              fs (rw mixed at k)),
      )
