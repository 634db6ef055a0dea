-- ===== src/Format/Reader/RoundTrip.antt =====
-- Reading back what the writer lays out.
use tinyllama_inference_engi.Prelude.{
  ℕ, ◌+◌, ◌-◌, ◌*◌, ◌%◌, ◌^◌, ◌<◌, ◌≡◌, refl, sym, ◌++◌, append_assoc, arith, length, replicate,
  All, length-append, length-replicate, Bytes, same_refl,
}
use tinyllama_inference_engi.Result.{ok}
use tinyllama_inference_engi.Format.Utf8.{decode}
use tinyllama_inference_engi.Format.Pack.{le_bytes, le_value, length-le_bytes}
use tinyllama_inference_engi.Format.Numpy.{Hash, prod}
use tinyllama_inference_engi.Format.Writer.{padding}
use tinyllama_inference_engi.Format.Layout.{Entry, dims_bytes, head_bytes, entry_bytes}
use tinyllama_inference_engi.Format.Reader.{field, unpack_dims, read_tensor}
use tinyllama_inference_engi.Format.Reader.Fields.{
  field-at, uint-at, length-dims_bytes, unpack_dims-at,
}

-- A float32 tensor that the container can hold.
pub record IsGolden (e : Entry) : Type 0 where
  pub readable : decode e.encoded ≡ ok e.name
  pub is_float32 : e.code ≡ 1
  pub short_name : length e.encoded < 256 ^ 2
  pub some_dims : 0 < length e.dims
  pub few_dims : length e.dims < 256
  pub small_dims : All (λ d. d < 256 ^ 8) e.dims
  pub small_payload : length e.payload < 256 ^ 8
  pub sized : prod e.dims * 4 ≡ length e.payload

module _ (hash : Hash) (pre : Bytes) (e : Entry) (post : Bytes) where
  open hash use {sha256, length-sha256}

  abbrev a : Bytes
  a = le_bytes 2 (length e.encoded)

  abbrev b : Bytes
  b = le_bytes 1 e.code

  abbrev c : Bytes
  c = le_bytes 1 (length e.dims)

  abbrev d : Bytes
  d = le_bytes 8 (length e.payload)

  abbrev z : Bytes
  z = dims_bytes e.dims

  abbrev k : Bytes
  k = replicate (padding (length pre + length (head_bytes hash e ++ (z ++ e.encoded)))) 0

  abbrev whole : Bytes
  whole = pre ++ (entry_bytes hash (length pre) e ++ post)

  length-head : length (head_bytes hash e) ≡ 44
  unfolding head_bytes
  length-head =
      rw
        (
          length-append {0} a (b ++ (c ++ (d ++ sha256 e.payload))),
          length-append {0} b (c ++ (d ++ sha256 e.payload)),
          length-append {0} c (d ++ sha256 e.payload),
          length-append {0} d (sha256 e.payload),
          length-sha256,
        )
        (omega (
          arith,
          length-le_bytes 2 (length e.encoded),
          length-le_bytes 1 e.code,
          length-le_bytes 1 (length e.dims),
          length-le_bytes 8 (length e.payload),
        ))

  at_a : length e.encoded < 256 ^ 2 → le_value (field whole (length pre) 2) ≡ length e.encoded
  unfolding entry_bytes head_bytes
  at_a h =
      let split : whole
          ≡ pre
            ++ (a
                ++ ((b ++ (c ++ (d ++ sha256 e.payload)))
                    ++ ((z ++ e.encoded) ++ ((k ++ e.payload) ++ post)))) =
        simp append_assoc in
      rw split (uint-at pre _ 2 (length e.encoded) (length pre) refl h)

  at_b : e.code < 256 → le_value (field whole (length pre + 2) 1) ≡ e.code
  unfolding entry_bytes head_bytes
  at_b h =
      let split : whole
          ≡ (pre ++ a)
            ++ (b
                ++ ((c ++ (d ++ sha256 e.payload))
                    ++ ((z ++ e.encoded) ++ ((k ++ e.payload) ++ post)))) =
        simp append_assoc in
      rw split (
        uint-at (pre ++ a) _ 1 e.code (length pre + 2)
          (omega (arith, length-append {0} pre a, length-le_bytes 2 (length e.encoded))) h)

  at_payload :
      (o : ℕ)
      → o ≡ length pre + length (head_bytes hash e ++ (z ++ e.encoded)) + length k
      → field whole o (length e.payload) ≡ e.payload
  unfolding entry_bytes
  at_payload o h =
      let m : Bytes = head_bytes hash e ++ (z ++ e.encoded) in
      let split : whole ≡ ((pre ++ m) ++ k) ++ (e.payload ++ post) = simp append_assoc in
      rw split (
        field-at ((pre ++ m) ++ k) e.payload post o (length e.payload)
          (omega (arith, h, length-append {0} (pre ++ m) k, length-append {0} pre m)) refl)

  at_c : length e.dims < 256 → le_value (field whole (length pre + 3) 1) ≡ length e.dims
  unfolding entry_bytes head_bytes
  at_c h =
      let split : whole
          ≡ ((pre ++ a) ++ b)
            ++ (c
                ++ ((d ++ sha256 e.payload) ++ ((z ++ e.encoded) ++ ((k ++ e.payload) ++ post)))) =
        simp append_assoc in
      rw split (
        uint-at ((pre ++ a) ++ b) _ 1 (length e.dims) (length pre + 3)
          (omega (
            arith,
            length-append {0} (pre ++ a) b,
            length-append {0} pre a,
            length-le_bytes 2 (length e.encoded),
            length-le_bytes 1 e.code,
          ))
          h)

  at_d : length e.payload < 256 ^ 8 → le_value (field whole (length pre + 4) 8) ≡ length e.payload
  unfolding entry_bytes head_bytes
  at_d h =
      let split : whole
          ≡ (((pre ++ a) ++ b) ++ c)
            ++ (d ++ (sha256 e.payload ++ ((z ++ e.encoded) ++ ((k ++ e.payload) ++ post)))) =
        simp append_assoc in
      rw split (
        uint-at (((pre ++ a) ++ b) ++ c) _ 8 (length e.payload) (length pre + 4)
          (omega (
            arith,
            length-append {0} ((pre ++ a) ++ b) c,
            length-append {0} (pre ++ a) b,
            length-append {0} pre a,
            length-le_bytes 2 (length e.encoded),
            length-le_bytes 1 e.code,
            length-le_bytes 1 (length e.dims),
          ))
          h)

  at_checksum : field whole (length pre + 12) 32 ≡ sha256 e.payload
  unfolding entry_bytes head_bytes
  at_checksum =
      let split : whole
          ≡ ((((pre ++ a) ++ b) ++ c) ++ d)
            ++ (sha256 e.payload ++ ((z ++ e.encoded) ++ ((k ++ e.payload) ++ post))) =
        simp append_assoc in
      rw split (
        field-at ((((pre ++ a) ++ b) ++ c) ++ d) (sha256 e.payload) _ (length pre + 12) 32
          (omega (
            arith,
            length-append {0} (((pre ++ a) ++ b) ++ c) d,
            length-append {0} ((pre ++ a) ++ b) c,
            length-append {0} (pre ++ a) b,
            length-append {0} pre a,
            length-le_bytes 2 (length e.encoded),
            length-le_bytes 1 e.code,
            length-le_bytes 1 (length e.dims),
            length-le_bytes 8 (length e.payload),
          ))
          (sym (length-sha256 e.payload)))

  at_dims :
      All (λ d. d < 256 ^ 8) e.dims → unpack_dims (length e.dims) whole (length pre + 44) ≡ e.dims
  unfolding entry_bytes
  at_dims h =
      let split : whole
          ≡ (pre ++ head_bytes hash e) ++ (z ++ (e.encoded ++ ((k ++ e.payload) ++ post))) =
        simp append_assoc in
      rw split (
        unpack_dims-at (pre ++ head_bytes hash e) e.dims _ (length pre + 44)
          (omega (arith, length-append {0} pre (head_bytes hash e), length-head)) h)

  at_name :
      (o : ℕ)
      → o ≡ length pre + 44 + length e.dims * 8
      → field whole o (length e.encoded) ≡ e.encoded
  unfolding entry_bytes
  at_name o h =
      let split : whole
          ≡ ((pre ++ head_bytes hash e) ++ z) ++ (e.encoded ++ ((k ++ e.payload) ++ post)) =
        simp append_assoc in
      rw split (
        field-at ((pre ++ head_bytes hash e) ++ z) e.encoded _ o (length e.encoded)
          (omega (
            arith,
            h,
            length-append {0} (pre ++ head_bytes hash e) z,
            length-append {0} pre (head_bytes hash e),
            length-head,
            length-dims_bytes e.dims,
          ))
          refl)

  length-meta :
      length (head_bytes hash e ++ (z ++ e.encoded)) ≡ 44 + length e.dims * 8 + length e.encoded
  length-meta = omega (
    arith,
    length-append {0} (head_bytes hash e) (z ++ e.encoded),
    length-append {0} z e.encoded,
    length-head,
    length-dims_bytes e.dims,
  )

  length-entry :
      length (entry_bytes hash (length pre) e)
      ≡ 44
        + length e.dims * 8
        + length e.encoded
        + (padding (length pre + (44 + length e.dims * 8 + length e.encoded)) + length e.payload)
  unfolding entry_bytes
  length-entry =
      rw
        (
          length-append {0} (head_bytes hash e ++ (z ++ e.encoded)) (k ++ e.payload),
          length-append {0} k e.payload,
          length-replicate {A = ℕ}
              (padding (length pre + length (head_bytes hash e ++ (z ++ e.encoded)))) 0,
          length-meta,
        )
        refl

  length-whole :
      length whole ≡ length pre + (length (entry_bytes hash (length pre) e) + length post)
  length-whole = omega (
    arith,
    length-append {0} pre (entry_bytes hash (length pre) e ++ post),
    length-append {0} (entry_bytes hash (length pre) e) post,
  )

  pub read_tensor-entry :
      IsGolden e
      → read_tensor hash whole (length pre)
        ≡ ok (e.name, e.payload, length pre + length (entry_bytes hash (length pre) e))
  unfolding read_tensor padding
  read_tensor-entry g =
      let o : ℕ = length pre + 44 + length e.dims * 8 + length e.encoded in
      let o' : ℕ = o + (64 - o % 64) % 64 in
      let filler : length k
          ≡ padding (length pre + length (head_bytes hash e ++ (z ++ e.encoded))) =
        length-replicate _ _ in
      let at_o : o' ≡ length pre + length (head_bytes hash e ++ (z ++ e.encoded)) + length k =
        omega (arith, filler, length-meta) in
      let size : length whole ≡ o' + length e.payload + length post =
        omega (arith, length-whole, length-entry) in
      let next : o' + length e.payload ≡ length pre + length (entry_bytes hash (length pre) e) =
        omega (arith, length-entry) in
      let code : e.code < 256 = omega arith in
      rw
        (
          at_a g.short_name,
          at_b code,
          at_c g.few_dims,
          at_d g.small_payload,
          at_checksum,
          at_dims g.small_dims,
          at_name (length pre + 44 + length e.dims * 8) refl,
          g.readable,
          at_payload o' at_o,
        )
        (ground (arith, g.some_dims, g.sized, g.is_float32, same_refl (sha256 e.payload)))
