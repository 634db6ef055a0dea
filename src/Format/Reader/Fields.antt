-- ===== src/Format/Reader/Fields.antt =====
-- The fields of a byte string, by their offsets.
use tinyllama_inference_engi.Prelude.{
  ℕ, ◌+◌, ◌*◌, ◌^◌, ◌<◌, ◌≡◌, refl, sym, List, [], ◌∷◌, ◌++◌, append_assoc, arith, length, All,
  length-append, take-append, drop-append, Bytes,
}
use tinyllama_inference_engi.Format.Pack.{le_bytes, le_value, length-le_bytes, le_value-le_bytes}
use tinyllama_inference_engi.Format.Layout.{dims_bytes}
use tinyllama_inference_engi.Format.Reader.{field, unpack_dims}

-- What stands between `before` and `after` is read back.
pub field-at :
    (before mid after : Bytes) (o n : ℕ)
    → o ≡ length before
    → n ≡ length mid
    → field (before ++ (mid ++ after)) o n ≡ mid
unfolding field
field-at before mid after o n ho hn =
    rw (drop-append before (mid ++ after) o ho, take-append mid after n hn) refl

pub uint-at :
    (before after : Bytes) (w v o : ℕ)
    → o ≡ length before
    → v < 256 ^ w
    → le_value (field (before ++ (le_bytes w v ++ after)) o w) ≡ v
uint-at before after w v o ho hv =
    rw
      (
        field-at before (le_bytes w v) after o w ho (sym (length-le_bytes w v)),
        le_value-le_bytes w v hv,
      )
      refl

pub length-dims_bytes : (ds : List ℕ) → length (dims_bytes ds) ≡ length ds * 8
length-dims_bytes [] = refl
length-dims_bytes (d ∷ ds) =
    rw length-append (omega (arith, length-dims_bytes ds, length-le_bytes 8 d))

pub unpack_dims-at :
    (before : Bytes) (ds : List ℕ) (after : Bytes) (o : ℕ)
    → o ≡ length before
    → All (λ d. d < 256 ^ 8) ds
    → unpack_dims (length ds) (before ++ (dims_bytes ds ++ after)) o ≡ ds
unfolding unpack_dims
unpack_dims-at before [] after o ho h = refl
unpack_dims-at before (d ∷ ds) after o ho h =
    let more : Bytes = dims_bytes ds ++ after in
    let split : before ++ (le_bytes 8 d ++ more) ≡ (before ++ le_bytes 8 d) ++ more =
      sym (append_assoc before (le_bytes 8 d) more) in
    let split' : before ++ ((le_bytes 8 d ++ dims_bytes ds) ++ after)
        ≡ before ++ (le_bytes 8 d ++ more) =
      simp append_assoc in
    let next : unpack_dims (length ds) ((before ++ le_bytes 8 d) ++ more) (o + 8) ≡ ds =
      unpack_dims-at (before ++ le_bytes 8 d) ds after (o + 8)
        (omega (arith, length-append {0} before (le_bytes 8 d), length-le_bytes 8 d, ho)) h.1 in
    let first : le_value (field (before ++ (le_bytes 8 d ++ more)) o 8) ≡ d =
      uint-at before more 8 d o ho h.0 in
    rw (split', first, split, next) refl
