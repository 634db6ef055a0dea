-- ===== src/Format/Pack.antt =====
-- `struct.pack` and `struct.unpack_from` with the codes B, H, I, Q and s, little-endian.
use native.Mathlib.Nat.{pow-suc}
use tinyllama_inference_engi.Prelude.{
  ℕ, zero, suc, ◌+◌, ◌*◌, ◌/◌, ◌%◌, ◌^◌, ◌<◌, ◌≡◌, refl, ap, List, [], ◌∷◌, ◌++◌, arith, ltb,
  if◌then◌else◌, length, take, replicate, All, Bytes, IsByte, codes,
}
use tinyllama_inference_engi.Result.{Result, ok, err, struct_error, ◌>>=◌}

-- The `w` bytes of a number, the lowest first.
unfoldable pub le_bytes : ℕ → ℕ → Bytes
le_bytes zero n = []
le_bytes (suc w) n = (n % 256) ∷ le_bytes w (n / 256)

pub le_value : Bytes → ℕ
le_value [] = 0
le_value (b ∷ bs) = b + 256 * le_value bs

-- A number that has no room is a `struct.error`.
unfoldable pub pack_uint : ℕ → ℕ → Result Bytes
pack_uint w n = if ltb n (256 ^ w) then ok (le_bytes w n) else err (struct_error "out of range")

-- `struct.pack(f"<{len(ns)}Q", *ns)`
unfoldable pub pack_uints : ℕ → List ℕ → Result Bytes
pack_uints w [] = ok []
pack_uints w (n ∷ ns) = do b ← pack_uint w n; bs ← pack_uints w ns; ok (b ++ bs)

-- `"{k}s"`: cut or filled up with zeros
unfoldable pub pack_bytes : ℕ → Bytes → Bytes
pack_bytes k b = take k (b ++ replicate k 0)

-- MAGIC, b"TLIEWGT\0"
abbrev pub magic : Bytes
magic = codes "TLIEWGT" ++ 0 ∷ []

abbrev pub version : ℕ
version = 1

abbrev pub alignment : ℕ
alignment = 64

-- struct.pack("<8sII32s", MAGIC, VERSION, tensor_count, source_digest)
unfoldable pub pack_header : ℕ → Bytes → Result Bytes
pack_header tensor_count digest = do
  v ← pack_uint 4 version
  c ← pack_uint 4 tensor_count
  ok (pack_bytes 8 magic ++ (v ++ (c ++ pack_bytes 32 digest)))

-- struct.pack("<HBBQ32s", name length, dtype code, rank, byte count, checksum)
unfoldable pub pack_fields : ℕ → ℕ → ℕ → ℕ → Bytes → Result Bytes
pack_fields name_length code rank byte_count checksum = do
  n ← pack_uint 2 name_length
  c ← pack_uint 1 code
  r ← pack_uint 1 rank
  b ← pack_uint 8 byte_count
  ok (n ++ (c ++ (r ++ (b ++ pack_bytes 32 checksum))))

pub length-le_bytes : (w n : ℕ) → length (le_bytes w n) ≡ w
unfolding le_bytes
length-le_bytes zero n = refl
length-le_bytes (suc w) n = ap suc (length-le_bytes w (n / 256))

pub le_value-le_bytes : (w n : ℕ) → n < 256 ^ w → le_value (le_bytes w n) ≡ n
unfolding le_bytes le_value
le_value-le_bytes zero n h = omega arith
le_value-le_bytes (suc w) n h =
    let small : n / 256 < 256 ^ w = omega (arith, pow-suc 256 w) in
    omega (arith, le_value-le_bytes w (n / 256) small)

pub le_bytes-IsByte : (w n : ℕ) → All IsByte (le_bytes w n)
unfolding le_bytes
le_bytes-IsByte zero n = tt
le_bytes-IsByte (suc w) n = (omega arith, le_bytes-IsByte w (n / 256))

pub le_value-lt : (bs : Bytes) → All IsByte bs → le_value bs < 256 ^ length bs
unfolding le_value
le_value-lt [] h = omega arith
le_value-lt (b ∷ bs) h = omega (arith, le_value-lt bs h.1, pow-suc 256 (length bs), h.0)
