-- ===== src/Format/Numpy.antt =====
-- What the scripts use of numpy, hashlib: arrays with their shape and bytes, and SHA-256. Neither
-- is under the repository; each law is what the library documents.
use tinyllama_inference_engi.Prelude.{ℕ, ◌*◌, ◌≡◌, List, [], ◌∷◌, Bytes, IsByte, All, length, ◌++◌}

-- The dtypes that the scripts tell apart: "<f4", "<f2", "i1", and all others.
pub data Dtype : Type 0 where
  float32 float16 int8 other_dtype : Dtype

unfoldable pub itemsize : Dtype → ℕ
itemsize float32 = 4
itemsize float16 = 2
itemsize int8 = 1
itemsize other_dtype = 8

-- `math.prod`
abbrev pub prod : List ℕ → ℕ
prod [] = 1
prod (n ∷ ns) = n * prod ns

pub record Numpy : Type 1 where
  pub Array : Type 0
  pub shape : Array → List ℕ
  pub dtype : Array → Dtype
  -- `memoryview(array).cast("B")`
  pub buffer : Array → Bytes
  -- `np.asarray(a, dtype=d, order="C")` and `np.ascontiguousarray(a)`
  pub asarray : Dtype → Array → Array
  pub ascontiguous : Array → Array
  -- the conversion keeps the shape, and an array in C order has `itemsize` bytes for each element
  pub shape-asarray : (d : Dtype) (a : Array) → shape (asarray d a) ≡ shape a
  pub length-buffer-asarray :
      (d : Dtype) (a : Array) → length (buffer (asarray d a)) ≡ prod (shape a) * itemsize d

pub record Hash : Type 1 where
  -- `hashlib.sha256(b).digest()`
  pub sha256 : Bytes → Bytes
  -- The object that `hashlib.sha256()` returns, its `update` and `digest`.
  pub Hasher : Type 0
  pub new : Hasher
  pub update : Hasher → Bytes → Hasher
  pub digest : Hasher → Bytes
  pub length-sha256 : (b : Bytes) → length (sha256 b) ≡ 32
  pub sha256-IsByte : (b : Bytes) → All IsByte (sha256 b)
  -- "Repeated calls are equivalent to a single call with the concatenation of all the arguments."
  pub digest-new : digest new ≡ sha256 []
  pub digest-update : (b : Bytes) → digest (update new b) ≡ sha256 b
  pub update-update : (h : Hasher) (a b : Bytes) → update (update h a) b ≡ update h (a ++ b)
