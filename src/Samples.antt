-- ===== src/Samples.antt =====
-- Concrete numpy and hashlib stand-ins, so that the tests can run the model.
use tinyllama_inference_engi.Prelude.{
  ℕ, zero, suc, ◌+◌, ◌-◌, ◌*◌, ◌/◌, ◌%◌, ◌^◌, ◌≡◌, refl, true, Option, none, List, [], ◌∷◌, ◌++◌,
  append_assoc, arith, ltb, leb, ◌==◌, all, if◌then◌else◌, ◌&&◌, length, replicate, All,
  length-replicate, Bytes, Text, IsByte, codes,
}
use tinyllama_inference_engi.Prelude.Int.{pos, pos_part, eqb_ℤ}
use tinyllama_inference_engi.Result.{Result, ok, err, value_error}
use tinyllama_inference_engi.Json.Floats.{Floats}
use tinyllama_inference_engi.Format.Numpy.{Numpy, Hash, Dtype, itemsize, prod}

-- An array as its shape and dtype; every byte of it is 7.
abbrev pub Sample : Type 0
Sample = List ℕ × Dtype

pub length-filled :
    (d : Dtype) (a : Sample)
    → length {A = ℕ} (replicate (prod a.0 * itemsize d) 7) ≡ prod a.0 * itemsize d
length-filled d a = length-replicate {A = ℕ} (prod a.0 * itemsize d) 7

abbrev pub sample_numpy : Numpy
sample_numpy = record {
  Array = Sample;
  shape = λ a. a.0;
  dtype = λ a. a.1;
  buffer = λ a. replicate (prod a.0 * itemsize a.1) 7;
  asarray = λ d a. (a.0, d);
  ascontiguous = λ a. a;
  shape-asarray = λ d a. refl;
  length-buffer-asarray = length-filled;
}

-- Not SHA-256, but a function of the bytes with 32 bytes as its result.
unfoldable pub checksum : Bytes → ℕ
checksum [] = 1
checksum (b ∷ bs) = (b + 3 * checksum bs) % 256

unfoldable pub sample_sha256 : Bytes → Bytes
unfolding checksum
sample_sha256 b = replicate 32 (checksum b)

checksum-IsByte : (b : Bytes) → IsByte (checksum b)
unfolding checksum
checksum-IsByte [] = omega arith
checksum-IsByte (b ∷ bs) = omega arith

pub replicate-IsByte : (n v : ℕ) → IsByte v → All IsByte (replicate n v)
replicate-IsByte zero v h = tt
replicate-IsByte (suc n) v h = (h, replicate-IsByte n v h)

pub length-sample_sha256 : (b : Bytes) → length (sample_sha256 b) ≡ 32
unfolding sample_sha256
length-sample_sha256 b = length-replicate 32 (checksum b)

pub sample_sha256-IsByte : (b : Bytes) → All IsByte (sample_sha256 b)
unfolding sample_sha256
sample_sha256-IsByte b = replicate-IsByte 32 (checksum b) (checksum-IsByte b)

abbrev pub sample_hash : Hash
sample_hash = record {
  sha256 = sample_sha256;
  Hasher = Bytes;
  new = [];
  update = λ h b. h ++ b;
  digest = sample_sha256;
  length-sha256 = length-sample_sha256;
  sha256-IsByte = sample_sha256-IsByte;
  digest-new = refl;
  digest-update = λ b. refl;
  update-update = append_assoc;
}

abbrev pub no_files : Text → Option Bytes
no_files p = none

-- 64 hexadecimal digits
abbrev pub sample_sha : Text
sample_sha = codes "6e6001da2106d4757498752a021df6c2bdc332c650aae4bae6b0c004dcf14933"

-- The number that decimal digits write
abbrev digits_value : ℕ → Text → ℕ
digits_value n [] = n
digits_value n (c ∷ t) = digits_value (n * 10 + (c - 48)) t

abbrev decimal_float : Text → Result ℕ
decimal_float t =
    if all (λ c. leb 48 c && leb c 57) t
    then ok (digits_value 0 t)
    else err (value_error "could not convert string to float")

abbrev sample_median : List ℕ → Result ℕ
sample_median [] = err (value_error "no median for empty data")
sample_median (x ∷ xs) = ok x

-- Floats that are natural numbers, with fractions cut off
abbrev pub sample_floats : Floats
sample_floats = record {
  F = ℕ;
  is_finite = λ x. true;
  feq = λ x y. x == y;
  flt = ltb;
  fle = leb;
  feq_int = λ x n. eqb_ℤ (pos x) n;
  of_int = λ n. ok (pos_part n);
  of_text = decimal_float;
  int_of_text = λ t. err (value_error "invalid literal for int()");
  truncate = λ x. ok (pos x);
  add = λ x y. x + y;
  sub = λ x y. x - y;
  mul = λ x y. x * y;
  div = λ x y. x / y;
  ceil = λ x. ok (pos x);
  median = sample_median;
  absolute = λ x. x;
  nan = 0;
  literal = λ n k. n / 10 ^ k;
}
