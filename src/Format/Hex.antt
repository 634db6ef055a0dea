-- ===== src/Format/Hex.antt =====
-- `bytes.fromhex` and `bytes.hex`, as scripts/tlie_format.py and scripts/compare_logits.py use
-- them on the SHA-256 of the source model.
use tinyllama_inference_engi.Prelude.{
  ℕ, ◌+◌, ◌-◌, ◌*◌, ◌/◌, ◌%◌, ◌<◌, ◌≡◌, refl, Bool, true, false, ◌&&◌, ◌||◌, Option, none, some, [],
  ◌∷◌, Bytes, Text, IsByte, All, leb, ltb, ◌==◌, if◌then◌else◌, arith,
}
use tinyllama_inference_engi.Result.{Result, ok, err, value_error, ◌>>=◌, or_raise}

hex_digit : ℕ → Option ℕ
hex_digit c =
    if leb 48 c && leb c 57
    then some (c - 48)
    else if leb 97 c && leb c 102
    then some (c - 87)
    else if leb 65 c && leb c 70
    then some (c - 55)
    else none

is_space : ℕ → Bool
is_space c = c == 32 || (leb 9 c && leb c 13)

hex_byte : ℕ → ℕ → Result ℕ
unfolding hex_digit
hex_byte c d = do
  hi ← or_raise (hex_digit c) (value_error "non-hexadecimal number")
  lo ← or_raise (hex_digit d) (value_error "non-hexadecimal number")
  ok (hi * 16 + lo)

-- White space may stand between two bytes, not inside one.
unfoldable pub from_hex : Text → Result Bytes
unfolding hex_byte is_space
from_hex [] = ok []
from_hex (c ∷ []) = if is_space c then ok [] else err (value_error "non-hexadecimal number")
from_hex (c ∷ d ∷ rest) =
    let skipped = from_hex (d ∷ rest) in
    let decoded : Result Bytes = (do b ← hex_byte c d; bytes ← from_hex rest; ok (b ∷ bytes)) in
    if is_space c then skipped else decoded

hex_char : ℕ → ℕ
hex_char n = if ltb n 10 then n + 48 else n + 87

unfoldable pub to_hex : Bytes → Text
unfolding hex_char
to_hex [] = []
to_hex (b ∷ bs) = hex_char (b / 16) ∷ hex_char (b % 16) ∷ to_hex bs

-- A text of lower-case hexadecimal digits, two for each byte.
abbrev pub IsLowerDigit : ℕ → Type 0
IsLowerDigit c = ((leb 48 c && leb c 57) || (leb 97 c && leb c 102)) ≡ true

abbrev pub IsHexText : Text → Type 0
IsHexText [] = Unit {0}
IsHexText (c ∷ []) = ⊥
IsHexText (c ∷ d ∷ rest) = IsLowerDigit c × IsLowerDigit d × IsHexText rest

byte-chars :
    (b : ℕ)
    → IsByte b
    → (is_space (hex_char (b / 16)) ≡ false)
      × (hex_byte (hex_char (b / 16)) (hex_char (b % 16)) ≡ ok b)
unfolding hex_byte hex_char is_space
byte-chars b h = ground arith

-- Reading the digits of a byte string gives the byte string back.
pub from_hex-to_hex : (bs : Bytes) → All IsByte bs → from_hex (to_hex bs) ≡ ok bs
unfolding from_hex to_hex
from_hex-to_hex [] h = refl
from_hex-to_hex (b ∷ bs) h =
    let (space, byte) = byte-chars b h.0 in rw (space, byte, from_hex-to_hex bs h.1)

chars-byte :
    (c d : ℕ)
    → IsLowerDigit c
    → IsLowerDigit d
    → (b : ℕ) × (is_space c ≡ false)
      × (hex_byte c d ≡ ok b)
      × (hex_char (b / 16) ≡ c)
      × (hex_char (b % 16) ≡ d)
      × (b < 256)
unfolding hex_byte hex_char is_space
chars-byte c d h k =
    let hi : ℕ = (if leb c 57 then c - 48 else c - 87) in
    let lo : ℕ = (if leb d 57 then d - 48 else d - 87) in
    (hi * 16 + lo, ground arith, ground arith, ground arith, ground arith, ground arith)

pub to_hex-from_hex :
    (t : Text) → IsHexText t → (bs : Bytes) × (from_hex t ≡ ok bs) × (to_hex bs ≡ t) × All IsByte bs
unfolding from_hex to_hex
to_hex-from_hex [] h = ([], refl, refl, tt)
to_hex-from_hex (c ∷ []) h = absurd h
to_hex-from_hex (c ∷ d ∷ rest) h =
    let (b, space, byte, high, low, small) = chars-byte c d h.0 h.1 in
    let (bs, read, shown, bytes) = to_hex-from_hex rest h.2 in
    (b ∷ bs, rw (space, byte, read), rw (high, low, shown), (small, bytes))
