-- ===== src/Format/Utf8.antt =====
-- `str.encode("utf-8")` and `bytes.decode("utf-8")`, for the tensor names of
-- scripts/tlie_format.py and scripts/compare_logits.py. Both refuse surrogates.
use tinyllama_inference_engi.Prelude.{
  All, All-append, ◌<◌, ℕ, ◌+◌, ◌-◌, ◌*◌, ◌/◌, ◌%◌, ◌≡◌, Bool, true, false, ◌&&◌, [], ◌∷◌, ◌++◌,
  Bytes, Text, leb, ltb, ◌==◌, if◌then◌else◌, arith,
}
use tinyllama_inference_engi.Result.{Result, ok, err, unicode_error, ◌>>=◌, >>=-eq-ok}

is_surrogate : ℕ → Bool
is_surrogate c = leb 0xd800 c && leb c 0xdfff

abbrev refused : {A : Type 0} → Result A
refused = err (unicode_error "utf-8")

encode_char : ℕ → Result Bytes
unfolding is_surrogate
encode_char c =
    if ltb c 0x80
    then ok (c ∷ [])
    else if ltb c 0x800
    then ok ((0xc0 + c / 64) ∷ (0x80 + c % 64) ∷ [])
    else if is_surrogate c
    then refused
    else if ltb c 0x10000
    then ok ((0xe0 + c / 4096) ∷ (0x80 + c / 64 % 64) ∷ (0x80 + c % 64) ∷ [])
    else if ltb c 0x110000
    then ok
        ((0xf0 + c / 262144) ∷ (0x80 + c / 4096 % 64) ∷ (0x80 + c / 64 % 64) ∷ (0x80 + c % 64) ∷ [])
    else refused

unfoldable pub encode : Text → Result Bytes
unfolding encode_char
encode [] = ok []
encode (c ∷ t) = do bytes ← encode_char c; rest ← encode t; ok (bytes ++ rest)

-- The continuation bytes still to come, the bits so far, and the least code point of this length.
record Pending : Type 0 where
  need : ℕ
  bits : ℕ
  least : ℕ

abbrev start : Pending
start = record { need = 0; bits = 0; least = 0 }

lead : ℕ → Result (Text × Pending)
lead b =
    if ltb b 0x80
    then ok (b ∷ [], start)
    else if leb 0xc2 b && leb b 0xdf
    then ok ([], record { need = 1; bits = b - 0xc0; least = 0x80 })
    else if leb 0xe0 b && leb b 0xef
    then ok ([], record { need = 2; bits = b - 0xe0; least = 0x800 })
    else if leb 0xf0 b && leb b 0xf4
    then ok ([], record { need = 3; bits = b - 0xf0; least = 0x10000 })
    else refused

finish : ℕ → ℕ → Result (Text × Pending)
unfolding is_surrogate
finish c least =
    if leb least c && ltb c 0x110000 && (if is_surrogate c then false else true)
    then ok (c ∷ [], start)
    else refused

step : Pending → ℕ → Result (Text × Pending)
unfolding lead finish
step p b =
    if p.need == 0
    then lead b
    else if leb 0x80 b && leb b 0xbf
    then (if p.need == 1
        then finish (p.bits * 64 + (b - 0x80)) p.least
        else ok ([], record p { need = p.need - 1; bits = p.bits * 64 + (b - 0x80) }))
    else refused

decode_loop : Pending → Bytes → Result Text
unfolding step
decode_loop p [] = if p.need == 0 then ok [] else refused
decode_loop p (b ∷ bs) = do (out, p') ← step p b; t ← decode_loop p' bs; ok (out ++ t)

unfoldable pub decode : Bytes → Result Text
unfolding decode_loop
decode = decode_loop start

decode-encode_char :
    (c : ℕ) (bytes rest : Bytes) (t : Text)
    → encode_char c ≡ ok bytes
    → decode_loop start rest ≡ ok t
    → decode_loop start (bytes ++ rest) ≡ ok (c ∷ t)
unfolding encode_char decode_loop
decode-encode_char c bytes rest t e h = ground arith

-- Whatever can be encoded is decoded to the same text.
pub decode-encode : (t : Text) (bytes : Bytes) → encode t ≡ ok bytes → decode bytes ≡ ok t
unfolding encode decode
decode-encode [] bytes e = ground arith
decode-encode (c ∷ t) bytes e =
    let (head, hc, e') = >>=-eq-ok (encode_char c) _ e in
    let (rest, hr, e'') = >>=-eq-ok (encode t) _ e' in
    let eq : head ++ rest ≡ bytes = ground arith in
    rw (← eq) (decode-encode_char c head rest t hc (decode-encode t rest hr))

encode_char-nonzero :
    (c : ℕ) (bytes : Bytes) → 0 < c → encode_char c ≡ ok bytes → All (λ b. 0 < b) bytes
unfolding encode_char
encode_char-nonzero c bytes p e = ground arith

-- A text without NUL has an encoding without NUL.
pub encode-nonzero :
    (t : Text) (bytes : Bytes) → All (λ c. 0 < c) t → encode t ≡ ok bytes → All (λ b. 0 < b) bytes
unfolding encode
encode-nonzero [] bytes h e = ground arith
encode-nonzero (c ∷ t) bytes h e =
    let (head, hc, e') = >>=-eq-ok (encode_char c) _ e in
    let (rest, hr, e'') = >>=-eq-ok (encode t) _ e' in
    let eq : head ++ rest ≡ bytes = ground arith in
    rw (← eq)
      (All-append _ head rest (encode_char-nonzero c head h.0 hc) (encode-nonzero t rest h.1 hr))
