-- ===== src/Format/Reader/Whole.antt =====
-- Reading back a whole file, and the round trip with the writer.
use tinyllama_inference_engi.Prelude.{
  ℕ, ◌+◌, ◌^◌, ◌<◌, ◌≡◌, refl, sym, false, Option, none, some, List, [], ◌∷◌, ◌++◌, append-nil,
  append_assoc, arith, ltb, leb, le→ltb, length, All, length-append, Bytes, Text, same_refl,
}
use tinyllama_inference_engi.Result.{Result, ok, err, value_error}
use tinyllama_inference_engi.Format.Pack.{le_bytes, le_value, length-le_bytes, magic}
use tinyllama_inference_engi.Format.Hex.{to_hex}
use tinyllama_inference_engi.Format.Numpy.{Hash}
use tinyllama_inference_engi.Format.Layout.{Entry, entry_bytes, entries_bytes, file_bytes}
use tinyllama_inference_engi.Format.Reader.{field, keep, read_tensors, only_logits, read_contents}
use tinyllama_inference_engi.Format.Reader.Fields.{field-at, uint-at}
use tinyllama_inference_engi.Format.Reader.RoundTrip.{IsGolden, read_tensor-entry}

-- The payload of the last entry named "logits".
unfoldable pub last_logits : List Entry → Option Bytes → Option Bytes
last_logits [] logits = logits
last_logits (e ∷ es) logits = last_logits es (keep e.name e.payload logits)

-- What the reader makes of it.
unfoldable pub golden : Option Bytes → Result Bytes
golden none = err (value_error "golden trace has trailing bytes or no logits tensor")
golden (some logits) = ok logits

module _ (hash : Hash) where
  read_tensors-entries :
      (es : List Entry) (pre : Bytes) (acc : Option Bytes)
      → All IsGolden es
      → read_tensors hash (length es) (pre ++ entries_bytes hash (length pre) es) (length pre) acc
        ≡ ok (length (pre ++ entries_bytes hash (length pre) es), last_logits es acc)
  unfolding read_tensors entries_bytes last_logits
  read_tensors-entries [] pre acc h = rw append-nil refl
  read_tensors-entries (e ∷ es) pre acc h =
      let b : Bytes = entry_bytes hash (length pre) e in
      let post : Bytes = entries_bytes hash (length pre + length b) es in
      let split : pre ++ (b ++ post) ≡ (pre ++ b) ++ post = sym (append_assoc pre b post) in
      let len : length (pre ++ b) ≡ length pre + length b = length-append pre b in
      let rest = read_tensors-entries es (pre ++ b) (keep e.name e.payload acc) h.1 in
      rw (read_tensor-entry hash pre e post h.0, split, ← len) rest

  module _ (digest : Bytes) (es : List Entry) (d32 : length digest ≡ 32) where
    abbrev n : Bytes
    n = le_bytes 4 (length es)

    abbrev body : Bytes
    body = entries_bytes hash 48 es

    abbrev whole : Bytes
    whole = file_bytes hash digest es

    length-header : length (magic ++ (le_bytes 4 1 ++ (n ++ digest))) ≡ 48
    length-header =
        rw (length-append {0} (le_bytes 4 1) (n ++ digest), length-append {0} n digest)
          (omega (arith, length-le_bytes 4 1, length-le_bytes 4 (length es), d32))

    at_magic : field whole 0 8 ≡ magic
    unfolding file_bytes
    at_magic =
        let split : whole ≡ [] ++ (magic ++ ((le_bytes 4 1 ++ (n ++ digest)) ++ body)) =
          simp append_assoc in
        rw split (field-at [] magic _ 0 8 refl refl)

    at_version : le_value (field whole 8 4) ≡ 1
    unfolding file_bytes
    at_version =
        let split : whole ≡ magic ++ (le_bytes 4 1 ++ ((n ++ digest) ++ body)) =
          simp append_assoc in
        rw split (uint-at magic _ 4 1 8 refl (omega arith))

    at_count : length es < 256 ^ 4 → le_value (field whole 12 4) ≡ length es
    unfolding file_bytes
    at_count h =
        let split : whole ≡ (magic ++ le_bytes 4 1) ++ (n ++ (digest ++ body)) =
          simp append_assoc in
        rw split (
          uint-at (magic ++ le_bytes 4 1) _ 4 (length es) 12 (omega (arith, length-le_bytes 4 1)) h)

    at_digest : field whole 16 32 ≡ digest
    unfolding file_bytes
    at_digest =
        let split : whole ≡ ((magic ++ le_bytes 4 1) ++ n) ++ (digest ++ body) =
          simp append_assoc in
        rw split (
          field-at ((magic ++ le_bytes 4 1) ++ n) digest body 16 32
            (omega (
              arith,
              length-append {0} (magic ++ le_bytes 4 1) n,
              length-append {0} magic (le_bytes 4 1),
              length-le_bytes 4 1,
              length-le_bytes 4 (length es),
            ))
            (sym d32))

    checked :
        (offset : ℕ) (logits : Option Bytes) (contents : Bytes)
        → offset ≡ length contents
        → only_logits contents offset logits ≡ golden logits
    unfolding only_logits golden
    checked offset none contents h = refl
    checked offset (some logits) contents h = ground arith

    -- A reader given the layout of entries that it supports returns the tensor named "logits".
    pub read_contents-file :
        (sha : Text)
        → to_hex digest ≡ sha
        → All IsGolden es
        → 0 < length es
        → length es < 256 ^ 4
        → read_contents hash sha whole ≡ golden (last_logits es none)
    unfolding read_contents file_bytes
    read_contents-file sha e h few small =
        let header : Bytes = magic ++ (le_bytes 4 1 ++ (n ++ digest)) in
        let run : read_tensors hash (length es) whole 48 none
            ≡ ok (length whole, last_logits es none) =
          rw (← length-header) (read_tensors-entries es header none h) in
        let long : ltb (length whole) 48 ≡ false =
          le→ltb _ _ (omega (arith, length-append {0} header body, length-header)) in
        let count : leb (length es) 0 ≡ false = ground arith in
        rw (long, at_magic, at_version, at_count small, at_digest, e, same_refl sha, count, run)
          (checked (length whole) (last_logits es none) whole refl)
